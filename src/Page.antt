-- ===== src/Page.antt =====
-- The customer pages of backend/src/services: the values that a form shows, the theme's style sheet,
-- and the cache of rendered texts.
pub mod Values
pub mod Theme
pub mod Blocks
pub mod Widgets
mod Tests
