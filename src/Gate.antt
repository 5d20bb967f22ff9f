-- ===== src/Gate.antt =====
-- _path_needs_admin_auth of backend/src/main.py: which paths the middleware guards.
pub mod Guarded
pub mod Origin
pub mod Middleware
mod Tests
use stra2us.Prelude.{
  Text, codes, Bool, true, false, ◌||◌, ◌&&◌, text_eq, starts_with, ends_with, occurs_in,
  if◌then◌else◌,
}

unfoldable pub path_needs_admin_auth : Text → Bool
path_needs_admin_auth path =
    if starts_with (codes "/oauth/") path
    then false
    else if text_eq path (codes "/admin/logout")
    then false
    else if starts_with (codes "/admin") path || starts_with (codes "/api/admin") path
    then true
    else if starts_with (codes "/app/_static/") path
    then false
    else if occurs_in (codes "/_assets/") path && starts_with (codes "/app/") path
    then false
    else if starts_with (codes "/app/") path && ends_with (codes "/_theme.css") path
    then false
    else if text_eq path (codes "/app") || text_eq path (codes "/app/")
    then true
    else if text_eq path (codes "/api/app/lookup_device")
    then true
    else if starts_with (codes "/api/app/") path
    then false
    else if text_eq path (codes "/api/_csp_report")
    then false
    else starts_with (codes "/app/") path
