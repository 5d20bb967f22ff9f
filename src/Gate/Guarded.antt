-- ===== src/Gate/Guarded.antt =====
-- The admin paths, whatever else they hold.
use stra2us.Prelude.{Text, codes, true, false, ◌++◌, ◌≡◌, refl, text_eq, starts_with}
use stra2us.Gate.{path_needs_admin_auth}

-- Every path that begins with `/admin`, but for `/admin/logout`, or with `/api/admin` needs an
-- admin session, and every path that begins with `/oauth/` or `/app/_static/` is open, whatever
-- follows.
pub path_needs_admin_auth-append :
    (rest : Text)
    → (text_eq (codes "/admin" ++ rest) (codes "/admin/logout") ≡ false)
    → (path_needs_admin_auth (codes "/admin" ++ rest) ≡ true)
      × (path_needs_admin_auth (codes "/api/admin" ++ rest) ≡ true)
      × (path_needs_admin_auth (codes "/oauth/" ++ rest) ≡ false)
      × (path_needs_admin_auth (codes "/app/_static/" ++ rest) ≡ false)
unfolding path_needs_admin_auth starts_with text_eq
path_needs_admin_auth-append rest h = (rw h refl, refl, refl, refl)
