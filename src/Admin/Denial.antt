-- ===== src/Admin/Denial.antt =====
-- Admins without an ACL.
use stra2us.Prelude.{
  ℕ, Text, Bytes, codes, true, false, List, [], ◌∷◌, ◌++◌, Option, none, some, ◌≡◌, refl, sym, ap,
  ◌∙◌, arith, ◌⊎◌, inl, inr,
}
use stra2us.Result.{err, http}
use stra2us.Value.{Value}
use stra2us.Redis.{Redis}
use stra2us.Acl.{Mode, check_acl, require_superuser}
use stra2us.Device.{stored}
use stra2us.Admin.{
  admin_key, is_member, deny_all, load_admin_acl, get_admin_context, require_admin_kv,
  require_admin_queue, require_admin_superuser,
}

check_acl-deny_all :
    (resource : Text) (mode : Mode) → check_acl deny_all resource mode ≡ err (http 403)
unfolding check_acl stra2us.Prelude.text_eq
check_acl-deny_all resource mode = refl

require_superuser-deny_all : require_superuser deny_all ≡ err (http 403)
unfolding require_superuser stra2us.Prelude.text_eq
require_superuser-deny_all = refl

module _ (r : Redis) (loads : Bytes → Option Value) (rescue_users : List Text) where
  -- The admin has no record and is no rescue user, or has a record that is not JSON.
  abbrev pub HasNoAcl : Text → r.State → Type 0
  HasNoAcl username s =
      ((stored (r.get (admin_key username) s) ≡ none) × (is_member username rescue_users ≡ false))
      ⊎ ((raw : Bytes) × (stored (r.get (admin_key username) s) ≡ some raw) × (loads raw ≡ none))

  denied :
      (username : Text) (s : r.State)
      → HasNoAcl username s
      → load_admin_acl loads rescue_users username (stored (r.get (admin_key username) s))
        ≡ deny_all
  unfolding load_admin_acl
  denied username s (inl (missing, other)) = rw (missing, other) refl
  denied username s (inr (raw, found, bad)) = rw (found, bad) refl

  -- A signed-in admin whose ACL record is missing, without being a rescue user, or whose record is
  -- not JSON, rescue user or not, is refused every key, every topic and every superuser route.
  pub require_admin_denied :
      (c : ℕ) (name : Text) (s : r.State) (mode : Mode) (resource : Text)
      → HasNoAcl (c ∷ name) s
      → (require_admin_kv r loads rescue_users mode resource (some (c ∷ name)) s ≡ err (http 403))
        × (require_admin_queue r loads rescue_users mode resource (some (c ∷ name)) s
            ≡ err (http 403))
        × (require_admin_superuser r loads rescue_users (some (c ∷ name)) s ≡ err (http 403))
  unfolding require_admin_kv require_admin_queue require_admin_superuser get_admin_context
  require_admin_denied c name s mode resource h =
      let acl = denied (c ∷ name) s h in
      (
        rw (acl, check_acl-deny_all (codes "kv/" ++ resource) mode) refl,
        rw (acl, check_acl-deny_all (codes "q/" ++ resource) mode) refl,
        rw (acl, require_superuser-deny_all) refl,
      )
