-- ===== src/Admin/Browse/Records/Stored.antt =====
-- When a change of an admin's ACL takes effect.
use stra2us.Prelude.{
  ℕ, Text, Bytes, Bool, List, [], ◌∷◌, Option, none, some, ◌≡◌, ◌≢◌, refl, ap, sym, ◌∙◌,
  text_eq_refl, true, false, not, if◌then◌else◌, codes,
}
use stra2us.Result.{ok, http}
use stra2us.Builtins.{encode, strip}
use stra2us.Value.{Value, obj, field, str, end}
use stra2us.Redis.{Redis}
use stra2us.Exec.{guard, modify, pure, ◌>>◌, lift-eq-ok}
use stra2us.Device.{Libraries, stored}
use stra2us.Backup.Restore.{admin_key}
use stra2us.Admin.{
  AdminContext, acl_with, load_admin_acl, get_admin_context, loaded_or_denied,
  require_admin_superuser, rescue_acl, deny_all, is_member,
}
use stra2us.Admin.Credentials.{permissions_of_update, is_blank}
use stra2us.Admin.Browse.Records.{update_admin_user_acl, delete_admin_user_acl}

module _ (lib : Libraries) (r : Redis) (rescue_users : List Text) (username : Option Text)
    (dumps : Value → Text) where
  abbrev pub row_of : List (Text × Text) → Bytes
  row_of permissions = encode (dumps (acl_with (permissions_of_update permissions)))

  abbrev answer_of : Text → List (Text × Text) → Value
  answer_of user permissions = obj (
      field (codes "status") (str (codes "ok")) (
        field (codes "username") (str user)
          (field (codes "acl") (acl_with (permissions_of_update permissions)) end)))

  written_lem :
      (user : Text) (permissions : List (Text × Text)) (named : Bool) (s t : r.State)
      (answer : Value)
      → (guard named (http 400)
            >> (modify (r.set (admin_key user) (row_of permissions))
                >> pure (answer_of user permissions)))
          s
        ≡ (ok answer, t)
      → t ≡ r.set (admin_key user) (row_of permissions) s
  written_lem user permissions true s t answer h = ap (λ x. x.1) (sym h)
  written_lem user permissions false s t answer h = cc

  updated_state :
      (user : Text) (permissions : List (Text × Text)) (s t : r.State) (answer : Value)
      → update_admin_user_acl lib r rescue_users username dumps user permissions s ≡ (ok answer, t)
      → t ≡ r.set (admin_key user) (row_of permissions) s
  unfolding update_admin_user_acl
  updated_state user permissions s t answer h =
      let (_, allowed, h1) =
        lift-eq-ok (require_admin_superuser r lib.loads rescue_users username s) _ s t h in
      written_lem user permissions (not (is_blank (strip user))) s t answer h1

  deleted_state :
      (user : Text) (s t : r.State) (answer : Value)
      → delete_admin_user_acl lib r rescue_users username user s ≡ (ok answer, t)
      → t ≡ r.delete (admin_key user) s
  unfolding delete_admin_user_acl
  deleted_state user s t answer h =
      let (_, allowed, h1) =
        lift-eq-ok (require_admin_superuser r lib.loads rescue_users username s) _ s t h in
      cc

  stored-some : (raw : Bytes) → raw ≢ [] → stored (some raw) ≡ some raw
  stored-some [] h = absurd (h refl)
  stored-some (b ∷ bs) h = refl

  abbrev pub context_of : Text → Value → AdminContext
  context_of user acl = record { client_id = user; acl = acl }

  -- What an admin without a row gets.
  abbrev pub default_acl : Text → Value
  default_acl user = if is_member user rescue_users then rescue_acl else deny_all

  -- Where JSON reads back the row that it wrote: after update_admin_user_acl succeeded, the next
  -- request of that admin gets the new ACL, and after delete_admin_user_acl succeeded on top of
  -- it, the rescue ACL if the admin is a rescue user, and an empty one otherwise.
  pub get_admin_context-update_admin_user_acl :
      (c : ℕ) (name : Text) (permissions : List (Text × Text)) (s t u : r.State)
      (answer answer' : Value)
      → update_admin_user_acl lib r rescue_users username dumps (c ∷ name) permissions s
        ≡ (ok answer, t)
      → delete_admin_user_acl lib r rescue_users username (c ∷ name) t ≡ (ok answer', u)
      → row_of permissions ≢ []
      → lib.loads (row_of permissions) ≡ some (acl_with (permissions_of_update permissions))
      → (get_admin_context r lib.loads rescue_users (some (c ∷ name)) t
          ≡ ok (context_of (c ∷ name) (acl_with (permissions_of_update permissions))))
        × (get_admin_context r lib.loads rescue_users (some (c ∷ name)) u
            ≡ ok (context_of (c ∷ name) (default_acl (c ∷ name))))
  unfolding get_admin_context load_admin_acl
  get_admin_context-update_admin_user_acl c name permissions s t u answer answer' h k nonempty
        reads =
      let user = c ∷ name in
      let written : r.get (admin_key user) t ≡ some (row_of permissions) =
        rw (updated_state user permissions s t answer h) (
          r.get-set (admin_key user) (admin_key user) (row_of permissions) s
          ∙ rw (text_eq_refl (admin_key user)) refl) in
      let gone : r.get (admin_key user) u ≡ none = rw (deleted_state user t u answer' k) (
        r.get-delete (admin_key user) (admin_key user) t
        ∙ rw (text_eq_refl (admin_key user)) refl) in
      let at_t : stored (r.get (admin_key user) t) ≡ some (row_of permissions) =
        ap stored written ∙ stored-some (row_of permissions) nonempty in
      let at_u : stored (r.get (admin_key user) u) ≡ none = ap stored gone in
      let acl_of = load_admin_acl lib.loads rescue_users user in
      (
        ap (λ o. ok (context_of user (acl_of o))) at_t
            ∙ ap (λ o. ok (context_of user (loaded_or_denied o))) reads,
        ap (λ o. ok (context_of user (acl_of o))) at_u,
      )
