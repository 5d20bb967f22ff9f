-- ===== src/Admin/Credentials.antt =====
-- The client credentials of backend/src/api/routes_admin.py: creating, provisioning and revoking
-- devices, and editing their ACLs. `secret` is what generate_secret draws.
use stra2us.Prelude.{
  Text, Bytes, codes, Bool, true, false, List, [], ◌∷◌, ◌++◌, Option, none, some, not, ◌||◌,
  text_eq, occurs_in, if◌then◌else◌,
}
use stra2us.Result.{http}
use stra2us.Builtins.{encode, strip}
use stra2us.Value.{Value, null, bool, str, obj, field, end}
use stra2us.Redis.{Redis}
use stra2us.Exec.{Exec, pure, lift, gets, modify, guard, ◌>>=◌, ◌>>◌}
use stra2us.Device.{secret_key, acl_key, stored, is_some}
use stra2us.Backup.Restore.{device_app_key}
use stra2us.Admin.{permission, acl_with, deny_all, require_admin_superuser}

-- RESERVED_CLIENT_IDS
abbrev pub is_reserved : Text → Bool
is_reserved client_id = text_eq client_id (codes "public")

abbrev pub is_blank : Text → Bool
is_blank [] = true
is_blank (_ ∷ _) = false

-- The permissions of a device: its own namespace and the shared one.
abbrev pub device_acl : Text → Text → Value
device_acl app client_id = acl_with (
    permission (app ++ codes "/" ++ client_id) (codes "rw")
    ∷ permission (app ++ codes "/public") (codes "rw")
    ∷ [])

abbrev pub str_or_null : Option Text → Value
str_or_null none = null
str_or_null (some t) = str t

abbrev pub permissions_of_update : List (Text × Text) → List Value
permissions_of_update [] = []
permissions_of_update ((prefix, access) ∷ more) =
    permission prefix access ∷ permissions_of_update more

module _ (r : Redis) (loads : Bytes → Option Value) (rescue_users : List Text) where
  module _ (dumps : Value → Text) (username : Option Text) where
    unfoldable pub create_client : Text → Text → Exec r.State Value
    create_client client_id secret = do
      allowed ← gets (require_admin_superuser r loads rescue_users username)
      _ ← lift allowed
      guard (not (is_reserved client_id)) (http 400)
      modify (r.set (secret_key client_id) (encode secret))
      modify (r.set (acl_key client_id) (encode (dumps deny_all)))
      pure (
          obj (
            field (codes "client_id") (str client_id)
              (field (codes "secret") (str secret) (field (codes "acl") deny_all end))))

    -- The writes of provision_device, and its answer.
    unfoldable pub write_device : Text → Text → Text → Exec r.State Value
    write_device app client_id secret = do
      existing_secret ← gets (r.get (secret_key client_id))
      let created = not (is_some existing_secret)
      modify (λ s. if created then r.set (secret_key client_id) (encode secret) s else s)
      modify (r.set (acl_key client_id) (encode (dumps (device_acl app client_id))))
      modify (r.set (device_app_key client_id) (encode app))
      pure (
          obj (
            field (codes "client_id") (str client_id) (
              field (codes "secret") (str_or_null (if created then some secret else none)) (
                field (codes "acl") (device_acl app client_id)
                  (field (codes "created") (bool created) end)))))

    unfoldable pub provision_device : Text → Text → Text → Exec r.State Value
    provision_device app client_id secret = do
      allowed ← gets (require_admin_superuser r loads rescue_users username)
      _ ← lift allowed
      guard (not (is_reserved client_id)) (http 400)
      guard (not (is_blank (strip client_id))) (http 400)
      guard (not (is_blank (strip app))) (http 400)
      guard (not (occurs_in (codes "/") app || occurs_in (codes "/") client_id)) (http 400)
      write_device app client_id secret

    unfoldable pub update_acl : Text → List (Text × Text) → Exec r.State Value
    update_acl client_id permissions = do
      allowed ← gets (require_admin_superuser r loads rescue_users username)
      _ ← lift allowed
      existing ← gets (r.get (secret_key client_id))
      guard (is_some (stored existing)) (http 404)
      modify (
          r.set (acl_key client_id) (encode (dumps (acl_with (permissions_of_update permissions)))))
      pure (
          obj (
            field (codes "status") (str (codes "ok")) (
              field (codes "client_id") (str client_id)
                (field (codes "acl") (acl_with (permissions_of_update permissions)) end))))

    unfoldable pub revoke_client : Text → Exec r.State Value
    revoke_client client_id = do
      allowed ← gets (require_admin_superuser r loads rescue_users username)
      _ ← lift allowed
      modify (r.delete (secret_key client_id))
      modify (r.delete (acl_key client_id))
      modify (r.delete (device_app_key client_id))
      pure (obj (field (codes "status") (str (codes "ok")) end))
