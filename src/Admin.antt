-- ===== src/Admin.antt =====
-- The admin side: load_admin_acl and the require_admin functions of
-- backend/src/api/dependencies.py, and the client credentials of backend/src/api/routes_admin.py.
-- `rescue_users` is RESCUE_USERS of the configuration; `loads` and `dumps` are json's.
pub mod Denial
pub mod Credentials
pub mod Provisioning
pub mod Browse
mod Tests
use stra2us.Prelude.{
  ℕ, Text, Bytes, codes, Bool, true, false, List, [], ◌∷◌, ◌++◌, Option, none, some, not, ◌||◌, any,
  text_eq, occurs_in, if◌then◌else◌,
}
use stra2us.Result.{Result, Checked, ok, err, http, ◌>>=◌, ◌>>◌}
use stra2us.Builtins.{encode, strip}
use stra2us.Value.{Value, null, bool, str, arr, obj, nil, cons, field, end, array, Values}
use stra2us.Redis.{Redis}
use stra2us.Acl.{Mode, check_acl, require_superuser}
use stra2us.Device.{secret_key, acl_key, stored, is_some}
use stra2us.Backup.Restore.{admin_key, device_app_key}

abbrev pub permission : Text → Text → Value
permission prefix access =
    obj (field (codes "prefix") (str prefix) (field (codes "access") (str access) end))

abbrev pub acl_with : List Value → Value
acl_with permissions = obj (field (codes "permissions") (arr (array permissions)) end)

-- _RESCUE_ACL
abbrev pub rescue_acl : Value
rescue_acl = acl_with (permission (codes "*") (codes "rw") ∷ [])

-- An ACL that lets nothing through.
abbrev pub deny_all : Value
deny_all = acl_with []

abbrev pub loaded_or_denied : Option Value → Value
loaded_or_denied none = deny_all
loaded_or_denied (some acl) = acl

abbrev pub is_member : Text → List Text → Bool
is_member name names = any (text_eq name) names

-- The ACL that the stored record and the rescue list give an admin.
unfoldable pub load_admin_acl : (Bytes → Option Value) → List Text → Text → Option Bytes → Value
load_admin_acl loads rescue_users username (some raw) = loaded_or_denied (loads raw)
load_admin_acl loads rescue_users username none =
    if is_member username rescue_users then rescue_acl else deny_all

pub record AdminContext : Type 0 where
  pub client_id : Text
  pub acl : Value

module _ (r : Redis) (loads : Bytes → Option Value) (rescue_users : List Text) where
  -- `username` is what the session middleware left in the request's state.
  unfoldable pub get_admin_context : Option Text → r.State → Result AdminContext
  unfolding load_admin_acl
  get_admin_context none s = err (http 401)
  get_admin_context (some []) s = err (http 401)
  get_admin_context (some (c ∷ username)) s = ok (record {
    client_id = c ∷ username;
    acl =
        load_admin_acl loads rescue_users (c ∷ username)
          (stored (r.get (admin_key (c ∷ username)) s));
  })

  unfoldable pub require_admin_kv : Mode → Text → Option Text → r.State → Result AdminContext
  unfolding get_admin_context
  require_admin_kv mode key username s = do
    ctx ← get_admin_context username s
    check_acl ctx.acl (codes "kv/" ++ key) mode
    ok ctx

  unfoldable pub require_admin_queue : Mode → Text → Option Text → r.State → Result AdminContext
  unfolding get_admin_context
  require_admin_queue mode topic username s = do
    ctx ← get_admin_context username s
    check_acl ctx.acl (codes "q/" ++ topic) mode
    ok ctx

  unfoldable pub require_admin_superuser : Option Text → r.State → Result AdminContext
  unfolding get_admin_context
  require_admin_superuser username s = do
    ctx ← get_admin_context username s
    require_superuser ctx.acl
    ok ctx
