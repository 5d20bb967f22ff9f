-- ===== src/Admin/Browse/Records.antt =====
-- The routes of backend/src/api/routes_admin.py for single records, queues and ACL rows. `json` is
-- `json.loads` of a text.
pub mod Stored
use stra2us.Prelude.{
  ℕ, Text, Bytes, codes, Bool, true, false, List, [], ◌∷◌, ◌++◌, Option, none, some, not, text_eq,
  starts_with, after, if◌then◌else◌,
}
use stra2us.Result.{Result, ok, err, http, fault}
use stra2us.Builtins.{encode, hexdigest, strip}
use stra2us.Value.{Value, null, bool, str, obj, field, end}
use stra2us.Redis.{Redis, Entry}
use stra2us.Exec.{Exec, pure, lift, gets, modify, guard, ◌>>=◌, ◌>>◌}
use stra2us.Acl.{read, write}
use stra2us.Device.{Libraries, kv_key, enc_key, queue_key, stored, is_some}
use stra2us.Device.Kv.{store_kv}
use stra2us.Backup.Restore.{admin_key}
use stra2us.Session.Passwords.{cut}
use stra2us.Admin.{acl_with, require_admin_kv, require_admin_queue, require_admin_superuser}
use stra2us.Admin.Credentials.{permissions_of_update, is_blank}

abbrev pub answer_ok : Value
answer_ok = obj (field (codes "status") (str (codes "ok")) end)

abbrev pub answer_empty : Value
answer_empty = obj (field (codes "status") (str (codes "empty")) (field (codes "message") null end))

abbrev pub message_or : Option Value → Value
message_or none = str (codes "unparseable_msgpack")
message_or (some v) = v

-- The answer of a peek: the message, its bytes, and what else there is.
abbrev pub peeked : Option Value → Bytes → Value
peeked message raw = obj (
    field (codes "status") (str (codes "ok")) (
      field (codes "message") (message_or message) (field (codes "hex") (str (hexdigest raw)) end)))

abbrev pub peeked_kv : Option Value → Bytes → Bool → Value
peeked_kv message raw encrypted = obj (
    field (codes "status") (str (codes "ok")) (
      field (codes "message") (message_or message) (
        field (codes "hex") (str (hexdigest raw))
          (field (codes "encrypted") (bool encrypted) end))))

-- `fields[b"payload"]`, which raises twice where it is missing.
abbrev pub payload_of : List (Text × Bytes) → Result Bytes
payload_of [] = err fault
payload_of ((k, v) ∷ fields) =
    let rest = payload_of fields in if text_eq k (codes "payload") then ok v else rest

abbrev pub peek_first : (Bytes → Option Value) → List Entry → Result Value
peek_first unpackb [] = ok answer_empty
peek_first unpackb (e ∷ _) = elim (payload_of e.fields) [
  | err f ↦ err f
  | ok payload ↦ ok (peeked (unpackb payload) payload)
]

-- `json.loads(payload.value)`, or the text itself.
abbrev pub parsed_or_text : (Text → Option Value) → Text → Value
parsed_or_text json value = elim (json value) [ some data' ↦ data' | none ↦ str value ]

module _ (lib : Libraries) (r : Redis) (rescue_users : List Text) (username : Option Text) where
  unfoldable pub peek_queue : Text → Exec r.State Value
  unfolding hexdigest
  peek_queue topic = do
    allowed ← gets (require_admin_queue r lib.loads rescue_users read topic username)
    _ ← lift allowed
    messages ← gets (r.entries (queue_key topic))
    lift (peek_first lib.unpackb messages)

  unfoldable pub peek_kv : Text → Exec r.State Value
  unfolding hexdigest
  peek_kv key = do
    allowed ← gets (require_admin_kv r lib.loads rescue_users read key username)
    _ ← lift allowed
    msg ← gets (r.get (kv_key key))
    flag ← gets (r.get (enc_key key))
    (elim (stored msg) [
      | none ↦ pure answer_empty
      | some raw ↦ pure (peeked_kv (lib.unpackb raw) raw (is_some (stored flag)))
    ])

  unfoldable pub set_kv : (Text → Option Value) → Text → Text → Bool → Exec r.State Value
  unfolding store_kv
  set_kv json key value encrypted = do
    allowed ← gets (require_admin_kv r lib.loads rescue_users write key username)
    _ ← lift allowed
    modify (store_kv r key (lib.packb (parsed_or_text json value)) encrypted)
    pure answer_ok

  unfoldable pub admin_delete_kv : Text → Exec r.State Value
  admin_delete_kv key = do
    allowed ← gets (require_admin_kv r lib.loads rescue_users write key username)
    _ ← lift allowed
    modify (λ s. r.delete (enc_key key) (r.delete (kv_key key) s))
    pure answer_ok

  unfoldable pub delete_queue : Text → Exec r.State Value
  delete_queue topic = do
    allowed ← gets (require_admin_queue r lib.loads rescue_users write topic username)
    _ ← lift allowed
    modify (r.delete (queue_key topic))
    pure answer_ok

  -- The ACL row of an admin, replaced by these permissions.
  unfoldable pub update_admin_user_acl :
      (Value → Text) → Text → List (Text × Text) → Exec r.State Value
  unfolding strip
  update_admin_user_acl dumps user permissions = do
    allowed ← gets (require_admin_superuser r lib.loads rescue_users username)
    _ ← lift allowed
    guard (not (is_blank (strip user))) (http 400)
    modify (r.set (admin_key user) (encode (dumps (acl_with (permissions_of_update permissions)))))
    pure (
        obj (
          field (codes "status") (str (codes "ok")) (
            field (codes "username") (str user)
              (field (codes "acl") (acl_with (permissions_of_update permissions)) end))))

  unfoldable pub delete_admin_user_acl : Text → Exec r.State Value
  delete_admin_user_acl user = do
    allowed ← gets (require_admin_superuser r lib.loads rescue_users username)
    _ ← lift allowed
    deleted ← gets (r.exists (admin_key user))
    modify (r.delete (admin_key user))
    pure (
        obj (
          field (codes "status") (str (codes "ok"))
            (field (codes "username") (str user) (field (codes "deleted") (bool deleted) end))))

-- _log_resource_from_action: what an entry of the activity log is about.
unfoldable pub log_resource_from_action : Text → Option Text
unfolding cut starts_with
log_resource_from_action action = elim (cut b' ' action) [
  | none ↦ none
  | some (_, path) ↦
      if starts_with (codes "/q/") path
      then some (codes "q/" ++ after (codes "/q/") path)
      else if starts_with (codes "/kv/") path
      then some (codes "kv/" ++ after (codes "/kv/") path)
      else none
]

-- _read_htpasswd_users
unfoldable pub htpasswd_users : List Text → List Text
unfolding cut strip
htpasswd_users [] = []
htpasswd_users (line ∷ lines) =
    let rest = htpasswd_users lines in
    elim (cut b':' (strip line)) [ none ↦ rest | some (user, _) ↦ user ∷ rest ]
