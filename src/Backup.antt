-- ===== src/Backup.antt =====
-- backend/src/services/backup_format.py: the backup envelope, and which keys belong to an app. A
-- BackupFormatError, which the caller answers with 400, is `http 400`.
pub mod Format
pub mod Restore
mod Tests
use stra2us.Prelude.{
  Text, Bytes, codes, Bool, true, false, List, [], ◌∷◌, ◌++◌, Option, none, some, not, ◌||◌, ◌&&◌,
  ℤ, pos, eqℤ, text_eq, starts_with, if◌then◌else◌,
}
use stra2us.Result.{Result, Checked, ok, err, http, fault, guard, ◌>>=◌, ◌>>◌}
use stra2us.Builtins.{b64encode, b64decode, str_int}
use stra2us.Value.{
  Value, Values, Fields, null, bool, int, float, str, bin, arr, obj, ext, nil, cons, field, end,
  elems, array, items, object, find, get, iterate,
}
use stra2us.Redis.{Entry}

pub record ClientRecord : Type 0 where
  pub secret : Text
  pub acl : Value

pub record KvRecord : Type 0 where
  pub value : Bytes
  pub encrypted : Bool

pub record BackupEnvelope : Type 0 where
  pub dump_kind : Text
  pub app : Value
  pub exported_at : Value
  pub clients : List (Text × ClientRecord)
  pub admin_acls : List (Text × Value)
  pub kv : List (Text × KvRecord)
  pub queues : List (Text × List Entry)
  pub activity_log : Option (List Entry)
  pub device_to_app : List (Text × Text)

-- A comprehension over a dict's values.
abbrev pub map_values {ℓ κ} :
    {A : Type ℓ} {B : Type κ} → (A → B) → List (Text × A) → List (Text × B)
map_values f [] = []
map_values f ((k, a) ∷ xs) = (k, f a) ∷ map_values f xs

-- A loop over a list or a dict's values that may raise.
abbrev pub traverse {ℓ κ} : {A : Type ℓ} {B : Type κ} → (A → Result B) → List A → Result (List B)
traverse f [] = ok []
traverse f (a ∷ xs) = f a >>= λ b. traverse f xs >>= λ bs. ok (b ∷ bs)

abbrev pub traverse_values {ℓ κ} :
    {A : Type ℓ} {B : Type κ} → (A → Result B) → List (Text × A) → Result (List (Text × B))
traverse_values f [] = ok []
traverse_values f ((k, a) ∷ xs) = f a >>= λ b. traverse_values f xs >>= λ bs. ok ((k, b) ∷ bs)

abbrev pub map_list {ℓ κ} : {A : Type ℓ} {B : Type κ} → (A → B) → List A → List B
map_list f [] = []
map_list f (a ∷ xs) = f a ∷ map_list f xs

abbrev pub dict : List (Text × Value) → Value
dict kvs = obj (object kvs)

unfoldable pub stream_to_json : Entry → Value
stream_to_json e = dict (
    (codes "id", str e.id)
    ∷ (codes "fields", dict (map_values (λ v. str (b64encode v)) e.fields))
    ∷ [])

abbrev pub kv_to_json : KvRecord → Value
kv_to_json rec =
    dict ((codes "value", str (b64encode rec.value)) ∷ (codes "encrypted", bool rec.encrypted) ∷ [])

abbrev pub client_to_json : ClientRecord → Value
client_to_json rec = dict ((codes "secret", str rec.secret) ∷ (codes "acl", rec.acl) ∷ [])

abbrev pub stream_list : List Entry → Value
stream_list es = arr (array (map_list stream_to_json es))

abbrev pub log_to_json : Option (List Entry) → Value
log_to_json none = null
log_to_json (some es) = stream_list es

unfoldable pub data_to_json : BackupEnvelope → Value
unfolding stream_to_json
data_to_json env = dict (
    (codes "clients", dict (map_values client_to_json env.clients))
    ∷ (codes "admin_acls", dict env.admin_acls)
    ∷ (codes "kv", dict (map_values kv_to_json env.kv))
    ∷ (codes "queues", dict (map_values stream_list env.queues))
    ∷ (codes "activity_log", log_to_json env.activity_log)
    ∷ (codes "device_to_app", dict (map_values (λ t. str t) env.device_to_app))
    ∷ [])

unfoldable pub to_json : BackupEnvelope → Value
unfolding data_to_json
to_json env = dict (
    (codes "stra2us_backup_version", int (pos 1))
    ∷ (codes "dump_kind", str env.dump_kind)
    ∷ (codes "app", env.app)
    ∷ (codes "exported_at", env.exported_at)
    ∷ (codes "data", data_to_json env)
    ∷ [])

-- `bool(v)`
unfoldable pub truthy : Value → Bool
truthy null = false
truthy (bool b) = b
truthy (int z) = not (eqℤ z (pos 0))
truthy (float t) = not (text_eq t (codes "0.0") || text_eq t (codes "-0.0"))
truthy (str []) = false
truthy (str (_ ∷ _)) = true
truthy (bin []) = false
truthy (bin (_ ∷ _)) = true
truthy (ext _ _) = true
truthy (arr nil) = false
truthy (arr (cons _ _)) = true
truthy (obj end) = false
truthy (obj (field _ _ _)) = true

-- `d.get(k) or default`
unfoldable pub or_else : Option Value → Value → Value
unfolding truthy
or_else none d = d
or_else (some v) d = if truthy v then v else d

-- `v.items()`, which only a dict has.
unfoldable pub items_of : Value → Result (List (Text × Value))
items_of (obj fs) = ok (items fs)
items_of _ = err fault

-- The number 1, a bool or a float too, as `==` sees it.
unfoldable pub is_version : Option Value → Bool
is_version (some (int z)) = eqℤ z (pos 1)
is_version (some (bool b)) = b
is_version (some (float t)) = text_eq t (codes "1.0")
is_version _ = false

-- The fields of what has to be a dict.
unfoldable pub as_dict : Option Value → Result (List (Text × Value))
as_dict (some (obj fs)) = ok (items fs)
as_dict _ = err (http 400)

unfoldable pub as_list : Option Value → Result (List Value)
as_list (some (arr vs)) = ok (elems vs)
as_list _ = err (http 400)

-- `if name not in raw`
abbrev pub required : Option Value → Result Value
required none = err (http 400)
required (some v) = ok v

-- _b64decode
unfoldable pub b64_bytes : Value → Result Bytes
b64_bytes (str t) = elim (b64decode t) [ none ↦ err (http 400) | some bs ↦ ok bs ]
b64_bytes _ = err (http 400)

abbrev pub dump_kind_of : Option Value → Result Text
dump_kind_of (some (str k)) =
    if text_eq k (codes "whole") || text_eq k (codes "per-app") then ok k else err (http 400)
dump_kind_of _ = err (http 400)

-- `doc.get(name)`: None if it is missing.
abbrev pub or_none : Option Value → Value
or_none none = null
or_none (some v) = v

abbrev pub is_str : Value → Bool
is_str (str _) = true
is_str _ = false

unfoldable pub admin_from_json : Value → Result Value
unfolding as_dict
admin_from_json acl = as_dict (some acl) >>= λ _. ok acl

unfoldable pub kv_from_json : Value → Result KvRecord
unfolding as_dict b64_bytes or_else truthy
kv_from_json raw = do
  entry ← as_dict (some raw)
  coded ← required (find (codes "value") entry)
  value ← b64_bytes coded
  ok (record {
    value = value;
    encrypted = truthy (or_else (find (codes "encrypted") entry) (bool false));
  })

-- One section: its dict, or nothing, item by item.
unfoldable pub section {ℓ} :
    {A : Type ℓ} → (Value → Result A) → Text → List (Text × Value) → Result (List (Text × A))
unfolding or_else items_of
section f name sections = do
  entries ← items_of (or_else (find name sections) (obj end))
  traverse_values f entries

-- `repr` gives the texts of the containers, which `str(v)` needs.
module _ (repr : Value → Text) where
  unfoldable pub str_of : Value → Text
  str_of (str t) = t
  str_of (int z) = str_int z
  str_of v = repr v

  unfoldable pub stream_from_json : Value → Result Entry
  unfolding str_of as_dict b64_bytes
  stream_from_json raw = do
    entry ← as_dict (some raw)
    id ← required (find (codes "id") entry)
    fields_raw ← required (find (codes "fields") entry)
    named ← as_dict (some fields_raw)
    fields ← traverse_values b64_bytes named
    ok (record { id = str_of id; fields = fields })

  unfoldable pub client_from_json : Value → Result ClientRecord
  unfolding str_of as_dict or_else
  client_from_json raw = do
    entry ← as_dict (some raw)
    secret ← required (find (codes "secret") entry)
    ok (record { secret = str_of secret; acl = or_else (find (codes "acl") entry) (obj end) })

  unfoldable pub queue_from_json : Value → Result (List Entry)
  unfolding as_list stream_from_json
  queue_from_json entries = do listed ← as_list (some entries); traverse stream_from_json listed

  unfoldable pub log_from_json : Option Value → Result (Option (List Entry))
  unfolding queue_from_json
  log_from_json none = ok none
  log_from_json (some null) = ok none
  log_from_json (some raw_log) = queue_from_json raw_log >>= λ es. ok (some es)

  unfoldable pub from_json : Value → Result BackupEnvelope
  unfolding as_dict is_version section client_from_json admin_from_json kv_from_json queue_from_json
      log_from_json or_else
  from_json raw = do
    doc ← as_dict (some raw)
    guard (is_version (find (codes "stra2us_backup_version") doc)) (http 400)
    kind ← dump_kind_of (find (codes "dump_kind") doc)
    guard (not (text_eq kind (codes "per-app") && not (is_str (or_none (find (codes "app") doc)))))
        (http 400)
    sections ← as_dict (find (codes "data") doc)
    clients ← section client_from_json (codes "clients") sections
    admin_acls ← section admin_from_json (codes "admin_acls") sections
    kv ← section kv_from_json (codes "kv") sections
    queues ← section queue_from_json (codes "queues") sections
    activity_log ← log_from_json (find (codes "activity_log") sections)
    device_to_app ← section (λ v. ok (str_of v)) (codes "device_to_app") sections
    ok (record {
      dump_kind = kind;
      app = or_none (find (codes "app") doc);
      exported_at = or_else (find (codes "exported_at") doc) (str []);
      clients = clients;
      admin_acls = admin_acls;
      kv = kv;
      queues = queues;
      activity_log = activity_log;
      device_to_app = device_to_app;
    })

-- `key == app or key.startswith(f"{app}/")`
abbrev pub is_under : Text → Text → Bool
is_under app key = text_eq key app || starts_with (app ++ codes "/") key

unfoldable pub kv_key_belongs_to_app : Text → Text → Bool
kv_key_belongs_to_app kv_key app =
    is_under app kv_key
    || text_eq kv_key (codes "_catalog/" ++ app)
    || starts_with ((codes "_catalog/" ++ app) ++ codes "/") kv_key

unfoldable pub queue_topic_belongs_to_app : Text → Text → Bool
queue_topic_belongs_to_app topic app = is_under app topic

-- The prefix `perm.get("prefix") or ""` against the app; `startswith` raises unless it is a text.
unfoldable pub perm_matches_app : Text → Value → Result Bool
perm_matches_app app (str prefix) = ok (is_under app prefix)
perm_matches_app app _ = err fault

-- The loop over the permissions.
unfoldable pub any_matches_app : Text → List Value → Result Bool
unfolding perm_matches_app get or_else
any_matches_app app [] = ok false
any_matches_app app (perm ∷ perms) =
    let rest = any_matches_app app perms in
    do
      prefix ← get (codes "prefix") perm
      hit ← perm_matches_app app (or_else prefix (str []))
      if hit then ok true else rest

unfoldable pub client_matches_app : Value → Text → Result Bool
unfolding any_matches_app get or_else iterate
client_matches_app acl app = do
  permissions ← get (codes "permissions") acl
  perms ← iterate (or_else permissions (arr nil))
  any_matches_app app perms

unfoldable pub admin_acl_matches_app : Value → Text → Result Bool
admin_acl_matches_app acl app = client_matches_app acl app
