-- ===== src/Backup/Format.antt =====
-- What from_json makes of what to_json wrote.
use stra2us.Prelude.{
  ◌<◌, Text, Bytes, codes, Bool, true, false, List, [], ◌∷◌, Option, none, some, ◌≡◌, refl, sym, ap,
  ◌⊎◌, inl, inr, All, text_eq, ◌&&◌, not,
}
use stra2us.Result.{Result, ok}
use stra2us.Builtins.{b64encode}
use stra2us.Builtins.Base64.{b64decode-b64encode}
use stra2us.Value.{
  Value, Fields, null, bool, str, obj, end, field, elems, array, items, object, find,
}
use stra2us.Redis.{Entry}
use stra2us.Backup.{
  ClientRecord, KvRecord, BackupEnvelope, map_values, map_list, traverse, traverse_values, dict,
  stream_to_json, kv_to_json, client_to_json, stream_list, log_to_json, data_to_json, to_json,
  truthy, or_else, items_of, as_dict, b64_bytes, str_of, stream_from_json, client_from_json,
  admin_from_json, kv_from_json, queue_from_json, log_from_json, section, from_json, is_version,
  dump_kind_of, is_str,
}

abbrev pub IsBytes : Bytes → Type 0
IsBytes = All (λ b. b < 256)

abbrev pub IsDict : Value → Type 0
IsDict v = (fs : Fields) × (v ≡ obj fs)

-- The values of every field are bytes.
abbrev pub IsEntry : Entry → Type 0
IsEntry e = All (λ (p : Text × Bytes). IsBytes p.1) e.fields

abbrev pub IsLog : Option (List Entry) → Type 0
IsLog none = Unit
IsLog (some es) = All IsEntry es

-- The envelopes that the collectors build: one of the two kinds, a dump for an app with its name,
-- ACLs that are dicts, and bytes where the format has base64.
pub record IsEnvelope (env : BackupEnvelope) : Type 0 where
  pub kind :
      (env.dump_kind ≡ codes "whole")
      ⊎ ((env.dump_kind ≡ codes "per-app") × (is_str env.app ≡ true))
  pub exported : truthy env.exported_at ≡ true
  pub clients : All (λ (p : Text × ClientRecord). IsDict p.1.acl) env.clients
  pub admin_acls : All (λ (p : Text × Value). IsDict p.1) env.admin_acls
  pub kv : All (λ (p : Text × KvRecord). IsBytes p.1.value) env.kv
  pub queues : All (λ (p : Text × List Entry). All IsEntry p.1) env.queues
  pub activity_log : IsLog env.activity_log

items-object : (kvs : List (Text × Value)) → items (object kvs) ≡ kvs
items-object [] = refl
items-object ((k, v) ∷ kvs) = ap (λ l. (k, v) ∷ l) (items-object kvs)

elems-array : (vs : List Value) → elems (array vs) ≡ vs
elems-array [] = refl
elems-array (v ∷ vs) = ap (λ l. v ∷ l) (elems-array vs)

-- A section or a list that is decoded item by item.
module _ {ℓ κ} {A : Type ℓ} (P : A → Type κ) (f : A → Value) (g : Value → Result A)
    (undo : (a : A) → P a → g (f a) ≡ ok a) where
  traverse_values-map_values :
      (xs : List (Text × A)) → All (λ p. P p.1) xs → traverse_values g (map_values f xs) ≡ ok xs
  traverse_values-map_values [] _ = refl
  traverse_values-map_values ((k, a) ∷ xs) (h, hs) =
      rw (undo a h, traverse_values-map_values xs hs) refl

  traverse-map_list : (xs : List A) → All P xs → traverse g (map_list f xs) ≡ ok xs
  traverse-map_list [] _ = refl
  traverse-map_list (a ∷ xs) (h, hs) = rw (undo a h, traverse-map_list xs hs) refl

or_else-dict : (kvs : List (Text × Value)) → items_of (or_else (some (dict kvs)) (obj end)) ≡ ok kvs
unfolding items_of or_else truthy
or_else-dict [] = refl
or_else-dict ((k, v) ∷ kvs) = ap (λ l. ok ((k, v) ∷ l)) (items-object kvs)

or_else-IsDict : (v : Value) → IsDict v → or_else (some v) (obj end) ≡ v
unfolding or_else truthy
or_else-IsDict (obj end) _ = refl
or_else-IsDict (obj (field k v fs)) _ = refl
or_else-IsDict null (fs, e) = cc
or_else-IsDict _ (fs, e) = cc

or_else-truthy : (v d : Value) → truthy v ≡ true → or_else (some v) d ≡ v
unfolding or_else
or_else-truthy v d h = rw h refl

b64_bytes-b64encode : (v : Bytes) → IsBytes v → b64_bytes (str (b64encode v)) ≡ ok v
unfolding b64_bytes
b64_bytes-b64encode v h = rw (b64decode-b64encode v h, b64_bytes) refl

admin_from_json-IsDict : (v : Value) → IsDict v → admin_from_json v ≡ ok v
unfolding admin_from_json
admin_from_json-IsDict v (fs, e) = rw e refl

truthy_or_false : (b : Bool) → truthy (or_else (some (bool b)) (bool false)) ≡ b
unfolding truthy or_else
truthy_or_false true = refl
truthy_or_false false = refl

kv_from_json-kv_to_json :
    (rec : KvRecord) → IsBytes rec.value → kv_from_json (kv_to_json rec) ≡ ok rec
unfolding kv_from_json truthy or_else text_eq
kv_from_json-kv_to_json rec h =
    rw (b64_bytes-b64encode rec.value h)
      (ap (λ b. ok (record { value = rec.value; encrypted = b })) (truthy_or_false rec.encrypted))

module _ (repr : Value → Text) where
  stream_from_json-stream_to_json :
      (e : Entry) → IsEntry e → stream_from_json repr (stream_to_json e) ≡ ok e
  unfolding stream_from_json stream_to_json text_eq
  stream_from_json-stream_to_json e h =
      rw (items-object (map_values (λ v. str (b64encode v)) e.fields)) (
        rw
          (traverse_values-map_values IsBytes (λ v. str (b64encode v)) b64_bytes b64_bytes-b64encode
            e.fields h)
          refl)

  client_from_json-client_to_json :
      (c : ClientRecord) → IsDict c.acl → client_from_json repr (client_to_json c) ≡ ok c
  unfolding client_from_json text_eq
  client_from_json-client_to_json c h = rw (or_else-IsDict c.acl h) refl

  queue_from_json-stream_list :
      (es : List Entry) → All IsEntry es → queue_from_json repr (stream_list es) ≡ ok es
  unfolding queue_from_json
  queue_from_json-stream_list es h = rw (elems-array (map_list stream_to_json es)) (
      traverse-map_list IsEntry stream_to_json (stream_from_json repr)
        stream_from_json-stream_to_json es h)

  log_from_json-log_to_json :
      (o : Option (List Entry)) → IsLog o → log_from_json repr (some (log_to_json o)) ≡ ok o
  unfolding log_from_json
  log_from_json-log_to_json none _ = refl
  log_from_json-log_to_json (some es) h = rw (queue_from_json-stream_list es h) refl

section_lem {κ} :
    {A : Type 0} (P : A → Type κ) (f : A → Value) (g : Value → Result A)
    → ((a : A) → P a → g (f a) ≡ ok a)
    → (name : Text) (sections : List (Text × Value)) (xs : List (Text × A))
    → find name sections ≡ some (dict (map_values f xs))
    → All (λ p. P p.1) xs
    → section g name sections ≡ ok xs
unfolding section
section_lem P f g undo name sections xs h all =
    rw (h, or_else-dict (map_values f xs)) (traverse_values-map_values P f g undo xs all)

map_values-id : (xs : List (Text × Value)) → map_values (λ v. v) xs ≡ xs
map_values-id [] = refl
map_values-id ((k, v) ∷ xs) = ap (λ l. (k, v) ∷ l) (map_values-id xs)

All-Unit : {A : Type 0} (xs : List (Text × A)) → All (λ _. Unit {0}) xs
All-Unit [] = tt
All-Unit (x ∷ xs) = (tt, All-Unit xs)

dump_kind_ok :
    (env : BackupEnvelope)
    → IsEnvelope env
    → (dump_kind_of (some (str env.dump_kind)) ≡ ok env.dump_kind)
      × ((text_eq env.dump_kind (codes "per-app") && not (is_str env.app)) ≡ false)
unfolding text_eq
dump_kind_ok env h = elim (h.kind) [
  | inl whole ↦ (rw whole refl, rw whole refl)
  | inr (per_app, named) ↦ (rw per_app refl, rw (per_app, named) refl)
]

-- Of a well-formed envelope, from_json reads back from the JSON that to_json wrote the very
-- envelope: every record, the values byte for byte.
pub from_json-to_json :
    (repr : Value → Text) (env : BackupEnvelope)
    → IsEnvelope env
    → from_json repr (to_json env) ≡ ok env
unfolding from_json to_json data_to_json as_dict is_version text_eq
from_json-to_json repr env h =
    let (kind, named) = dump_kind_ok env h in
    let sections = items (
      object (
        (codes "clients", dict (map_values client_to_json env.clients))
        ∷ (codes "admin_acls", dict env.admin_acls)
        ∷ (codes "kv", dict (map_values kv_to_json env.kv))
        ∷ (codes "queues", dict (map_values stream_list env.queues))
        ∷ (codes "activity_log", log_to_json env.activity_log)
        ∷ (codes "device_to_app", dict (map_values (λ t. str t) env.device_to_app))
        ∷ [])) in
    let clients : section (client_from_json repr) (codes "clients") sections ≡ ok env.clients =
      section_lem (λ (c : ClientRecord). IsDict c.acl) client_to_json (client_from_json repr)
        (client_from_json-client_to_json repr) (codes "clients") sections env.clients refl
        h.clients in
    let admins : section admin_from_json (codes "admin_acls") sections ≡ ok env.admin_acls =
      section_lem IsDict (λ v. v) admin_from_json admin_from_json-IsDict (codes "admin_acls")
        sections env.admin_acls (ap (λ l. some (dict l)) (sym (map_values-id env.admin_acls)))
        h.admin_acls in
    let kvs : section kv_from_json (codes "kv") sections ≡ ok env.kv =
      section_lem (λ (c : KvRecord). IsBytes c.value) kv_to_json kv_from_json
        kv_from_json-kv_to_json (codes "kv") sections env.kv refl h.kv in
    let queues : section (queue_from_json repr) (codes "queues") sections ≡ ok env.queues =
      section_lem (All IsEntry) stream_list (queue_from_json repr)
        (queue_from_json-stream_list repr) (codes "queues") sections env.queues refl h.queues in
    let devices : section (λ v. ok (str_of repr v)) (codes "device_to_app") sections
        ≡ ok env.device_to_app =
      section_lem (λ _. Unit {0}) (λ t. str t) (λ v. ok (str_of repr v))
        (λ t _. unfold str_of in refl) (codes "device_to_app") sections env.device_to_app refl
        (All-Unit env.device_to_app) in
    let log = log_from_json-log_to_json repr env.activity_log h.activity_log in
    rw kind (
      rw named (
        rw clients (
          rw admins (
            rw kvs (
              rw queues (
                rw log
                  (rw devices (rw (or_else-truthy env.exported_at (str []) h.exported) refl))))))))
