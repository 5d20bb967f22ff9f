-- ===== src/Backup/Tests.antt =====
-- Examples of backups and restores.
use stra2us.Prelude.{
  ℕ, Text, Bytes, codes, true, false, List, [], ◌∷◌, ◌++◌, Option, none, some, ◌≡◌, refl, ◌↔◌, inl,
  inr, arith, All, text_eq,
}
use stra2us.Result.{ok}
use stra2us.Value.{Value, str}
use stra2us.Redis.{Entry}
use stra2us.Redis.Memory.{memory, empty, Store}
use stra2us.Device.{kv_key, enc_key}
use stra2us.Backup.{ClientRecord, KvRecord, BackupEnvelope, to_json, from_json}
use stra2us.Backup.Format.{IsEnvelope, from_json-to_json}
use stra2us.Backup.Restore.{new_result, for_each, restore_kv, apply_envelope}
use stra2us.Backup.Restore.Frame.{Spares, apply_envelope-get}
use stra2us.Backup.Restore.Existing.{restore_kv_existing}
use stra2us.Fixtures.{reader_acl}

abbrev entry : Entry
entry = record { id = codes "1-0"; fields = (codes "payload", 200 ∷ []) ∷ [] }

abbrev envelope : BackupEnvelope
envelope = record {
  dump_kind = codes "per-app";
  app = str (codes "app");
  exported_at = str (codes "2026-05-14T10:23:45Z");
  clients = (codes "dev", record { secret = codes "00ff"; acl = reader_acl }) ∷ [];
  admin_acls = [];
  kv = (codes "app/x", record { value = 1 ∷ 2 ∷ 255 ∷ []; encrypted = true }) ∷ [];
  queues = (codes "app/t", entry ∷ []) ∷ [];
  activity_log = none;
  device_to_app = (codes "dev", codes "app") ∷ [];
}

envelope-IsEnvelope : IsEnvelope envelope
unfolding stra2us.Backup.truthy
envelope-IsEnvelope = record {
  kind = inr (refl, refl);
  exported = refl;
  clients = ((_, refl), tt);
  admin_acls = tt;
  kv = ground arith;
  queues = ground arith;
  activity_log = tt;
}

from_json-to_json_example : from_json (λ _. []) (to_json envelope) ≡ ok envelope
from_json-to_json_example = from_json-to_json (λ _. []) envelope envelope-IsEnvelope

abbrev dumps : Value → Text
dumps _ = codes "{}"

envelope-Spares : Spares (some (codes "app")) envelope (kv_key (codes "other/x"))
unfolding stra2us.Prelude.text_eq
envelope-Spares = record {
  clients = (λ _. (refl, refl), tt);
  admin_acls = tt;
  kv = (λ _. (refl, refl), tt);
  queues = (λ _. refl, tt);
  device_to_app = (λ _. refl, tt);
  activity_log = refl;
}

abbrev holding : Store
holding = memory.set (kv_key (codes "other/x")) (7 ∷ []) empty

apply_envelope-get_example :
    memory.get
      (kv_key (codes "other/x"))
      (apply_envelope memory true (some (codes "app")) dumps envelope holding).1
    ≡ memory.get (kv_key (codes "other/x")) holding
apply_envelope-get_example =
    apply_envelope-get memory dumps true (some (codes "app")) envelope (kv_key (codes "other/x"))
      holding envelope-Spares

abbrev changed : Store
changed = memory.set (kv_key (codes "app/x")) (9 ∷ []) empty

exists-changed : memory.exists (kv_key (codes "app/x")) changed ≡ true
unfolding text_eq
exists-changed = refl

apart-changed :
    All
      (λ (p : Text × KvRecord). text_eq (enc_key p.0) (kv_key (codes "app/x")) ≡ false)
      envelope.kv
unfolding text_eq
apart-changed = (refl, tt)

restore_kv_existing_example :
    memory.get
      (kv_key (codes "app/x"))
      (for_each (restore_kv memory false none) envelope.kv new_result changed).1
    ≡ memory.get (kv_key (codes "app/x")) changed
restore_kv_existing_example =
    restore_kv_existing memory none envelope.kv (codes "app/x") new_result changed exists-changed
      apart-changed
