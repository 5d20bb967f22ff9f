-- ===== src/Backup/Restore.antt =====
-- apply_envelope of backend/src/services/backup_io.py: a backup written back to Redis, section by
-- section. `dumps` is json.dumps.
pub mod Frame
pub mod Existing
use stra2us.Prelude.{
  ℕ, Text, Bytes, codes, Bool, true, false, List, [], ◌∷◌, ◌++◌, Option, none, some, not, ◌||◌,
  ◌&&◌, text_eq, if◌then◌else◌, length,
}
use stra2us.Result.{Failure, Result, Checked, ok, err, http, fault}
use stra2us.Builtins.{encode}
use stra2us.Value.{Value}
use stra2us.Redis.{Redis, Entry}
use stra2us.Exec.{Exec, pure, raise, lift, gets, modify, ◌>>=◌, ◌>>◌}
use stra2us.Device.{secret_key, acl_key, kv_key, enc_key, queue_key, stored, is_some}
use stra2us.Backup.{
  ClientRecord, KvRecord, BackupEnvelope, client_matches_app, admin_acl_matches_app,
  kv_key_belongs_to_app, queue_topic_belongs_to_app,
}

-- What became of the items of a section.
pub record Section : Type 0 where
  pub restored : List Text
  pub skipped : List Text
  pub overwritten : List Text

pub record LogOutcome : Type 0 where
  pub restored : ℕ
  pub skipped : Bool
  pub overwritten : Bool

pub record Outcome : Type 0 where
  pub clients : Section
  pub admin_acls : Section
  pub kv : Section
  pub queues : Section
  pub device_to_app : Section
  pub activity_log : LogOutcome
  pub rejected_outside_app_filter : List Text

abbrev pub new_section : Section
new_section = record { restored = []; skipped = []; overwritten = [] }

-- _new_result
abbrev pub new_result : Outcome
new_result = record {
  clients = new_section;
  admin_acls = new_section;
  kv = new_section;
  queues = new_section;
  device_to_app = new_section;
  activity_log = record { restored = 0; skipped = false; overwritten = false };
  rejected_outside_app_filter = [];
}

abbrev pub skip : Text → Section → Section
skip name sec = record sec { skipped = sec.skipped ++ name ∷ [] }

-- `(result[...]["overwritten" if existing else "restored"]).append(name)`
abbrev pub done : Bool → Text → Section → Section
done existing name sec =
    if existing
    then record sec { overwritten = sec.overwritten ++ name ∷ [] }
    else record sec { restored = sec.restored ++ name ∷ [] }

abbrev pub reject : Text → Outcome → Outcome
reject name o = record o {
  rejected_outside_app_filter = o.rejected_outside_app_filter ++ name ∷ [];
}

-- `app_filter and not belongs(app_filter)`: an empty filter is none.
unfoldable pub outside : Option Text → (Text → Result Bool) → Result Bool
outside none belongs = ok false
outside (some []) belongs = ok false
outside (some (c ∷ app)) belongs = elim (belongs (c ∷ app)) [ err e ↦ err e | ok b ↦ ok (not b) ]

-- A loop that carries the outcome along.
abbrev pub for_each {ℓ} : {A : Type ℓ} {S O : Type 0} → (A → O → Exec S O) → List A → O → Exec S O
for_each step [] o = pure o
for_each step (a ∷ more) o = step a o >>= for_each step more

abbrev pub admin_key : Text → Text
admin_key user = codes "admin_acls:" ++ user

abbrev pub device_app_key : Text → Text
device_app_key client_id = codes "device_to_app:" ++ client_id

abbrev pub activity_log_key : Text
activity_log_key = codes "system:activity_log"

-- What the loop of a section does with one item: its name in the report, whether it is refused,
-- whether it is there, how it is written, and how the outcome records it.
pub record Item (r : Redis) : Type 0 where
  pub name : Text
  pub refused : Result Bool
  pub present : r.State → Bool
  pub write : Bool → Exec r.State (Unit {0})
  pub skipped : Outcome → Outcome
  pub written : Bool → Outcome → Outcome

module _ (r : Redis) where
  -- The body of the loop: the item is refused, skipped or written.
  unfoldable pub restore_item : Bool → Item r → Outcome → Exec r.State Outcome
  restore_item force_overwrite item o = do
    out ← lift (item.refused)
    (if out then pure (reject item.name o) else (do
      existing ← gets (item.present)
      (if existing && not force_overwrite
          then pure (item.skipped o)
          else (do item.write existing; pure (item.written existing o)))))

  module _ (dumps : Value → Text) (force_overwrite : Bool) (app_filter : Option Text) where
    abbrev pub client_item : Text × ClientRecord → Item r
    client_item (cid, rec) = record {
      name = codes "client:" ++ cid;
      refused = outside app_filter (client_matches_app rec.acl);
      present = λ s. is_some (stored (r.get (secret_key cid) s));
      write = λ _. modify (λ s.
          r.set (acl_key cid) (encode (dumps rec.acl))
            (r.set (secret_key cid) (encode rec.secret) s));
      skipped = λ o. record o { clients = skip cid o.clients };
      written = λ existing o. record o { clients = done existing cid o.clients };
    }

    unfoldable pub restore_client : Text × ClientRecord → Outcome → Exec r.State Outcome
    restore_client item = restore_item force_overwrite (client_item item)

    abbrev pub admin_acl_item : Text × Value → Item r
    admin_acl_item (user, acl) = record {
      name = codes "admin_acls:" ++ user;
      refused = outside app_filter (admin_acl_matches_app acl);
      present = λ s. is_some (stored (r.get (admin_key user) s));
      write = λ _. modify (r.set (admin_key user) (encode (dumps acl)));
      skipped = λ o. record o { admin_acls = skip user o.admin_acls };
      written = λ existing o. record o { admin_acls = done existing user o.admin_acls };
    }

    unfoldable pub restore_admin_acl : Text × Value → Outcome → Exec r.State Outcome
    restore_admin_acl item = restore_item force_overwrite (admin_acl_item item)

  module _ (force_overwrite : Bool) (app_filter : Option Text) where
    -- The value, and the flag beside it set or cleared.
    unfoldable pub write_record : Text → KvRecord → r.State → r.State
    write_record key rec s =
        let t = r.set (kv_key key) rec.value s in
        if rec.encrypted then r.set (enc_key key) (codes "1") t else r.delete (enc_key key) t

    abbrev pub kv_item : Text × KvRecord → Item r
    kv_item (key, rec) = record {
      name = codes "kv:" ++ key;
      refused = outside app_filter (λ app. ok (kv_key_belongs_to_app key app));
      present = r.exists (kv_key key);
      write = λ _. modify (write_record key rec);
      skipped = λ o. record o { kv = skip key o.kv };
      written = λ existing o. record o { kv = done existing key o.kv };
    }

    unfoldable pub restore_kv : Text × KvRecord → Outcome → Exec r.State Outcome
    restore_kv item = restore_item force_overwrite (kv_item item)

    -- XADD of the entries with their own ids; the library raises where Redis refuses one.
    unfoldable pub add_entries : Text → List Entry → Exec r.State (Unit {0})
    add_entries key [] s = (ok tt, s)
    add_entries key (e ∷ es) s = elim (r.xadd_at key e s) [
      | none ↦ (err fault, s)
      | some t ↦ add_entries key es t
    ]

    -- The stream is deleted first if it is there.
    unfoldable pub replace_stream : Text → List Entry → Bool → Exec r.State (Unit {0})
    unfolding add_entries
    replace_stream key entries existed s =
        add_entries key entries (if existed then r.delete key s else s)

    abbrev pub queue_item : Text × List Entry → Item r
    queue_item (topic, entries) = record {
      name = codes "q:" ++ topic;
      refused = outside app_filter (λ app. ok (queue_topic_belongs_to_app topic app));
      present = r.exists (queue_key topic);
      write = replace_stream (queue_key topic) entries;
      skipped = λ o. record o { queues = skip topic o.queues };
      written = λ existed o. record o { queues = done existed topic o.queues };
    }

    unfoldable pub restore_queue : Text × List Entry → Outcome → Exec r.State Outcome
    restore_queue item = restore_item force_overwrite (queue_item item)

    abbrev pub device_item : Text × Text → Item r
    device_item (cid, app_val) = record {
      name = codes "device_to_app:" ++ cid;
      refused = outside app_filter (λ app. ok (text_eq app_val app));
      present = λ s. is_some (stored (r.get (device_app_key cid) s));
      write = λ _. modify (r.set (device_app_key cid) (encode app_val));
      skipped = λ o. record o { device_to_app = skip cid o.device_to_app };
      written = λ existing o. record o { device_to_app = done existing cid o.device_to_app };
    }

    unfoldable pub restore_device : Text × Text → Outcome → Exec r.State Outcome
    restore_device item = restore_item force_overwrite (device_item item)

    unfoldable pub restore_log : Option (List Entry) → Outcome → Exec r.State Outcome
    restore_log none o = pure o
    restore_log (some entries) o = do
      existed ← gets (r.exists activity_log_key)
      (if existed && not force_overwrite
          then pure (record o { activity_log = record o.activity_log { skipped = true } })
          else (do
            replace_stream activity_log_key entries existed
            pure (record o {
              activity_log = record {
                restored = length entries;
                skipped = o.activity_log.skipped;
                overwritten = existed || o.activity_log.overwritten;
              };
            })))

    unfoldable pub apply_envelope : (Value → Text) → BackupEnvelope → Exec r.State Outcome
    apply_envelope dumps env =
        for_each (restore_client dumps force_overwrite app_filter) env.clients new_result
        >>= for_each (restore_admin_acl dumps force_overwrite app_filter) env.admin_acls
        >>= for_each restore_kv env.kv
        >>= for_each restore_queue env.queues
        >>= for_each restore_device env.device_to_app
        >>= restore_log env.activity_log
