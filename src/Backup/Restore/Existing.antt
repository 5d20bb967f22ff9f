-- ===== src/Backup/Restore/Existing.antt =====
-- A restore that is not forced, of keys that are there already.
use stra2us.Prelude.{
  Text, Bytes, codes, true, false, List, Option, ◌≡◌, refl, ap, ◌∙◌, arith, text_eq, text_eq_iff,
  All, Bool-cases, inl, inr,
}
use stra2us.Redis.{Redis}
use stra2us.Device.{kv_key, enc_key}
use stra2us.Backup.{KvRecord}
use stra2us.Backup.Restore.{Outcome, for_each, write_record, kv_item, restore_kv}
use stra2us.Backup.Restore.Frame.{for_each_keeps, restore_item_keeps}

module _ (r : Redis) (k : Text) (v : Option Bytes) where
  -- The key is there, with the value `v`.
  abbrev Stands : r.State → Type 0
  Stands s = (r.exists (kv_key k) s ≡ true) × (r.get (kv_key k) s ≡ v)

  write_record-Stands :
      (app_filter : Option Text) (key : Text) (rec : KvRecord) (s : r.State)
      → text_eq (kv_key key) (kv_key k) ≡ false
      → text_eq (enc_key key) (kv_key k) ≡ false
      → Stands s
      → Stands (write_record r false app_filter key rec s)
  unfolding write_record
  write_record-Stands app_filter key rec s a b (there, value) =
      let t = r.set (kv_key key) rec.value s in
      let there' : r.exists (kv_key k) t ≡ true =
        r.exists-set (kv_key key) (kv_key k) rec.value s ∙ rw a there in
      let value' : r.get (kv_key k) t ≡ v =
        r.get-set (kv_key key) (kv_key k) rec.value s ∙ rw a value in
      elim (Bool-cases rec.encrypted) [
        | inl secret ↦ rw secret (
          r.exists-set (enc_key key) (kv_key k) (codes "1") t ∙ rw b there',
          r.get-set (enc_key key) (kv_key k) (codes "1") t ∙ rw b value',
        )
        | inr plain ↦ rw plain (
          r.exists-delete (enc_key key) (kv_key k) t ∙ rw b there',
          r.get-delete (enc_key key) (kv_key k) t ∙ rw b value',
        )
      ]

  restore_kv-Stands :
      (app_filter : Option Text) (key : Text) (rec : KvRecord) (o : Outcome) (s : r.State)
      → text_eq (enc_key key) (kv_key k) ≡ false
      → Stands s
      → Stands (restore_kv r false app_filter (key, rec) o s).1
  unfolding restore_kv
  restore_kv-Stands app_filter key rec o s apart h =
      restore_item_keeps r false (kv_item r false app_filter (key, rec)) Stands o s h (λ _ free.
        elim (Bool-cases (text_eq (kv_key key) (kv_key k))) [
          | inl same ↦
              let e = (text_eq_iff (kv_key key) (kv_key k)).0 same in
              absurd (ground (arith, free, ap (λ x. r.exists x s) e, h.0))
          | inr other ↦ write_record-Stands app_filter key rec s other apart h
        ])

-- Without force a restore of the kv section keeps the value of a key that is there and is not the
-- flag of a key in the section.
pub restore_kv_existing :
    (r : Redis) (app_filter : Option Text) (kvs : List (Text × KvRecord)) (k : Text) (o : Outcome)
    (s : r.State)
    → r.exists (kv_key k) s ≡ true
    → All (λ (p : Text × KvRecord). text_eq (enc_key p.0) (kv_key k) ≡ false) kvs
    → r.get (kv_key k) (for_each (restore_kv r false app_filter) kvs o s).1 ≡ r.get (kv_key k) s
restore_kv_existing r app_filter kvs k o s there apart =
    (for_each_keeps (restore_kv r false app_filter) (Stands r k (r.get (kv_key k) s))
      (λ (p : Text × KvRecord). text_eq (enc_key p.0) (kv_key k) ≡ false)
      (λ (key, rec) o t a h. restore_kv-Stands r k (r.get (kv_key k) s) app_filter key rec o t a h)
      kvs o s apart (there, refl)).1
