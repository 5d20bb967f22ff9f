-- ===== src/Backup/Restore/Frame.antt =====
-- What a restore leaves alone: keys outside the app, and what is there already.
use stra2us.Prelude.{
  Text, Bytes, codes, Bool, true, false, List, [], ◌∷◌, Option, none, some, not, ◌&&◌, ◌≡◌, refl,
  ◌∙◌, text_eq, All, Bool-cases, Option-cases, inl, inr,
}
use stra2us.Result.{ok, Result-cases}
use stra2us.Builtins.{encode}
use stra2us.Value.{Value}
use stra2us.Redis.{Redis, Entry}
use stra2us.Exec.{Exec, ◌>>=◌}
use stra2us.Device.{secret_key, acl_key, kv_key, enc_key, queue_key}
use stra2us.Backup.{
  ClientRecord, KvRecord, BackupEnvelope, client_matches_app, admin_acl_matches_app,
  kv_key_belongs_to_app, queue_topic_belongs_to_app,
}
use stra2us.Backup.Restore.{
  Outcome, new_result, outside, for_each, admin_key, device_app_key, activity_log_key, Item,
  restore_item, client_item, admin_acl_item, kv_item, queue_item, device_item, restore_client,
  restore_admin_acl, write_record, restore_kv, add_entries, replace_stream, restore_queue,
  restore_device, restore_log, apply_envelope,
}

-- A loop keeps what each of its steps keeps.
pub for_each_keeps {κ} :
    {A S O : Type 0} (step : A → O → Exec S O) (I : S → Type 0) (P : A → Type κ)
    → ((a : A) (o : O) (s : S) → P a → I s → I ((step a o s).1))
    → (xs : List A) (o : O) (s : S) → All P xs
    → I s
    → I ((for_each step xs o s).1)
for_each_keeps step I P keeps [] o s _ h = h
for_each_keeps step I P keeps (a ∷ xs) o s (p, ps) h = elim (Result-cases (step a o s).0) [
  | inl (e, bad) ↦ rw bad (keeps a o s p h)
  | inr (o', good) ↦
      rw good (for_each_keeps step I P keeps xs o' (step a o s).1 ps (keeps a o s p h))
]

-- An item changes Redis by its write at most, and only if it is not refused, and not there or forced.
pub restore_item_keeps :
    (r : Redis) (force : Bool) (item : Item r) (I : r.State → Type 0) (o : Outcome) (s : r.State)
    → I s
    → (item.refused ≡ ok false
        → (item.present s && not force) ≡ false
        → I ((item.write (item.present s) s).1))
    → I ((restore_item r force item o s).1)
unfolding restore_item
restore_item_keeps r force item I o s h k = elim (Result-cases (item.refused)) [
  | inl (e, bad) ↦ rw bad h
  | inr (true, out) ↦ rw out h
  | inr (false, inside) ↦ elim (Bool-cases (item.present s && not force)) [
    | inl there ↦ rw inside (rw there h)
    | inr free ↦ elim (Result-cases (item.write (item.present s) s).0) [
      | inl (e, bad) ↦ rw inside (rw free (rw bad (k inside free)))
      | inr (u, good) ↦ rw inside (rw free (rw good (k inside free)))
    ]
  ]
]

bind_keeps :
    {A B S : Type 0} (I : S → Type 0) (m : Exec S A) (f : A → Exec S B)
    → ((a : A) (t : S) → I t → I (f a t).1)
    → (s : S) → I (m s).1
    → I ((m >>= f) s).1
bind_keeps I m f keeps s h = elim (Result-cases (m s).0) [
  | inl (e, bad) ↦ rw bad h
  | inr (a, good) ↦ rw good (keeps a (m s).1 h)
]

-- The item is not stored under the Redis key `j`, if the filter lets it through.
module _ (app_filter : Option Text) (j : Text) where
  abbrev pub SparedByClient : Text × ClientRecord → Type 0
  SparedByClient (cid, rec) =
      outside app_filter (client_matches_app rec.acl) ≡ ok false
      → (text_eq (secret_key cid) j ≡ false) × (text_eq (acl_key cid) j ≡ false)

  abbrev pub SparedByAdmin : Text × Value → Type 0
  SparedByAdmin (user, acl) =
      outside app_filter (admin_acl_matches_app acl) ≡ ok false → text_eq (admin_key user) j ≡ false

  abbrev pub SparedByKv : Text × KvRecord → Type 0
  SparedByKv (key, rec) =
      outside app_filter (λ app. ok (kv_key_belongs_to_app key app)) ≡ ok false
      → (text_eq (kv_key key) j ≡ false) × (text_eq (enc_key key) j ≡ false)

  abbrev pub SparedByQueue : Text × List Entry → Type 0
  SparedByQueue (topic, entries) =
      outside app_filter (λ app. ok (queue_topic_belongs_to_app topic app)) ≡ ok false
      → text_eq (queue_key topic) j ≡ false

  abbrev pub SparedByDevice : Text × Text → Type 0
  SparedByDevice (cid, app_val) =
      outside app_filter (λ app. ok (text_eq app_val app)) ≡ ok false
      → text_eq (device_app_key cid) j ≡ false

-- No item of the envelope that the filter lets through is stored under `j`, nor is the activity log.
pub record Spares (app_filter : Option Text) (env : BackupEnvelope) (j : Text) : Type 0 where
  pub clients : All (SparedByClient app_filter j) env.clients
  pub admin_acls : All (SparedByAdmin app_filter j) env.admin_acls
  pub kv : All (SparedByKv app_filter j) env.kv
  pub queues : All (SparedByQueue app_filter j) env.queues
  pub device_to_app : All (SparedByDevice app_filter j) env.device_to_app
  pub activity_log : text_eq activity_log_key j ≡ false

module _ (r : Redis) (j : Text) (v : Option Bytes) where
  -- The value under `j` is still `v`.
  abbrev Keeps : r.State → Type 0
  Keeps s = r.get j s ≡ v

  set-Keeps :
      (k : Text) (b : Bytes) (s : r.State) → text_eq k j ≡ false → Keeps s → Keeps (r.set k b s)
  set-Keeps k b s h e = r.get-set k j b s ∙ rw h e

  delete-Keeps : (k : Text) (s : r.State) → text_eq k j ≡ false → Keeps s → Keeps (r.delete k s)
  delete-Keeps k s h e = r.get-delete k j s ∙ rw h e

  write_record-Keeps :
      (force : Bool) (app_filter : Option Text) (key : Text) (rec : KvRecord) (s : r.State)
      → text_eq (kv_key key) j ≡ false
      → text_eq (enc_key key) j ≡ false
      → Keeps s
      → Keeps (write_record r force app_filter key rec s)
  unfolding write_record
  write_record-Keeps force app_filter key rec s a b e = elim (Bool-cases rec.encrypted) [
    | inl secret ↦
        rw secret (set-Keeps (enc_key key) (codes "1") _ b (set-Keeps (kv_key key) rec.value s a e))
    | inr plain ↦ rw plain (delete-Keeps (enc_key key) _ b (set-Keeps (kv_key key) rec.value s a e))
  ]

  add_entries-Keeps :
      (force : Bool) (app_filter : Option Text) (key : Text) (es : List Entry) (s : r.State)
      → Keeps s
      → Keeps (add_entries r force app_filter key es s).1
  unfolding add_entries
  add_entries-Keeps force app_filter key [] s e = e
  add_entries-Keeps force app_filter key (x ∷ es) s e = elim (Option-cases (r.xadd_at key x s)) [
    | inl refused ↦ rw (refused, add_entries) e
    | inr (t, added) ↦
        rw (added, add_entries)
          (add_entries-Keeps force app_filter key es t (r.get-xadd_at key j x s t added ∙ e))
  ]

  replace_stream-Keeps :
      (force : Bool) (app_filter : Option Text) (key : Text) (es : List Entry) (existed : Bool)
      (s : r.State)
      → text_eq key j ≡ false
      → Keeps s
      → Keeps (replace_stream r force app_filter key es existed s).1
  unfolding replace_stream
  replace_stream-Keeps force app_filter key es true s h e =
      add_entries-Keeps force app_filter key es (r.delete key s) (delete-Keeps key s h e)
  replace_stream-Keeps force app_filter key es false s h e =
      add_entries-Keeps force app_filter key es s e

  restore_log-Keeps :
      (force : Bool) (app_filter : Option Text) (log : Option (List Entry)) (o : Outcome)
      (s : r.State)
      → text_eq activity_log_key j ≡ false
      → Keeps s
      → Keeps (restore_log r force app_filter log o s).1
  unfolding restore_log
  restore_log-Keeps force app_filter none o s h e = e
  restore_log-Keeps force app_filter (some es) o s h e =
      let existed = r.exists activity_log_key s in
      let kept = replace_stream-Keeps force app_filter activity_log_key es existed s h e in
      elim (Bool-cases (existed && not force)) [
        | inl there ↦ rw there e
        | inr free ↦
            elim (Result-cases
              (replace_stream r force app_filter activity_log_key es existed s).0) [
                | inl (x, bad) ↦ rw free (rw bad kept)
                | inr (u, good) ↦ rw free (rw good kept)
              ]
      ]

  module _ (dumps : Value → Text) (force : Bool) (app_filter : Option Text) (env : BackupEnvelope)
      (spares : Spares app_filter env j) where
    clients_keep :
        (o : Outcome) (s : r.State)
        → Keeps s
        → Keeps (for_each (restore_client r dumps force app_filter) env.clients o s).1
    unfolding restore_client
    clients_keep o s e =
        for_each_keeps (restore_client r dumps force app_filter) Keeps (SparedByClient app_filter j)
          (λ (cid, rec) o s p e.
            restore_item_keeps r force (client_item r dumps force app_filter (cid, rec)) Keeps o s e
              (λ inside _.
                set-Keeps (acl_key cid) (encode (dumps rec.acl))
                  (r.set (secret_key cid) (encode rec.secret) s) (p inside).1
                  (set-Keeps (secret_key cid) (encode rec.secret) s (p inside).0 e)))
          env.clients o s spares.clients e

    admins_keep :
        (o : Outcome) (s : r.State)
        → Keeps s
        → Keeps (for_each (restore_admin_acl r dumps force app_filter) env.admin_acls o s).1
    unfolding restore_admin_acl
    admins_keep o s e =
        for_each_keeps (restore_admin_acl r dumps force app_filter) Keeps
          (SparedByAdmin app_filter j)
          (λ (user, acl) o s p e.
            restore_item_keeps r force (admin_acl_item r dumps force app_filter (user, acl)) Keeps o
              s e (λ inside _. set-Keeps (admin_key user) (encode (dumps acl)) s (p inside) e))
          env.admin_acls o s spares.admin_acls e

    kvs_keep :
        (o : Outcome) (s : r.State)
        → Keeps s
        → Keeps (for_each (restore_kv r force app_filter) env.kv o s).1
    unfolding restore_kv
    kvs_keep o s e =
        for_each_keeps (restore_kv r force app_filter) Keeps (SparedByKv app_filter j)
          (λ (key, rec) o s p e.
            restore_item_keeps r force (kv_item r force app_filter (key, rec)) Keeps o s e
              (λ inside _.
                write_record-Keeps force app_filter key rec s (p inside).0 (p inside).1 e))
          env.kv o s spares.kv e

    queues_keep :
        (o : Outcome) (s : r.State)
        → Keeps s
        → Keeps (for_each (restore_queue r force app_filter) env.queues o s).1
    unfolding restore_queue
    queues_keep o s e =
        for_each_keeps (restore_queue r force app_filter) Keeps (SparedByQueue app_filter j)
          (λ (topic, es) o s p e.
            restore_item_keeps r force (queue_item r force app_filter (topic, es)) Keeps o s e
              (λ inside _.
                replace_stream-Keeps force app_filter (queue_key topic) es
                  (r.exists (queue_key topic) s) s (p inside) e))
          env.queues o s spares.queues e

    devices_keep :
        (o : Outcome) (s : r.State)
        → Keeps s
        → Keeps (for_each (restore_device r force app_filter) env.device_to_app o s).1
    unfolding restore_device
    devices_keep o s e =
        for_each_keeps (restore_device r force app_filter) Keeps (SparedByDevice app_filter j)
          (λ (cid, app) o s p e.
            restore_item_keeps r force (device_item r force app_filter (cid, app)) Keeps o s e
              (λ inside _. set-Keeps (device_app_key cid) (encode app) s (p inside) e))
          env.device_to_app o s spares.device_to_app e

-- A restore, forced or not, whether it succeeds or raises, keeps the value under every Redis key
-- that is not the activity log's and under which it stores no item that its app filter lets
-- through.
pub apply_envelope-get :
    (r : Redis) (dumps : Value → Text) (force : Bool) (app_filter : Option Text)
    (env : BackupEnvelope) (j : Text) (s : r.State)
    → Spares app_filter env j
    → r.get j (apply_envelope r force app_filter dumps env s).1 ≡ r.get j s
unfolding apply_envelope
apply_envelope-get r dumps force app_filter env j s h =
    let v = r.get j s in
    let f1 = for_each (restore_client r dumps force app_filter) env.clients new_result in
    let f2 = for_each (restore_admin_acl r dumps force app_filter) env.admin_acls in
    let f3 = for_each (restore_kv r force app_filter) env.kv in
    let f4 = for_each (restore_queue r force app_filter) env.queues in
    let f5 = for_each (restore_device r force app_filter) env.device_to_app in
    let f6 = restore_log r force app_filter env.activity_log in
    let m2 : Exec r.State Outcome = f1 >>= f2 in
    let m3 : Exec r.State Outcome = m2 >>= f3 in
    let m4 : Exec r.State Outcome = m3 >>= f4 in
    let m5 : Exec r.State Outcome = m4 >>= f5 in
    let k1 = clients_keep r j v dumps force app_filter env h new_result s refl in
    let k2 = bind_keeps (Keeps r j v) f1 f2 (admins_keep r j v dumps force app_filter env h) s k1 in
    let k3 = bind_keeps (Keeps r j v) m2 f3 (kvs_keep r j v dumps force app_filter env h) s k2 in
    let k4 = bind_keeps (Keeps r j v) m3 f4 (queues_keep r j v dumps force app_filter env h) s k3 in
    let k5 =
      bind_keeps (Keeps r j v) m4 f5 (devices_keep r j v dumps force app_filter env h) s k4 in
    bind_keeps (Keeps r j v) m5 f6
      (λ o t e. restore_log-Keeps r j v force app_filter env.activity_log o t h.activity_log e) s k5
