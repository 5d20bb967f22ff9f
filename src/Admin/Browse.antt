-- ===== src/Admin/Browse.antt =====
-- The browsing routes of backend/src/api/routes_admin.py: what an admin may list, see and change. The
-- keys that KEYS gives are an argument, as texts; `loads` and `unpackb` are json's and msgpack's.
use stra2us.Prelude.{
  ℕ, suc, Text, Bytes, codes, Bool, true, false, List, [], ◌∷◌, ◌++◌, Option, none, some, not, ◌||◌,
  ◌&&◌, ◌==◌, ltb, any, all, map, text_eq, starts_with, ends_with, after, split, length,
  if◌then◌else◌, ℤ, pos, leℤ,
}
use stra2us.Result.{Result, Checked, ok, err, http, fault, ◌>>=◌}
use stra2us.Value.{Value, str, get, is_text, iterate, arr, nil}
use stra2us.Redis.{Redis}
use stra2us.Acl.{Mode, read, write, check_acl, permissions_of, prefix_matches, or_default}
use stra2us.Device.{kv_key, enc_key, queue_key, acl_key, stored, is_some, or_raise}
use stra2us.Session.Passwords.{cut}
pub mod Clients
pub mod Records
pub mod Readable
mod Tests

-- `try: await check_acl(...) except HTTPException`
abbrev pub allows : Checked → Result Bool
allows (ok _) = ok true
allows (err (http _)) = ok false
allows (err fault) = err fault

-- `k.split(":", 1)[1]`
unfoldable pub behind_colon : Text → Result Text
unfolding cut
behind_colon k = elim (cut b':' k) [ none ↦ err fault | some (_, name) ↦ ok name ]

-- The order of Python's texts, by code points.
unfoldable pub text_less : Text → Text → Bool
text_less [] [] = false
text_less [] (_ ∷ _) = true
text_less (_ ∷ _) [] = false
text_less (a ∷ s) (b ∷ t) = ltb a b || (a == b && text_less s t)

-- list.sort by a key, which keeps the order of what has the same key.
unfoldable pub insert_by : {A : Type 0} → (A → Text) → A → List A → List A
insert_by key a [] = a ∷ []
insert_by key a (b ∷ bs) =
    let later = insert_by key a bs in if text_less (key b) (key a) then b ∷ later else a ∷ b ∷ bs

unfoldable pub sort_by : {A : Type 0} → (A → Text) → List A → List A
unfolding insert_by
sort_by key [] = []
sort_by key (a ∷ rest) = insert_by key a (sort_by key rest)

-- An item of a scan: the key and the size of its value.
pub record ScanItem : Type 0 where
  pub key : Text
  pub bytes : ℕ

pub record ScanResult : Type 0 where
  pub items : List ScanItem
  pub truncated : Bool

module _ (acl : Value) where
  -- The loop over the keys; `count` items have been found, and `limit` ends it.
  unfoldable pub scan_items : (Text → ℕ) → ℤ → ℕ → List Text → Result (List ScanItem)
  unfolding behind_colon
  scan_items strlen limit count [] = ok []
  scan_items strlen limit count (k ∷ keys) =
      let skip = scan_items strlen limit count keys in
      let more = scan_items strlen limit (suc count) keys in
      do
        name ← behind_colon k
        readable ← allows (check_acl acl (codes "kv/" ++ name) read)
        (if not readable
            then skip
            else if leℤ limit (pos (suc count))
            then ok (record { key = name; bytes = strlen k } ∷ [])
            else (do rest ← more; ok (record { key = name; bytes = strlen k } ∷ rest)))

  -- `strlen` is STRLEN; the keys are those that KEYS finds for `kv:{prefix}*`.
  unfoldable pub scan_kv : (Text → ℕ) → ℤ → List Text → Result ScanResult
  unfolding scan_items sort_by
  scan_kv strlen limit raw_keys = do
    items ← scan_items strlen limit 0 raw_keys
    ok (record { items = sort_by (λ it. it.key) items; truncated = leℤ limit (pos (length items)) })

  -- The queues of get_stats, with their lengths.
  unfoldable pub queue_stats : (Text → ℕ) → List Text → Result (List (Text × ℕ))
  unfolding behind_colon
  queue_stats xlen [] = ok []
  queue_stats xlen (qk ∷ keys) =
      let rest = queue_stats xlen keys in
      do
        topic ← behind_colon qk
        readable ← allows (check_acl acl (codes "q/" ++ topic) read)
        if not readable then rest else (do more ← rest; ok ((topic, xlen qk) ∷ more))

  -- The keys of get_stats, with their flags; the flags' own keys are left out.
  unfoldable pub kv_stats : (Text → Bool) → List Text → Result (List (Text × Bool))
  unfolding behind_colon ends_with
  kv_stats is_encrypted [] = ok []
  kv_stats is_encrypted (kvk ∷ keys) =
      let rest = kv_stats is_encrypted keys in
      do
        name ← behind_colon kvk
        (if ends_with (codes ":enc") name then rest else (do
          readable ← allows (check_acl acl (codes "kv/" ++ name) read)
          (if not readable then rest else (do more ← rest; ok ((name, is_encrypted name) ∷ more)))))

module _ (r : Redis) where
  unfoldable pub get_stats :
      Value → List Text → List Text → r.State → Result (List (Text × ℕ) × List (Text × Bool))
  unfolding queue_stats kv_stats
  get_stats acl q_keys kv_keys s = do
    queues ← queue_stats acl (λ qk. length (r.entries qk s)) q_keys
    kvs ← kv_stats acl (λ name. is_some (stored (r.get (enc_key name) s))) kv_keys
    ok (queues, kvs)
