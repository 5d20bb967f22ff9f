-- ===== src/Admin/Browse/Readable.antt =====
-- What scan_kv lists: no key that the admin may not read, and all that it may.
use stra2us.Prelude.{
  arith, ℕ, suc, ◌+◌, Text, codes, Bool, true, false, List, [], ◌∷◌, ◌++◌, not, ◌||◌, any, text_eq,
  text_eq_refl, length, if◌then◌else◌, ℤ, pos, leℤ, ◌≡◌, refl, sym, ap, ◌∙◌, All, Bool-cases, inl,
  inr,
}
use mathlib.Core.Path.{subst}
use stra2us.Result.{Checked, ok, err, http, fault, >>=-eq-ok, ◌>>=◌}
use stra2us.Value.{Value}
use stra2us.Acl.{read, check_acl}
use stra2us.Admin.Browse.{
  allows, behind_colon, text_less, insert_by, sort_by, ScanItem, ScanResult, scan_items, scan_kv,
}

allows-true : (c : Checked) → allows c ≡ ok true → c ≡ ok tt
allows-true (ok _) h = refl
allows-true (err (http n)) h = ground arith
allows-true (err fault) h = cc

allows-false : (c : Checked) → allows c ≡ ok false → c ≡ ok tt → ⊥
allows-false (ok _) h k = ground arith
allows-false (err (http n)) h k = cc
allows-false (err fault) h k = cc

module _ {A : Type 0} (key : A → Text) where
  insert_by-All : (P : A → Type 0) (a : A) (l : List A) → P a → All P l → All P (insert_by key a l)
  unfolding insert_by
  insert_by-All P a [] h hs = (h, tt)
  insert_by-All P a (b ∷ l) h (k, ks) = elim (Bool-cases (text_less (key b) (key a))) [
    | inl e ↦ rw (e, insert_by) (k, insert_by-All P a l h ks)
    | inr e ↦ rw (e, insert_by) (h, (k, ks))
  ]

  pub sort_by-All : (P : A → Type 0) (l : List A) → All P l → All P (sort_by key l)
  unfolding sort_by
  sort_by-All P [] _ = tt
  sort_by-All P (a ∷ l) (h, hs) = insert_by-All P a (sort_by key l) h (sort_by-All P l hs)

  any-insert_by : (p : A → Bool) (a : A) (l : List A) → any p (insert_by key a l) ≡ (p a || any p l)
  unfolding insert_by
  any-insert_by p a [] = refl
  any-insert_by p a (b ∷ l) = ground (arith, any-insert_by p a l)

  any-sort_by : (p : A → Bool) (l : List A) → any p (sort_by key l) ≡ any p l
  unfolding sort_by
  any-sort_by p [] = refl
  any-sort_by p (a ∷ l) = any-insert_by p a (sort_by key l) ∙ ap (λ b. p a || b) (any-sort_by p l)

module _ (acl : Value) (strlen : Text → ℕ) (limit : ℤ) where
  abbrev pub IsReadable : Text → Type 0
  IsReadable name = check_acl acl (codes "kv/" ++ name) read ≡ ok tt

  abbrev pub is_found : Text → List ScanItem → Bool
  is_found name items = any (λ it. text_eq it.key name) items

  -- Whatever key is readable has been found.
  abbrev pub HasAll : List ScanItem → List Text → Type 0
  HasAll items keys =
      All
        (λ k.
          (name : Text) → behind_colon k ≡ ok name → IsReadable name → is_found name items ≡ true)
        keys

  -- What a step of the loop has done.
  data Step (count : ℕ) (k : Text) (keys : List Text) (items : List ScanItem) : Type 0 where
    skipped :
        (name : Text)
        → behind_colon k ≡ ok name
        → (IsReadable name → ⊥)
        → scan_items acl strlen limit count keys ≡ ok items
        → Step count k keys items
    stopped :
        (name : Text)
        → behind_colon k ≡ ok name
        → IsReadable name
        → leℤ limit (pos (suc count)) ≡ true
        → items ≡ record { key = name; bytes = strlen k } ∷ []
        → Step count k keys items
    went_on :
        (name : Text) (rest : List ScanItem)
        → behind_colon k ≡ ok name
        → IsReadable name
        → scan_items acl strlen limit (suc count) keys ≡ ok rest
        → items ≡ record { key = name; bytes = strlen k } ∷ rest
        → Step count k keys items

  abbrev item_of : Text → Text → ScanItem
  item_of name k = record { key = name; bytes = strlen k }

  settle :
      (count : ℕ) (k : Text) (keys : List Text) (items : List ScanItem) (name : Text)
      (readable ends : Bool)
      → behind_colon k ≡ ok name
      → allows (check_acl acl (codes "kv/" ++ name) read) ≡ ok readable
      → leℤ limit (pos (suc count)) ≡ ends
      → (if not readable
          then scan_items acl strlen limit count keys
          else if ends
          then ok (item_of name k ∷ [])
          else (scan_items acl strlen limit (suc count) keys >>= λ rest.
              ok (item_of name k ∷ rest)))
        ≡ ok items
      → Step count k keys items
  settle count k keys items name false ends named allowed e h =
      skipped name named (allows-false (check_acl acl (codes "kv/" ++ name) read) allowed) h
  settle count k keys items name true true named allowed e h =
      stopped name named (allows-true (check_acl acl (codes "kv/" ++ name) read) allowed) e cc
  settle count k keys items name true false named allowed e h =
      let (rest, found, same) =
        >>=-eq-ok (scan_items acl strlen limit (suc count) keys)
          (λ rest. ok (item_of name k ∷ rest)) h in
      went_on name rest named (allows-true (check_acl acl (codes "kv/" ++ name) read) allowed) found
        cc

  scan_items-Step :
      (count : ℕ) (k : Text) (keys : List Text) (items : List ScanItem)
      → scan_items acl strlen limit count (k ∷ keys) ≡ ok items
      → Step count k keys items
  unfolding scan_items
  scan_items-Step count k keys items h =
      let (name, named, h1) = >>=-eq-ok (behind_colon k) _ h in
      let (readable, allowed, h2) =
        >>=-eq-ok (allows (check_acl acl (codes "kv/" ++ name) read)) _ h1 in
      settle count k keys items name readable (leℤ limit (pos (suc count))) named allowed refl h2

  is_found_cons :
      (name : Text) (it : ScanItem) (items : List ScanItem)
      → is_found name items ≡ true
      → is_found name (it ∷ items) ≡ true
  is_found_cons name it items h = ground arith

  HasAll-cons :
      (it : ScanItem) (items : List ScanItem) (keys : List Text)
      → HasAll items keys
      → HasAll (it ∷ items) keys
  HasAll-cons it items [] _ = tt
  HasAll-cons it items (k ∷ keys) (h, hs) = (
    λ name named readable. is_found_cons name it items (h name named readable),
    HasAll-cons it items keys hs,
  )

  -- No more than what is readable, and all of it where the limit was not reached.
  abbrev Right : ℕ → List ScanItem → List Text → Type 0
  Right count items keys =
      All (λ it. IsReadable it.key) items
      × (leℤ limit (pos (count + length items)) ≡ false → HasAll items keys)

  HasAll-any :
      (xs ys : List ScanItem) (keys : List Text)
      → ((name : Text) → is_found name xs ≡ is_found name ys)
      → HasAll ys keys
      → HasAll xs keys
  HasAll-any xs ys [] e _ = tt
  HasAll-any xs ys (k ∷ keys) e (h, hs) =
      (λ name named readable. e name ∙ h name named readable, HasAll-any xs ys keys e hs)

  none_found :
      (count : ℕ) (items : List ScanItem)
      → scan_items acl strlen limit count [] ≡ ok items
      → items ≡ []
  unfolding scan_items
  none_found count items h = cc

  full : (count : ℕ) → leℤ limit (pos (suc count)) ≡ true → leℤ limit (pos (count + 1)) ≡ false → ⊥
  full count h k = ground arith

  room_left :
      (count n : ℕ)
      → leℤ limit (pos (count + suc n)) ≡ false
      → leℤ limit (pos (suc count + n)) ≡ false
  room_left count n h = ground arith

  scan_items-HasAll :
      (keys : List Text) (count : ℕ) (items : List ScanItem)
      → scan_items acl strlen limit count keys ≡ ok items
      → Right count items keys
  scan_items-HasAll [] count items h =
      let same : items ≡ [] = none_found count items h in rw same (tt, λ _. tt)
  scan_items-HasAll (k ∷ keys) count items h = elim (scan_items-Step count k keys items h) [
    | skipped name named hidden found ↦
        let (all_readable, complete) = scan_items-HasAll keys count items found in
        (
          all_readable,
          λ room. (
            λ name' named' readable. let e : name ≡ name' = cc in absurd (hidden (rw e readable)),
            complete room,
          ),
        )
    | stopped name named readable ends same ↦
        rw same ((readable, tt), λ room. absurd (full count ends room))
    | went_on name rest named readable found same ↦
        let (all_readable, complete) = scan_items-HasAll keys (suc count) rest found in
        subst (λ l. Right count l (k ∷ keys)) (sym same)
          (
            (readable, all_readable),
            λ room. (
              λ name' named' _. let e : name ≡ name' = cc in ground (arith, text_eq_refl name'),
              HasAll-cons (item_of name k) rest keys
                  (complete (room_left count (length rest) room)),
            ),
          )
  ]

  -- Of the keys that Redis finds, a scan that returns lists only keys that the admin's ACL lets it
  -- read, and all of those where it does not say that it was cut short.
  pub scan_kv-HasAll :
      (keys : List Text) (result : ScanResult)
      → scan_kv acl strlen limit keys ≡ ok result
      → All (λ it. IsReadable it.key) result.items
        × (result.truncated ≡ false → HasAll result.items keys)
  unfolding scan_kv
  scan_kv-HasAll keys result h =
      let (items, found, e) = >>=-eq-ok (scan_items acl strlen limit 0 keys) _ h in
      let (all_readable, complete) = scan_items-HasAll keys 0 items found in
      let sorted = sort_by (λ it. it.key) items in
      let start : 0 + length items ≡ length items = omega arith in
      let ended = leℤ limit (pos (length items)) in
      let same : record { items = sorted; truncated = ended } ≡ result = cc in
      subst
        (λ x. All (λ it. IsReadable it.key) x.items × (x.truncated ≡ false → HasAll x.items keys))
        same
        (
          sort_by-All (λ it. it.key) (λ it. IsReadable it.key) items all_readable,
          λ room.
              HasAll-any sorted items keys
                (λ name. any-sort_by (λ it. it.key) (λ it. text_eq it.key name) items)
                (complete (ap (λ n. leℤ limit (pos n)) start ∙ room)),
        )
