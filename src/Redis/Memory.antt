-- ===== src/Redis/Memory.antt =====
-- A Redis in memory, which shows that the laws can hold together: a map of values and a map of
-- streams. Ids are ordered by their length, and a stream shows its entries in rising order only.
use stra2us.Prelude.{
  ℕ, zero, suc, ◌+◌, ◌≤◌, Text, Bytes, codes, Bool, true, false, List, [], ◌∷◌, ◌++◌, Option, none,
  some, ◌≡◌, refl, sym, ap, ◌∙◌, arith, text_eq, if◌then◌else◌, length, ltb, leb, ltb→lt, leb→le,
  le→leb, All, Bool-cases, inl, inr, ◌||◌,
}
use mathlib.Core.Path.{subst}
use stra2us.Redis.Interpreter.{lua}
use stra2us.Redis.{Redis, Entry, IsIncreasing}

pub record Store : Type 0 where
  pub value : Text → Option Bytes
  pub stream : Text → List Entry

abbrev pub empty : Store
empty = record { value = λ _. none; stream = λ _. [] }

abbrev later : Text → Text → Bool
later a b = ltb (length a) (length b)

-- The entries whose id is longer than those before; the ids have at least `n` characters.
abbrev climb : ℕ → List Entry → List Entry
climb n [] = []
climb n (e ∷ es) = elim (leb n (length e.id)) [
  | true ↦ e ∷ climb (suc (length e.id)) es
  | false ↦ climb n es
]

-- The least length of the next id.
abbrev top : ℕ → List Entry → ℕ
top n [] = n
top n (e ∷ es) = elim (leb n (length e.id)) [ true ↦ top (suc (length e.id)) es | false ↦ top n es ]

weaken :
    (a b : ℕ) (l : List Entry) → a ≤ b → All (λ x. b ≤ length x.id) l → All (λ x. a ≤ length x.id) l
weaken a b [] h _ = tt
weaken a b (e ∷ l) h (k, ks) = (omega arith, weaken a b l h ks)

climb_hit :
    (n : ℕ) (e : Entry) (es : List Entry)
    → leb n (length e.id) ≡ true
    → climb n (e ∷ es) ≡ e ∷ climb (suc (length e.id)) es
climb_hit n e es h = rw (h, climb) refl

climb_miss :
    (n : ℕ) (e : Entry) (es : List Entry)
    → leb n (length e.id) ≡ false
    → climb n (e ∷ es) ≡ climb n es
climb_miss n e es h = rw (h, climb) refl

climb_above : (n : ℕ) (es : List Entry) → All (λ x. n ≤ length x.id) (climb n es)
climb_above n [] = tt
climb_above n (e ∷ es) = elim (Bool-cases (leb n (length e.id))) [
  | inl hit ↦ subst (All (λ x. n ≤ length x.id)) (sym (climb_hit n e es hit)) (
      (
        ground arith,
        weaken n (suc (length e.id)) (climb (suc (length e.id)) es) (ground arith)
            (climb_above (suc (length e.id)) es),
      ))
  | inr miss ↦ subst (All (λ x. n ≤ length x.id)) (sym (climb_miss n e es miss)) (climb_above n es)
]

later-All :
    (id : Text) (es : List Entry)
    → All (λ x. suc (length id) ≤ length x.id) es
    → All (λ x. later id x.id ≡ true) es
later-All id [] _ = tt
later-All id (e ∷ es) (h, hs) = (ground arith, later-All id es hs)

pub climb-IsIncreasing : (n : ℕ) (es : List Entry) → IsIncreasing later (climb n es)
climb-IsIncreasing n [] = tt
climb-IsIncreasing n (e ∷ es) = elim (Bool-cases (leb n (length e.id))) [
  | inl hit ↦ subst (IsIncreasing later) (sym (climb_hit n e es hit)) (
      (
        later-All e.id (climb (suc (length e.id)) es) (climb_above (suc (length e.id)) es),
        climb-IsIncreasing (suc (length e.id)) es,
      ))
  | inr miss ↦ subst (IsIncreasing later) (sym (climb_miss n e es miss)) (climb-IsIncreasing n es)
]

climb-append :
    (n : ℕ) (es : List Entry) (e : Entry)
    → top n es ≤ length e.id
    → climb n (climb n es ++ e ∷ []) ≡ climb n es ++ e ∷ []
climb-append n [] e h = ground arith
climb-append n (x ∷ es) e h =
    ground (arith, climb-append (suc (length x.id)) es e, climb-append n es e)

-- An id that is longer than all that are shown is long enough.
pub top_bound :
    (n : ℕ) (es : List Entry) (k : ℕ)
    → n ≤ k
    → All (λ x. ltb (length x.id) k ≡ true) (climb n es)
    → top n es ≤ k
top_bound n [] k h _ = h
top_bound n (x ∷ es) k h all = elim (Bool-cases (leb n (length x.id))) [
  | inl hit ↦
      let seen = subst (All (λ y. ltb (length y.id) k ≡ true)) (climb_hit n x es hit) all in
      let rest = top_bound (suc (length x.id)) es k (ltb→lt (length x.id) k seen.0) seen.1 in
      rw (hit, top) rest
  | inr miss ↦
      let rest =
        top_bound n es k h
          (subst (All (λ y. ltb (length y.id) k ≡ true)) (climb_miss n x es miss) all) in
      rw (miss, top) rest
]

abbrev ones : ℕ → Text
ones zero = codes "10-0"
ones (suc n) = b'1' ∷ ones n

length-ones : (n : ℕ) → length (ones n) ≡ n + 4
length-ones zero = refl
length-ones (suc n) = omega (arith, length-ones n)

abbrev entries : Text → Store → List Entry
entries k s = climb 0 (s.stream k)

abbrev next_id : Text → Store → Text
next_id k s = ones (top 0 (s.stream k))

abbrev write_value : Text → Option Bytes → Store → Store
write_value k v s = record {
  value = λ j. if text_eq k j then v else s.value j;
  stream = λ j. if text_eq k j then [] else s.stream j;
}

abbrev append_entry : Text → Entry → Store → Store
append_entry k e s = record s {
  stream = λ j. if text_eq k j then entries k s ++ e ∷ [] else s.stream j;
}

abbrev is_some : Option Bytes → Bool
is_some none = false
is_some (some _) = true

abbrev is_cons : List Entry → Bool
is_cons [] = false
is_cons (_ ∷ _) = true

abbrev xadd_at : Text → Entry → Store → Option Store
xadd_at k e s = if leb (top 0 (s.stream k)) (length e.id) then some (append_entry k e s) else none

pub entries-append :
    (k j : Text) (e : Entry) (s : Store)
    → top 0 (s.stream k) ≤ length e.id
    → entries j (append_entry k e s) ≡ (if text_eq k j then entries k s ++ e ∷ [] else entries j s)
entries-append k j e s h = elim (Bool-cases (text_eq k j)) [
  | inl same ↦ rw same (climb-append 0 (s.stream k) e h)
  | inr other ↦ rw other refl
]

pub xadd_at-some :
    (k : Text) (e : Entry) (s t : Store)
    → xadd_at k e s ≡ some t
    → (top 0 (s.stream k) ≤ length e.id) × (append_entry k e s ≡ t)
xadd_at-some k e s t h = elim (Bool-cases (leb (top 0 (s.stream k)) (length e.id))) [
  | inl fits ↦ (leb→le _ _ fits, cc)
  | inr short ↦ cc
]

abbrev exists : Text → Store → Bool
exists k s = is_some (s.value k) || is_cons (entries k s)

abbrev xadd : Text → List (Text × Bytes) → Store → Store
xadd k fs s = append_entry k (record { id = next_id k s; fields = fs }) s

pub entries-write :
    (k j : Text) (v : Option Bytes) (s : Store)
    → entries j (write_value k v s) ≡ (if text_eq k j then [] else entries j s)
entries-write k j v s = elim (Bool-cases (text_eq k j)) [
  | inl same ↦ rw same refl
  | inr other ↦ rw other refl
]

is_cons-append : (es : List Entry) (e : Entry) → is_cons (es ++ e ∷ []) ≡ true
is_cons-append [] e = refl
is_cons-append (_ ∷ es) e = refl

or_true : (b : Bool) → (b || true) ≡ true
or_true true = refl
or_true false = refl

pub entries-xadd :
    (k j : Text) (fs : List (Text × Bytes)) (s : Store)
    → entries j (xadd k fs s) ≡ (
        if text_eq k j
        then entries k s ++ record { id = next_id k s; fields = fs } ∷ []
        else entries j s)
entries-xadd k j fs s =
    entries-append k j (record { id = next_id k s; fields = fs }) s
      (omega (arith, length-ones (top 0 (s.stream k))))

or_false : (b : Bool) → (b || false) ≡ b
or_false true = refl
or_false false = refl

pub exists-write :
    (k j : Text) (v : Option Bytes) (s : Store)
    → exists j (write_value k v s) ≡ (if text_eq k j then is_some v else exists j s)
exists-write k j v s = elim (Bool-cases (text_eq k j)) [
  | inl same ↦ rw same (or_false (is_some v))
  | inr other ↦ rw other refl
]

pub exists-append :
    (k j : Text) (e : Entry) (s : Store)
    → top 0 (s.stream k) ≤ length e.id
    → exists j (append_entry k e s) ≡ (if text_eq k j then true else exists j s)
exists-append k j e s h = rw (entries-append k j e s h) (elim (Bool-cases (text_eq k j)) [
  | inl same ↦ rw (same, is_cons-append (entries k s) e) (or_true (is_some (s.value j)))
  | inr other ↦ rw other refl
])

pub get_of_exists : (o : Option Bytes) (b : Bool) → (is_some o || b) ≡ false → o ≡ none
get_of_exists none b h = refl
get_of_exists (some v) b h = cc

pub nil_of_exists : (a : Bool) (es : List Entry) → (a || is_cons es) ≡ false → es ≡ []
nil_of_exists a [] h = refl
nil_of_exists true (e ∷ es) h = cc
nil_of_exists false (e ∷ es) h = cc

abbrev pub memory : Redis
memory = record {
  State = Store;
  lua = lua;
  get = λ k s. s.value k;
  set = λ k v s. write_value k (some v) s;
  delete = λ k s. write_value k none s;
  exists = exists;
  entries = entries;
  next_id = next_id;
  xadd = xadd;
  xadd_at = xadd_at;
  expire = λ k n s. s;
  later = later;
  later_trans = λ a b c h k. ground arith;
  later_asym = λ a b h. ground arith;
  increasing = λ k s. climb-IsIncreasing 0 (s.stream k);
  get-set = λ k j v s. refl;
  get-delete = λ k j s. refl;
  get-xadd = λ k j fs s. refl;
  get-xadd_at = λ k j e s t h. ap (λ u. u.value j) (sym (xadd_at-some k e s t h).1);
  get-expire = λ k j n s. refl;
  entries-set = λ k j v s. entries-write k j (some v) s;
  entries-delete = λ k j s. entries-write k j none s;
  entries-xadd = entries-xadd;
  entries-xadd_at = λ k j e s t h.
      let (fits, same) = xadd_at-some k e s t h in
      ap (entries j) (sym same) ∙ entries-append k j e s fits;
  xadd_at_accepts = λ k e s h. (
    append_entry k e s,
    rw (le→leb _ _ (top_bound 0 (s.stream k) (length e.id) (omega arith) h)) refl,
  );
  entries-expire = λ k j n s. refl;
  exists_of_get = λ k s h. get_of_exists (s.value k) (is_cons (entries k s)) h;
  exists_of_entries = λ k s h. nil_of_exists (is_some (s.value k)) (entries k s) h;
  exists-set = λ k j v s. exists-write k j (some v) s;
  exists-delete = λ k j s. exists-write k j none s;
  exists-xadd_at = λ k j e s t h.
      let (fits, same) = xadd_at-some k e s t h in
      ap (exists j) (sym same) ∙ exists-append k j e s fits;
}
