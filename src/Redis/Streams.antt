-- ===== src/Redis/Streams.antt =====
-- XREAD of one stream: the entries after an id, in order.
use stra2us.Prelude.{
  ℕ, Text, Bool, true, false, List, [], ◌∷◌, ◌++◌, ◌≡◌, refl, inl, inr, sym, arith, keep, take, All,
  All-middle, Bool-cases,
}
use stra2us.Redis.{Redis, Entry, IsIncreasing}

-- The entries later than an id.
abbrev pub after_id : (Text → Text → Bool) → Text → List Entry → List Entry
after_id later id es = keep (λ e. later id e.id) es

-- XREAD COUNT n STREAMS key id
unfoldable pub xread : (r : Redis) → ℕ → Text → Text → r.State → List Entry
xread r n key id s = take n (after_id r.later id (r.entries key s))

module _ (later : Text → Text → Bool)
    (trans : (a b c : Text) → later a b ≡ true → later b c ≡ true → later a c ≡ true)
    (asym : (a b : Text) → later a b ≡ true → later b a ≡ false) where
  after_id-All :
      (id : Text) (es : List Entry) → All (λ x. later id x.id ≡ true) es → after_id later id es ≡ es
  after_id-All id [] _ = refl
  after_id-All id (e ∷ es) (h, hs) = ground (arith, after_id-All id es hs)

  after_id_none :
      (id : Text) (es : List Entry)
      → All (λ x. later id x.id ≡ false) es
      → after_id later id es ≡ []
  after_id_none id [] _ = refl
  after_id_none id (e ∷ es) (h, hs) = ground (arith, after_id_none id es hs)

  All-later :
      (a b : Text) (es : List Entry)
      → later a b ≡ true
      → All (λ x. later b x.id ≡ true) es
      → All (λ x. later a x.id ≡ true) es
  All-later a b [] h _ = tt
  All-later a b (e ∷ es) h (k, ks) = (trans a b e.id h k, All-later a b es h ks)

  -- What is later than an id is an end of the stream.
  pub after_id_suffix :
      (id : Text) (es : List Entry)
      → IsIncreasing later es
      → (before : List Entry) × (es ≡ before ++ after_id later id es)
  after_id_suffix id [] _ = ([], refl)
  after_id_suffix id (e ∷ es) (h, hs) = elim (Bool-cases (later id e.id)) [
    | inl hit ↦ ([], sym (after_id-All id (e ∷ es) (hit, All-later id e.id es hit h)))
    | inr miss ↦
        let (before, eq) = after_id_suffix id es hs in (e ∷ before, ground (arith, miss, eq))
  ]

  -- What is later than an entry's id is what stands behind the entry.
  pub after_id-append :
      (before : List Entry) (e : Entry) (es : List Entry)
      → IsIncreasing later (before ++ e ∷ es)
      → after_id later e.id (before ++ e ∷ es) ≡ es
  after_id-append [] e es (h, hs) = ground (arith, asym e.id e.id, after_id-All e.id es h)
  after_id-append (x ∷ before) e es (h, hs) =
      let earlier = All-middle (λ (y : Entry). later x.id y.id ≡ true) before e es h in
      ground (arith, asym x.id e.id earlier, after_id-append before e es hs)
