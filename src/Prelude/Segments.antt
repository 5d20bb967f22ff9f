-- ===== src/Prelude/Segments.antt =====
-- Laws of `str.split` and `str.join` on a separator of one character.
use mathlib.Core.List.{reverse, reverse-cons, append_assoc, append-nil}
use mathlib.Core.Path.{◌≡◌, refl, sym, ap, ◌∙◌}
use mathlib.Core.Logic.{◌≢◌}
use mathlib.Core.List.{List, [], ◌∷◌, ◌++◌}
use native.Mathlib.Omega.{arith}
use Prim.Native.Nat.{ℕ}
use stra2us.Prelude.Strings.{Text, split_from, split}

module _ (sep : ℕ) where
  -- `sep.join(parts)`
  unfoldable pub join : List Text → Text
  join [] = []
  join (p ∷ []) = p
  join (p ∷ q ∷ ps) = p ++ sep ∷ join (q ∷ ps)

  join-cons : (p : Text) (ps : List Text) → ps ≢ [] → join (p ∷ ps) ≡ p ++ sep ∷ join ps
  unfolding join
  join-cons p [] h = absurd (h refl)
  join-cons p (q ∷ ps) h = refl

  pub split_from-ne-nil : (cur s : Text) → split_from sep cur s ≢ []
  unfolding split_from
  split_from-ne-nil cur [] = cc
  split_from-ne-nil cur (c ∷ s) = ground (arith, split_from-ne-nil (c ∷ cur) s)

  join-split_from : (cur s : Text) → join (split_from sep cur s) ≡ reverse cur ++ s
  unfolding split_from
  join-split_from cur [] = unfold join in sym (append-nil _)
  join-split_from cur (c ∷ s) = ground (
    arith,
    join-cons (reverse cur) (split_from sep [] s) (split_from-ne-nil [] s),
    join-split_from [] s,
    join-split_from (c ∷ cur) s,
    reverse-cons c cur,
    append_assoc (reverse cur) (c ∷ []) s,
  )

  pub join-split : (s : Text) → join (split sep s) ≡ s
  unfolding split
  join-split s = join-split_from [] s

  split_from-append :
      (cur p s : Text)
      → split_from sep cur (p ++ sep ∷ s) ≡ split_from sep cur p ++ split_from sep [] s
  unfolding split_from
  split_from-append cur [] s = ground arith
  split_from-append cur (c ∷ p) s =
      ground (arith, split_from-append [] p s, split_from-append (c ∷ cur) p s)

  pub split-append : (p s : Text) → split sep (p ++ sep ∷ s) ≡ split sep p ++ split sep s
  unfolding split
  split-append p s = split_from-append [] p s

  pub join-append :
      (ps qs : List Text) → ps ≢ [] → qs ≢ [] → join (ps ++ qs) ≡ join ps ++ sep ∷ join qs
  unfolding join
  join-append [] qs h k = absurd (h refl)
  join-append (p ∷ []) qs h k = join-cons p qs k
  join-append (p ∷ q ∷ ps) qs h k =
      ap (λ t. p ++ sep ∷ t) (join-append (q ∷ ps) qs (cc) k)
      ∙ sym (append_assoc p (sep ∷ join (q ∷ ps)) (sep ∷ join qs))

  -- No piece of a split holds the separator, so two texts with the same pieces are the same.
  pub split-injective : (s t : Text) → split sep s ≡ split sep t → s ≡ t
  split-injective s t e = sym (join-split s) ∙ ap join e ∙ join-split t

  pub split-ne-nil : (s : Text) → split sep s ≢ []
  unfolding split
  split-ne-nil s = split_from-ne-nil [] s
