-- ===== src/Prelude/Strings.antt =====
-- Python's `str` as a list of code points, and the methods of it that the program calls.
use Prim.Native.Nat.{ℕ}
use Prim.Native.Char.{code}
use Prim.Native.String.{String}
use mathlib.Core.Path.{◌≡◌, refl}
use mathlib.Core.Logic.{◌↔◌, ◌≢◌, inl, inr}
use mathlib.Core.Bool.{Bool, true, false, ◌&&◌, ◌||◌}
use mathlib.Core.List.{List, [], ◌∷◌, ◌++◌, reverse}
use native.Mathlib.Omega.{arith}
use stra2us.Prelude.Tests.{◌==◌, Bool-cases}
use stra2us.Prelude.Lists.{length, drop}

abbrev pub Text : Type 0
Text = List ℕ

abbrev pub Bytes : Type 0
Bytes = List ℕ

-- The text of a literal.
abbrev pub codes : String → Text
codes String.[] = []
codes (String.◌∷◌ c s) = code c ∷ codes s

-- `s == t`
unfoldable pub text_eq : Text → Text → Bool
text_eq [] [] = true
text_eq (a ∷ s) (b ∷ t) = a == b && text_eq s t
text_eq _ _ = false

pub text_eq_iff : (s t : Text) → (text_eq s t ≡ true) ↔ (s ≡ t)
unfolding text_eq
text_eq_iff [] [] = ground arith
text_eq_iff (a ∷ s) (b ∷ t) = ground (arith, text_eq_iff s t)
text_eq_iff [] (b ∷ t) = ground arith
text_eq_iff (a ∷ s) [] = ground arith

pub text_eq_refl : (s : Text) → text_eq s s ≡ true
text_eq_refl s = (text_eq_iff s s).1 refl

pub text_eq_ne : (s t : Text) → s ≢ t → text_eq s t ≡ false
text_eq_ne s t h = elim (Bool-cases (text_eq s t)) [
  | inl e ↦ absurd (h ((text_eq_iff s t).0 e))
  | inr e ↦ e
]

-- `s.startswith(p)`
unfoldable pub starts_with : Text → Text → Bool
starts_with [] s = true
starts_with (c ∷ p) [] = false
starts_with (c ∷ p) (d ∷ s) = c == d && starts_with p s

-- `s.endswith(q)`
unfoldable pub ends_with : Text → Text → Bool
unfolding starts_with
ends_with q s = starts_with (reverse q) (reverse s)

-- `p in s`
unfoldable pub occurs_in : Text → Text → Bool
unfolding starts_with
occurs_in p [] = starts_with p []
occurs_in p (c ∷ s) = starts_with p (c ∷ s) || occurs_in p s

-- `s[len(p):]`
abbrev pub after : Text → Text → Text
after p s = drop (length p) s

pub starts_with-append : (p s : Text) → starts_with p (p ++ s) ≡ true
unfolding starts_with
starts_with-append [] s = refl
starts_with-append (c ∷ p) s = ground (arith, starts_with-append p s)

-- A text starts with `p` exactly when it is `p` and what follows it.
pub eq-append_of_starts_with : (p s : Text) → starts_with p s ≡ true → s ≡ p ++ after p s
unfolding starts_with
eq-append_of_starts_with [] s h = refl
eq-append_of_starts_with (c ∷ p) [] h = cc
eq-append_of_starts_with (c ∷ p) (d ∷ s) h = ground (arith, eq-append_of_starts_with p s)

-- `s.split(sep)`, for a separator of one character; `cut` holds the piece that is being read.
unfoldable pub split_from : ℕ → Text → Text → List Text
split_from sep cur [] = reverse cur ∷ []
split_from sep cur (c ∷ s) = elim (c == sep) [
  | true ↦ reverse cur ∷ split_from sep [] s
  | false ↦ split_from sep (c ∷ cur) s
]

unfoldable pub split : ℕ → Text → List Text
unfolding split_from
split sep s = split_from sep [] s
