-- ===== src/Builtins/Decimal.antt =====
-- `int(str(n))` is `n`, for numbers of every size.
use mathlib.Core.List.{reverse, reverse-cons, reverse-reverse}
use stra2us.Prelude.{
  ℕ, zero, suc, ◌+◌, ◌*◌, ◌-◌, ◌/◌, ◌%◌, ◌≤◌, ◌<◌, Text, Bool, true, false, [], ◌∷◌, some, ◌≡◌, ◌≢◌,
  refl, ap, ◌∙◌, arith, ℤ, pos, negsuc, ltb, All, All-append, Bool-cases, inl, inr,
}
use stra2us.Builtins.Numbers.{
  decimal_from, decimal, str_int, is_space, lstrip, strip, digits_from, signed, negated,
  parse_signed, parse_int,
}

abbrev IsDigit : ℕ → Type 0
IsDigit c = (48 ≤ c) × (c ≤ 57)

digits_from-cons :
    (n c : ℕ) (open' : Bool) (s : Text)
    → IsDigit c
    → digits_from n open' (c ∷ s) ≡ digits_from (n * 10 + (c - 48)) true s
unfolding digits_from
digits_from-cons n c true s h = ground arith
digits_from-cons n c false s h = ground arith

-- Reading what was written goes on after it with the number.
digits_from-decimal_from :
    (fuel n : ℕ) (out : Text)
    → n < fuel
    → digits_from 0 false (decimal_from fuel n out) ≡ digits_from n true out
unfolding decimal_from
digits_from-decimal_from zero n out h = absurd (omega arith)
digits_from-decimal_from (suc f) n out h = elim (Bool-cases (ltb n 10)) [
  | inl small ↦
      let e : 0 * 10 + ((48 + n) - 48) ≡ n = omega arith in
      rw small
        (digits_from-cons 0 (48 + n) false out (ground arith) ∙ ap (λ k. digits_from k true out) e)
  | inr large ↦
      let d = 48 + n % 10 in
      let e : n / 10 * 10 + (d - 48) ≡ n = omega arith in
      rw large (
        digits_from-decimal_from f (n / 10) (d ∷ out) (ground arith)
        ∙ digits_from-cons (n / 10) d true out (omega arith)
        ∙ ap (λ k. digits_from k true out) e)
]

decimal_from-IsDigit :
    (fuel n : ℕ) (out : Text) → n < fuel → All IsDigit out → All IsDigit (decimal_from fuel n out)
unfolding decimal_from
decimal_from-IsDigit zero n out h k = absurd (omega arith)
decimal_from-IsDigit (suc f) n out h k =
    ground (arith, decimal_from-IsDigit f (n / 10) ((48 + n % 10) ∷ out))

abbrev pub IsVisible : ℕ → Type 0
IsVisible c = is_space c ≡ false

lstrip-IsVisible : (s : Text) → All IsVisible s → lstrip s ≡ s
unfolding lstrip
lstrip-IsVisible [] _ = refl
lstrip-IsVisible (c ∷ s) (h, _) = rw (h, lstrip) refl

reverse-IsVisible : (s : Text) → All IsVisible s → All IsVisible (reverse s)
reverse-IsVisible [] _ = tt
reverse-IsVisible (c ∷ s) (h, hs) =
    rw (reverse-cons c s)
      (All-append IsVisible (reverse s) (c ∷ []) (reverse-IsVisible s hs) (h, tt))

pub strip-IsVisible : (s : Text) → All IsVisible s → strip s ≡ s
unfolding strip
strip-IsVisible s h =
    rw (lstrip-IsVisible s h, lstrip-IsVisible (reverse s) (reverse-IsVisible s h))
      (reverse-reverse s)

IsVisible-IsDigit : (s : Text) → All IsDigit s → All IsVisible s
unfolding is_space
IsVisible-IsDigit [] _ = tt
IsVisible-IsDigit (c ∷ s) (h, hs) = (ground arith, IsVisible-IsDigit s hs)

strip-IsDigit : (s : Text) → All IsDigit s → strip s ≡ s
strip-IsDigit s h = strip-IsVisible s (IsVisible-IsDigit s h)

parse_signed-IsDigit :
    (s : Text) → s ≢ [] → All IsDigit s → parse_signed s ≡ signed pos (digits_from 0 false s)
unfolding parse_signed
parse_signed-IsDigit [] h _ = absurd (h refl)
parse_signed-IsDigit (c ∷ s) h (k, _) = ground arith

decimal_from-ne-nil : (fuel n : ℕ) (out : Text) → n < fuel → decimal_from fuel n out ≢ []
unfolding decimal_from
decimal_from-ne-nil zero n out h = absurd (omega arith)
decimal_from-ne-nil (suc f) n out h =
    ground (arith, decimal_from-ne-nil f (n / 10) ((48 + n % 10) ∷ out))

pub decimal-IsDigit : (n : ℕ) → All (λ c. (48 ≤ c) × (c ≤ 57)) (decimal n)
unfolding decimal
decimal-IsDigit n = decimal_from-IsDigit (suc n) n [] (omega arith) tt

pub parse_int-decimal : (n : ℕ) → parse_int (decimal n) ≡ some (pos n)
unfolding parse_int decimal
parse_int-decimal n =
    let digits = decimal_from-IsDigit (suc n) n [] (omega arith) tt in
    rw (strip-IsDigit (decimal_from (suc n) n []) digits) (
      parse_signed-IsDigit _ (decimal_from-ne-nil (suc n) n [] (omega arith)) digits
      ∙ ap (signed pos) (digits_from-decimal_from (suc n) n [] (omega arith))
      ∙ (unfold digits_from in refl))

parse_int-minus : (n : ℕ) → parse_int (b'-' ∷ decimal (suc n)) ≡ some (negsuc n)
unfolding parse_int decimal
parse_int-minus n =
    let digits = decimal_from-IsDigit (suc (suc n)) (suc n) [] (omega arith) tt in
    let ds = decimal_from (suc (suc n)) (suc n) [] in
    let parsed : parse_signed (b'-' ∷ ds) ≡ signed negated (digits_from 0 false ds) =
      unfold parse_signed in refl in
    rw (strip-IsVisible (b'-' ∷ ds) (unfold is_space in refl, IsVisible-IsDigit ds digits)) (
      parsed
      ∙ ap (signed negated) (
          digits_from-decimal_from (suc (suc n)) (suc n) [] (omega arith)
          ∙ (unfold digits_from in refl)))

pub parse_int-str_int : (z : ℤ) → parse_int (str_int z) ≡ some z
unfolding str_int
parse_int-str_int (pos n) = parse_int-decimal n
parse_int-str_int (negsuc n) = parse_int-minus n
