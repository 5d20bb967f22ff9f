-- ===== src/Builtins/Numbers.antt =====
-- `str(n)`, `int(s)` and the text methods of Python, on ASCII texts.
use mathlib.Core.List.{reverse}
use stra2us.Prelude.{
  ℕ, zero, suc, ◌+◌, ◌*◌, ◌-◌, ◌/◌, ◌%◌, Text, Bool, true, false, [], ◌∷◌, Option, none, some, ℤ,
  pos, negsuc, ltb, leb, ◌==◌, ◌&&◌, ◌||◌, if◌then◌else◌, map,
}

-- The digits of `n` in front of `out`; a number below 10 ^ fuel is written whole.
unfoldable pub decimal_from : ℕ → ℕ → Text → Text
decimal_from zero n out = out
decimal_from (suc f) n out =
    let rest = decimal_from f (n / 10) ((48 + n % 10) ∷ out) in
    if ltb n 10 then (48 + n) ∷ out else rest

-- `str(n)`; the number of digits is at most n + 1.
unfoldable pub decimal : ℕ → Text
unfolding decimal_from
decimal n = decimal_from (suc n) n []

unfoldable pub str_int : ℤ → Text
unfolding decimal
str_int (pos n) = decimal n
str_int (negsuc n) = b'-' ∷ decimal (suc n)

-- ASCII white space: tab to carriage return, the separators 28 to 31, space.
unfoldable pub is_space : ℕ → Bool
is_space c = (leb 9 c && leb c 13) || (leb 28 c && leb c 32)

unfoldable pub lstrip : Text → Text
unfolding is_space
lstrip [] = []
lstrip (c ∷ s) = elim (is_space c) [ true ↦ lstrip s | false ↦ c ∷ s ]

-- `s.strip()`
unfoldable pub strip : Text → Text
unfolding lstrip
strip s = reverse (lstrip (reverse (lstrip s)))

-- The digits of `int(s)`, with single underscores between them; `open` after a digit.
unfoldable pub digits_from : ℕ → Bool → Text → Option ℕ
digits_from n true [] = some n
digits_from n false [] = none
digits_from n after_digit (c ∷ s) =
    let more = digits_from (n * 10 + (c - 48)) true s in
    let gap = digits_from n false s in
    if leb 48 c && leb c 57 then more else if c == b'_' && after_digit then gap else none

abbrev pub signed : (ℕ → ℤ) → Option ℕ → Option ℤ
signed f none = none
signed f (some n) = some (f n)

abbrev pub negated : ℕ → ℤ
negated zero = pos 0
negated (suc n) = negsuc n

unfoldable pub parse_signed : Text → Option ℤ
unfolding digits_from
parse_signed [] = none
parse_signed (c ∷ s) =
    if c == b'-'
    then signed negated (digits_from 0 false s)
    else if c == b'+'
    then signed pos (digits_from 0 false s)
    else signed pos (digits_from 0 false (c ∷ s))

-- `int(s)`: `none` where Python raises ValueError.
unfoldable pub parse_int : Text → Option ℤ
unfolding parse_signed strip
parse_int s = parse_signed (strip s)

-- `s.lower()`
unfoldable pub lower : Text → Text
lower s = map (λ c. if leb 65 c && leb c 90 then c + 32 else c) s
