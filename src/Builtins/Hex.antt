-- ===== src/Builtins/Hex.antt =====
-- `bytes.fromhex` and `bytes.hex` of Python.
use stra2us.Prelude.{
  ℕ, ◌+◌, ◌*◌, ◌-◌, ◌/◌, ◌%◌, Text, Bytes, true, false, [], ◌∷◌, Option, none, some, ltb, leb, ◌&&◌,
  if◌then◌else◌,
}
use stra2us.Builtins.Numbers.{is_space}

unfoldable pub hex_value : ℕ → Option ℕ
hex_value c =
    if leb 48 c && leb c 57
    then some (c - 48)
    else if leb 97 c && leb c 102
    then some (c - 87)
    else if leb 65 c && leb c 70
    then some (c - 55)
    else none

-- `high` is the first digit of the pair that is being read.
unfoldable pub fromhex_from : Option ℕ → Text → Option Bytes
unfolding hex_value is_space
fromhex_from none [] = some []
fromhex_from (some high) [] = none
fromhex_from none (c ∷ s) = elim (is_space c) [
  | true ↦ fromhex_from none s
  | false ↦ elim (hex_value c) [ none ↦ none | some h ↦ fromhex_from (some h) s ]
]
fromhex_from (some high) (c ∷ s) = elim (hex_value c) [
  | none ↦ none
  | some low ↦ elim (fromhex_from none s) [
    | none ↦ none
    | some bytes ↦ some ((high * 16 + low) ∷ bytes)
  ]
]

-- `bytes.fromhex(s)`: `none` where it raises ValueError.
unfoldable pub fromhex : Text → Option Bytes
unfolding fromhex_from
fromhex s = fromhex_from none s

unfoldable pub hex_digit : ℕ → ℕ
hex_digit d = if ltb d 10 then 48 + d else 87 + d

unfoldable pub hexdigest : Bytes → Text
unfolding hex_digit
hexdigest [] = []
hexdigest (b ∷ bytes) = hex_digit (b / 16) ∷ hex_digit (b % 16) ∷ hexdigest bytes
