-- ===== src/Redis/Interpreter.antt =====
-- A Lua interpreter that knows the natural numbers, which shows that its laws can hold together.
use stra2us.Prelude.{
  ℕ, ◌+◌, ◌^◌, ◌≤◌, Text, Bytes, Option, none, some, ◌≡◌, refl, arith, ltb, leb, if◌then◌else◌, ℤ,
  pos, negsuc, All, inl, [], ◌∷◌,
}
use stra2us.Builtins.{decimal, encode, decode, parse_int}
use stra2us.Builtins.Decimal.{parse_int-decimal, decimal-IsDigit}
use stra2us.Builtins.Utf8.{decode-encode, IsScalar}
use stra2us.Redis.{Lua}

digits-IsScalar : (s : Text) → All (λ c. (48 ≤ c) × (c ≤ 57)) s → All IsScalar s
digits-IsScalar [] _ = tt
digits-IsScalar (c ∷ s) (h, hs) = (inl (omega arith), digits-IsScalar s hs)

-- Integers that stop at 2 ^ 53, where doubles stop as well when one is added to them.
abbrev add_one : ℕ → ℕ
add_one n = if ltb n (2 ^ 53) then n + 1 else n

abbrev natural : ℤ → Option ℕ
natural (pos n) = some n
natural (negsuc n) = none

abbrev tonumber : Bytes → Option ℕ
tonumber bytes = elim (decode bytes) [
  | none ↦ none
  | some text ↦ elim (parse_int text) [ none ↦ none | some z ↦ natural z ]
]

pub tonumber_lem : (n : ℕ) → tonumber (encode (decimal n)) ≡ some n
tonumber_lem n =
    let decoded = decode-encode (decimal n) (digits-IsScalar (decimal n) (decimal-IsDigit n)) in
    rw (decoded, tonumber) (rw (parse_int-decimal n) refl)

abbrev pub lua : Lua
lua = record {
  Number = ℕ;
  of_nat = λ n. n;
  tonumber = tonumber;
  at_least = λ m n. leb n m;
  add_one = add_one;
  text_of = λ n. encode (decimal n);
  reply = λ n. n;
  tonumber-decimal = λ n h. tonumber_lem n;
  at_least-of_nat = λ m n _ _. refl;
  add_one-of_nat = λ n h. ground (arith, h);
  text_of-of_nat = λ n h. refl;
  reply-of_nat = λ n h. refl;
}
