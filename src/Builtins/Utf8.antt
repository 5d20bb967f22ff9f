-- ===== src/Builtins/Utf8.antt =====
-- `str.encode("utf-8")` and `bytes.decode("utf-8")` of Python.
use stra2us.Prelude.{
  ℕ, zero, suc, ◌+◌, ◌*◌, ◌-◌, ◌/◌, ◌%◌, Text, Bytes, [], ◌∷◌, ◌++◌, Option, none, some, ltb, leb,
  ◌==◌, ◌&&◌, ◌<◌, ◌⊎◌, ◌≡◌, arith, All, refl, if◌then◌else◌,
}

unfoldable pub encode_char : ℕ → Bytes
encode_char c =
    if ltb c 0x80
    then c ∷ []
    else if ltb c 0x800
    then (0xc0 + c / 64) ∷ (0x80 + c % 64) ∷ []
    else if ltb c 0x10000
    then (0xe0 + c / 4096) ∷ (0x80 + c / 64 % 64) ∷ (0x80 + c % 64) ∷ []
    else (0xf0 + c / 262144) ∷ (0x80 + c / 4096 % 64) ∷ (0x80 + c / 64 % 64) ∷ (0x80 + c % 64) ∷ []

unfoldable pub encode : Text → Bytes
unfolding encode_char
encode [] = []
encode (c ∷ s) = encode_char c ++ encode s

-- The decoder between two bytes: how many bytes the character still wants, its value so far, and
-- the range of the next byte, which shuts out overlong forms, surrogates and what is past 0x10ffff.
pub record Pending : Type 0 where
  pub need : ℕ
  pub value : ℕ
  pub low : ℕ
  pub high : ℕ

abbrev pub idle : Pending
idle = record { need = 0; value = 0; low = 0; high = 0 }

abbrev pub await : ℕ → ℕ → ℕ → ℕ → Pending
await need value low high = record { need = need; value = value; low = low; high = high }

pub data Move : Type 0 where
  emit : ℕ → Move
  wait : Pending → Move
  bad : Move

unfoldable pub first_byte : ℕ → Move
first_byte b =
    if ltb b 0x80
    then emit b
    else if ltb b 0xc2
    then bad
    else if ltb b 0xe0
    then wait (await 1 (b - 0xc0) 0x80 0xbf)
    else if ltb b 0xf0
    then wait
        (await 2 (b - 0xe0) (if b == 0xe0 then 0xa0 else 0x80) (if b == 0xed then 0x9f else 0xbf))
    else if ltb b 0xf5
    then wait
        (await 3 (b - 0xf0) (if b == 0xf0 then 0x90 else 0x80) (if b == 0xf4 then 0x8f else 0xbf))
    else bad

unfoldable pub next_byte : ℕ → Pending → ℕ → Move
next_byte more p b =
    if leb p.low b && leb b p.high
    then (if more == 0
        then emit (p.value * 64 + (b - 0x80))
        else wait (await more (p.value * 64 + (b - 0x80)) 0x80 0xbf))
    else bad

unfoldable pub decode_byte : ℕ → Pending → ℕ → Move
unfolding first_byte next_byte
decode_byte zero p b = first_byte b
decode_byte (suc more) p b = next_byte more p b

abbrev pub prepend : ℕ → Option Text → Option Text
prepend c none = none
prepend c (some s) = some (c ∷ s)

unfoldable pub decode_from : Pending → Bytes → Option Text
unfolding decode_byte
decode_from p [] = if p.need == 0 then some [] else none
decode_from p (b ∷ bs) = elim (decode_byte p.need p b) [
  | emit c ↦ prepend c (decode_from idle bs)
  | wait q ↦ decode_from q bs
  | bad ↦ none
]

-- `none` where Python raises UnicodeDecodeError.
unfoldable pub decode : Bytes → Option Text
unfolding decode_from
decode bytes = decode_from idle bytes

-- A code point that a text may hold and that UTF-8 can encode.
abbrev pub IsScalar : ℕ → Type 0
IsScalar c = (c < 0xd800) ⊎ ((0xdfff < c) × (c < 0x110000))

decode-encode_char :
    (c : ℕ) (rest : Bytes)
    → IsScalar c
    → decode_from idle (encode_char c ++ rest) ≡ prepend c (decode_from idle rest)
unfolding decode_from encode_char
decode-encode_char c rest h = ground arith

-- Decoding undoes encoding, on every text that UTF-8 can encode.
pub decode-encode : (s : Text) → All IsScalar s → decode (encode s) ≡ some s
unfolding encode decode
decode-encode [] _ = refl
decode-encode (c ∷ s) (h, hs) =
    ground (arith, decode-encode_char c (encode s) h, decode-encode s hs)
