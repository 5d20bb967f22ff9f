-- ===== src/Builtins/Base64.antt =====
-- base64.b64encode, and b64decode with validate=False as CPython's binascii runs it: a character that
-- is not of the alphabet is passed over, and a full padding ends the text.
use stra2us.Prelude.{
  ℕ, suc, ◌+◌, ◌*◌, ◌-◌, ◌/◌, ◌%◌, ◌<◌, Text, Bytes, Bool, true, false, [], ◌∷◌, Option, none, some,
  ◌≡◌, refl, ap, ◌∙◌, arith, ltb, leb, ◌==◌, if◌then◌else◌, All, ◌&&◌,
}

unfoldable pub letter : ℕ → ℕ
letter n =
    if ltb n 26
    then 65 + n
    else if ltb n 52
    then 71 + n
    else if ltb n 62
    then n - 4
    else if n == 62
    then 43
    else 47

-- The value of a letter; 64 where the character is none.
unfoldable pub sextet : ℕ → ℕ
sextet c =
    if leb 65 c && leb c 90
    then c - 65
    else if leb 97 c && leb c 122
    then c - 71
    else if leb 48 c && leb c 57
    then c + 4
    else if c == 43
    then 62
    else if c == 47
    then 63
    else 64

unfoldable pub b64encode : Bytes → Text
unfolding letter
b64encode [] = []
b64encode (a ∷ []) = letter (a / 4) ∷ letter (a % 4 * 16) ∷ 61 ∷ 61 ∷ []
b64encode (a ∷ b ∷ []) =
    letter (a / 4) ∷ letter (a % 4 * 16 + b / 16) ∷ letter (b % 16 * 4) ∷ 61 ∷ []
b64encode (a ∷ b ∷ c ∷ rest) =
    letter (a / 4)
    ∷ letter (a % 4 * 16 + b / 16)
    ∷ letter (b % 16 * 4 + c / 64)
    ∷ letter (c % 64)
    ∷ b64encode rest

-- Between two characters: how many of a group of four are read, with the bits that are left of the
-- last, and how many pads were seen.
pub data Quad : Type 0 where
  start : Quad
  one : ℕ → Quad
  two three : ℕ → ℕ → Quad

abbrev pub push_byte : ℕ → Option Bytes → Option Bytes
push_byte b none = none
push_byte b (some bs) = some (b ∷ bs)

unfoldable pub decode_quads : Quad → Text → Option Bytes
unfolding sextet
decode_quads start [] = some []
decode_quads (one l) [] = none
decode_quads (two l pads) [] = none
decode_quads (three l pads) [] = none
decode_quads start (c ∷ cs) =
    let skip = decode_quads start cs in
    let next = decode_quads (one (sextet c)) cs in if ltb (sextet c) 64 then next else skip
decode_quads (one l) (c ∷ cs) =
    let skip = decode_quads (one l) cs in
    let next = decode_quads (two (sextet c % 16) 0) cs in
    if ltb (sextet c) 64 then push_byte (l * 4 + sextet c / 16) next else skip
decode_quads (two l pads) (c ∷ cs) =
    let pad = decode_quads (two l (suc pads)) cs in
    let skip = decode_quads (two l pads) cs in
    let next = decode_quads (three (sextet c % 4) 0) cs in
    if c == 61
    then (if leb 1 pads then some [] else pad)
    else if ltb (sextet c) 64
    then push_byte (l * 16 + sextet c / 4) next
    else skip
decode_quads (three l pads) (c ∷ cs) =
    let skip = decode_quads (three l pads) cs in
    let next = decode_quads start cs in
    if c == 61
    then some []
    else if ltb (sextet c) 64
    then push_byte (l * 64 + sextet c) next
    else skip

-- `none` where the library raises; a text that is not ASCII is refused.
abbrev pub is_ascii : Text → Bool
is_ascii [] = true
is_ascii (c ∷ cs) = ltb c 128 && is_ascii cs

unfoldable pub b64decode : Text → Option Bytes
unfolding decode_quads
b64decode text = if is_ascii text then decode_quads start text else none

sextet-letter :
    (n : ℕ) → n < 64 → (sextet (letter n) ≡ n) × (letter n < 128) × ((letter n == 61) ≡ false)
unfolding sextet letter
sextet-letter n h = (ground arith, ground arith, ground arith)

-- A full group gives its three bytes.
decode_group :
    (p q u v : ℕ) (cs : Text)
    → p < 64
    → q < 64
    → u < 64
    → v < 64
    → decode_quads start (letter p ∷ letter q ∷ letter u ∷ letter v ∷ cs)
      ≡ push_byte
          (p * 4 + q / 16)
          (push_byte (q % 16 * 16 + u / 4) (push_byte (u % 4 * 64 + v) (decode_quads start cs)))
unfolding decode_quads
decode_group p q u v cs hp hq hu hv =
    ground (arith, sextet-letter p hp, sextet-letter q hq, sextet-letter u hu, sextet-letter v hv)

decode_pair :
    (p q : ℕ)
    → p < 64
    → q < 64
    → decode_quads start (letter p ∷ letter q ∷ 61 ∷ 61 ∷ []) ≡ some ((p * 4 + q / 16) ∷ [])
unfolding decode_quads
decode_pair p q hp hq = ground (arith, sextet-letter p hp, sextet-letter q hq)

decode_triple :
    (p q u : ℕ)
    → p < 64
    → q < 64
    → u < 64
    → decode_quads start (letter p ∷ letter q ∷ letter u ∷ 61 ∷ [])
      ≡ some ((p * 4 + q / 16) ∷ (q % 16 * 16 + u / 4) ∷ [])
unfolding decode_quads
decode_triple p q u hp hq hu =
    ground (arith, sextet-letter p hp, sextet-letter q hq, sextet-letter u hu)

b64encode-ascii : (bs : Bytes) → All (λ b. b < 256) bs → is_ascii (b64encode bs) ≡ true
unfolding b64encode
b64encode-ascii [] _ = refl
b64encode-ascii (a ∷ []) (ha, _) = ground (arith, sextet-letter (a / 4), sextet-letter (a % 4 * 16))
b64encode-ascii (a ∷ b ∷ []) (ha, (hb, _)) =
    ground (
      arith,
      sextet-letter (a / 4),
      sextet-letter (a % 4 * 16 + b / 16),
      sextet-letter (b % 16 * 4),
    )
b64encode-ascii (a ∷ b ∷ c ∷ rest) (ha, (hb, (hc, h))) = ground (
  arith,
  sextet-letter (a / 4),
  sextet-letter (a % 4 * 16 + b / 16),
  sextet-letter (b % 16 * 4 + c / 64),
  sextet-letter (c % 64),
  b64encode-ascii rest h,
)

decode_quads-b64encode :
    (bs : Bytes) → All (λ b. b < 256) bs → decode_quads start (b64encode bs) ≡ some bs
unfolding b64encode decode_quads
decode_quads-b64encode [] _ = refl
decode_quads-b64encode (a ∷ []) (ha, _) =
    decode_pair (a / 4) (a % 4 * 16) (omega arith) (omega arith)
    ∙ ap (λ x. some (x ∷ [])) (omega arith)
decode_quads-b64encode (a ∷ b ∷ []) (ha, (hb, _)) =
    decode_triple (a / 4) (a % 4 * 16 + b / 16) (b % 16 * 4) (omega arith) (omega arith)
      (omega arith)
    ∙ ap (λ x. some (x ∷ ((a % 4 * 16 + b / 16) % 16 * 16 + b % 16 * 4 / 4) ∷ [])) (omega arith)
    ∙ ap (λ x. some (a ∷ x ∷ [])) (omega arith)
decode_quads-b64encode (a ∷ b ∷ c ∷ rest) (ha, (hb, (hc, h))) = ground (
  arith,
  decode_group (a / 4) (a % 4 * 16 + b / 16) (b % 16 * 4 + c / 64) (c % 64) (b64encode rest)
      (omega arith) (omega arith) (omega arith) (omega arith),
  decode_quads-b64encode rest h,
)

-- Decoding undoes encoding.
pub b64decode-b64encode : (bs : Bytes) → All (λ b. b < 256) bs → b64decode (b64encode bs) ≡ some bs
unfolding b64decode
b64decode-b64encode bs h = rw (b64encode-ascii bs h, decode_quads-b64encode bs h) refl
