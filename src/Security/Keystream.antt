-- ===== src/Security/Keystream.antt =====
-- The keystream of encrypted values: how long it is, and that the cipher undoes itself.
pub mod Xor
use stra2us.Prelude.{
  ℕ, zero, suc, ◌+◌, ◌-◌, ◌*◌, ◌≤◌, ◌<◌, lt→ltb, Text, Bytes, Bool, true, false, List, [], ◌∷◌,
  ◌++◌, ◌≡◌, refl, ap, sym, ◌∙◌, arith, All, ltb, leb, length, take, length-append, length-take,
  if◌then◌else◌, append_assoc, append-nil, inl, inr, Bool-cases,
}
use stra2us.Result.{Result, ok, err, fault, ◌>>=◌, >>=-eq-ok}
use stra2us.Security.{
  secret_bytes, nonce_to_bytes, kvenc_block, keystream_loop, kvenc_keystream, kvenc_xor, xor_bytes,
}
use stra2us.Security.Signatures.{IsBytes}

pub take-append_of_le :
    {A : Type 0} (n : ℕ) (xs ys : List A) → n ≤ length xs → take n (xs ++ ys) ≡ take n xs
take-append_of_le zero xs ys h = refl
take-append_of_le (suc n) [] ys h = absurd (omega arith)
take-append_of_le (suc n) (x ∷ xs) ys h = ap (λ l. x ∷ l) (take-append_of_le n xs ys (omega arith))

-- The longest plaintext: 255 blocks of 32 bytes.
abbrev pub max_plaintext : ℕ
max_plaintext = 8160

module _ (hmac : Bytes → Bytes → Bytes) (secret nonce_bytes : Bytes) where
  -- `n` blocks in a row, the first with this counter.
  unfoldable pub blocks : ℕ → ℕ → Bytes
  blocks zero counter = []
  blocks (suc n) counter = kvenc_block hmac secret nonce_bytes counter ++ blocks n (counter + 1)

module _ (hmac : Bytes → Bytes → Bytes) (digest_size : (k m : Bytes) → length (hmac k m) ≡ 32)
    (secret nonce_bytes : Bytes) where
  length-kvenc_block : (c : ℕ) → length (kvenc_block hmac secret nonce_bytes c) ≡ 32
  unfolding kvenc_block
  length-kvenc_block c = digest_size secret _

  pub length-blocks : (n c : ℕ) → length (blocks hmac secret nonce_bytes n c) ≡ 32 * n
  unfolding blocks
  length-blocks zero c = refl
  length-blocks (suc n) c = omega (
    arith,
    length-append (kvenc_block hmac secret nonce_bytes c)
        (blocks hmac secret nonce_bytes n (c + 1)),
    length-kvenc_block c,
    length-blocks n (c + 1),
  )

  blocks-suc :
      (c : ℕ) (out : Bytes)
      → c < 255
      → (out ++ kvenc_block hmac secret nonce_bytes c)
          ++ blocks hmac secret nonce_bytes (255 - (c + 1)) (c + 1)
        ≡ out ++ blocks hmac secret nonce_bytes (255 - c) c
  blocks-suc c out h =
      let e : 255 - c ≡ suc (255 - (c + 1)) = omega arith in
      rw e (append_assoc out _ _ ∙ unfold blocks in refl)

  loop_step :
      (fuel length' c : ℕ) (out : Bytes)
      → length out < length'
      → keystream_loop hmac (suc fuel) secret nonce_bytes length' c out ≡ (
          if ltb 255 (c + 1)
          then err fault
          else keystream_loop hmac fuel secret nonce_bytes length'
              (c + 1)
              (out ++ kvenc_block hmac secret nonce_bytes c))
  unfolding keystream_loop
  loop_step fuel length' c out h = rw (lt→ltb _ _ h) refl

  loop_stop :
      (fuel length' c : ℕ) (out : Bytes)
      → ltb (length out) length' ≡ false
      → keystream_loop hmac (suc fuel) secret nonce_bytes length' c out ≡ ok (take length' out)
  unfolding keystream_loop
  loop_stop fuel length' c out h = rw h refl

  length-out :
      (c : ℕ) (out : Bytes)
      → length out ≡ 32 * c
      → length (out ++ kvenc_block hmac secret nonce_bytes c) ≡ 32 * (c + 1)
  length-out c out e =
      omega (arith, length-append out (kvenc_block hmac secret nonce_bytes c), length-kvenc_block c)

  -- The loop gives the first blocks, unless more than 255 are wanted. The fuel suffices.
  keystream_loop_lem :
      (fuel length' c : ℕ) (out : Bytes)
      → 256 ≤ fuel + c
      → c ≤ 255
      → length out ≡ 32 * c
      → keystream_loop hmac fuel secret nonce_bytes length' c out ≡ (
          if leb length' max_plaintext
          then ok (take length' (out ++ blocks hmac secret nonce_bytes (255 - c) c))
          else err fault)
  keystream_loop_lem zero length' c out h k e = absurd (omega arith)
  keystream_loop_lem (suc fuel) length' c out h k e = elim (Bool-cases (ltb (length out) length')) [
    | inl more ↦ elim (Bool-cases (ltb 255 (c + 1))) [
      | inl last ↦ ground (arith, loop_step fuel length' c out)
      | inr next ↦ ground (
        arith,
        loop_step fuel length' c out,
        keystream_loop_lem fuel length' (c + 1) (out ++ kvenc_block hmac secret nonce_bytes c)
            (omega arith) (ground arith) (length-out c out e),
        blocks-suc c out,
      )
    ]
    | inr done ↦ ground (
      arith,
      loop_stop fuel length' c out done,
      take-append_of_le length' out (blocks hmac secret nonce_bytes (255 - c) c),
    )
  ]

module _ (hmac : Bytes → Bytes → Bytes) (digest_size : (k m : Bytes) → length (hmac k m) ≡ 32) where
  pub kvenc_keystream_lem :
      (secret_hex : Text) (nonce length' : ℕ) (secret nonce_bytes : Bytes)
      → secret_bytes secret_hex ≡ ok secret
      → nonce_to_bytes nonce ≡ ok nonce_bytes
      → kvenc_keystream hmac secret_hex nonce length' ≡ (
          if leb length' max_plaintext
          then ok (take length' (blocks hmac secret nonce_bytes 255 0))
          else err fault)
  unfolding kvenc_keystream
  kvenc_keystream_lem secret_hex nonce length' secret nonce_bytes hs hn =
      rw (hs, hn)
        (keystream_loop_lem hmac digest_size secret nonce_bytes 256 length' 0 [] (omega arith)
          (omega arith) refl)
