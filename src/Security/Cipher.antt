-- ===== src/Security/Cipher.antt =====
-- Encrypting a value and decrypting it again.
use stra2us.Prelude.{
  ℕ, zero, suc, ◌+◌, ◌≤◌, ◌<◌, Text, Bytes, false, [], ◌∷◌, ◌≡◌, refl, ap, sym, arith, All,
  All-append, leb, length, take, length-take, leb→le, le→leb, Bool-cases, ◌⊎◌, inl, inr,
}
use stra2us.Result.{ok, err, fault, >>=-eq-ok}
use stra2us.Security.{
  secret_bytes, nonce_to_bytes, kvenc_block, kvenc_keystream, kvenc_xor, xor_bytes,
}
use stra2us.Security.Signatures.{IsBytes}
use stra2us.Security.Keystream.{blocks, length-blocks, max_plaintext, kvenc_keystream_lem}
use stra2us.Security.Keystream.Xor.{xor_bytes-xor_bytes, length-xor_bytes}

All-take : (P : ℕ → Type 0) (n : ℕ) (xs : Bytes) → All P xs → All P (take n xs)
All-take P zero xs h = tt
All-take P (suc n) [] h = tt
All-take P (suc n) (x ∷ xs) (h, hs) = (h, All-take P n xs hs)

module _ (hmac : Bytes → Bytes → Bytes) (digests : (k m : Bytes) → IsBytes (hmac k m)) where
  blocks-IsBytes :
      (secret nonce_bytes : Bytes) (n c : ℕ) → IsBytes (blocks hmac secret nonce_bytes n c)
  unfolding blocks kvenc_block
  blocks-IsBytes secret nonce_bytes zero c = tt
  blocks-IsBytes secret nonce_bytes (suc n) c =
      All-append _ (hmac secret _) _ (digests secret _)
        (blocks-IsBytes secret nonce_bytes n (c + 1))

-- The test fails on a longer plaintext.
lt_leb : (n : ℕ) → max_plaintext < n → leb n max_plaintext ≡ false
lt_leb n h = ground arith

module _ (hmac : Bytes → Bytes → Bytes) (digest_size : (k m : Bytes) → length (hmac k m) ≡ 32)
    (digests : (k m : Bytes) → IsBytes (hmac k m)) where
  keystream_inputs :
      (secret_hex : Text) (nonce size : ℕ) (ks : Bytes)
      → kvenc_keystream hmac secret_hex nonce size ≡ ok ks
      → (secret : Bytes) × (nonce_bytes : Bytes) × (secret_bytes secret_hex ≡ ok secret)
        × (nonce_to_bytes nonce ≡ ok nonce_bytes)
  unfolding kvenc_keystream
  keystream_inputs secret_hex nonce size ks h =
      let (secret, hs, h') = >>=-eq-ok (secret_bytes secret_hex) _ h in
      let (nonce_bytes, hn, _) = >>=-eq-ok (nonce_to_bytes nonce) _ h' in
      (secret, nonce_bytes, hs, hn)

  -- A keystream that is given is as long as was asked for, and no longer than 8160 bytes.
  pub kvenc_keystream_sized :
      (secret_hex : Text) (nonce size : ℕ) (ks : Bytes)
      → kvenc_keystream hmac secret_hex nonce size ≡ ok ks
      → (length ks ≡ size) × IsBytes ks × (size ≤ max_plaintext)
  kvenc_keystream_sized secret_hex nonce size ks h =
      let (secret, nonce_bytes, hs, hn) = keystream_inputs secret_hex nonce size ks h in
      let lem =
        kvenc_keystream_lem hmac digest_size secret_hex nonce size secret nonce_bytes hs hn in
      let full = length-blocks hmac digest_size secret nonce_bytes 255 0 in
      let all = blocks-IsBytes hmac digests secret nonce_bytes 255 0 in
      elim (Bool-cases (leb size max_plaintext)) [
        | inl fits ↦
            let e : ks ≡ take size (blocks hmac secret nonce_bytes 255 0) =
              ground (arith, lem, h, fits) in
            (
              rw e (length-take size (blocks hmac secret nonce_bytes 255 0) (ground (arith, full))),
              rw e (All-take (λ b. b < 256) size _ all),
              leb→le size max_plaintext fits,
            )
        | inr long ↦ absurd (ground (arith, lem, h, long))
      ]

  -- Decrypting what was encrypted gives the plaintext back, for a plaintext of bytes and digests
  -- of 32 bytes.
  pub kvenc_xor-kvenc_xor :
      (secret_hex : Text) (nonce : ℕ) (plain cipher : Bytes)
      → IsBytes plain
      → kvenc_xor hmac secret_hex nonce plain ≡ ok cipher
      → kvenc_xor hmac secret_hex nonce cipher ≡ ok plain
  unfolding kvenc_xor
  kvenc_xor-kvenc_xor secret_hex nonce plain cipher bytes h =
      let (ks, e, same) = >>=-eq-ok (kvenc_keystream hmac secret_hex nonce (length plain)) _ h in
      let (sized, octets, _) = kvenc_keystream_sized secret_hex nonce (length plain) ks e in
      let c : cipher ≡ xor_bytes plain ks = ground (arith, same) in
      rw (c, length-xor_bytes plain ks (sym sized), e)
        (ap ok (xor_bytes-xor_bytes plain ks bytes octets (sym sized)))

  pub kvenc_xor_bounded :
      (secret_hex : Text) (nonce : ℕ) (plain secret nonce_bytes : Bytes)
      → secret_bytes secret_hex ≡ ok secret
      → nonce_to_bytes nonce ≡ ok nonce_bytes
      → (length plain ≤ max_plaintext
          → (c : Bytes) × (kvenc_xor hmac secret_hex nonce plain ≡ ok c)
            × (length c ≡ length plain))
        × (max_plaintext < length plain → kvenc_xor hmac secret_hex nonce plain ≡ err fault)
  unfolding kvenc_xor
  kvenc_xor_bounded secret_hex nonce plain secret nonce_bytes hs hn =
      let n = length plain in
      let ks = take n (blocks hmac secret nonce_bytes 255 0) in
      let lem = kvenc_keystream_lem hmac digest_size secret_hex nonce n secret nonce_bytes hs hn in
      (
        λ fits.
            let e : kvenc_keystream hmac secret_hex nonce n ≡ ok ks =
              rw (lem, le→leb n max_plaintext fits) refl in
            let (sized, _, _) = kvenc_keystream_sized secret_hex nonce n ks e in
            (xor_bytes plain ks, rw e refl, length-xor_bytes plain ks (sym sized)),
        λ long. rw (lem, lt_leb n long) refl,
      )

  -- For a hexadecimal secret, a nonce below 2 ^ 32 and digests of 32 bytes, encryption gives a
  -- ciphertext as long as the plaintext up to 8160 bytes, and raises on a longer plaintext.
  pub kvenc_xor_total :
      (secret_hex : Text) (nonce : ℕ) (plain secret nonce_bytes : Bytes)
      → secret_bytes secret_hex ≡ ok secret
      → nonce_to_bytes nonce ≡ ok nonce_bytes
      → ((length plain ≤ 8160)
          × (c : Bytes) × (kvenc_xor hmac secret_hex nonce plain ≡ ok c)
          × (length c ≡ length plain))
        ⊎ ((8160 < length plain) × (kvenc_xor hmac secret_hex nonce plain ≡ err fault))
  kvenc_xor_total secret_hex nonce plain secret nonce_bytes hs hn =
      let (short, long) = kvenc_xor_bounded secret_hex nonce plain secret nonce_bytes hs hn in
      elim (Bool-cases (leb (length plain) max_plaintext)) [
        | inl fits ↦
            let le = leb→le (length plain) max_plaintext fits in
            let (c, e, sized) = short le in inl (le, c, e, sized)
        | inr large ↦
            let gt : max_plaintext < length plain = ground (arith, large) in inr (gt, long gt)
      ]
