-- ===== src/Security/Tests.antt =====
-- Examples of signatures and of the cipher.
use stra2us.Prelude.{
  ◌⊎◌, ℕ, ◌+◌, ◌≤◌, ◌<◌, Text, Bytes, codes, true, List, [], ◌∷◌, ◌++◌, ◌≡◌, refl, ◌↔◌, ℤ, pos,
  ◌≤ℤ◌, sub_ℕ, length, arith,
}
use stra2us.Result.{ok, err, fault}
use stra2us.Security.{
  verify_timestamp, sign_payload, verify_signature, secret_bytes, nonce_to_bytes, kvenc_keystream,
  kvenc_xor,
}
use stra2us.Security.Cipher.{kvenc_xor-kvenc_xor, kvenc_xor_total}
use stra2us.Fixtures.{digest, length-digest, digest-IsBytes, secret_hex}

abbrev hi : Bytes
hi = codes "hi"

abbrev signature : Text
signature = codes "0102030405060708090a0b0c0d0e0f101112131415161718191a1b1c1d1e1fff"

sign_payload-hi : sign_payload digest secret_hex (codes "/kv/a") hi (pos 100) ≡ ok signature
unfolding sign_payload stra2us.Builtins.Hex.fromhex
sign_payload-hi = refl

verify_signature-hi :
    verify_signature digest secret_hex (codes "/kv/a") hi (pos 100) signature ≡ ok true
unfolding verify_signature stra2us.Builtins.Hex.fromhex stra2us.Prelude.text_eq
verify_signature-hi = refl

secret_bytes-secret_hex : secret_bytes secret_hex ≡ ok (0 ∷ 255 ∷ [])
unfolding secret_bytes stra2us.Builtins.Hex.fromhex
secret_bytes-secret_hex = refl

nonce_to_bytes-300 : nonce_to_bytes 300 ≡ ok (0 ∷ 0 ∷ 1 ∷ 44 ∷ [])
unfolding nonce_to_bytes
nonce_to_bytes-300 = refl

kvenc_xor-hi : kvenc_xor digest secret_hex 300 hi ≡ ok (105 ∷ 107 ∷ [])
unfolding kvenc_xor kvenc_keystream stra2us.Builtins.Hex.fromhex stra2us.Security.xor_bytes
kvenc_xor-hi = refl

kvenc_xor-kvenc_xor_example : kvenc_xor digest secret_hex 300 (105 ∷ 107 ∷ []) ≡ ok hi
kvenc_xor-kvenc_xor_example =
    kvenc_xor-kvenc_xor digest length-digest digest-IsBytes secret_hex 300 hi (105 ∷ 107 ∷ [])
      (ground arith) kvenc_xor-hi

kvenc_xor_total_example :
    ((length hi ≤ 8160)
      × (c : Bytes) × (kvenc_xor digest secret_hex 300 hi ≡ ok c)
      × (length c ≡ length hi))
    ⊎ ((8160 < length hi) × (kvenc_xor digest secret_hex 300 hi ≡ err fault))
kvenc_xor_total_example =
    kvenc_xor_total digest length-digest digest-IsBytes secret_hex 300 hi (0 ∷ 255 ∷ [])
      (0 ∷ 0 ∷ 1 ∷ 44 ∷ []) secret_bytes-secret_hex nonce_to_bytes-300
