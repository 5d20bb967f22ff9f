-- ===== src/Security/Signatures.antt =====
-- Signing and verifying agree.
use stra2us.Prelude.{
  ℕ, ◌+◌, ◌<◌, ◌/◌, ◌%◌, Text, Bytes, true, [], ◌∷◌, ◌≡◌, ◌↔◌, refl, arith, All, all, ltb,
  text_eq_iff, text_eq_refl, ℤ, pos, negsuc, ◌≤ℤ◌, sub_ℕ,
}
use stra2us.Result.{ok, >>=-eq-ok}
use stra2us.Builtins.{hexdigest, compare_digest}
use stra2us.Builtins.Hex.{hex_digit}
use stra2us.Security.{
  verify_timestamp, sign_payload, calculate_signature, verify_signature, secret_bytes,
}

-- Every number is a byte.
abbrev pub IsBytes : Bytes → Type 0
IsBytes = All (λ b. b < 256)

hex_digit_ascii : (d : ℕ) → d < 16 → hex_digit d < 128
unfolding hex_digit
hex_digit_ascii d h = ground arith

pub hexdigest_ascii : (bs : Bytes) → IsBytes bs → all (λ c. ltb c 128) (hexdigest bs) ≡ true
unfolding hexdigest
hexdigest_ascii [] _ = refl
hexdigest_ascii (b ∷ bs) (h, hs) =
    ground (arith, hex_digit_ascii (b / 16), hex_digit_ascii (b % 16), hexdigest_ascii bs hs)

module _ (hmac : Bytes → Bytes → Bytes) (digests : (k m : Bytes) → IsBytes (hmac k m)) where
  calculate_signature_ascii :
      (secret_hex : Text) (payload : Bytes) (sig : Text)
      → calculate_signature hmac secret_hex payload ≡ ok sig
      → all (λ c. ltb c 128) sig ≡ true
  unfolding calculate_signature
  calculate_signature_ascii secret_hex payload sig h =
      let (key, _, e) = >>=-eq-ok (secret_bytes secret_hex) _ h in
      ground (arith, e, hexdigest_ascii (hmac key payload) (digests key payload))

  -- What is signed with a secret verifies under it, where digests are bytes.
  pub verify_signature-sign_payload :
      (secret_hex uri : Text) (body : Bytes) (timestamp : ℤ) (sig : Text)
      → sign_payload hmac secret_hex uri body timestamp ≡ ok sig
      → verify_signature hmac secret_hex uri body timestamp sig ≡ ok true
  unfolding verify_signature sign_payload compare_digest
  verify_signature-sign_payload secret_hex uri body timestamp sig h =
      ground (arith, calculate_signature_ascii secret_hex _ sig h, text_eq_refl sig)

-- A signature is accepted only if it is the one that the secret gives.
pub eq-ok_of_verify_signature :
    (hmac : Bytes → Bytes → Bytes) (secret_hex uri : Text) (body : Bytes) (timestamp : ℤ)
    (sig : Text)
    → verify_signature hmac secret_hex uri body timestamp sig ≡ ok true
    → sign_payload hmac secret_hex uri body timestamp ≡ ok sig
unfolding verify_signature compare_digest
eq-ok_of_verify_signature hmac secret_hex uri body timestamp sig h =
    let (mac, e, k) = >>=-eq-ok (sign_payload hmac secret_hex uri body timestamp) _ h in
    ground (arith, e, k, text_eq_iff mac sig)

-- A timestamp is accepted exactly when it is at most 300 seconds ahead of the clock and at most
-- 300 behind.
pub verify_timestamp_iff :
    (now : ℕ) (t : ℤ)
    → (verify_timestamp now t ≡ true) ↔ ((t ≤ℤ pos (now + 300)) × (sub_ℕ now 300 ≤ℤ t))
unfolding verify_timestamp
verify_timestamp_iff now (pos t) = ground arith
verify_timestamp_iff now (negsuc t) = ground arith
