-- ===== src/Security.antt =====
-- backend/src/core/security.py: request and response signatures, the replay window, and the stream
-- cipher of encrypted values. HMAC-SHA256 is a parameter: `hmac key message` is its digest.
pub mod Signatures
pub mod Keystream
pub mod Cipher
mod Tests
use Prim.Native.Nat.{bit_xor}
use stra2us.Prelude.{
  ℕ, zero, suc, ◌+◌, ◌*◌, ◌-◌, ◌/◌, ◌%◌, ◌^◌, Text, Bytes, codes, Bool, List, [], ◌∷◌, ◌++◌, Option,
  none, some, ℤ, pos, negsuc, ltb, leb, ◌&&◌, if◌then◌else◌, length, take,
}
use stra2us.Result.{Result, ok, err, fault, ◌>>=◌}
use stra2us.Builtins.{fromhex, hexdigest, encode, str_int, compare_digest}

-- `bytes.fromhex(secret_hex)`, which raises ValueError.
unfoldable pub secret_bytes : Text → Result Bytes
secret_bytes secret_hex = elim (fromhex secret_hex) [ none ↦ err fault | some b ↦ ok b ]

-- `|now - timestamp| <= max_drift`
unfoldable pub within_drift : ℕ → ℕ → ℤ → Bool
within_drift max_drift now (pos t) = leb (now - t) max_drift && leb (t - now) max_drift
within_drift max_drift now (negsuc t) = leb (now + suc t) max_drift

unfoldable pub verify_timestamp : ℕ → ℤ → Bool
unfolding within_drift
verify_timestamp now timestamp = within_drift 300 now timestamp

abbrev pub kvenc_label : Bytes
kvenc_label = codes "stra2us-kvenc-v1"

abbrev pub kvenc_ext_type : ℕ
kvenc_ext_type = 0x21

-- `nonce.to_bytes(4, "big")`, which raises OverflowError.
unfoldable pub nonce_to_bytes : ℕ → Result Bytes
nonce_to_bytes nonce =
    if ltb nonce 0x100000000
    then ok (nonce / 0x1000000 ∷ nonce / 0x10000 % 256 ∷ nonce / 0x100 % 256 ∷ nonce % 256 ∷ [])
    else err fault

-- `bytes(a ^ b for a, b in zip(data, ks))`
unfoldable pub xor_bytes : Bytes → Bytes → Bytes
xor_bytes (a ∷ xs) (b ∷ ks) = bit_xor a b ∷ xor_bytes xs ks
xor_bytes _ _ = []

module _ (hmac : Bytes → Bytes → Bytes) where
  unfoldable pub calculate_signature : Text → Bytes → Result Text
  unfolding secret_bytes hexdigest
  calculate_signature secret_hex payload = do
    key ← secret_bytes secret_hex
    ok (hexdigest (hmac key payload))

  unfoldable pub sign_payload : Text → Text → Bytes → ℤ → Result Text
  unfolding calculate_signature
  sign_payload secret_hex uri body timestamp =
      calculate_signature secret_hex (encode uri ++ body ++ encode (str_int timestamp))

  unfoldable pub verify_signature : Text → Text → Bytes → ℤ → Text → Result Bool
  unfolding sign_payload compare_digest
  verify_signature secret_hex uri body timestamp signature = do
    expected_mac ← sign_payload secret_hex uri body timestamp
    compare_digest expected_mac signature

  -- One block of the keystream.
  unfoldable pub kvenc_block : Bytes → Bytes → ℕ → Bytes
  kvenc_block secret nonce_bytes counter = hmac secret (kvenc_label ++ nonce_bytes ++ counter ∷ [])

  -- The loop `while len(out) < length`; fuel counts the rounds that are left, and is never used up.
  unfoldable pub keystream_loop : ℕ → Bytes → Bytes → ℕ → ℕ → Bytes → Result Bytes
  unfolding kvenc_block
  keystream_loop zero secret nonce_bytes length' counter out = err fault
  keystream_loop (suc fuel) secret nonce_bytes length' counter out =
      let out' = out ++ kvenc_block secret nonce_bytes counter in
      let rest = keystream_loop fuel secret nonce_bytes length' (counter + 1) out' in
      if ltb (length out) length'
      then (if ltb 255 (counter + 1) then err fault else rest)
      else ok (take length' out)

  unfoldable pub kvenc_keystream : Text → ℕ → ℕ → Result Bytes
  unfolding keystream_loop secret_bytes nonce_to_bytes
  kvenc_keystream secret_hex nonce length' = do
    secret ← secret_bytes secret_hex
    nonce_bytes ← nonce_to_bytes nonce
    keystream_loop 256 secret nonce_bytes length' 0 []

  unfoldable pub kvenc_xor : Text → ℕ → Bytes → Result Bytes
  kvenc_xor secret_hex nonce plain = do
    ks ← kvenc_keystream secret_hex nonce (length plain)
    ok (xor_bytes plain ks)
