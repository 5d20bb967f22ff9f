-- ===== src/Security/Keystream/Xor.antt =====
-- Exclusive or on bytes undoes itself, by a table of all pairs of bytes.
use Prim.Native.Nat.{bit_xor}
use stra2us.Prelude.{
  ℕ, zero, suc, ◌<◌, Bytes, Bool, true, [], ◌∷◌, ◌≡◌, refl, ap, arith, ◌==◌, ==_iff, ◌&&◌, length,
}
use stra2us.Security.{xor_bytes}
use stra2us.Security.Signatures.{IsBytes}

-- The test holds for the numbers `0` to `n - 1`.
holds_up_to : (ℕ → Bool) → ℕ → Bool
holds_up_to test zero = true
holds_up_to test (suc k) = holds_up_to test k && test k

holds_at : (test : ℕ → Bool) (size m : ℕ) → m < size → holds_up_to test size ≡ true → test m ≡ true
unfolding holds_up_to
holds_at test zero m below h = absurd (omega arith)
holds_at test (suc k) m below h = ground (arith, holds_at test k m)

undoes : ℕ → ℕ → Bool
undoes a k = bit_xor (bit_xor a k) k == a

byte_pairs : holds_up_to (λ a. holds_up_to (undoes a) 256) 256 ≡ true
unfolding holds_up_to undoes
byte_pairs = refl

bit_xor-bit_xor : (a k : ℕ) → a < 256 → k < 256 → bit_xor (bit_xor a k) k ≡ a
unfolding undoes
bit_xor-bit_xor a k small small' =
    let row = holds_at (λ x. holds_up_to (undoes x) 256) 256 a small byte_pairs in
    (==_iff (bit_xor (bit_xor a k) k) a).0 (holds_at (undoes a) 256 k small' row)

pub xor_bytes-xor_bytes :
    (xs ks : Bytes)
    → IsBytes xs
    → IsBytes ks
    → length xs ≡ length ks
    → xor_bytes (xor_bytes xs ks) ks ≡ xs
unfolding xor_bytes
xor_bytes-xor_bytes [] ks _ _ _ = refl
xor_bytes-xor_bytes (a ∷ xs) [] _ _ e = absurd (omega arith)
xor_bytes-xor_bytes (a ∷ xs) (k ∷ ks) (h, hs) (j, js) e =
    ground (arith, bit_xor-bit_xor a k h j, xor_bytes-xor_bytes xs ks hs js)

pub length-xor_bytes :
    (xs ks : Bytes) → length xs ≡ length ks → length (xor_bytes xs ks) ≡ length xs
unfolding xor_bytes
length-xor_bytes [] ks e = refl
length-xor_bytes (a ∷ xs) [] e = absurd (omega arith)
length-xor_bytes (a ∷ xs) (k ∷ ks) e = ap suc (length-xor_bytes xs ks (omega arith))
