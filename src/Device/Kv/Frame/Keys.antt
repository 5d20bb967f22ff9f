-- ===== src/Device/Kv/Frame/Keys.antt =====
-- When the Redis keys of two records are the same.
use stra2us.Prelude.{
  Text, codes, false, [], ◌∷◌, ◌++◌, ◌≡◌, refl, ap, arith, text_eq, text_eq_refl, text_eq_ne,
  length, length-append,
}
use stra2us.Device.{kv_key, enc_key}

pub kv_key-kv_key : (a b : Text) → text_eq (kv_key a) (kv_key b) ≡ text_eq a b
unfolding text_eq
kv_key-kv_key a b = refl

pub kv_key-enc_key : (a b : Text) → text_eq (kv_key a) (enc_key b) ≡ text_eq a (b ++ codes ":enc")
unfolding text_eq
kv_key-enc_key a b = refl

pub enc_key-kv_key : (a b : Text) → text_eq (enc_key a) (kv_key b) ≡ text_eq (a ++ codes ":enc") b
unfolding text_eq
enc_key-kv_key a b = refl

text_eq-append : (a b c : Text) → text_eq (a ++ c) (b ++ c) ≡ text_eq a b
unfolding text_eq
text_eq-append [] [] c = text_eq_refl c
text_eq-append (x ∷ a) [] c =
    text_eq_ne ((x ∷ a) ++ c) c (λ e. omega (arith, ap length e, length-append a c))
text_eq-append [] (y ∷ b) c =
    text_eq_ne c ((y ∷ b) ++ c) (λ e. omega (arith, ap length e, length-append b c))
text_eq-append (x ∷ a) (y ∷ b) c = rw (text_eq-append a b c) refl

pub enc_key-enc_key : (a b : Text) → text_eq (enc_key a) (enc_key b) ≡ text_eq a b
unfolding text_eq
enc_key-enc_key a b = text_eq-append a b (codes ":enc")

-- A text is not itself with a suffix.
pub text_eq_enc : (a : Text) → text_eq (a ++ codes ":enc") a ≡ false
text_eq_enc a = text_eq_ne _ a (λ e. omega (arith, ap length e, length-append a (codes ":enc")))
