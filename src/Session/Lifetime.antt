-- ===== src/Session/Lifetime.antt =====
-- How long a session token is good for.
use stra2us.Prelude.{
  ℕ, ◌+◌, Text, Bytes, codes, true, [], ◌∷◌, ◌++◌, Option, none, some, ◌≡◌, ◌≢◌, refl, arith, ℤ,
  pos, leb, leℤ, ltb, all, All, text_eq, text_eq_refl, if◌then◌else◌, Bool-cases, inl, inr,
}
use stra2us.Result.{ok, err, fault}
use stra2us.Builtins.{decimal, encode, hexdigest, str_int, compare_digest}
use stra2us.Builtins.Base64.{b64decode-b64encode}
use stra2us.Builtins.Utf8.{decode-encode, IsScalar}
use stra2us.Value.{Value, str, int, get}
use stra2us.Backup.{str_of, truthy}
use stra2us.Security.Signatures.{IsBytes, hexdigest_ascii}
use stra2us.Session.{
  token_dict, int_of_value, compare_value, session_signature, generate_session_token, check_token,
  verify_session_token,
}

hexdigest-ne-nil : (bs : Bytes) → bs ≢ [] → truthy (str (hexdigest bs)) ≡ true
unfolding hexdigest truthy
hexdigest-ne-nil [] h = absurd (h refl)
hexdigest-ne-nil (b ∷ bs) h = refl

pub compare_digest_refl : (s : Text) → all (λ c. ltb c 128) s ≡ true → compare_digest s s ≡ ok true
unfolding compare_digest
compare_digest_refl s h = ground (arith, text_eq_refl s)

module _ (hmac : Bytes → Bytes → Bytes) (session_secret : Text)
    (digests : (k m : Bytes) → IsBytes (hmac k m)) (nonempty : (k m : Bytes) → hmac k m ≢ [])
    (loads : Bytes → Option Value) (repr : Value → Text) (truncate : Text → Option ℤ) where
  module _ (c : ℕ) (name : Text) (exp : ℕ) where
    abbrev pub username : Text
    username = c ∷ name

    abbrev pub signature : Text
    signature = session_signature hmac session_secret (username ++ codes ":" ++ decimal exp)

    check_token-token_dict :
        (now : ℕ)
        → truthy (int (pos exp)) ≡ true
        → check_token hmac session_secret loads repr truncate now
            (token_dict username exp signature)
          ≡ (if leb now exp then ok (str username) else err fault)
    unfolding check_token get text_eq session_signature int_of_value compare_value str_of str_int
    check_token-token_dict now positive =
        let payload = (c ∷ name) ++ codes ":" ++ decimal exp in
        let digest = hmac (encode session_secret) (encode payload) in
        let some_signature =
          hexdigest-ne-nil digest (nonempty (encode session_secret) (encode payload)) in
        let same =
          compare_digest_refl (hexdigest digest)
            (hexdigest_ascii digest (digests (encode session_secret) (encode payload))) in
        let named : truthy (str (c ∷ name)) ≡ true = unfold truthy in refl in
        let in_time : leℤ (pos now) (pos exp) ≡ leb now exp = ground arith in
        rw named (
          rw positive (
            rw some_signature (
              rw in_time (elim (Bool-cases (leb now exp)) [
                | inl early ↦ rw early (rw same refl)
                | inr late ↦ rw late refl
              ]))))

    -- Where digests are nonempty bytes, and JSON writes a text that UTF-8 can encode and reads it
    -- back, a session token names its user for 24 hours and no user afterwards.
    pub verify_session_token-generate_session_token :
        (dumps : Value → Text) (now now' : ℕ)
        → exp ≡ now + 86400
        → All IsScalar (dumps (token_dict username exp signature))
        → IsBytes (encode (dumps (token_dict username exp signature)))
        → loads (encode (dumps (token_dict username exp signature)))
          ≡ some (token_dict username exp signature)
        → verify_session_token hmac session_secret loads repr truncate now'
            (generate_session_token hmac session_secret dumps now username)
          ≡ (if leb now' (now + 86400) then some (str username) else none)
    unfolding verify_session_token generate_session_token
    verify_session_token-generate_session_token dumps now now' until scalar octets reads =
        let d = token_dict username exp signature in
        let positive : truthy (int (pos exp)) ≡ true = unfold truthy in ground (arith, until) in
        let checked = check_token-token_dict now' positive in
        let opened = decode-encode (dumps d) scalar in
        let unwrapped = b64decode-b64encode (encode (dumps d)) octets in
        rw (← until) (
          rw unwrapped (
            rw opened (
              rw reads (
                rw checked (elim (Bool-cases (leb now' exp)) [
                  | inl early ↦ rw early refl
                  | inr late ↦ rw late refl
                ])))))
