-- ===== src/Session/Tests.antt =====
-- An example of a session token.
use stra2us.Prelude.{
  ◌+◌, Text, Bytes, codes, [], Option, none, some, ◌≡◌, ◌≢◌, refl, arith, All, leb, if◌then◌else◌,
}
use stra2us.Builtins.{encode}
use stra2us.Builtins.Utf8.{IsScalar}
use stra2us.Value.{Value, str}
use stra2us.Security.Signatures.{IsBytes}
use stra2us.Session.{token_dict, generate_session_token, verify_session_token}
use stra2us.Session.Lifetime.{signature, verify_session_token-generate_session_token}
use stra2us.Fixtures.{digest, digest-IsBytes}

digest-ne-nil : (k m : Bytes) → digest k m ≢ []
digest-ne-nil k m h = cc h

abbrev secret : Text
secret = codes "s"

abbrev token : Value
token = token_dict (codes "jo") 86500 (
    signature digest secret digest-IsBytes digest-ne-nil (λ _. none) (λ _. []) (λ _. none) b'j'
      (codes "o") 86500)

abbrev dumps : Value → Text
dumps _ = codes "{}"

abbrev loads : Bytes → Option Value
loads _ = some token

IsScalar-dumps : All IsScalar (dumps token)
IsScalar-dumps = ground arith

IsBytes-dumps : IsBytes (encode (dumps token))
unfolding encode
IsBytes-dumps = ground arith

verify_session_token-generate_session_token_example :
    verify_session_token digest secret loads
      (λ _. [])
      (λ _. none)
      200
      (generate_session_token digest secret dumps 100 (codes "jo"))
    ≡ (if leb 200 (100 + 86400) then some (str (codes "jo")) else none)
verify_session_token-generate_session_token_example =
    verify_session_token-generate_session_token digest secret digest-IsBytes digest-ne-nil loads
      (λ _. []) (λ _. none) b'j' (codes "o") 86500 dumps 100 200 refl IsScalar-dumps IsBytes-dumps
      refl
