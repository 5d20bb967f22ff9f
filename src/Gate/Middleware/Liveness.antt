-- ===== src/Gate/Middleware/Liveness.antt =====
-- A session: the cookie that a sign-in gives lets its user through for a day.
use stra2us.Prelude.{
  arith, ℕ, ◌+◌, Text, Bytes, true, false, [], ◌∷◌, Option, none, some, ◌≡◌, ◌≢◌, ◌∙◌, refl, ap,
  codes, ◌++◌, leb, All, if◌then◌else◌,
}
use stra2us.Result.{ok}
use stra2us.Builtins.{encode, b64encode, decimal}
use stra2us.Builtins.Utf8.{IsScalar}
use stra2us.Value.{Value, str}
use stra2us.Backup.{truthy}
use stra2us.Exec.{Exec}
use stra2us.Security.Signatures.{IsBytes}
use stra2us.Session.{token_dict, session_signature, generate_session_token, verify_session_token}
use stra2us.Session.Lifetime.{verify_session_token-generate_session_token}
use stra2us.Gate.{path_needs_admin_auth}
use stra2us.Gate.Origin.{HttpRequest, Environment}
use stra2us.Gate.Middleware.{
  Process, signed_in, cookie_user, basic_user, pass_on, sign_in, authenticate, is_cross_origin,
  admin_auth_middleware,
}

encode-ne-nil : (c : ℕ) (s : Text) → encode (c ∷ s) ≢ []
unfolding encode
encode-ne-nil c s h = ground arith

b64encode-ne-nil : (bs : Bytes) → bs ≢ [] → b64encode bs ≢ []
unfolding b64encode
b64encode-ne-nil [] k h = k refl
b64encode-ne-nil (b ∷ []) k h = ground arith
b64encode-ne-nil (b ∷ c ∷ []) k h = ground arith
b64encode-ne-nil (b ∷ c ∷ d ∷ bs) k h = ground arith

-- JSON writes the dict of a token as a text that UTF-8 can encode, and reads it back.
pub record IsWritten (process : Process) (dict : Value) : Type 0 where
  pub scalar : All IsScalar (process.dumps dict)
  pub octets : IsBytes (encode (process.dumps dict))
  pub nonempty : process.dumps dict ≢ []
  pub reads : process.loads (encode (process.dumps dict)) ≡ some dict

module _ (process : Process) (digests : (k m : Bytes) → IsBytes (process.hmac k m))
    (nonempty : (k m : Bytes) → process.hmac k m ≢ []) where
  abbrev pub token_of : ℕ → Text → Value
  token_of now username = token_dict username (now + 86400) (
      session_signature process.hmac process.session_secret
        (username ++ codes ":" ++ decimal (now + 86400)))

  abbrev pub new_token : ℕ → Text → Text
  new_token now username =
      generate_session_token process.hmac process.session_secret process.dumps now username

  encoded-ne-nil : (s : Text) → s ≢ [] → b64encode (encode s) ≢ []
  encoded-ne-nil [] h = absurd (h refl)
  encoded-ne-nil (c ∷ s) h = b64encode-ne-nil (encode (c ∷ s)) (encode-ne-nil c s)

  new_token-ne-nil :
      (now : ℕ) (username : Text)
      → IsWritten process (token_of now username)
      → new_token now username ≢ []
  unfolding generate_session_token
  new_token-ne-nil now username w =
      encoded-ne-nil (process.dumps (token_of now username)) w.nonempty

  cookie_user_of :
      (now : ℕ) (token : Text) (user : Value)
      → token ≢ []
      → verify_session_token process.hmac process.session_secret process.loads process.repr
          process.truncate now token
        ≡ some user
      → truthy user ≡ true
      → cookie_user process now (some token) ≡ some user
  unfolding cookie_user
  cookie_user_of now [] user h v named = absurd (h refl)
  cookie_user_of now (c ∷ token) user h v named = rw v (rw named refl)

  cookie_user-new_token :
      (now now' c : ℕ) (name : Text)
      → IsWritten process (token_of now (c ∷ name))
      → leb now' (now + 86400) ≡ true
      → cookie_user process now' (some (new_token now (c ∷ name))) ≡ some (str (c ∷ name))
  cookie_user-new_token now now' c name w early =
      let verified =
        verify_session_token-generate_session_token process.hmac process.session_secret digests
          nonempty process.loads process.repr process.truncate c name (now + 86400) process.dumps
          now now' refl w.scalar w.octets w.reads in
      let now_valid = ap (λ b. if b then some (str (c ∷ name)) else none) early in
      cookie_user_of now' (new_token now (c ∷ name)) (str (c ∷ name))
        (new_token-ne-nil now (c ∷ name) w) (verified ∙ now_valid) (unfold truthy in refl)

  module _ (env : Environment) {S R : Type 0} (call_next : Option Value → Exec S R) where
    abbrev pub IsAdmitted : HttpRequest → Type 0
    IsAdmitted request =
        (path_needs_admin_auth request.path ≡ true)
        × (is_cross_origin process env call_next request ≡ ok false)

    admitted_lem :
        (now : ℕ) (request : HttpRequest) (s : S)
        → IsAdmitted request
        → admin_auth_middleware process env call_next now request s
          ≡ authenticate process env call_next now request s
    unfolding admin_auth_middleware
    admitted_lem now request s (guarded, same) = rw (same, admin_auth_middleware) (rw guarded refl)

    sign_in_served :
        (now : ℕ) (username : Text) (request : HttpRequest) (s t : S) (response : R)
        → cookie_user process now request.admin_session ≡ none
        → basic_user process request.authorization ≡ some username
        → call_next (some (str username)) s ≡ (ok response, t)
        → authenticate process env call_next now request s
          ≡ (ok (signed_in response (new_token now username)), t)
    unfolding authenticate sign_in
    sign_in_served now username request s t response first password runs =
        let ended : (call_next (some (str username)) s).1 ≡ t = ap (λ x. x.1) runs in
        rw (first, authenticate) (rw password (rw (runs, sign_in) (rw ended refl)))

    recognised :
        (now : ℕ) (user : Value) (request : HttpRequest) (s : S)
        → cookie_user process now request.admin_session ≡ some user
        → authenticate process env call_next now request s
          ≡ pass_on process env call_next (some user) s
    unfolding authenticate
    recognised now user request s e = rw (e, authenticate) refl

    -- Where digests are nonempty bytes and JSON reads back the token that it wrote: an admin who
    -- signs in with the password on a guarded path, without a cookie, with no Origin that is
    -- foreign or cannot be parsed, and whom the handler answers, gets a cookie with which every
    -- request for a guarded path in the next 24 hours, whose Origin passes, reaches the handler
    -- under the admin's name.
    pub admin_auth_middleware_session :
        (now c : ℕ) (name : Text) (request : HttpRequest) (s t : S) (response : R)
        → IsWritten process (token_of now (c ∷ name))
        → IsAdmitted request
        → request.admin_session ≡ none
        → basic_user process request.authorization ≡ some (c ∷ name)
        → call_next (some (str (c ∷ name))) s ≡ (ok response, t)
        → (token : Text) × (admin_auth_middleware process env call_next now request s
            ≡ (ok (signed_in response token), t))
          × ((now' : ℕ) (later : HttpRequest) (s' : S)
              → leb now' (now + 86400) ≡ true
              → IsAdmitted later
              → later.admin_session ≡ some token
              → admin_auth_middleware process env call_next now' later s'
                ≡ pass_on process env call_next (some (str (c ∷ name))) s')
    unfolding authenticate
    admin_auth_middleware_session now c name request s t response w admitted first password runs = (
      new_token now (c ∷ name),
      admitted_lem now request s admitted
          ∙ sign_in_served now (c ∷ name) request s t response
              (ap (cookie_user process now) first ∙ (unfold cookie_user in refl)) password runs,
      λ now' later s' early here cookie.
          admitted_lem now' later s' here
          ∙ recognised now' (str (c ∷ name)) later s' (
              ap (cookie_user process now') cookie ∙ cookie_user-new_token now now' c name w early),
    )
