-- ===== src/Oauth/Signin.antt =====
-- Who gets a session from oauth_callback of backend/src/api/routes_oauth.py.
use mathlib.Core.Path.{subst}
use stra2us.Prelude.{
  ℕ, Text, Bytes, codes, true, [], ◌∷◌, Option, none, some, ◌≡◌, ◌≢◌, refl, sym, ap, ◌∙◌, inl, inr,
}
use stra2us.Result.{ok, >>=-eq-ok}
use stra2us.Value.{Value}
use stra2us.Redis.{Redis}
use stra2us.Device.{stored}
use stra2us.Backup.{or_none, truthy}
use stra2us.Backup.Restore.{admin_key}
use stra2us.Oauth.{
  Google, Claims, verify_state_token, is_google_issuer, check_claims, is_enabled, client_id,
  exchange_code_for_id_token, validate_id_token,
}
use stra2us.Oauth.Routes.{
  SigninResponse, state_cookie, redirect_cookie, signed_in_response, session_for,
  unauthorized_response, oauth_callback, authorize, with_claims, with_token, with_code,
}
use stra2us.Oauth.Inversion.{
  check_claims_lem, refused-eq-ok, if-eq-ok, error_response_lem, verify_state_token_lem,
}

module _ (google : Google) (hmac : Bytes → Bytes → Bytes) (session_secret : Text)
    (dumps : Value → Text) (r : Redis) where
  -- What stands behind a session for `email`: the state is the one in the cookie, Google gave a token
  -- for the code, the token is for this application, names Google as its issuer and `email` as an
  -- email that Google has verified, and the email has an ACL row.
  pub record IsVouched (code state : Text) (cookies : Text → Option Text) (s : r.State)
      (email : Text) : Type 0 where
    pub state_given : state ≢ []
    pub state_kept : cookies state_cookie ≡ some state
    pub audience : Text
    pub audience_set : client_id google ≡ ok audience
    pub token : Value
    pub token_exchanged : exchange_code_for_id_token google code ≡ ok (some token)
    pub claims : Claims
    pub token_verified : google.verify_oauth2_token token audience ≡ some claims
    pub issued_by_google : is_google_issuer claims.iss ≡ true
    pub email_claimed : claims.email ≡ some email
    pub email_is_verified : truthy (or_none claims.email_verified) ≡ true
    pub acl : Bytes
    pub row : stored (r.get (admin_key email) s) ≡ some acl

  session_for_lem :
      (email : Text) (redirect_to : Option Text) (now : ℕ) (found : Option Bytes)
      → (session_for google hmac session_secret dumps email redirect_to now found).cookies ≢ []
      → (acl : Bytes) × (found ≡ some acl)
        × (session_for google hmac session_secret dumps email redirect_to now found
            ≡ signed_in_response google hmac session_secret dumps email redirect_to now)
  unfolding session_for unauthorized_response
  session_for_lem email redirect_to now none signed = absurd (signed refl)
  session_for_lem email redirect_to now (some acl) signed = (acl, refl, refl)

  -- A session that the callback gives is vouched for, and is the session of the email that it is
  -- vouched for.
  abbrev pub HasVouched :
      (code state : Text) (cookies : Text → Option Text) (now : ℕ) (s : r.State)
      (response : SigninResponse)
      → Type 0
  HasVouched code state cookies now s response =
      (email : Text) × IsVouched code state cookies s email
      × (response
          ≡ signed_in_response google hmac session_secret dumps email (cookies redirect_cookie) now)

  module _ (code state : Text) (cookies : Text → Option Text) (now : ℕ) (s : r.State)
      (response : SigninResponse) (signed : response.cookies ≢ []) (given : state ≢ [])
      (kept : cookies state_cookie ≡ some state) where
    authorize-HasVouched :
        (audience : Text) (token : Value) (claims : Claims)
        → client_id google ≡ ok audience
        → exchange_code_for_id_token google code ≡ ok (some token)
        → check_claims (google.verify_oauth2_token token audience) ≡ some claims
        → (email : Option Text) → claims.email ≡ email
        → authorize google hmac session_secret dumps r email (cookies redirect_cookie) now s
          ≡ ok response
        → HasVouched code state cookies now s response
    unfolding authorize
    authorize-HasVouched audience token claims set exchanged checked none claimed h = cc
    authorize-HasVouched audience token claims set exchanged checked (some email) claimed h =
        let (verified, by_google, email_verified) =
          check_claims_lem (google.verify_oauth2_token token audience) claims checked in
        let found = stored (r.get (admin_key email) s) in
        let answer =
          session_for google hmac session_secret dumps email (cookies redirect_cookie) now found in
        let same : answer ≡ response = cc in
        let (acl, row, session) =
          session_for_lem email (cookies redirect_cookie) now found
            (subst (λ x. x.cookies ≢ []) (sym same) signed) in
        (
          email,
          record {
            state_given = given;
            state_kept = kept;
            audience = audience;
            audience_set = set;
            token = token;
            token_exchanged = exchanged;
            claims = claims;
            token_verified = verified;
            issued_by_google = by_google;
            email_claimed = claimed;
            email_is_verified = email_verified;
            acl = acl;
            row = row;
          },
          sym same ∙ session,
        )

    with_claims-HasVouched :
        (audience : Text) (token : Value)
        → client_id google ≡ ok audience
        → exchange_code_for_id_token google code ≡ ok (some token)
        → (claims : Option Claims)
        → check_claims (google.verify_oauth2_token token audience) ≡ claims
        → with_claims google hmac session_secret dumps r claims (cookies redirect_cookie) now s
          ≡ ok response
        → HasVouched code state cookies now s response
    unfolding with_claims
    with_claims-HasVouched audience token set exchanged none checked h =
        absurd (signed (error_response_lem 401 (codes "Sign-in token validation failed.") h))
    with_claims-HasVouched audience token set exchanged (some claims) checked h =
        authorize-HasVouched audience token claims set exchanged checked claims.email refl h

    with_token-HasVouched :
        (token : Option Value)
        → exchange_code_for_id_token google code ≡ ok token
        → with_token google hmac session_secret dumps r token (cookies redirect_cookie) now s
          ≡ ok response
        → HasVouched code state cookies now s response
    unfolding with_token validate_id_token
    with_token-HasVouched none exchanged h =
        absurd
          (signed (error_response_lem 502 (codes "Couldn't reach Google to complete sign-in.") h))
    with_token-HasVouched (some token) exchanged h =
        let (checked, valid, h1) = >>=-eq-ok (validate_id_token google token) _ h in
        let (audience, set, h2) = >>=-eq-ok (client_id google) _ valid in
        with_claims-HasVouched audience token set exchanged checked (cc) h1

  with_code-HasVouched :
      (code state : Text) (cookies : Text → Option Text) (now : ℕ) (s : r.State)
      (response : SigninResponse)
      → response.cookies ≢ []
      → state ≢ []
      → cookies state_cookie ≡ some state
      → with_code google hmac session_secret dumps r code (cookies redirect_cookie) now s
        ≡ ok response
      → HasVouched code state cookies now s response
  unfolding with_code
  with_code-HasVouched [] state cookies now s response signed given kept h =
      absurd (signed (error_response_lem 400 (codes "Sign-in canceled or rejected.") h))
  with_code-HasVouched (c ∷ code) state cookies now s response signed given kept h =
      let (token, exchanged, h1) = >>=-eq-ok (exchange_code_for_id_token google (c ∷ code)) _ h in
      with_token-HasVouched (c ∷ code) state cookies now s response signed given kept token
        exchanged h1

  -- Whenever oauth_callback answers and sets a cookie, the answer is the sign-in of an email for
  -- which: the state parameter is not empty and equals the state cookie, Google's token endpoint
  -- gave a token for the code, that token verifies for this application's client id with Google as
  -- its issuer and with the email as a verified one, and the email has an ACL row in Redis.
  pub oauth_callback-IsVouched :
      (code state : Text) (cookies : Text → Option Text) (now : ℕ) (s : r.State)
      (response : SigninResponse)
      → oauth_callback google hmac session_secret dumps r code state cookies now s ≡ ok response
      → response.cookies ≢ []
      → HasVouched code state cookies now s response
  unfolding oauth_callback
  oauth_callback-IsVouched code state cookies now s response h signed =
      let forged = codes "Sign-in session expired or was forged." in
      let (on, h1) = refused-eq-ok (is_enabled google) h in
      let (same, compared, h2) = >>=-eq-ok (verify_state_token state (cookies state_cookie)) _ h1 in
      elim (if-eq-ok same h2) [
        | inl (equal, h3) ↦
            let (given, kept) =
              verify_state_token_lem state (cookies state_cookie) (compared ∙ ap ok equal) in
            with_code-HasVouched code state cookies now s response signed given kept h3
        | inr h3 ↦ absurd (signed (error_response_lem 400 forged h3))
      ]
