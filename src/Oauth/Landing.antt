-- ===== src/Oauth/Landing.antt =====
-- A sign-in from oauth_login of backend/src/api/routes_oauth.py to the page it ends on.
use stra2us.Prelude.{
  ℕ, Text, Bytes, codes, Bool, true, false, [], ◌∷◌, Option, none, some, ◌+◌, Bool-cases, inl, inr,
  ◌≡◌, ◌∙◌, refl, arith, ap, ltb, all, starts_with, if◌then◌else◌,
}
use stra2us.Result.{Result, ok}
use stra2us.Value.{Value}
use stra2us.Redis.{Redis}
use stra2us.Device.{stored}
use stra2us.Backup.Restore.{admin_key}
use stra2us.Session.{generate_session_token}
use stra2us.Session.Lifetime.{compare_digest_refl}
use stra2us.Oauth.{
  Google, Claims, verify_state_token, is_enabled, exchange_code_for_id_token, validate_id_token,
}
use stra2us.Oauth.Routes.{
  SigninResponse, redirect, cookie, state_cookie, redirect_cookie, is_same_origin, error_response,
  signed_in_response, session_for, redirect_target, oauth_login, oauth_callback, authorize,
  with_claims, with_token, with_code,
}
use stra2us.Oauth.Browser.{jar, callback_at, oauth_login_lem}

-- Where a sign-in ends.
abbrev pub landing : Text → Text
landing next = if is_same_origin next then next else codes "/admin/"

redirect_target-landing :
    (next : Text) → redirect_target (if is_same_origin next then some next else none) ≡ landing next
unfolding redirect_target is_same_origin starts_with
redirect_target-landing [] = refl
redirect_target-landing (c ∷ []) = ground arith
redirect_target-landing (c ∷ d ∷ next) = ground arith

module _ (google : Google) where
  module _ (hmac : Bytes → Bytes → Bytes) (session_secret : Text) (dumps : Value → Text)
      (r : Redis) where
    -- The answer sends the browser to the landing page with the session cookie of `email` alone.
    abbrev pub IsLanding : Text → Text → ℕ → Result SigninResponse → Type 0
    IsLanding email next now answer =
        (response : SigninResponse) × (answer ≡ ok response)
        × (response.content ≡ redirect (landing next))
        × (response.cookies
            ≡ cookie google (codes "admin_session")
                (generate_session_token hmac session_secret dumps now email) 604800
              ∷ [])

    with_code-signed_in_response :
        (c : ℕ) (code : Text) (redirect_to : Option Text) (now : ℕ) (s : r.State) (token : Value)
        (claims : Claims) (email : Text) (acl : Bytes)
        → exchange_code_for_id_token google (c ∷ code) ≡ ok (some token)
        → validate_id_token google token ≡ ok (some claims)
        → claims.email ≡ some email
        → stored (r.get (admin_key email) s) ≡ some acl
        → with_code google hmac session_secret dumps r (c ∷ code) redirect_to now s
          ≡ ok (signed_in_response google hmac session_secret dumps email redirect_to now)
    unfolding with_code with_token with_claims authorize session_for
    with_code-signed_in_response c code redirect_to now s token claims email acl exchanged valid
          claimed row =
        rw exchanged (rw valid (rw claimed (rw row refl)))

    -- In time, the sign-in lands; once the cookies have expired, it is turned down.
    abbrev pub Ends : Bool → Text → Text → ℕ → Result SigninResponse → Type 0
    Ends true email next now answer = IsLanding email next now answer
    Ends false email next now answer =
        answer ≡ ok (error_response 400 (codes "Sign-in session expired or was forged."))

    module _ (b : ℕ) (state : Text) (c : ℕ) (code : Text) (now : ℕ) (s : r.State)
        (cookies : Text → Option Text) (on : is_enabled google ≡ true) where
      turned_down :
          cookies state_cookie ≡ none
          → oauth_callback google hmac session_secret dumps r (c ∷ code) (b ∷ state) cookies now s
            ≡ ok (error_response 400 (codes "Sign-in session expired or was forged."))
      unfolding oauth_callback verify_state_token
      turned_down gone = rw on (rw gone refl)

      let_in :
          (redirect_to : Option Text) {answer : SigninResponse}
          → all (λ a. ltb a 128) (b ∷ state) ≡ true
          → cookies state_cookie ≡ some (b ∷ state)
          → cookies redirect_cookie ≡ redirect_to
          → with_code google hmac session_secret dumps r (c ∷ code) redirect_to now s ≡ ok answer
          → oauth_callback google hmac session_secret dumps r (c ∷ code) (b ∷ state) cookies now s
            ≡ ok answer
      unfolding oauth_callback verify_state_token
      let_in redirect_to ascii kept left signed =
          rw on (rw kept (rw (compare_digest_refl (b ∷ state) ascii) (rw left signed)))

    -- A sign-in that oauth_login began with an ASCII state token, in a browser without cookies,
    -- and that comes back from Google over HTTPS with a code for which there is a valid token of
    -- an email with an ACL row: within 600 seconds it ends with the session cookie of that email
    -- and no other, on the page it began at where that is a path of this site, and on /admin/
    -- where it is not; later, when the browser has dropped the cookies, it is turned down with
    -- 400.
    pub oauth_callback-oauth_login :
        (began b : ℕ) (state next : Text) (login : SigninResponse)
        → all (λ a. ltb a 128) (b ∷ state) ≡ true
        → oauth_login google (b ∷ state) next ≡ ok login
        → (c : ℕ) (code : Text) (now : ℕ) (s : r.State) (token : Value) (claims : Claims)
          (email : Text) (acl : Bytes)
        → exchange_code_for_id_token google (c ∷ code) ≡ ok (some token)
        → validate_id_token google token ≡ ok (some claims)
        → claims.email ≡ some email
        → stored (r.get (admin_key email) s) ≡ some acl
        → Ends (ltb now (began + 600)) email next now (
            oauth_callback google hmac session_secret dumps r
              (c ∷ code)
              (b ∷ state)
              (jar began (callback_at now) login.cookies)
              now
              s)
    unfolding signed_in_response
    oauth_callback-oauth_login began b state next login ascii begun c code now s token claims email
          acl exchanged valid claimed row =
        let (on, kept, left) = oauth_login_lem google began now (b ∷ state) next login begun in
        let cookies = jar began (callback_at now) login.cookies in
        elim (Bool-cases (ltb now (began + 600))) [
          | inr late ↦ rw late (turned_down b state c code now s cookies on (kept ∙ rw late refl))
          | inl early ↦
              let redirect_to = if is_same_origin next then some next else none in
              let signed =
                with_code-signed_in_response c code redirect_to now s token claims email acl
                  exchanged valid claimed row in
              let landed =
                let_in b state c code now s cookies on redirect_to ascii (kept ∙ rw early refl)
                  (left ∙ rw early refl) signed in
              rw early (
                (
                  signed_in_response google hmac session_secret dumps email redirect_to now,
                  landed,
                  ap redirect (redirect_target-landing next),
                  refl,
                ))
        ]
