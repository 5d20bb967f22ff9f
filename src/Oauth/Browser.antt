-- ===== src/Oauth/Browser.antt =====
-- What a browser keeps of the cookies that oauth_login of backend/src/api/routes_oauth.py sets, and
-- sends back with the callback. It follows the attributes of the cookies, as the standard says; the
-- quoting of a value by http.cookies is undone when Starlette reads it.
use mathlib.Core.Path.{subst}
use stra2us.Prelude.{
  ℕ, Text, codes, Bool, true, false, List, [], ◌∷◌, Option, none, some, not, ◌&&◌, ◌||◌, ◌+◌, ◌≡◌,
  refl, arith, text_eq, ltb, all, starts_with, if◌then◌else◌,
}
use stra2us.Result.{ok, fault, guard, >>=-eq-ok, >>-eq-ok}
use stra2us.Oauth.{Google, is_set, is_enabled, build_authorize_url}
use stra2us.Oauth.Inversion.{refused-eq-ok}
use stra2us.Oauth.Routes.{
  SetCookie, SigninResponse, cookie, state_cookie, redirect_cookie, is_same_origin, is_settable,
  login_response, oauth_login,
}

-- A later request of the browser: when, how and where.
pub record Visit : Type 0 where
  pub at : ℕ
  pub https : Bool
  pub path : Text

-- Google sends the browser back to here.
abbrev pub callback_at : ℕ → Visit
callback_at now = record { at = now; https = true; path = codes "/oauth/google/callback" }

-- Whether a browser that got the cookie at `began` sends it with a visit to which another site has led
-- it: not once the cookie has expired, not without TLS if it is Secure, not outside its path, and not
-- if it is SameSite=Strict. The paths of the cookies end in a slash.
abbrev pub is_sent : ℕ → Visit → SetCookie → Bool
is_sent began visit c =
    ltb visit.at (began + c.max_age)
    && (not c.secure || visit.https)
    && starts_with c.path visit.path
    && not (text_eq c.samesite (codes "strict"))

-- The cookies of a browser that had none before a response at `began`.
abbrev pub jar : ℕ → Visit → List SetCookie → Text → Option Text
jar began visit [] key = none
jar began visit (c ∷ cookies) key =
    if text_eq c.key key && is_sent began visit c then some c.value else jar began visit cookies key

if-and_true :
    {A : Type 0} (b : Bool) (x y : A) → (if b then x else y) ≡ (if b && true then x else y)
if-and_true true x y = refl
if-and_true false x y = refl

module _ (google : Google) where
  sent_lem : (early secure : Bool) → (early && (not secure || true) && true && true) ≡ early
  sent_lem true true = refl
  sent_lem true false = refl
  sent_lem false secure = refl

  module _ (began now : ℕ) where
    is_sent-cookie :
        (key value : Text)
        → is_sent began (callback_at now) (cookie google key value 600) ≡ ltb now (began + 600)
    unfolding starts_with text_eq
    is_sent-cookie key value =
        sent_lem (ltb now (began + 600)) (not (is_set google (codes "STRA2US_COOKIE_INSECURE")))

    jar-redirect :
        (b : Bool) (next : Text)
        → (jar began
              (callback_at now)
              (if b then cookie google redirect_cookie next 600 ∷ [] else [])
              redirect_cookie
            ≡ (if ltb now (began + 600) && b then some next else none))
          × (jar began
                (callback_at now)
                (if b then cookie google redirect_cookie next 600 ∷ [] else [])
                state_cookie
              ≡ none)
    unfolding text_eq
    jar-redirect true next = (
      rw (is_sent-cookie redirect_cookie next)
          (if-and_true (ltb now (began + 600)) (some next) none),
      refl,
    )
    jar-redirect false next = (ground arith, refl)

    jar-login_response :
        (auth_url state next : Text)
        → (jar began
              (callback_at now)
              (login_response google auth_url state next).cookies
              state_cookie
            ≡ (if ltb now (began + 600) then some state else none))
          × (jar began
                (callback_at now)
                (login_response google auth_url state next).cookies
                redirect_cookie
              ≡ (if ltb now (began + 600) && is_same_origin next then some next else none))
    unfolding login_response text_eq
    jar-login_response auth_url state next =
        let (second, other) = jar-redirect (is_same_origin next) next in
        (rw (is_sent-cookie state_cookie state) (rw other refl), second)

    pub oauth_login_lem :
        (state next : Text) (login : SigninResponse)
        → oauth_login google state next ≡ ok login
        → (is_enabled google ≡ true)
          × (jar began (callback_at now) login.cookies state_cookie
              ≡ (if ltb now (began + 600) then some state else none))
          × (jar began (callback_at now) login.cookies redirect_cookie
              ≡ (if ltb now (began + 600) && is_same_origin next then some next else none))
    unfolding oauth_login
    oauth_login_lem state next login h =
        let (on, h1) = refused-eq-ok (is_enabled google) h in
        let (auth_url, built, h2) = >>=-eq-ok (build_authorize_url google state) _ h1 in
        let response = login_response google auth_url state next in
        let (_, h3) =
          >>-eq-ok (guard (all (is_settable google) response.cookies) fault) (ok response) h2 in
        let same : response ≡ login = cc in
        let early = ltb now (began + 600) in
        let (first, second) = jar-login_response auth_url state next in
        (
          on,
          subst
              (λ x.
                jar began (callback_at now) x.cookies state_cookie
                ≡ (if early then some state else none))
              same first,
          subst
              (λ x.
                jar began (callback_at now) x.cookies redirect_cookie
                ≡ (if early && is_same_origin next then some next else none))
              same second,
        )
