-- ===== src/Oauth/Routes.antt =====
-- backend/src/api/routes_oauth.py: the start of a sign-in and Google's way back. The HTML around the
-- texts of a page and the details of the error pages are not modelled, nor is the telemetry.
use stra2us.Prelude.{
  ℕ, Text, codes, Bool, true, List, [], ◌∷◌, ◌++◌, Option, none, some, not, ◌&&◌, ◌==◌, Bytes,
  starts_with, all, ltb, if◌then◌else◌,
}
use stra2us.Result.{Result, ok, err, http, fault, guard, ◌>>=◌, ◌>>◌}
use stra2us.Value.{Value}
use stra2us.Redis.{Redis}
use stra2us.Device.{stored}
use stra2us.Backup.Restore.{admin_key}
use stra2us.Session.{generate_session_token}
use stra2us.Oauth.{
  Google, Claims, verify_state_token, is_set, is_enabled, build_authorize_url,
  exchange_code_for_id_token, validate_id_token,
}

pub record SetCookie : Type 0 where
  pub key : Text
  pub value : Text
  pub max_age : ℕ
  pub httponly : Bool
  pub secure : Bool
  pub samesite : Text
  pub path : Text

pub data Content : Type 0 where
  redirect : Text → Content
  unauthorized_page : Text → Content
  error_page : Text → Content

pub record SigninResponse : Type 0 where
  pub status_code : ℕ
  pub content : Content
  pub cookies : List SetCookie
  pub deleted : List Text

abbrev pub state_cookie : Text
state_cookie = codes "oauth_state"

abbrev pub redirect_cookie : Text
redirect_cookie = codes "oauth_redirect_to"

-- `.replace("<", "&lt;").replace(">", "&gt;")`
unfoldable pub escape_angles : Text → Text
escape_angles [] = []
escape_angles (c ∷ s) =
    (if c == 60 then codes "&lt;" else if c == 62 then codes "&gt;" else c ∷ []) ++ escape_angles s

-- `starts_with("/") and not starts_with("//")`, of a text that is not empty.
unfoldable pub is_same_origin : Text → Bool
unfolding starts_with
is_same_origin next = starts_with (codes "/") next && not (starts_with (codes "//") next)

unfoldable pub unauthorized_response : Text → SigninResponse
unfolding escape_angles
unauthorized_response email = record {
  status_code = 403;
  content = unauthorized_page (escape_angles email);
  cookies = [];
  deleted = state_cookie ∷ redirect_cookie ∷ [];
}

abbrev pub error_response : ℕ → Text → SigninResponse
error_response status title = record {
  status_code = status;
  content = error_page title;
  cookies = [];
  deleted = [];
}

-- Where the callback sends the browser.
unfoldable pub redirect_target : Option Text → Text
unfolding starts_with
redirect_target (some (c ∷ path)) =
    if starts_with (codes "/") (c ∷ path) then c ∷ path else codes "/admin/"
redirect_target _ = codes "/admin/"

module _ (google : Google) where
  abbrev pub cookie : Text → Text → ℕ → SetCookie
  cookie key value max_age = record {
    key = key;
    value = value;
    max_age = max_age;
    httponly = true;
    secure = not (is_set google (codes "STRA2US_COOKIE_INSECURE"));
    samesite = codes "lax";
    path = codes "/";
  }

  unfoldable pub login_response : Text → Text → Text → SigninResponse
  unfolding is_same_origin
  login_response auth_url state next = record {
    status_code = 302;
    content = redirect auth_url;
    cookies =
        cookie state_cookie state 600
        ∷ (if is_same_origin next then cookie redirect_cookie next 600 ∷ [] else []);
    deleted = [];
  }

  -- Starlette encodes a cookie as Latin-1, and raises where that cannot be done.
  abbrev pub is_settable : SetCookie → Bool
  is_settable c = all (λ x. ltb x 256) c.value

  -- `state` is the token that generate_state_token draws.
  unfoldable pub oauth_login : Text → Text → Result SigninResponse
  unfolding is_enabled build_authorize_url login_response
  oauth_login state next =
      if not (is_enabled google)
      then err (http 503)
      else build_authorize_url google state >>= λ auth_url.
          (guard (all is_settable (login_response auth_url state next).cookies) fault
            >> ok (login_response auth_url state next))

  module _ (hmac : Bytes → Bytes → Bytes) (session_secret : Text) (dumps : Value → Text) where
    -- The session cookie, whose value is base64, and the way to the page the sign-in began at.
    unfoldable pub signed_in_response : Text → Option Text → ℕ → SigninResponse
    unfolding redirect_target generate_session_token
    signed_in_response email redirect_to now = record {
      status_code = 302;
      content = redirect (redirect_target redirect_to);
      cookies =
          cookie (codes "admin_session")
            (generate_session_token hmac session_secret dumps now email) 604800
          ∷ [];
      deleted = state_cookie ∷ redirect_cookie ∷ [];
    }

    -- Whoever has an ACL row gets a session.
    unfoldable pub session_for : Text → Option Text → ℕ → Option Bytes → SigninResponse
    unfolding signed_in_response unauthorized_response
    session_for email redirect_to now none = unauthorized_response email
    session_for email redirect_to now (some acl_raw) = signed_in_response email redirect_to now

    module _ (r : Redis) where
      -- The steps behind the validation.
      unfoldable pub authorize : Option Text → Option Text → ℕ → r.State → Result SigninResponse
      unfolding session_for
      authorize none redirect_to now s = err fault
      authorize (some email) redirect_to now s =
          ok (session_for email redirect_to now (stored (r.get (admin_key email) s)))

      unfoldable pub with_claims : Option Claims → Option Text → ℕ → r.State → Result SigninResponse
      unfolding authorize
      with_claims none redirect_to now s =
          ok (error_response 401 (codes "Sign-in token validation failed."))
      with_claims (some claims) redirect_to now s = authorize claims.email redirect_to now s

      unfoldable pub with_token : Option Value → Option Text → ℕ → r.State → Result SigninResponse
      unfolding validate_id_token with_claims
      with_token none redirect_to now s =
          ok (error_response 502 (codes "Couldn't reach Google to complete sign-in."))
      with_token (some raw_id_token) redirect_to now s =
          validate_id_token google raw_id_token >>= λ claims. with_claims claims redirect_to now s

      -- The steps behind the check of the state.
      unfoldable pub with_code : Text → Option Text → ℕ → r.State → Result SigninResponse
      unfolding exchange_code_for_id_token with_token
      with_code [] redirect_to now s =
          ok (error_response 400 (codes "Sign-in canceled or rejected."))
      with_code (c ∷ code) redirect_to now s =
          exchange_code_for_id_token google (c ∷ code) >>= λ token.
          with_token token redirect_to now s

      unfoldable pub oauth_callback :
          Text → Text → (Text → Option Text) → ℕ → r.State → Result SigninResponse
      unfolding is_enabled verify_state_token with_code
      oauth_callback code state cookies now s =
          if not (is_enabled google)
          then err (http 503)
          else verify_state_token state (cookies state_cookie) >>= λ same.
              if same
              then with_code code (cookies redirect_cookie) now s
              else ok (error_response 400 (codes "Sign-in session expired or was forged."))
