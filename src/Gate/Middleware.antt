-- ===== src/Gate/Middleware.antt =====
-- admin_auth_middleware of backend/src/main.py. The handler behind it is a parameter: what it does to
-- the state and what it answers to the admin that the middleware found. `urlencode` is urllib's.
use stra2us.Prelude.{
  ℕ, ℤ, Text, Bytes, codes, Bool, true, false, List, [], ◌∷◌, ◌++◌, Option, none, some, not, ◌&&◌,
  text_eq, starts_with, split, if◌then◌else◌,
}
use stra2us.Result.{Result, ok, err, fault, ◌>>=◌, guard, ◌>>◌}
use stra2us.Builtins.{b64decode, decode}
use stra2us.Value.{Value, str}
use stra2us.Exec.{Exec, pure, raise}
use stra2us.Device.{or_raise}
use stra2us.Backup.{truthy}
use stra2us.Lint.{is_in}
use stra2us.Session.{verify_session_token, generate_session_token}
use stra2us.Session.Passwords.{cut, verify_password}
use stra2us.Gate.{path_needs_admin_auth}
use stra2us.Gate.Origin.{HttpRequest, Environment, csrf_origin_ok, is_browser_host}
pub mod Vouched
pub mod Liveness

-- The answers: 403, the handler's own, the handler's with a session cookie, 302 and 401.
pub data Answer (R : Type 0) : Type 0 where
  cross_origin : Answer R
  served : R → Answer R
  signed_in : R → Text → Answer R
  redirect : Text → Answer R
  challenge : Answer R

-- _STATE_CHANGING_METHODS
abbrev pub state_changing_methods : List Text
state_changing_methods = codes "POST" ∷ codes "PUT" ∷ codes "PATCH" ∷ codes "DELETE" ∷ []

abbrev pub second_piece : List Text → Option Text
second_piece (_ ∷ piece ∷ _) = some piece
second_piece _ = none

-- What stands behind `Basic `: the user's name and password.
unfoldable pub credentials : Text → Result (Text × Text)
unfolding cut split
credentials auth_header = do
  encoded_creds ← or_raise fault (second_piece (split b' ' auth_header))
  bytes ← or_raise fault (b64decode encoded_creds)
  decoded_creds ← or_raise fault (decode bytes)
  or_raise fault (cut b':' decoded_creds)

-- What the process knows: its secrets, the htpasswd file, its libraries.
pub record Process : Type 0 where
  pub hmac : Bytes → Bytes → Bytes
  pub sha256 : Bytes → Bytes
  pub session_secret : Text
  pub htpasswd : Option (List Text)
  pub dumps : Value → Text
  pub loads : Bytes → Option Value
  pub repr : Value → Text
  pub truncate : Text → Option ℤ
  pub hostname : Text → Result (Option Text)
  pub urlencode : Text → Text → Text

module _ (process : Process) where
  abbrev pub if_truthy : Option Value → Option Value
  if_truthy none = none
  if_truthy (some v) = if truthy v then some v else none

  -- The user of the session cookie.
  unfoldable pub cookie_user : ℕ → Option Text → Option Value
  unfolding truthy
  cookie_user now none = none
  cookie_user now (some []) = none
  cookie_user now (some (c ∷ cookie)) = if_truthy (
      verify_session_token process.hmac process.session_secret process.loads process.repr
        process.truncate now (c ∷ cookie))

  -- An exception in the check of the password falls through, too.
  abbrev pub verified : Text × Text → Result Bool → Option Text
  verified (username, _) (ok true) = some username
  verified _ _ = none

  abbrev pub user_of : Result (Text × Text) → Option Text
  user_of (err _) = none
  user_of (ok (username, password)) =
      verified (username, password)
        (verify_password process.sha256 process.htpasswd username password)

  -- The user whom the Authorization header vouches for.
  unfoldable pub basic_user : Option Text → Option Text
  unfolding credentials
  basic_user none = none
  basic_user (some auth_header) =
      if starts_with (codes "Basic ") auth_header then user_of (credentials auth_header) else none

  module _ (env : Environment) {S R : Type 0} (call_next : Option Value → Exec S R) where
    abbrev pub target : HttpRequest → Text
    target request = elim request.query [
      | [] ↦ request.path
      | (c ∷ query) ↦ request.path ++ codes "?" ++ c ∷ query
    ]

    unfoldable pub turned_away : HttpRequest → Answer R
    turned_away request =
        if is_browser_host env request && env.oauth_enabled
        then redirect
            (codes "/oauth/google/login?" ++ process.urlencode (codes "next") (target request))
        else challenge

    abbrev pub pass_on : Option Value → Exec S (Answer R)
    pass_on user s =
        let (result, t) = call_next user s in
        elim result [ ok response ↦ (ok (served response), t) | err e ↦ (err e, t) ]

    -- The handler runs inside the `try`: what it raises ends in the answer for an unknown user.
    unfoldable pub sign_in : ℕ → Text → HttpRequest → Exec S (Answer R)
    unfolding turned_away
    sign_in now username request s =
        let (result, t) = call_next (some (str username)) s in
        elim result [
          | ok response ↦
              let token =
                generate_session_token process.hmac process.session_secret process.dumps now
                  username in
              (ok (signed_in response token), t)
          | err e ↦ (ok (turned_away request), t)
        ]

    unfoldable pub authenticate : ℕ → HttpRequest → Exec S (Answer R)
    unfolding cookie_user basic_user sign_in turned_away
    authenticate now request = elim (cookie_user now request.admin_session) [
      | some user ↦ pass_on (some user)
      | none ↦ elim (basic_user request.authorization) [
        | some username ↦ sign_in now username request
        | none ↦ pure (turned_away request)
      ]
    ]

    -- The test of the Origin, of the requests that it is made for.
    abbrev pub is_cross_origin : HttpRequest → Result Bool
    is_cross_origin request =
        if is_in request.method state_changing_methods && path_needs_admin_auth request.path
        then (csrf_origin_ok process.hostname env request >>= λ same. ok (not same))
        else ok false

    unfoldable pub admin_auth_middleware : ℕ → HttpRequest → Exec S (Answer R)
    unfolding authenticate
    admin_auth_middleware now request = elim (is_cross_origin request) [
      | err e ↦ raise e
      | ok true ↦ pure cross_origin
      | ok false ↦
          if path_needs_admin_auth request.path then authenticate now request else pass_on none
    ]
