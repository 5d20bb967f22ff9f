-- ===== src/Oauth.antt =====
-- backend/src/core/oauth.py: the settings, the state token, the exchange of a code for an ID token and
-- the checks on it. `requests.post`, google-auth's `verify_oauth2_token` and `urlencode` are parameters;
-- the texts of the OAuthErrors are not modelled.
pub mod Routes
pub mod Inversion
pub mod Signin
pub mod Browser
pub mod Landing
mod Tests
use stra2us.Prelude.{
  ℕ, Text, codes, Bool, true, false, List, [], ◌∷◌, ◌++◌, Option, none, some, not, ◌==◌, any,
  text_eq, if◌then◌else◌,
}
use stra2us.Result.{Result, ok, err, fault, ◌>>=◌}
use stra2us.Builtins.{compare_digest, lower}
use stra2us.Value.{Value, get}
use stra2us.Backup.{or_none, truthy}

-- The answer of Google's token endpoint; `json` is `none` where `.json()` raises.
pub record Reply : Type 0 where
  pub status_code : ℕ
  pub json : Option Value

-- The claims that the code reads; the issuer and the email of a Google token are texts.
pub record Claims : Type 0 where
  pub iss : Option Text
  pub email : Option Text
  pub email_verified : Option Value

pub record Google : Type 0 where
  pub getenv : Text → Option Text
  pub urlencode : List (Text × Text) → Text
  -- `none`: a RequestException
  pub post : Text → List (Text × Text) → Option Reply
  -- of a token and an audience; `none`: a ValueError
  pub verify_oauth2_token : Value → Text → Option Claims

-- What raises an OAuthError is `ok none`; any other exception is `err`.
abbrev pub Attempt : Type 0 → Type 0
Attempt A = Result (Option A)

abbrev pub text_or_empty : Option Text → Text
text_or_empty none = []
text_or_empty (some t) = t

unfoldable pub verify_state_token : Text → Option Text → Result Bool
unfolding compare_digest
verify_state_token (c ∷ received) (some (d ∷ stored)) = compare_digest (c ∷ received) (d ∷ stored)
verify_state_token _ _ = ok false

abbrev pub required : Option Text → Result Text
required (some (c ∷ val)) = ok (c ∷ val)
required _ = err fault

-- `iss in (...)`
unfoldable pub is_google_issuer : Option Text → Bool
is_google_issuer none = false
is_google_issuer (some iss) =
    any (text_eq iss) (codes "accounts.google.com" ∷ codes "https://accounts.google.com" ∷ [])

abbrev pub is_given : Option Text → Bool
is_given (some (c ∷ t)) = true
is_given _ = false

-- The checks on the claims that google-auth has verified.
unfoldable pub check_claims : Option Claims → Option Claims
unfolding is_google_issuer truthy
check_claims none = none
check_claims (some claims) =
    if not (is_google_issuer claims.iss)
    then none
    else if not (is_given claims.email)
    then none
    else if not (truthy (or_none claims.email_verified))
    then none
    else some claims

-- The `id_token` of a payload, unless it is missing or empty.
unfoldable pub id_token_of : Option Value → Attempt Value
unfolding truthy
id_token_of none = ok none
id_token_of (some payload) = do
  id_tok ← get (codes "id_token") payload
  ok (if truthy (or_none id_tok) then id_tok else none)

unfoldable pub read_reply : Option Reply → Attempt Value
unfolding id_token_of
read_reply none = ok none
read_reply (some reply) = if reply.status_code == 200 then id_token_of reply.json else ok none

module _ (google : Google) where
  -- `os.environ.get(name, "").lower() in ("1", "true", "yes")`
  unfoldable pub is_set : Text → Bool
  unfolding lower
  is_set name =
      any (text_eq (lower (text_or_empty (google.getenv name))))
        (codes "1" ∷ codes "true" ∷ codes "yes" ∷ [])

  unfoldable pub is_enabled : Bool
  unfolding is_set
  is_enabled = is_set (codes "STRA2US_GOOGLE_OAUTH_ENABLED")

  unfoldable pub required_env : Text → Result Text
  required_env name = required (google.getenv name)

  unfoldable pub client_id : Result Text
  unfolding required_env
  client_id = required_env (codes "STRA2US_GOOGLE_CLIENT_ID")

  unfoldable pub client_secret : Result Text
  unfolding required_env
  client_secret = required_env (codes "STRA2US_GOOGLE_CLIENT_SECRET")

  unfoldable pub redirect_uri : Result Text
  unfolding required_env
  redirect_uri = required_env (codes "STRA2US_OAUTH_REDIRECT_URI")

  unfoldable pub build_authorize_url : Text → Result Text
  unfolding client_id redirect_uri
  build_authorize_url state = do
    client ← client_id
    redirect ← redirect_uri
    ok (
        codes "https://accounts.google.com/o/oauth2/v2/auth?"
        ++ google.urlencode (
            (codes "client_id", client)
            ∷ (codes "redirect_uri", redirect)
            ∷ (codes "response_type", codes "code")
            ∷ (codes "scope", codes "openid email")
            ∷ (codes "state", state)
            ∷ (codes "prompt", codes "select_account")
            ∷ []))

  unfoldable pub exchange_code_for_id_token : Text → Attempt Value
  unfolding client_id client_secret redirect_uri read_reply
  exchange_code_for_id_token code = do
    client ← client_id
    secret ← client_secret
    redirect ← redirect_uri
    read_reply (
        google.post (codes "https://oauth2.googleapis.com/token") (
          (codes "code", code)
          ∷ (codes "client_id", client)
          ∷ (codes "client_secret", secret)
          ∷ (codes "redirect_uri", redirect)
          ∷ (codes "grant_type", codes "authorization_code")
          ∷ []))

  unfoldable pub validate_id_token : Value → Attempt Claims
  unfolding client_id check_claims
  validate_id_token raw_token = do
    client ← client_id
    ok (check_claims (google.verify_oauth2_token raw_token client))
