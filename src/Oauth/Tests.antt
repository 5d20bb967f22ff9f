-- ===== src/Oauth/Tests.antt =====
-- Examples of a sign-in, with a Google that knows one account.
use stra2us.Prelude.{
  ltb, ◌+◌, ◌++◌, ◌∷◌, Option, Text, codes, true, [], some, ◌≡◌, ◌≢◌, refl, text_eq, if◌then◌else◌,
}
use stra2us.Result.{ok, err, fault}
use stra2us.Value.{Value, str, bool, obj, field, end}
use stra2us.Redis.Memory.{memory, empty, Store}
use stra2us.Backup.Restore.{admin_key}
use stra2us.Fixtures.{digest}
use stra2us.Oauth.{Google, Claims, Reply}
use stra2us.Oauth.Routes.{
  SigninResponse, redirect_target, escape_angles, login_response, signed_in_response, oauth_login,
  oauth_callback,
}
use stra2us.Oauth.Signin.{HasVouched, oauth_callback-IsVouched}
use stra2us.Oauth.Browser.{jar, callback_at}
use stra2us.Oauth.Landing.{Ends, oauth_callback-oauth_login}

abbrev setting : Text → Text
setting name =
    if text_eq name (codes "STRA2US_GOOGLE_OAUTH_ENABLED") then codes "TRUE" else codes "x"

abbrev account : Claims
account = record {
  iss = some (codes "accounts.google.com");
  email = some (codes "jo@x");
  email_verified = some (bool true);
}

abbrev google : Google
google = record {
  getenv = λ name. some (setting name);
  urlencode = λ _. codes "q";
  post = λ _ _. some record {
    status_code = 200;
    json = some (obj (field (codes "id_token") (str (codes "t")) end));
  };
  verify_oauth2_token = λ _ _. some account;
}

abbrev dumps : Value → Text
dumps _ = codes "{}"

abbrev provisioned : Store
provisioned = memory.set (admin_key (codes "jo@x")) (codes "{}") empty

abbrev login : SigninResponse
login =
    login_response google (codes "https://accounts.google.com/o/oauth2/v2/auth?q") (codes "s1")
      (codes "/app/a")

abbrev session : SigninResponse
session =
    signed_in_response google digest (codes "s") dumps (codes "jo@x") (some (codes "/app/a")) 100

oauth_login-login : oauth_login google (codes "s1") (codes "/app/a") ≡ ok login
unfolding oauth_login text_eq
oauth_login-login = refl

-- The browser, 50 seconds later.
abbrev kept : Text → Option Text
kept = jar 50 (callback_at 100) login.cookies

oauth_callback-session :
    oauth_callback google digest
      (codes "s")
      dumps
      memory
      (codes "c")
      (codes "s1")
      kept
      100
      provisioned
    ≡ ok session
unfolding oauth_callback text_eq login_response stra2us.Value.get
oauth_callback-session = refl

session-signed : session.cookies ≢ []
unfolding signed_in_response
session-signed e = cc

oauth_callback-IsVouched_example :
    HasVouched google digest
      (codes "s")
      dumps
      memory
      (codes "c")
      (codes "s1")
      kept
      100
      provisioned
      session
oauth_callback-IsVouched_example =
    oauth_callback-IsVouched google digest (codes "s") dumps memory (codes "c") (codes "s1") kept
      100 provisioned session oauth_callback-session session-signed

oauth_callback-oauth_login_example :
    Ends google digest
      (codes "s")
      dumps
      memory
      (ltb 100 (50 + 600))
      (codes "jo@x")
      (codes "/app/a")
      100
      (oauth_callback google digest
        (codes "s")
        dumps
        memory
        (codes "c")
        (codes "s1")
        kept
        100
        provisioned)
unfolding stra2us.Oauth.exchange_code_for_id_token text_eq stra2us.Value.get
    stra2us.Oauth.validate_id_token
oauth_callback-oauth_login_example =
    oauth_callback-oauth_login google digest (codes "s") dumps memory 50 b's' (codes "1")
      (codes "/app/a") login refl oauth_login-login b'c' [] 100 provisioned (str (codes "t"))
      account (codes "jo@x") (codes "{}") refl refl refl refl

-- A `next` that no cookie can hold.
oauth_login-euro : oauth_login google (codes "s1") (codes "/" ++ 0x20ac ∷ []) ≡ err fault
unfolding oauth_login text_eq
oauth_login-euro = refl

-- A cookie with two slashes at its start is followed off the site.
redirect_target-slashes : redirect_target (some (codes "//evil.example")) ≡ codes "//evil.example"
unfolding redirect_target
redirect_target-slashes = refl

escape_angles-markup : escape_angles (codes "<b>@x") ≡ codes "&lt;b&gt;@x"
unfolding escape_angles
escape_angles-markup = refl
