-- ===== src/Gate/Tests.antt =====
-- Examples of the middleware: a sign-in with a password, and a request with the cookie.
use stra2us.Prelude.{
  ℕ, ◌+◌, arith, Text, Bytes, codes, Bool, true, false, List, [], ◌∷◌, ◌++◌, Option, none, some,
  ◌≡◌, ◌≢◌, ◌⊎◌, refl, leb, All, text_eq,
}
use stra2us.Result.{ok, err, fault}
use stra2us.Builtins.{encode}
use stra2us.Value.{Value, str}
use stra2us.Exec.{Exec}
use stra2us.Security.Signatures.{IsBytes}
use stra2us.Lint.{is_in}
use stra2us.Session.{token_dict, session_signature}
use stra2us.Gate.{path_needs_admin_auth}
use stra2us.Gate.Origin.{HttpRequest, Environment, csrf_origin_ok}
use stra2us.Gate.Middleware.{
  Process, signed_in, cross_origin, state_changing_methods, basic_user, pass_on,
  admin_auth_middleware,
}
use stra2us.Gate.Middleware.Vouched.{Guarded, IsUnreadable, admin_auth_middleware-Guarded}
use stra2us.Gate.Middleware.Liveness.{IsWritten, IsAdmitted, admin_auth_middleware_session}
use stra2us.Fixtures.{digest, digest-IsBytes}

digest-ne-nil : (k m : Bytes) → digest k m ≢ []
digest-ne-nil k m h = cc h

abbrev hash : Text
hash = codes "0102"

abbrev token : Value
token = token_dict (codes "jo") (100 + 86400) (
    session_signature digest (codes "s")
      (codes "jo" ++ codes ":" ++ stra2us.Builtins.decimal (100 + 86400)))

abbrev process : Process
process = record {
  hmac = digest;
  sha256 = λ _. 1 ∷ 2 ∷ [];
  session_secret = codes "s";
  htpasswd = some ((codes "jo:ab$0102") ∷ []);
  dumps = λ _. codes "{}";
  loads = λ _. some token;
  repr = λ _. [];
  truncate = λ _. none;
  hostname = λ url. ok (some url);
  urlencode = λ name value. name ++ codes "=" ++ value;
}

abbrev env : Environment
env = record { browser_host = codes "h"; allowed_origins = []; oauth_enabled = true }

-- `Basic am86cA==` is jo with the password p.
abbrev first : HttpRequest
first = record {
  method = codes "POST";
  path = codes "/api/admin/keys";
  query = [];
  host = some (codes "h");
  x_forwarded_host = none;
  origin = none;
  admin_session = none;
  authorization = some (codes "Basic am86cA==");
}

-- A handler that counts.
abbrev call_next : Option Value → Exec ℕ Text
call_next user n = (ok (codes "done"), n + 1)

first-guarded : path_needs_admin_auth first.path ≡ true
unfolding path_needs_admin_auth stra2us.Prelude.starts_with text_eq
first-guarded = refl

admin_auth_middleware-Guarded_example :
    (Guarded process env call_next 100 first 0
        (admin_auth_middleware process env call_next 100 first 0)
      ⊎ IsUnreadable process env call_next first 0
          (admin_auth_middleware process env call_next 100 first 0))
    × (csrf_origin_ok process.hostname env first ≡ ok false
        → is_in first.method state_changing_methods ≡ true
        → admin_auth_middleware process env call_next 100 first 0 ≡ (ok cross_origin, 0))
admin_auth_middleware-Guarded_example =
    admin_auth_middleware-Guarded process env call_next 100 first 0 first-guarded

-- An Origin on which urlparse raises.
admin_auth_middleware-bracket :
    admin_auth_middleware
      (record process { hostname = λ _. err fault })
      env
      call_next
      100
      (record first { origin = some (codes "http://[") })
      0
    ≡ (err fault, 0)
unfolding admin_auth_middleware text_eq path_needs_admin_auth stra2us.Prelude.starts_with
    csrf_origin_ok
admin_auth_middleware-bracket = refl

dumps-IsBytes : IsBytes (encode (process.dumps token))
unfolding encode
dumps-IsBytes = ground arith

token-IsWritten : IsWritten process token
token-IsWritten = record {
  scalar = ground arith;
  octets = dumps-IsBytes;
  nonempty = λ h. cc h;
  reads = refl;
}

first-IsAdmitted : IsAdmitted process digest-IsBytes digest-ne-nil env call_next first
unfolding path_needs_admin_auth stra2us.Prelude.starts_with text_eq csrf_origin_ok
first-IsAdmitted = (refl, refl)

first-user : basic_user process first.authorization ≡ some (codes "jo")
unfolding basic_user stra2us.Prelude.starts_with stra2us.Builtins.b64decode stra2us.Builtins.decode
    stra2us.Session.Passwords.verify_password stra2us.Builtins.strip text_eq
    stra2us.Builtins.compare_digest stra2us.Builtins.hexdigest
first-user = refl

admin_auth_middleware_session_example :
    (cookie : Text) × (admin_auth_middleware process env call_next 100 first 0
      ≡ (ok (signed_in (codes "done") cookie), 1))
    × ((now' : ℕ) (later : HttpRequest) (s' : ℕ)
        → leb now' (100 + 86400) ≡ true
        → IsAdmitted process digest-IsBytes digest-ne-nil env call_next later
        → later.admin_session ≡ some cookie
        → admin_auth_middleware process env call_next now' later s'
          ≡ pass_on process env call_next (some (str (codes "jo"))) s')
admin_auth_middleware_session_example =
    admin_auth_middleware_session process digest-IsBytes digest-ne-nil env call_next 100 b'j'
      (codes "o") first 0 1 (codes "done") token-IsWritten first-IsAdmitted refl first-user refl
