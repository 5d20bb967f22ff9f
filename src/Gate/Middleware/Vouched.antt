-- ===== src/Gate/Middleware/Vouched.antt =====
-- Who gets past the middleware.
use stra2us.Prelude.{
  arith, not, ◌&&◌, if◌then◌else◌, ℕ, Text, Bool, true, false, Option, none, some, ◌≡◌, ◌⊎◌, refl,
  sym, ap, ◌∙◌, inl, inr, Option-cases, [], ◌∷◌,
}
use stra2us.Result.{Failure, Result, ok, err, ◌>>=◌, Result-cases}
use stra2us.Value.{Value, str}
use stra2us.Exec.{Exec}
use stra2us.Lint.{is_in}
use stra2us.Session.{verify_session_token}
use stra2us.Session.Passwords.{verify_password}
use stra2us.Gate.{path_needs_admin_auth}
use stra2us.Gate.Origin.{HttpRequest, Environment, csrf_origin_ok}
use stra2us.Gate.Middleware.{
  Process, Answer, cross_origin, served, signed_in, state_changing_methods, credentials,
  cookie_user, basic_user, verified, user_of, turned_away, pass_on, sign_in, authenticate,
  is_cross_origin, admin_auth_middleware,
}

-- A session token that names the user.
abbrev pub HasToken : Process → ℕ → HttpRequest → Value → Type 0
HasToken process now request user =
    (token : Text) × (request.admin_session ≡ some token)
    × (verify_session_token process.hmac process.session_secret process.loads process.repr
          process.truncate now token
        ≡ some user)

-- A password that the htpasswd file takes.
abbrev pub HasPassword : Process → HttpRequest → Value → Type 0
HasPassword process request user =
    (header username password : Text) × (request.authorization ≡ some header)
    × (credentials header ≡ ok (username, password))
    × (verify_password process.sha256 process.htpasswd username password ≡ ok true)
    × (user ≡ str username)

abbrev pub IsRefusal : {R : Type 0} → Answer R → Type 0
IsRefusal (served _) = ⊥
IsRefusal (signed_in _ _) = ⊥
IsRefusal _ = Unit

tested-err :
    (changing guarded : Bool) (test : Result Bool) {e : Failure}
    → (if changing && guarded then (test >>= λ same. ok (not same)) else ok false) ≡ err e
    → (test ≡ err e) × (changing ≡ true)
tested-err true true (err e) h = (h, refl)
tested-err true true (ok same) h = cc
tested-err true false test h = cc
tested-err false guarded test h = cc

module _ (process : Process) where
  cookie_user-HasToken :
      (now : ℕ) (cookie : Option Text) (user : Value)
      → cookie_user process now cookie ≡ some user
      → (token : Text) × (cookie ≡ some token)
        × (verify_session_token process.hmac process.session_secret process.loads process.repr
              process.truncate now token
            ≡ some user)
  unfolding cookie_user
  cookie_user-HasToken now none user h = cc
  cookie_user-HasToken now (some []) user h = cc
  cookie_user-HasToken now (some (c ∷ cookie)) user h = (c ∷ cookie, refl, ground arith)

  verified_ok :
      (username password user : Text) (found : Result Bool)
      → verified process (username, password) found ≡ some user
      → (username ≡ user) × (found ≡ ok true)
  verified_ok username password user (ok true) h = (cc, refl)
  verified_ok username password user _ h = cc

  user_of_ok :
      (found : Result (Text × Text)) (user : Text)
      → user_of process found ≡ some user
      → (password : Text) × (found ≡ ok (user, password))
        × (verify_password process.sha256 process.htpasswd user password ≡ ok true)
  user_of_ok (err e) user h = cc
  user_of_ok (ok (username, password)) user h =
      let (same, right) =
        verified_ok username password user
          (verify_password process.sha256 process.htpasswd username password) h in
      (
        password,
        ap (λ u. ok (u, password)) same,
        ap (λ u. verify_password process.sha256 process.htpasswd u password) (sym same) ∙ right,
      )

  basic_user-credentials :
      (header : Option Text) (user : Text)
      → basic_user process header ≡ some user
      → (text password : Text) × (header ≡ some text)
        × (credentials text ≡ ok (user, password))
        × (verify_password process.sha256 process.htpasswd user password ≡ ok true)
  unfolding basic_user
  basic_user-credentials none user h = cc
  basic_user-credentials (some text) user h =
      let (password, e, v) = user_of_ok (credentials text) user (ground arith) in
      (text, password, refl, e, v)

  module _ (env : Environment) {S R : Type 0} (call_next : Option Value → Exec S R) where
    turned_away-IsRefusal :
        (request : HttpRequest) → IsRefusal (turned_away process env call_next request)
    unfolding turned_away
    turned_away-IsRefusal request = ground arith

    pass_on-state :
        (user : Option Value) (s : S)
        → (pass_on process env call_next user s).1 ≡ (call_next user s).1
    pass_on-state user s = elim (Result-cases (call_next user s).0) [
      | inl (failure, e) ↦ rw (e, pass_on) refl
      | inr (response, e) ↦ rw (e, pass_on) refl
    ]

    sign_in-state :
        (now : ℕ) (username : Text) (request : HttpRequest) (s : S)
        → (sign_in process env call_next now username request s).1
          ≡ (call_next (some (str username)) s).1
    unfolding sign_in
    sign_in-state now username request s =
        elim (Result-cases (call_next (some (str username)) s).0) [
          | inl (failure, e) ↦ rw (e, sign_in) refl
          | inr (response, e) ↦ rw (e, sign_in) refl
        ]

    -- The request is turned away and the state kept, or the handler runs for the user.
    abbrev pub Guarded : ℕ → HttpRequest → S → (Result (Answer R)) × S → Type 0
    Guarded now request s (answer, t) =
        ((t ≡ s) × (a : Answer R) × (answer ≡ ok a) × IsRefusal a)
        ⊎ ((user : Value) × (HasToken process now request user ⊎ HasPassword process request user)
            × (t ≡ (call_next (some user) s).1))

    authenticate-Guarded :
        (now : ℕ) (request : HttpRequest) (s : S)
        → Guarded now request s (authenticate process env call_next now request s)
    unfolding authenticate
    authenticate-Guarded now request s =
        elim (Option-cases (cookie_user process now request.admin_session)) [
          | inr (user, e) ↦
              rw (e, authenticate)
                (inr (
                  user,
                  inl (cookie_user-HasToken now request.admin_session user e),
                  pass_on-state (some user) s,
                ))
          | inl e ↦ elim (Option-cases (basic_user process request.authorization)) [
            | inl f ↦
                rw (e, authenticate)
                  (rw f (
                    inl (
                      refl,
                      turned_away process env call_next request,
                      refl,
                      turned_away-IsRefusal request,
                    )))
            | inr (username, f) ↦
                let (header, password, present, decoded, right) =
                  basic_user-credentials request.authorization username f in
                rw (e, authenticate)
                  (rw f (
                    inr (
                      str username,
                      inr (header, username, password, present, decoded, right, refl),
                      sign_in-state now username request s,
                    )))
          ]
        ]

    -- The Origin of the request, or an origin of the configuration, cannot be parsed.
    abbrev pub IsUnreadable : HttpRequest → S → (Result (Answer R)) × S → Type 0
    IsUnreadable request s (answer, t) =
        (e : Failure) × (csrf_origin_ok process.hostname env request ≡ err e)
        × (is_in request.method state_changing_methods ≡ true)
        × (answer ≡ err e)
        × (t ≡ s)

    -- What the test of the Origin has come to on a guarded path.
    is_cross_origin-err :
        (request : HttpRequest) (e : Failure)
        → is_cross_origin process env call_next request ≡ err e
        → (csrf_origin_ok process.hostname env request ≡ err e)
          × (is_in request.method state_changing_methods ≡ true)
    is_cross_origin-err request e h =
        tested-err (is_in request.method state_changing_methods)
          (path_needs_admin_auth request.path) (csrf_origin_ok process.hostname env request) h

    is_cross_origin-foreign :
        (request : HttpRequest)
        → path_needs_admin_auth request.path ≡ true
        → csrf_origin_ok process.hostname env request ≡ ok false
        → is_in request.method state_changing_methods ≡ true
        → is_cross_origin process env call_next request ≡ ok true
    is_cross_origin-foreign request guarded foreign changing =
        rw changing (rw guarded (rw foreign refl))

    -- A request for a guarded path either is turned away with 403, 302 or 401 and leaves the state
    -- alone, or runs the handler, once, for a user whom its session cookie or its password vouches
    -- for, or is a POST, PUT, PATCH or DELETE whose Origin, or an origin of the configuration that
    -- it is compared with, makes urlparse raise, and then ends in that exception with the state
    -- left alone; a POST, PUT, PATCH or DELETE whose Origin names a host that is not allowed is
    -- turned away with 403.
    pub admin_auth_middleware-Guarded :
        (now : ℕ) (request : HttpRequest) (s : S)
        → path_needs_admin_auth request.path ≡ true
        → (Guarded now request s (admin_auth_middleware process env call_next now request s)
            ⊎ IsUnreadable request s (admin_auth_middleware process env call_next now request s))
          × (csrf_origin_ok process.hostname env request ≡ ok false
              → is_in request.method state_changing_methods ≡ true
              → admin_auth_middleware process env call_next now request s ≡ (ok cross_origin, s))
    unfolding admin_auth_middleware
    admin_auth_middleware-Guarded now request s guarded = (
      elim (Result-cases (is_cross_origin process env call_next request)) [
        | inl (e, failed) ↦
            let (unread, changing) = is_cross_origin-err request e failed in
            rw (failed, admin_auth_middleware) (inr (e, unread, changing, refl, refl))
        | inr (true, crosses) ↦
            rw (crosses, admin_auth_middleware) (inl (inl (refl, cross_origin, refl, tt)))
        | inr (false, same) ↦
            rw (same, admin_auth_middleware) (rw guarded (inl (authenticate-Guarded now request s)))
      ],
      λ foreign changing.
          rw (is_cross_origin-foreign request guarded foreign changing, admin_auth_middleware) refl,
    )
