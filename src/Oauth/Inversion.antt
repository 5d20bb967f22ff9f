-- ===== src/Oauth/Inversion.antt =====
-- What the checks of a sign-in have passed on: those of the state and of the claims, from
-- backend/src/core/oauth.py, and the error pages of backend/src/api/routes_oauth.py.
use mathlib.Core.Path.{subst}
use stra2us.Prelude.{
  ℕ, Text, Bool, true, false, [], ◌∷◌, Option, none, some, not, ◌≡◌, ◌≢◌, refl, arith, ◌⊎◌, text_eq,
  if◌then◌else◌, inl, inr, text_eq_iff,
}
use stra2us.Result.{Result, ok, err, http}
use stra2us.Builtins.{compare_digest}
use stra2us.Backup.{or_none, truthy}
use stra2us.Oauth.{Claims, verify_state_token, is_google_issuer, is_given, check_claims}
use stra2us.Oauth.Routes.{SigninResponse, error_response}

-- Three tests in a row.
tests-some :
    {A : Type 0} (p q r : Bool) {a x : A}
    → (if not p then none else if not q then none else if not r then none else some a) ≡ some x
    → (a ≡ x) × (p ≡ true) × (r ≡ true)
tests-some true true true h = (cc, refl, refl)
tests-some true true false h = cc
tests-some true false r h = cc
tests-some false q r h = cc

pub check_claims_lem :
    (given : Option Claims) (claims : Claims)
    → check_claims given ≡ some claims
    → (given ≡ some claims)
      × (is_google_issuer claims.iss ≡ true)
      × (truthy (or_none claims.email_verified) ≡ true)
unfolding check_claims
check_claims_lem none claims h = cc
check_claims_lem (some given) claims h =
    let (same, google_issuer, verified) =
      tests-some (is_google_issuer given.iss) (is_given given.email)
        (truthy (or_none given.email_verified)) h in
    (
      cc,
      subst (λ c. is_google_issuer c.iss ≡ true) same google_issuer,
      subst (λ c. truthy (or_none c.email_verified) ≡ true) same verified,
    )

-- What a test that turns a request down lets through.
pub refused-eq-ok :
    {A : Type 0} (b : Bool) {next : Result A} {a : A}
    → (if not b then err (http 503) else next) ≡ ok a
    → (b ≡ true) × (next ≡ ok a)
refused-eq-ok true h = (refl, h)
refused-eq-ok false h = cc

pub if-eq-ok :
    {A : Type 0} (b : Bool) {m n : Result A} {a : A}
    → (if b then m else n) ≡ ok a
    → ((b ≡ true) × (m ≡ ok a)) ⊎ (n ≡ ok a)
if-eq-ok true h = inl (refl, h)
if-eq-ok false h = inr h

-- An error page sets no cookie.
pub error_response_lem :
    (status : ℕ) (title : Text) {response : SigninResponse}
    → ok (error_response status title) ≡ ok response
    → response.cookies ≡ []
error_response_lem status title {response} h =
    let same : error_response status title ≡ response = cc in subst (λ x. x.cookies ≡ []) same refl

compare_lem : (a b : Text) → compare_digest a b ≡ ok true → text_eq a b ≡ true
unfolding compare_digest
compare_lem a b h = ground arith

-- The callback's state is the one in the cookie.
pub verify_state_token_lem :
    (state : Text) (cookie : Option Text)
    → verify_state_token state cookie ≡ ok true
    → (state ≢ []) × (cookie ≡ some state)
unfolding verify_state_token
verify_state_token_lem [] cookie h = cc
verify_state_token_lem (c ∷ state) none h = cc
verify_state_token_lem (c ∷ state) (some []) h = cc
verify_state_token_lem (c ∷ state) (some (d ∷ cookie)) h =
    let same = (text_eq_iff (c ∷ state) (d ∷ cookie)).0 (compare_lem (c ∷ state) (d ∷ cookie) h) in
    (λ e. cc, cc)
