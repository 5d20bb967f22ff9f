-- ===== src/Result.antt =====
-- Errors as values. A handler that raises `HTTPException(status_code, ...)` returns `http status`
-- (the detail text is not modelled); any other exception that leaves the handler, which the
-- framework answers with 500, is `fault`.
use stra2us.Prelude.{ℕ, ◌≡◌, refl, Bool, true, false, ◌⊎◌, inl, inr}

pub data Failure : Type 0 where
  http : ℕ → Failure
  fault : Failure

pub data Result {ℓ} (A : Type ℓ) : Type ℓ where
  err : Failure → Result A
  ok : A → Result A

-- The result of a check that returns nothing.
abbrev pub Checked : Type 0
Checked = Result (Unit {0})

-- A check that raises unless the test holds.
abbrev pub guard : Bool → Failure → Checked
guard holds e = elim holds [ false ↦ err e | true ↦ ok tt ]

module _ {ℓ κ} {A : Type ℓ} {B : Type κ} where
  infixl 5 ◌>>=◌
  abbrev pub ◌>>=◌ : Result A → (A → Result B) → Result B
  err e >>= next = err e
  ok a >>= next = next a

  -- What a chain that succeeds has passed through.
  pub >>=-eq-ok :
      (m : Result A) (next : A → Result B) {b : B}
      → (m >>= next) ≡ ok b
      → (a : A) × (m ≡ ok a) × (next a ≡ ok b)
  >>=-eq-ok (err e) next h = cc
  >>=-eq-ok (ok a) next h = (a, refl, h)

infixl 5 ◌>>◌
abbrev pub ◌>>◌ {κ} : {B : Type κ} → Checked → Result B → Result B
check >> next = check >>= λ _. next

pub Result-cases {ℓ} :
    {A : Type ℓ} (m : Result A) → ((e : Failure) × (m ≡ err e)) ⊎ ((a : A) × (m ≡ ok a))
Result-cases (err e) = inl (e, refl)
Result-cases (ok a) = inr (a, refl)

-- The same of a check and what follows it.
pub >>-eq-ok {κ} :
    {B : Type κ} (check : Checked) (next : Result B) {b : B}
    → (check >> next) ≡ ok b
    → (check ≡ ok tt) × (next ≡ ok b)
>>-eq-ok (err e) next h = cc
>>-eq-ok (ok _) next h = (refl, h)
