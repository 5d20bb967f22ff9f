-- ===== src/Exec.antt =====
-- Handlers that read and write a state and may raise: what was written before a raise stays written.
use stra2us.Prelude.{Bool, true, false, ◌≡◌, refl}
use stra2us.Result.{Failure, Result, ok, err}

abbrev pub Exec {ℓ} : Type 0 → Type ℓ → Type ℓ
Exec S A = S → (Result A) × S

abbrev pub pure : {S A : Type 0} → A → Exec S A
pure a s = (ok a, s)

abbrev pub raise : {S A : Type 0} → Failure → Exec S A
raise e s = (err e, s)

-- A computation that leaves the state alone.
abbrev pub lift : {S A : Type 0} → Result A → Exec S A
lift r s = (r, s)

abbrev pub gets : {S A : Type 0} → (S → A) → Exec S A
gets f s = (ok (f s), s)

abbrev pub modify : {S : Type 0} → (S → S) → Exec S (Unit {0})
modify f s = (ok tt, f s)

abbrev pub continue : {S A B : Type 0} → Result A → (A → Exec S B) → Exec S B
continue (ok a) f s = f a s
continue (err e) f s = (err e, s)

infixl 5 ◌>>=◌ ◌>>◌
abbrev pub ◌>>=◌ : {S A B : Type 0} → Exec S A → (A → Exec S B) → Exec S B
◌>>=◌ m f s = let (r, s') = m s in continue r f s'

abbrev pub ◌>>◌ : {S B : Type 0} → Exec S (Unit {0}) → Exec S B → Exec S B
m >> k = m >>= λ _. k

abbrev pub guard : {S : Type 0} → Bool → Failure → Exec S (Unit {0})
guard true e = pure tt
guard false e = raise e

-- Inversion of a computation that goes on after a check.
pub lift-eq-ok :
    {S A B : Type 0} (m : Result A) (f : A → Exec S B) (s t : S) {b : B}
    → (lift m >>= f) s ≡ (ok b, t)
    → (a : A) × (m ≡ ok a) × (f a s ≡ (ok b, t))
lift-eq-ok (ok a) f s t h = (a, refl, h)
lift-eq-ok (err e) f s t h = cc

pub lift-ok :
    {S A : Type 0} (m : Result A) (s t : S) {a : A} → lift m s ≡ (ok a, t) → (m ≡ ok a) × (s ≡ t)
lift-ok m s t h = (cc, cc)

pub guard-eq-ok :
    {S B : Type 0} (c : Bool) (e : Failure) (k : Exec S B) (s t : S) {b : B}
    → (guard c e >> k) s ≡ (ok b, t)
    → (c ≡ true) × (k s ≡ (ok b, t))
guard-eq-ok true e k s t h = (refl, h)
guard-eq-ok false e k s t h = cc
