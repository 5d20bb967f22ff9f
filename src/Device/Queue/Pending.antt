-- ===== src/Device/Queue/Pending.antt =====
-- What a consumer still has to see, and the first live message of it.
use stra2us.Prelude.{
  ℕ, Text, List, [], ◌∷◌, ◌++◌, Option, none, some, ◌≡◌, refl, ◌∙◌, ℤ, pos, leℤ, if◌then◌else◌,
  Bool-cases, inl, inr,
}
use stra2us.Result.{Failure, Result, ok, err, Result-cases}
use stra2us.Redis.{Entry}
use stra2us.Device.Queue.{expiry, Batch, found, expired, scan_batch}

-- The first entry whose expiry has not passed; an entry with no readable expiry before it is an error.
unfoldable pub first_live : ℕ → List Entry → Result (Option Entry)
first_live now [] = ok none
first_live now (e ∷ es) =
    let rest = first_live now es in
    elim (expiry e) [ err x ↦ err x | ok exp ↦ if leℤ (pos now) exp then ok (some e) else rest ]

-- The id of the last entry, or the one given.
abbrev pub last_of : Text → List Entry → Text
last_of id [] = id
last_of id (e ∷ es) = last_of e.id es

-- What a batch comes to, in terms of the entries behind it.
abbrev pub Agrees : ℕ → Text → List Entry → Result Batch → Type 0
Agrees now last batch (err x) = (more : List Entry) → first_live now (batch ++ more) ≡ err x
Agrees now last batch (ok (found m)) =
    (more : List Entry) → first_live now (batch ++ more) ≡ ok (some m)
Agrees now last batch (ok (expired id)) =
    (id ≡ last_of last batch)
    × ((more : List Entry) → first_live now (batch ++ more) ≡ first_live now more)

module _ (now : ℕ) (last : Text) (e : Entry) where
  scan_batch_err :
      (es : List Entry) {x : Failure} → expiry e ≡ err x → scan_batch now last (e ∷ es) ≡ err x
  unfolding scan_batch
  scan_batch_err es h = rw (h, scan_batch) refl

  scan_batch_ok :
      (es : List Entry) {exp : ℤ}
      → expiry e ≡ ok exp
      → scan_batch now last (e ∷ es)
        ≡ (if leℤ (pos now) exp then ok (found e) else scan_batch now e.id es)
  unfolding scan_batch
  scan_batch_ok es h = rw (h, scan_batch) refl

  pub first_live_err :
      (es : List Entry) {x : Failure} → expiry e ≡ err x → first_live now (e ∷ es) ≡ err x
  unfolding first_live
  first_live_err es h = rw (h, first_live) refl

  pub first_live_ok :
      (es : List Entry) {exp : ℤ}
      → expiry e ≡ ok exp
      → first_live now (e ∷ es) ≡ (if leℤ (pos now) exp then ok (some e) else first_live now es)
  unfolding first_live
  first_live_ok es h = rw (h, first_live) refl

Agrees-cons :
    (now : ℕ) (last : Text) (e : Entry) (es : List Entry) (m : Result Batch)
    → ((more : List Entry) → first_live now (e ∷ (es ++ more)) ≡ first_live now (es ++ more))
    → Agrees now e.id es m
    → Agrees now last (e ∷ es) m
Agrees-cons now last e es (err x) skip h = λ more. skip more ∙ h more
Agrees-cons now last e es (ok (found m)) skip h = λ more. skip more ∙ h more
Agrees-cons now last e es (ok (expired id)) skip (ids, h) = (ids, λ more. skip more ∙ h more)

-- The loop over a batch finds the first live message of it, or says that there is none.
pub scan_batch-Agrees :
    (now : ℕ) (last : Text) (batch : List Entry) → Agrees now last batch (scan_batch now last batch)
scan_batch-Agrees now last [] = unfold scan_batch in (refl, λ more. refl)
scan_batch-Agrees now last (e ∷ es) = elim (Result-cases (expiry e)) [
  | inl (x, bad) ↦
      rw (scan_batch_err now last e es bad) (λ more. first_live_err now last e (es ++ more) bad)
  | inr (exp, good) ↦ elim (Bool-cases (leℤ (pos now) exp)) [
    | inl alive ↦
        let s : scan_batch now last (e ∷ es) ≡ ok (found e) =
          scan_batch_ok now last e es good ∙ rw alive refl in
        rw s (λ more. first_live_ok now last e (es ++ more) good ∙ rw alive refl)
    | inr dead ↦
        let s : scan_batch now last (e ∷ es) ≡ scan_batch now e.id es =
          scan_batch_ok now last e es good ∙ rw dead refl in
        rw s (
          Agrees-cons now last e es (scan_batch now e.id es)
            (λ more. first_live_ok now last e (es ++ more) good ∙ rw dead refl)
            (scan_batch-Agrees now e.id es))
  ]
]
