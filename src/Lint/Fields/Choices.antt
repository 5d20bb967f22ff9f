-- ===== src/Lint/Fields/Choices.antt =====
-- Which choices and which secret fields pass without an issue.
use stra2us.Prelude.{
  ℕ, suc, Text, codes, Bool, true, false, List, [], ◌∷◌, ◌++◌, some, not, ◌||◌, ◌&&◌, ◌≡◌, ◌≢◌,
  refl, sym, ap, ◌∙◌, arith, ◌↔◌, inl, inr, any, if◌then◌else◌, Bool-cases,
}
use stra2us.Device.{is_some}
use stra2us.Lint.{error_if, is_in}
use stra2us.Lint.Bundle.{append-nil_iff, error_if_iff}
use stra2us.Lint.Fields.{
  Var, Scalar, EnumEntry, has_type, is_choice, is_number, value_of, label_of, same_scalar,
  is_secret, warn_if, base_path, entry_path, lint_entry, lint_entries, lint_choices, lint_enum_of,
  lint_field_enum, lint_field_secret_pairing,
}

warn_if_iff : (b : Bool) (path : Text) → (warn_if b path ≡ []) ↔ (b ≡ false)
warn_if_iff true path = (λ e. cc, λ e. cc)
warn_if_iff false path = (λ e. refl, λ e. refl)

-- A field passes the pairing rules without an issue exactly when it is encrypted just if its
-- widget is `secret`, and, if it is, is write-only.
pub lint_field_secret_pairing_iff :
    (var : Var) (name : Text)
    → (lint_field_secret_pairing var name ≡ []) ↔ (
        (is_secret var.widget ≡ var.encrypted)
        × ((not (is_secret var.widget) || var.write_only) ≡ true))
unfolding lint_field_secret_pairing
lint_field_secret_pairing_iff var name = ground arith

-- An int field has numbers as its values, a string field texts.
abbrev pub IsTyped : Var → EnumEntry → Type 0
IsTyped var e =
    (has_type (codes "int") var ≡ true → is_number (value_of e) ≡ true)
    × (has_type (codes "string") var ≡ true → is_number (value_of e) ≡ false)

-- Every entry is typed, and no value or label comes twice, or among those seen.
abbrev pub AreChoices : Var → List Scalar → List Text → List EnumEntry → Type 0
AreChoices var values labels [] = Unit
AreChoices var values labels (e ∷ es) =
    IsTyped var e
    × (any (same_scalar (value_of e)) values ≡ false)
    × (is_in (label_of e) labels ≡ false)
    × AreChoices var (value_of e ∷ values) (label_of e ∷ labels) es

module _ (var : Var) (base : Text) where
  lint_entry_iff :
      (i : ℕ) (values : List Scalar) (labels : List Text) (e : EnumEntry)
      → (lint_entry var base i values labels e ≡ []) ↔ (
          IsTyped var e
          × (any (same_scalar (value_of e)) values ≡ false)
          × (is_in (label_of e) labels ≡ false))
  unfolding lint_entry
  lint_entry_iff i values labels e =
      let b1 = has_type (codes "int") var && not (is_number (value_of e)) in
      let b2 = has_type (codes "string") var && is_number (value_of e) in
      let b3 = any (same_scalar (value_of e)) values in
      let b4 = is_in (label_of e) labels in
      let p = entry_path base i in
      let e1 = error_if b1 (p ++ codes ".value") in
      let e2 = error_if b2 (p ++ codes ".value") in
      let e3 = warn_if b3 p in
      let e4 = warn_if b4 (p ++ codes ".label") in
      (
        λ h.
            let (k1, h4) = (append-nil_iff ((e1 ++ e2) ++ e3) e4).0 h in
            let (k2, h3) = (append-nil_iff (e1 ++ e2) e3).0 k1 in
            let (h1, h2) = (append-nil_iff e1 e2).0 k2 in
            let t1 = (error_if_iff b1 (p ++ codes ".value")).0 h1 in
            let t2 = (error_if_iff b2 (p ++ codes ".value")).0 h2 in
            (
              (λ int. ground (arith, t1, int), λ string. ground (arith, t2, string)),
              (warn_if_iff b3 p).0 h3,
              (warn_if_iff b4 (p ++ codes ".label")).0 h4,
            ),
        λ ((t1, t2), h3, h4).
            let f1 : b1 ≡ false = ground (arith, t1) in
            let f2 : b2 ≡ false = ground (arith, t2) in rw (f1, f2, h3, h4) refl,
      )

  lint_entries_iff :
      (i : ℕ) (values : List Scalar) (labels : List Text) (es : List EnumEntry)
      → (lint_entries var base i values labels es ≡ []) ↔ AreChoices var values labels es
  unfolding lint_entries
  lint_entries_iff i values labels [] = (λ _. tt, λ _. refl)
  lint_entries_iff i values labels (e ∷ es) =
      let one = lint_entry_iff i values labels e in
      let rest = lint_entries_iff (suc i) (value_of e ∷ values) (label_of e ∷ labels) es in
      let both =
        append-nil_iff (lint_entry var base i values labels e)
          (lint_entries var base (suc i) (value_of e ∷ values) (label_of e ∷ labels) es) in
      (
        λ h.
            let (h1, h2) = both.0 h in
            let (typed, value, label) = one.0 h1 in (typed, value, label, rest.0 h2),
        λ (typed, value, label, more). both.1 (one.1 (typed, value, label), rest.1 more),
      )

  lint_choices_iff :
      (es : List EnumEntry)
      → (lint_choices var base es ≡ []) ↔ (
          (es ≢ [])
          × ((any is_choice es && any (λ x. not (is_choice x)) es) ≡ false)
          × ((has_type (codes "int") var && (is_some var.min || is_some var.max)) ≡ false)
          × AreChoices var [] [] es)
  unfolding lint_choices
  lint_choices_iff [] = (λ h. cc, λ (k, _, _, _). absurd (k refl))
  lint_choices_iff (e ∷ es) =
      let b1 = any is_choice (e ∷ es) && any (λ x. not (is_choice x)) (e ∷ es) in
      let b2 = has_type (codes "int") var && (is_some var.min || is_some var.max) in
      let e1 = error_if b1 base in
      let e2 = error_if b2 base in
      let rest = lint_entries_iff 0 [] [] (e ∷ es) in
      let both = append-nil_iff (e1 ++ e2) (lint_entries var base 0 [] [] (e ∷ es)) in
      (
        λ h.
            let (k, h3) = both.0 h in
            let (h1, h2) = (append-nil_iff e1 e2).0 k in
            (λ q. cc, (error_if_iff b1 base).0 h1, (error_if_iff b2 base).0 h2, rest.0 h3),
        λ (_, h1, h2, h3). both.1 (
          (append-nil_iff e1 e2).1 ((error_if_iff b1 base).1 h1, (error_if_iff b2 base).1 h2),
          rest.1 h3,
        ),
      )

-- The choices of a field pass without an issue exactly when the field is an int or a string, there
-- are some, all are bare or all have labels, an int field has neither `min` nor `max`, every value
-- is of the field's type, and no value and no label comes twice.
pub lint_field_enum_iff :
    (var : Var) (name : Text) (es : List EnumEntry)
    → var.choices ≡ some es
    → (lint_field_enum var name ≡ []) ↔ (
        ((has_type (codes "int") var || has_type (codes "string") var) ≡ true)
        × (es ≢ [])
        × ((any is_choice es && any (λ x. not (is_choice x)) es) ≡ false)
        × ((has_type (codes "int") var && (is_some var.min || is_some var.max)) ≡ false)
        × AreChoices var [] [] es)
lint_field_enum_iff var name es h =
    let base = base_path name ++ codes ".enum" in
    let fits = has_type (codes "int") var || has_type (codes "string") var in
    let iff = lint_choices_iff var base es in
    let opened : lint_field_enum var name
        ≡ (if fits then lint_choices var base es else error_if true base) =
      unfold lint_field_enum in ap (lint_enum_of var base) h in
    elim (Bool-cases fits) [
      | inl valid ↦
          let e : lint_field_enum var name ≡ lint_choices var base es = opened ∙ rw valid refl in
          (
            λ q. let (k1, k2, k3, k4) = iff.0 (sym e ∙ q) in (valid, k1, k2, k3, k4),
            λ (_, k1, k2, k3, k4). e ∙ iff.1 (k1, k2, k3, k4),
          )
      | inr other ↦
          let e : lint_field_enum var name ≡ error_if true base = opened ∙ rw other refl in
          (λ q. cc (sym e ∙ q), λ (valid, _, _, _, _). cc (valid, other))
    ]
