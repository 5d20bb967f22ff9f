-- ===== src/Catalog/Coercion.antt =====
-- What coerce_value gives, and that the text of a default is taken back.
use stra2us.Prelude.{
  arith, text_eq, Text, codes, [], ◌∷◌, true, false, List, Option, none, some, ◌≡◌, ◌∙◌, refl, sym,
  ap,
}
use stra2us.Result.{ok, fault, guard, ◌>>◌, >>=-eq-ok, >>-eq-ok}
use stra2us.Builtins.{parse_int, strip, lower, is_space}
use stra2us.Builtins.Decimal.{strip-IsVisible, parse_int-str_int}
use stra2us.Value.{Value, int, bool, float, str}
use stra2us.Device.{or_raise}
use stra2us.Lint.{is_in}
use stra2us.Catalog.{
  VarType, int_type, float_type, string_type, bool_type, enum_type, Real, Native, integer, real,
  truth, text, CatalogVar, greater, number_of, check_range, check_member, parse_typed, coerce_value,
  bool_of_word,
}
use stra2us.Catalog.Validation.{
  cross_field_checks, check_values, distinct, default_in, check_default_range, check_default_type,
  check_bounds,
}
use stra2us.Page.Values.{to_form_string}

-- The Python type that coerce_value promises for a declared type.
abbrev pub HasType : VarType → Native → Type 0
HasType int_type (integer _) = Unit
HasType float_type (real _) = Unit
HasType bool_type (truth _) = Unit
HasType enum_type (text _) = Unit
HasType string_type (text _) = Unit
HasType _ _ = ⊥

abbrev pub IsInRange : Option (Real × Real) → Option Real → Type 0
IsInRange none _ = Unit
IsInRange _ none = Unit
IsInRange (some (lo, hi)) (some x) = (greater lo x ≡ false) × (greater x hi ≡ false)

abbrev pub IsMember : CatalogVar → VarType → Native → Type 0
IsMember var enum_type (text s) =
    (values : List Text) × (var.values ≡ some values) × (is_in s values ≡ true)
IsMember _ _ _ = Unit

check_range-IsInRange :
    (range : Option (Real × Real)) (v : Native)
    → check_range range v ≡ ok tt
    → IsInRange range (number_of v)
unfolding check_range
check_range-IsInRange none v h = tt
check_range-IsInRange (some (lo, hi)) (integer z) h = ground arith
check_range-IsInRange (some (lo, hi)) (real x) h = ground arith
check_range-IsInRange (some (lo, hi)) (truth b) h = tt
check_range-IsInRange (some (lo, hi)) (text s) h = tt

check_member-is_in :
    (values : Option (List Text)) (raw : Text)
    → check_member values raw ≡ ok tt
    → (names : List Text) × (values ≡ some names) × (is_in raw names ≡ true)
check_member-is_in none raw h = cc
check_member-is_in (some names) raw h = (names, refl, ground arith)

-- An enum's default is one of its values.
check_values-check_member :
    (s : Text) (values : Option (List Text))
    → check_values enum_type (some (text s)) values ≡ ok tt
    → check_member values s ≡ ok tt
unfolding check_values
check_values-check_member s none h = cc
check_values-check_member s (some []) h = cc
check_values-check_member s (some (v ∷ vs)) h =
    let (_, _, e) =
      >>=-eq-ok (guard (distinct (v ∷ vs)) fault)
        (λ _. guard (default_in (v ∷ vs) (some (text s))) fault) h in
    e

-- The default of a variable that passes the checks passes those of coerce_value.
default_checked :
    (var : CatalogVar) (v : Native)
    → cross_field_checks var ≡ ok tt
    → var.default ≡ some v
    → (check_range var.range v ≡ ok tt) × (check_values var.type_of (some v) var.values ≡ ok tt)
unfolding cross_field_checks
default_checked var v h e =
    let ranged = check_default_range var.range var.default in
    let typed = check_default_type var.type_of var.default in
    let valued = check_values var.type_of var.default var.values in
    let (_, h1) =
      >>-eq-ok _ (check_bounds var.type_of var.range >> (valued >> (typed >> ranged))) h in
    let (_, h2) = >>-eq-ok (check_bounds var.type_of var.range) (valued >> (typed >> ranged)) h1 in
    let (v1, h3) = >>-eq-ok valued (typed >> ranged) h2 in
    let (_, r1) = >>-eq-ok typed ranged h3 in
    (
      ap (check_default_range var.range) (sym e) ∙ r1,
      ap (λ d. check_values var.type_of d var.values) (sym e) ∙ v1,
    )

-- A Python object as the decoder gives it.
abbrev pub decoded : (Real → Text) → Native → Value
decoded float_repr (integer z) = int z
decoded float_repr (real x) = float (float_repr x)
decoded float_repr (truth b) = bool b
decoded float_repr (text s) = str s

module _ (parse_float : Text → Option Real) where
  parse_typed-HasType :
      (var : CatalogVar) (raw : Text) (t : VarType) (v : Native)
      → parse_typed parse_float var raw t ≡ ok v
      → HasType t v × IsMember var t v
  unfolding parse_typed
  parse_typed-HasType var raw int_type v h =
      let (z, _, e) = >>=-eq-ok (or_raise fault (parse_int raw)) (λ z. ok (integer z)) h in
      let same : integer z ≡ v = cc in rw (← same) (tt, tt)
  parse_typed-HasType var raw float_type v h =
      let (x, _, e) = >>=-eq-ok (or_raise fault (parse_float raw)) (λ x. ok (real x)) h in
      let same : real x ≡ v = cc in rw (← same) (tt, tt)
  parse_typed-HasType var raw bool_type v h =
      let (b, _, e) =
        >>=-eq-ok (or_raise fault (bool_of_word (lower (strip raw)))) (λ b. ok (truth b)) h in
      let same : truth b ≡ v = cc in rw (← same) (tt, tt)
  parse_typed-HasType var raw enum_type v h =
      let (_, c, e) = >>=-eq-ok (check_member var.values raw) (λ _. ok (text raw)) h in
      let same : text raw ≡ v = cc in rw (← same) (tt, check_member-is_in var.values raw c)
  parse_typed-HasType var raw string_type v h = let same : text raw ≡ v = cc in rw (← same) (tt, tt)

  -- What coerce_value returns is of the Python type that belongs to the declared type, is one of
  -- the values of an enum, and, where it is a number and there is a range, is neither below nor
  -- above the range.
  pub coerce_value-HasType :
      (var : CatalogVar) (raw : Text) (v : Native)
      → coerce_value parse_float var raw ≡ ok v
      → HasType var.type_of v × IsMember var var.type_of v × IsInRange var.range (number_of v)
  unfolding coerce_value
  coerce_value-HasType var raw v h =
      let (w, parsed, more) =
        >>=-eq-ok (parse_typed parse_float var raw var.type_of)
          (λ w. check_range var.range w >> ok w) h in
      let (_, checked, e) = >>=-eq-ok (check_range var.range w) (λ _. ok w) more in
      let (typed, member) = parse_typed-HasType var raw var.type_of w parsed in
      let same : w ≡ v = cc in
      rw (← same) (typed, member, check_range-IsInRange var.range w checked)

  module _ (repr : Value → Text) (float_repr : Real → Text) where
    abbrev shown : Native → Text
    shown v = to_form_string repr (decoded float_repr v)

    -- float reads back what repr gives of the value, if that is a float.
    abbrev pub IsReadBack : Native → Type 0
    IsReadBack (real x) = parse_float (float_repr x) ≡ some x
    IsReadBack _ = Unit

    parse_typed-shown :
        (var : CatalogVar) (t : VarType) (v : Native)
        → IsReadBack v
        → HasType t v
        → check_values t (some v) var.values ≡ ok tt
        → parse_typed parse_float var (shown v) t ≡ ok v
    unfolding parse_typed to_form_string
    parse_typed-shown var int_type (integer z) _ _ h = rw (parse_int-str_int z) refl
    parse_typed-shown var float_type (real x) reads _ h = rw reads refl
    parse_typed-shown var bool_type (truth true) _ _ h =
        rw (strip-IsVisible (codes "true") (unfold is_space in (refl, (refl, (refl, (refl, tt))))))
          (unfold lower text_eq in refl)
    parse_typed-shown var bool_type (truth false) _ _ h =
        rw
          (strip-IsVisible (codes "false")
            (unfold is_space in (refl, (refl, (refl, (refl, (refl, tt)))))))
          (unfold lower text_eq in refl)
    parse_typed-shown var enum_type (text s) _ _ h =
        rw (check_values-check_member s var.values h) refl
    parse_typed-shown var string_type (text s) _ _ h = refl
    parse_typed-shown var t v _ w h = absurd w

    -- The default of a variable that passes _cross_field_checks, if it has the very type that
    -- belongs to the declared type and, where it is a float, float reads it back from its repr, is
    -- what coerce_value makes of the text that _to_form_string gives for it.
    pub coerce_value-to_form_string :
        (var : CatalogVar) (v : Native)
        → IsReadBack v
        → cross_field_checks var ≡ ok tt
        → var.default ≡ some v
        → HasType var.type_of v
        → coerce_value parse_float var (to_form_string repr (decoded float_repr v)) ≡ ok v
    unfolding coerce_value
    coerce_value-to_form_string var v reads h e typed =
        let (bounded, valued) = default_checked var v h e in
        rw (parse_typed-shown var var.type_of v reads typed valued) (rw bounded refl)
