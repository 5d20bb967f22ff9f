-- ===== src/Catalog/Tests.antt =====
-- Examples of declared variables.
use stra2us.Prelude.{
  Text, codes, [], ◌∷◌, Option, none, some, true, false, ◌≡◌, refl, pos, negsuc, ℤ, ℕ, suc, ◌+◌,
  ◌*◌, ◌/◌, ◌%◌, ◌^◌, ◌++◌, List, split,
}
use stra2us.Result.{ok}
use stra2us.Builtins.{decimal, parse_int}
use stra2us.Value.{Value}
use stra2us.Lint.Fields.{Number}
use stra2us.Catalog.{
  int_type, float_type, app_scope, device_scope, Real, finite, infinite, nan, integer, real,
  CatalogVar, whole, number_of, coerce_value,
}
use stra2us.Catalog.Validation.{cross_field_checks}
use stra2us.Catalog.Coercion.{
  HasType, IsMember, IsInRange, decoded, coerce_value-HasType, coerce_value-to_form_string,
}
use stra2us.Page.Values.{to_form_string}

abbrev brightness : CatalogVar
brightness = record {
  type_of = int_type;
  scope = app_scope ∷ device_scope ∷ [];
  default = some (integer (pos 40));
  default_per_device = false;
  default_per_platform = false;
  range = some (whole (pos 0), whole (pos 100));
  values = none;
  label = none;
}

abbrev one_float : Text → Option Real
one_float _ = some (whole (pos 1))

coerce_value-brightness : coerce_value one_float brightness (codes "40") ≡ ok (integer (pos 40))
unfolding coerce_value stra2us.Builtins.parse_int stra2us.Lint.Fields.exceeds
coerce_value-brightness = refl

coerce_value-HasType_example :
    HasType brightness.type_of (integer (pos 40))
    × IsMember brightness brightness.type_of (integer (pos 40))
    × IsInRange brightness.range (number_of (integer (pos 40)))
coerce_value-HasType_example =
    coerce_value-HasType one_float brightness (codes "40") (integer (pos 40))
      coerce_value-brightness

-- A printer with one decimal, which gives equal numbers the same text, and a parser that reads a
-- positive number with one decimal, to the half.
abbrev in_tenths : ℕ → Text
in_tenths tenths = decimal (tenths / 10) ++ codes "." ++ decimal (tenths % 10)

abbrev float_repr : Real → Text
float_repr nan = codes "nan"
float_repr (infinite true) = codes "inf"
float_repr (infinite false) = codes "-inf"
float_repr (finite n) = elim n.numerator [
  | pos k ↦ in_tenths (k * 10 / 2 ^ n.scale)
  | negsuc k ↦ codes "-" ++ in_tenths (suc k * 10 / 2 ^ n.scale)
]

abbrev halves : Option ℤ → Option ℤ → Option Real
halves (some (pos units)) (some (pos tenth)) =
    some (finite (record { numerator = pos ((units * 10 + tenth) / 5); scale = 1 }))
halves _ _ = none

abbrev read_parts : List Text → Option Real
read_parts (before ∷ behind ∷ []) = halves (parse_int before) (parse_int behind)
read_parts _ = none

parse_float : Text → Option Real
parse_float s = read_parts (split b'.' s)

abbrev three_halves : Real
three_halves = finite (record { numerator = pos 3; scale = 1 })

-- `default: 1.5`
abbrev gain : CatalogVar
gain = record brightness { type_of = float_type; default = some (real three_halves) }

cross_field_checks-gain : cross_field_checks gain ≡ ok tt
unfolding cross_field_checks stra2us.Lint.Fields.exceeds
cross_field_checks-gain = refl

parse_float-three_halves : parse_float (float_repr three_halves) ≡ some three_halves
unfolding parse_float split decimal parse_int
parse_float-three_halves = refl

abbrev repr : Value → Text
repr _ = []

coerce_value-to_form_string_example :
    coerce_value parse_float gain (to_form_string repr (decoded float_repr (real three_halves)))
    ≡ ok (real three_halves)
coerce_value-to_form_string_example =
    coerce_value-to_form_string parse_float repr float_repr gain (real three_halves)
      parse_float-three_halves cross_field_checks-gain refl tt
