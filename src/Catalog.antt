-- ===== src/Catalog.antt =====
-- tools/stra2us_cli/catalog.py: the checks on the declaration of a variable and on a catalog, the
-- parsing of a value by its declared type, and the key of a variable. The parsing of YAML and the field
-- types are pydantic's and PyYAML's, which are not modelled: the records hold what they let through.
-- A ValueError and a CatalogError are `fault`.
use stra2us.Prelude.{
  ℕ, suc, ◌+◌, ◌*◌, Text, codes, Bool, true, false, List, [], ◌∷◌, ◌++◌, Option, none, some, not,
  ◌||◌, ◌&&◌, leb, ltb, ◌==◌, ℤ, pos, negsuc, leℤ, text_eq, starts_with, ends_with, all, any,
  length, if◌then◌else◌,
}
use stra2us.Result.{Result, Checked, ok, err, fault, guard, ◌>>=◌, ◌>>◌}
use stra2us.Builtins.{parse_int, strip, lower}
use stra2us.Device.{or_raise, is_some}
use stra2us.Value.{Value, bool, obj, arr, find, items, elems}
use stra2us.Lint.{is_in, before_newline}
use stra2us.Lint.Fields.{Number, exceeds}
pub mod Validation
pub mod Coercion
mod Tests

-- VarType
pub data VarType : Type 0 where
  int_type float_type string_type bool_type enum_type : VarType

-- An int or a float, as a place on the number line, or nan.
pub data Real : Type 0 where
  finite : Number → Real
  infinite : Bool → Real
  nan : Real

-- A Python int, float, bool or str.
pub data Native : Type 0 where
  integer : ℤ → Native
  real : Real → Native
  truth : Bool → Native
  text : Text → Native

-- Scope
pub data Scope : Type 0 where
  app_scope device_scope : Scope

-- The fields of Var that its validators and coerce_value read.
pub record CatalogVar : Type 0 where
  pub type_of : VarType
  pub scope : List Scope
  pub default : Option Native
  pub default_per_device : Bool
  pub default_per_platform : Bool
  pub range : Option (Real × Real)
  pub values : Option (List Text)
  pub label : Option Text

-- `a > b`
unfoldable pub greater : Real → Real → Bool
greater nan _ = false
greater _ nan = false
greater (finite a) (finite b) = exceeds a b
greater (infinite true) (infinite true) = false
greater (infinite true) _ = true
greater (infinite false) _ = false
greater (finite a) (infinite up) = not up

abbrev pub whole : ℤ → Real
whole z = finite (record { numerator = z; scale = 0 })

-- `isinstance(v, (int, float)) and not isinstance(v, bool)`
abbrev pub number_of : Native → Option Real
number_of (integer z) = some (whole z)
number_of (real x) = some x
number_of _ = none

abbrev pub out_of_bounds : Real × Real → Real → Bool
out_of_bounds (lo, hi) x = greater lo x || greater x hi

-- The check of a number against the range.
unfoldable pub check_range : Option (Real × Real) → Native → Checked
unfolding greater
check_range none v = ok tt
check_range (some bounds) v = elim (number_of v) [
  | none ↦ ok tt
  | some x ↦ guard (not (out_of_bounds bounds x)) fault
]

-- _TRUE and _FALSE
abbrev pub true_words : List Text
true_words = codes "true" ∷ codes "1" ∷ codes "yes" ∷ codes "y" ∷ codes "on" ∷ []

abbrev pub false_words : List Text
false_words = codes "false" ∷ codes "0" ∷ codes "no" ∷ codes "n" ∷ codes "off" ∷ []

abbrev pub bool_of_word : Text → Option Bool
bool_of_word s =
    if is_in s true_words then some true else if is_in s false_words then some false else none

-- `assert var.values is not None`, and the membership test.
abbrev pub check_member : Option (List Text) → Text → Checked
check_member none raw = err fault
check_member (some values) raw = guard (is_in raw values) fault

-- `parse_float` is `float` of a text, `none` where it raises.
module _ (parse_float : Text → Option Real) where
  -- The dispatch on the type.
  unfoldable pub parse_typed : CatalogVar → Text → VarType → Result Native
  parse_typed var raw int_type = do z ← or_raise fault (parse_int raw); ok (integer z)
  parse_typed var raw float_type = do x ← or_raise fault (parse_float raw); ok (real x)
  parse_typed var raw bool_type = do
    b ← or_raise fault (bool_of_word (lower (strip raw)))
    ok (truth b)
  parse_typed var raw enum_type = do check_member var.values raw; ok (text raw)
  parse_typed var raw string_type = ok (text raw)

  unfoldable pub coerce_value : CatalogVar → Text → Result Native
  unfolding parse_typed check_range
  coerce_value var raw = do v ← parse_typed var raw var.type_of; check_range var.range v; ok v

-- `device` is `None` for the app's scope.
unfoldable pub kv_path : Text → Text → Option Text → Text
kv_path app key none = app ++ codes "/public/" ++ key
kv_path app key (some device) = app ++ codes "/" ++ device ++ codes "/" ++ key
