-- ===== src/Catalog/Validation.antt =====
-- tools/stra2us_cli/catalog.py: the validators of Var and of Catalog.
use stra2us.Prelude.{
  ℕ, suc, Text, codes, Bool, true, false, List, [], ◌∷◌, Option, none, some, not, ◌||◌, ◌&&◌, leb,
  ◌==◌, ℤ, pos, leℤ, text_eq, starts_with, ends_with, all, any, if◌then◌else◌,
}
use stra2us.Result.{Checked, ok, err, fault, guard, ◌>>◌}
use stra2us.Builtins.{strip}
use stra2us.Value.{Value, bool, obj, arr, find, items, elems}
use stra2us.Device.{is_some}
use stra2us.Lint.{is_in, before_newline}
use stra2us.Catalog.{
  VarType, int_type, float_type, string_type, bool_type, enum_type, Real, Native, integer, truth,
  text, Scope, app_scope, device_scope, CatalogVar, greater, check_range,
}

-- How many of the tests hold.
abbrev pub count_true : List Bool → ℕ
count_true [] = 0
count_true (true ∷ bs) = suc (count_true bs)
count_true (false ∷ bs) = count_true bs

-- `len(set(names)) == len(names)`
unfoldable pub distinct : List Text → Bool
distinct [] = true
distinct (a ∷ names) = not (is_in a names) && distinct names

-- _label_nonempty
unfoldable pub label_nonempty : Option Text → Checked
label_nonempty none = ok tt
label_nonempty (some v) = guard (not (text_eq (strip v) [])) fault

abbrev pub same_scope : Scope → Scope → Bool
same_scope app_scope app_scope = true
same_scope device_scope device_scope = true
same_scope _ _ = false

-- _unique_scope
unfoldable pub unique_scope : List Scope → Checked
unique_scope [] = ok tt
unique_scope (a ∷ scopes) =
    let rest = unique_scope scopes in if any (same_scope a) scopes then err fault else rest

-- `isinstance(v, bool)`
abbrev pub is_bool : Option Value → Bool
is_bool (some (bool _)) = true
is_bool _ = false

-- An entry of `enum` as YAML gives it: a boolean, or a dict whose `value` is one, is turned down.
unfoldable pub reject_entry : Value → Checked
reject_entry (bool _) = err fault
reject_entry (obj fs) = guard (not (is_bool (find (codes "value") (items fs)))) fault
reject_entry _ = ok tt

unfoldable pub reject_entries : List Value → Checked
unfolding reject_entry
reject_entries [] = ok tt
reject_entries (entry ∷ entries) = reject_entry entry >> reject_entries entries

-- _reject_yaml_truthy_enum
unfoldable pub reject_yaml_truthy_enum : Value → Checked
unfolding reject_entries
reject_yaml_truthy_enum (arr vs) = reject_entries (elems vs)
reject_yaml_truthy_enum _ = ok tt

abbrev pub is_numeric_type : VarType → Bool
is_numeric_type int_type = true
is_numeric_type float_type = true
is_numeric_type _ = false

-- `range` is numeric-only.
unfoldable pub check_bounds : VarType → Option (Real × Real) → Checked
unfolding greater
check_bounds t none = ok tt
check_bounds t (some (lo, hi)) = do
  guard (is_numeric_type t) fault
  guard (not (greater lo hi)) fault

-- `self.default not in self.values`
abbrev pub default_in : List Text → Option Native → Bool
default_in values none = true
default_in values (some (text s)) = is_in s values
default_in values (some _) = false

-- `values` is enum-only, and required for enum.
unfoldable pub check_values : VarType → Option Native → Option (List Text) → Checked
unfolding distinct
check_values enum_type default none = err fault
check_values enum_type default (some []) = err fault
check_values enum_type default (some (v ∷ vs)) = do
  guard (distinct (v ∷ vs)) fault
  guard (default_in (v ∷ vs) default) fault
check_values _ default none = ok tt
check_values _ default (some _) = err fault

-- The `isinstance` tests; a bool is an int.
abbrev pub fits_type : VarType → Native → Bool
fits_type int_type (integer _) = true
fits_type int_type (truth _) = true
fits_type float_type (text _) = false
fits_type float_type _ = true
fits_type string_type (text _) = true
fits_type enum_type (text _) = true
fits_type bool_type (truth _) = true
fits_type _ _ = false

abbrev pub check_default_type : VarType → Option Native → Checked
check_default_type t none = ok tt
check_default_type t (some v) = guard (fits_type t v) fault

abbrev pub check_default_range : Option (Real × Real) → Option Native → Checked
check_default_range range none = ok tt
check_default_range range (some v) = check_range range v

-- _cross_field_checks
unfoldable pub cross_field_checks : CatalogVar → Checked
unfolding check_bounds check_values check_range
cross_field_checks var = do
  guard
      (leb
        (count_true (is_some var.default ∷ var.default_per_device ∷ var.default_per_platform ∷ []))
        1)
      fault
  check_bounds var.type_of var.range
  check_values var.type_of var.default var.values
  check_default_type var.type_of var.default
  check_default_range var.range var.default

abbrev pub is_identifier : Text → Bool
is_identifier [] = false
is_identifier (c ∷ s) =
    (leb 97 c && leb c 122)
    && all (λ d. (leb 97 d && leb d 122) || (leb 48 d && leb d 57) || d == 95) s

-- APP_NAME_RE.match and VAR_NAME_RE.match; the `$` matches before a newline that ends the text.
unfoldable pub matches_name : Text → Bool
matches_name s = is_identifier (before_newline s)

-- _app_shape
abbrev pub app_shape : Text → Checked
app_shape v = guard (matches_name v) fault

-- _var_names, of the names in `vars`.
unfoldable pub var_names : List Text → Checked
unfolding matches_name
var_names [] = err fault
var_names (name ∷ names) = guard (all matches_name (name ∷ names)) fault

-- _telemetry_topic_shape
unfoldable pub telemetry_topic_shape : Option Text → Checked
telemetry_topic_shape none = ok tt
telemetry_topic_shape (some v) = do
  guard (not (text_eq (strip v) [])) fault
  guard (not (starts_with (codes "q:") v || starts_with (codes "kv:") v)) fault
  guard (not (starts_with (codes "/") v || ends_with (codes "/") v)) fault

-- _heartbeat_positive
unfoldable pub heartbeat_positive : Option ℤ → Checked
heartbeat_positive none = ok tt
heartbeat_positive (some v) = guard (not (leℤ v (pos 0))) fault
