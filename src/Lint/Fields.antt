-- ===== src/Lint/Fields.antt =====
-- tools/stra2us_cli/catalog_lint.py: the rules for the UI hints of a field, on the fields of Var in
-- tools/stra2us_cli/catalog.py that they read. `compiles` is whether re.compile takes a pattern.
pub mod Choices
use stra2us.Prelude.{
  ℕ, suc, ◌+◌, ◌*◌, ◌^◌, Text, codes, Bool, true, false, List, [], ◌∷◌, ◌++◌, Option, none, some,
  not, ◌||◌, ◌&&◌, ltb, any, text_eq, if◌then◌else◌, length, ℤ, pos, negsuc, leℤ, eqℤ, sub_ℕ,
}
use stra2us.Builtins.{encode, decimal, str_int}
use stra2us.Device.{is_some}
use stra2us.Lint.{LintIssue, Limits, error, warning, error_if, lint_present, is_in}

-- A finite int or float, exactly: `numerator / 2 ^ scale`.
pub record Number : Type 0 where
  pub numerator : ℤ
  pub scale : ℕ

-- `k * z`
abbrev pub times : ℕ → ℤ → ℤ
times k (pos n) = pos (k * n)
times k (negsuc n) = sub_ℕ 0 (k * suc n)

-- `a > b`
unfoldable pub exceeds : Number → Number → Bool
exceeds a b = not (leℤ (times (2 ^ b.scale) a.numerator) (times (2 ^ a.scale) b.numerator))

pub data Scalar : Type 0 where
  text : Text → Scalar
  number : ℤ → Scalar

pub data EnumEntry : Type 0 where
  bare : Scalar → EnumEntry
  choice : Scalar → Text → EnumEntry

pub record Var : Type 0 where
  pub type_name : Text
  pub choices : Option (List EnumEntry)
  pub min : Option Number
  pub max : Option Number
  pub step : Option Number
  pub widget : Option Text
  pub multiline : Bool
  pub max_length : Option ℤ
  pub pattern : Option Text
  pub help_markdown : Option Text
  pub write_only : Bool
  pub encrypted : Bool

abbrev pub has_type : Text → Var → Bool
has_type t var = text_eq var.type_name t

-- _is_numeric
abbrev pub is_numeric : Var → Bool
is_numeric var = has_type (codes "int") var || has_type (codes "float") var

-- _is_stringy
abbrev pub is_stringy : Var → Bool
is_stringy var = has_type (codes "string") var

abbrev pub warn_if : Bool → Text → List LintIssue
warn_if found path = if found then record { severity = warning; path = path } ∷ [] else []

abbrev pub base_path : Text → Text
base_path name = codes "vars." ++ name

abbrev pub is_choice : EnumEntry → Bool
is_choice (bare _) = false
is_choice (choice _ _) = true

abbrev pub value_of : EnumEntry → Scalar
value_of (bare v) = v
value_of (choice v _) = v

-- The label, or `str` of a bare value.
abbrev pub label_of : EnumEntry → Text
label_of (bare (text t)) = t
label_of (bare (number z)) = str_int z
label_of (choice _ label) = label

abbrev pub is_number : Scalar → Bool
is_number (text _) = false
is_number (number _) = true

abbrev pub same_scalar : Scalar → Scalar → Bool
same_scalar (text a) (text b) = text_eq a b
same_scalar (number a) (number b) = eqℤ a b
same_scalar _ _ = false

abbrev pub entry_path : Text → ℕ → Text
entry_path base i = base ++ codes "[" ++ decimal i ++ codes "]"

-- The checks of one entry of the enum.
unfoldable pub lint_entry : Var → Text → ℕ → List Scalar → List Text → EnumEntry → List LintIssue
lint_entry var base i seen_values seen_labels entry =
    error_if (has_type (codes "int") var && not (is_number (value_of entry)))
      (entry_path base i ++ codes ".value")
    ++ error_if (has_type (codes "string") var && is_number (value_of entry))
        (entry_path base i ++ codes ".value")
    ++ warn_if (any (same_scalar (value_of entry)) seen_values) (entry_path base i)
    ++ warn_if (is_in (label_of entry) seen_labels) (entry_path base i ++ codes ".label")

-- The loop over the entries.
unfoldable pub lint_entries :
    Var → Text → ℕ → List Scalar → List Text → List EnumEntry → List LintIssue
unfolding lint_entry
lint_entries var base i seen_values seen_labels [] = []
lint_entries var base i seen_values seen_labels (entry ∷ entries) =
    lint_entry var base i seen_values seen_labels entry
    ++ lint_entries var base (suc i) (value_of entry ∷ seen_values) (label_of entry ∷ seen_labels)
        entries

unfoldable pub lint_choices : Var → Text → List EnumEntry → List LintIssue
unfolding lint_entries
lint_choices var base [] = error_if true base
lint_choices var base (e ∷ es) =
    error_if (any is_choice (e ∷ es) && any (λ x. not (is_choice x)) (e ∷ es)) base
    ++ error_if (has_type (codes "int") var && (is_some var.min || is_some var.max)) base
    ++ lint_entries var base 0 [] [] (e ∷ es)

abbrev pub lint_enum_of : Var → Text → Option (List EnumEntry) → List LintIssue
lint_enum_of var base none = []
lint_enum_of var base (some entries) =
    let checked = lint_choices var base entries in
    if has_type (codes "int") var || has_type (codes "string") var
    then checked
    else error_if true base

unfoldable pub lint_field_enum : Var → Text → List LintIssue
unfolding lint_choices
lint_field_enum var name = lint_enum_of var (base_path name ++ codes ".enum") var.choices

abbrev pub exceeds_if_both : Option Number → Option Number → Bool
exceeds_if_both (some a) (some b) = exceeds a b
exceeds_if_both _ _ = false

unfoldable pub lint_field_numeric_bounds : Var → Text → List LintIssue
unfolding exceeds
lint_field_numeric_bounds var name =
    error_if (is_some var.min && not (is_numeric var)) (base_path name ++ codes ".min")
    ++ error_if (is_some var.max && not (is_numeric var)) (base_path name ++ codes ".max")
    ++ error_if (is_some var.step && not (is_numeric var)) (base_path name ++ codes ".step")
    ++ error_if (exceeds_if_both var.min var.max) (base_path name)

abbrev pub lint_slider : Var → Text → List LintIssue
lint_slider var path =
    if not (has_type (codes "int") var)
    then error_if true path
    else warn_if (not (is_some var.min) || not (is_some var.max)) path

unfoldable pub lint_field_widget : Var → Text → List LintIssue
lint_field_widget var name =
    lint_present
      (λ w.
        let path = base_path name ++ codes ".widget" in
        if text_eq w (codes "slider")
        then lint_slider var path
        else if text_eq w (codes "secret")
        then error_if (not (is_stringy var)) path
        else if text_eq w (codes "radio")
        then error_if (not (has_type (codes "bool") var) && not (is_some var.choices)) path
        else [])
      var.widget

abbrev pub is_secret : Option Text → Bool
is_secret none = false
is_secret (some w) = text_eq w (codes "secret")

unfoldable pub lint_field_secret_pairing : Var → Text → List LintIssue
lint_field_secret_pairing var name =
    warn_if (var.encrypted && not (is_secret var.widget)) (base_path name ++ codes ".encrypted")
    ++ warn_if (is_secret var.widget && not var.encrypted) (base_path name ++ codes ".widget")
    ++ warn_if (is_secret var.widget && not var.write_only) (base_path name ++ codes ".widget")

-- `if not value` of an optional number, and of an optional text.
abbrev pub is_nonzero : Option ℤ → Bool
is_nonzero none = false
is_nonzero (some z) = not (eqℤ z (pos 0))

abbrev pub is_nonempty : Option Text → Bool
is_nonempty none = false
is_nonempty (some []) = false
is_nonempty (some (_ ∷ _)) = true

abbrev pub is_not_positive : Option ℤ → Bool
is_not_positive none = false
is_not_positive (some z) = leℤ z (pos 0)

unfoldable pub lint_field_string_only : (Text → Bool) → Var → Text → List LintIssue
lint_field_string_only compiles var name =
    error_if (var.multiline && not (is_stringy var)) (base_path name ++ codes ".multiline")
    ++ error_if (is_nonzero var.max_length && not (is_stringy var))
        (base_path name ++ codes ".max_length")
    ++ error_if (is_nonempty var.pattern && not (is_stringy var))
        (base_path name ++ codes ".pattern")
    ++ error_if (var.write_only && not (is_stringy var)) (base_path name ++ codes ".write_only")
    ++ error_if (is_not_positive var.max_length) (base_path name ++ codes ".max_length")
    ++ lint_present (λ p. error_if (not (compiles p)) (base_path name ++ codes ".pattern"))
        var.pattern

unfoldable pub lint_field_help_markdown : Limits → Var → Text → List LintIssue
lint_field_help_markdown limits var name =
    lint_present
      (λ v.
        error_if (ltb limits.markdown_max_bytes (length (encode v)))
          (base_path name ++ codes ".help_markdown"))
      var.help_markdown

-- The rules of one field, as lint_catalog runs them.
unfoldable pub lint_field : Limits → (Text → Bool) → Var → Text → List LintIssue
unfolding lint_field_enum lint_field_numeric_bounds lint_field_widget lint_field_secret_pairing
    lint_field_string_only lint_field_help_markdown
lint_field limits compiles var name =
    lint_field_enum var name
    ++ lint_field_numeric_bounds var name
    ++ lint_field_widget var name
    ++ lint_field_secret_pairing var name
    ++ lint_field_string_only compiles var name
    ++ lint_field_help_markdown limits var name
