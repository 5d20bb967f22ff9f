-- ===== src/Page/Widgets.antt =====
-- backend/src/services/widget_renderer.py: the form control of a variable, from the dict of the
-- variable and its current value. `repr` gives the texts of containers, `float_of` is `float`, `none`
-- where it raises, and `fullmatch` is re's, `none` where the pattern is malformed.
use stra2us.Prelude.{
  ℕ, Text, codes, Bool, true, false, List, [], ◌∷◌, ◌++◌, Option, none, some, not, ◌||◌, ◌&&◌, ◌==◌,
  any, text_eq, join, map, length, if◌then◌else◌, ℤ, pos, leℤ,
}
use stra2us.Result.{Result, ok, err, fault, ◌>>=◌}
use stra2us.Builtins.{strip, lower}
use stra2us.Value.{
  Value, null, bool, int, float, str, obj, arr, find, items, elems, iterate, is_text,
}
use stra2us.Device.{is_some}
use stra2us.Backup.{str_of, truthy}
use stra2us.Catalog.{Real, greater}
use stra2us.Page.Values.{not_none}
pub mod Render
pub mod OffSpec
pub mod Markup
pub mod Parts
pub mod Wellformed

abbrev pub VarDict : Type 0
VarDict = List (Text × Value)

-- `if var.get(key):`
abbrev pub is_truthy : Option Value → Bool
is_truthy none = false
is_truthy (some v) = truthy v

-- html.escape of a character.
unfoldable pub escape_char : ℕ → Text
escape_char c =
    if c == b'&'
    then codes "&amp;"
    else if c == b'<'
    then codes "&lt;"
    else if c == b'>'
    then codes "&gt;"
    else if c == b'"'
    then codes "&quot;"
    else if c == b'\''
    then codes "&#x27;"
    else c ∷ []

unfoldable pub esc : Text → Text
unfolding escape_char
esc [] = []
esc (c ∷ s) = escape_char c ++ esc s

-- `current if current is not None else ""`
abbrev pub or_empty : Option Text → Text
or_empty none = []
or_empty (some s) = s

-- `str(current)`
abbrev pub str_or_none : Option Text → Text
str_or_none none = codes "None"
str_or_none (some s) = s

-- `str(value)`, where `None` is empty.
abbrev pub text_of : (Value → Text) → Value → Text
text_of repr null = []
text_of repr v = str_of repr v

-- An attribute: its name and its value, escaped.
abbrev pub attr : Text → Text → Text
attr name value = name ++ codes "=\"" ++ esc value ++ codes "\""

abbrev pub first_bound : List Value → Option Value
first_bound [] = none
first_bound (lo ∷ _) = some lo

abbrev pub second_bound : List Value → Option Value
second_bound (_ ∷ hi ∷ _) = some hi
second_bound _ = none

-- `rng` if it is a list.
abbrev pub range_items : Option Value → List Value
range_items (some (arr vs)) = elems vs
range_items _ = []

abbrev pub or_bound : Option Value → Option Value → Option Value
or_bound none other = other
or_bound (some v) other = some v

unfoldable pub effective_min : VarDict → Option Value
unfolding not_none
effective_min var =
    or_bound (not_none (find (codes "min") var))
      (not_none (first_bound (range_items (find (codes "range") var))))

unfoldable pub effective_max : VarDict → Option Value
unfolding not_none
effective_max var =
    or_bound (not_none (find (codes "max") var))
      (not_none (second_bound (range_items (find (codes "range") var))))

abbrev pub some_list : {A B : Type 0} → (A → B) → Result (List A) → Result (Option (List B))
some_list f (err e) = err e
some_list f (ok xs) = ok (some (map f xs))

unfoldable pub common_attrs : Text → Option Text → VarDict → Text
unfolding esc truthy
common_attrs name current var = join b' ' (
    attr (codes "name") name
    ∷ attr (codes "data-original") (or_empty current)
    ∷ (if is_truthy (find (codes "write_only") var)
        then codes "data-write-only=\"true\"" ∷ []
        else []))

abbrev pub one_line : Text → Text
one_line s = strip (map (λ c. if c == 10 then 32 else c) s)

abbrev pub marked : Text → Bool → Text
marked word true = codes " " ++ word
marked word false = []

abbrev pub write_only_attr : VarDict → Text
write_only_attr var =
    if is_truthy (find (codes "write_only") var) then codes " data-write-only=\"true\"" else []

-- `"".join(items)`
abbrev pub concat : List Text → Text
concat [] = []
concat (s ∷ ss) = s ++ concat ss

-- Where only the display of a write-only field is empty.
abbrev pub display_of : VarDict → Option Text → Text
display_of var current = if is_truthy (find (codes "write_only") var) then [] else or_empty current

abbrev pub bool_option : Text → Text → Text
bool_option current value =
    codes "<option "
    ++ attr (codes "value") value
    ++ marked (codes "selected") (text_eq current value)
    ++ codes ">"
    ++ value
    ++ codes "</option>"

module _ (repr : Value → Text) where
  -- An entry of `enum`: an object with a value and a label, or a bare scalar.
  unfoldable pub choice_of : Value → Value × Text
  choice_of (obj fs) = elim (find (codes "value") (items fs)) [
    | none ↦ (obj fs, str_of repr (obj fs))
    | some value ↦ elim (find (codes "label") (items fs)) [
      | none ↦ (obj fs, str_of repr (obj fs))
      | some label ↦ (value, str_of repr label)
    ]
  ]
  choice_of entry = (entry, str_of repr entry)

  abbrev pub bare_choice : Value → Value × Text
  bare_choice v = (v, str_of repr v)

  -- The values of the older spelling.
  abbrev pub listed_values : VarDict → Result (Option (List (Value × Text)))
  listed_values var = elim (find (codes "values") var) [
    | none ↦ ok none
    | some values ↦
        if is_text (codes "enum") (find (codes "type") var) && truthy values
        then some_list bare_choice (iterate values)
        else ok none
  ]

  unfoldable pub enum_choices : VarDict → Result (Option (List (Value × Text)))
  unfolding choice_of iterate truthy
  enum_choices var = elim (find (codes "enum") var) [
    | none ↦ listed_values var
    | some enum ↦ if truthy enum then some_list choice_of (iterate enum) else listed_values var
  ]

  -- `f'step="{_esc(step)}"'` and the like, where the value is there.
  abbrev pub value_attr : Text → Option Value → List Text
  value_attr name none = []
  value_attr name (some v) = attr name (str_of repr v) ∷ []

  unfoldable pub help_text_attr : VarDict → Text
  unfolding esc truthy
  help_text_attr var = elim (find (codes "help") var) [
    | none ↦ []
    | some help_text ↦
        if truthy help_text
        then codes " " ++ attr (codes "title") (one_line (str_of repr help_text))
        else []
  ]

  abbrev pub step_attr : VarDict → List Text
  step_attr var = elim (not_none (find (codes "step") var)) [
    | some step ↦ attr (codes "step") (str_of repr step) ∷ []
    | none ↦
        if is_text (codes "float") (find (codes "type") var) then codes "step=\"any\"" ∷ [] else []
  ]
