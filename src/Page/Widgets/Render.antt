-- ===== src/Page/Widgets/Render.antt =====
-- backend/src/services/widget_renderer.py: the controls, and the choice among them.
use stra2us.Prelude.{
  Text, codes, List, [], ◌∷◌, ◌++◌, Option, none, some, ◌||◌, ◌&&◌, any, text_eq, join, map,
  if◌then◌else◌,
}
use stra2us.Result.{Result, ok, ◌>>=◌}
use stra2us.Builtins.{lower}
use stra2us.Value.{Value, str, find, is_text}
use stra2us.Device.{is_some}
use stra2us.Backup.{str_of, truthy}
use stra2us.Catalog.{Real, greater}
use stra2us.Page.Values.{not_none}
use stra2us.Page.Widgets.{
  VarDict, is_truthy, esc, or_empty, str_or_none, text_of, attr, effective_min, effective_max,
  enum_choices, value_attr, common_attrs, help_text_attr, marked, write_only_attr, concat,
  step_attr, display_of, bool_option,
}

module _ (repr : Value → Text) where
  abbrev pub option_of : Option Text → Value × Text → Text
  option_of current (value, label) =
      codes "<option "
      ++ attr (codes "value") (text_of repr value)
      ++ marked (codes "selected") (text_eq (str_of repr value) (str_or_none current))
      ++ codes ">"
      ++ esc label
      ++ codes "</option>"

  unfoldable pub render_select : Text → VarDict → Option Text → List (Value × Text) → Text
  unfolding esc common_attrs help_text_attr
  render_select name var current choices =
      codes "<select "
      ++ common_attrs name current var
      ++ help_text_attr repr var
      ++ codes ">\n"
      ++ join 10 (map (option_of current) choices)
      ++ codes "\n</select>"

  abbrev pub radio_of : Text → VarDict → Option Text → Value × Text → Text
  radio_of name var current (value, label) =
      codes "<label class=\"radio-option\"><input type=\"radio\" "
      ++ attr (codes "name") name
      ++ codes " "
      ++ attr (codes "value") (text_of repr value)
      ++ marked (codes "checked") (text_eq (str_of repr value) (str_or_none current))
      ++ codes " "
      ++ attr (codes "data-original") (or_empty current)
      ++ write_only_attr var
      ++ codes "> "
      ++ esc label
      ++ codes "</label>"

  unfoldable pub render_radio : Text → VarDict → Option Text → List (Value × Text) → Text
  unfolding esc truthy
  render_radio name var current choices =
      codes "<div class=\"radio-group\" role=\"radiogroup\">"
      ++ concat (map (radio_of name var current) choices)
      ++ codes "</div>"

  unfoldable pub render_number : Text → VarDict → Option Text → Text
  unfolding esc common_attrs help_text_attr effective_min effective_max not_none
  render_number name var current =
      join b' ' (
        (codes "<input type=\"number\" " ++ common_attrs name current var)
        ∷ (value_attr repr (codes "min") (effective_min var)
            ++ value_attr repr (codes "max") (effective_max var)
            ++ step_attr repr var
            ++ attr (codes "value") (or_empty current) ∷ []))
      ++ help_text_attr repr var
      ++ codes ">"

  unfoldable pub render_textarea : Text → VarDict → Option Text → Text
  unfolding esc common_attrs help_text_attr not_none truthy
  render_textarea name var current =
      join b' ' (
        (codes "<textarea " ++ common_attrs name current var)
        ∷ (value_attr repr (codes "maxlength") (not_none (find (codes "max_length") var))
            ++ codes "rows=\"4\"" ∷ []))
      ++ help_text_attr repr var
      ++ codes ">"
      ++ esc (display_of var current)
      ++ codes "</textarea>"

  unfoldable pub render_secret : Text → VarDict → Option Text → Text
  unfolding esc common_attrs help_text_attr not_none truthy
  render_secret name var current =
      join b' ' (
        (codes "<input type=\"password\" " ++ common_attrs name current var)
        ∷ attr (codes "value") (display_of var current)
        ∷ codes "autocomplete=\"new-password\""
        ∷ value_attr repr (codes "maxlength") (not_none (find (codes "max_length") var)))
      ++ help_text_attr repr var
      ++ codes ">"

  unfoldable pub render_text : Text → VarDict → Option Text → Text
  unfolding esc common_attrs help_text_attr not_none truthy
  render_text name var current =
      join b' ' (
        (codes "<input type=\"text\" " ++ common_attrs name current var)
        ∷ attr (codes "value") (display_of var current)
        ∷ (value_attr repr (codes "pattern") (not_none (find (codes "pattern") var))
            ++ value_attr repr (codes "maxlength") (not_none (find (codes "max_length") var))))
      ++ help_text_attr repr var
      ++ codes ">"

  unfoldable pub render_bool : Text → VarDict → Option Text → Text
  unfolding esc common_attrs help_text_attr
  render_bool name var current =
      codes "<select "
      ++ common_attrs name current var
      ++ help_text_attr repr var
      ++ codes ">"
      ++ bool_option (lower (or_empty current)) (codes "true")
      ++ bool_option (lower (or_empty current)) (codes "false")
      ++ codes "</select>"

  module _ (float_of : Value → Option Real) where
    -- What the slider shows: the value, or the end of the range that it is past.
    unfoldable pub clamped : Value → Value → Option Text → Text
    unfolding greater
    clamped lo hi none = []
    clamped lo hi (some []) = []
    clamped lo hi (some (c ∷ s)) = elim (float_of (str (c ∷ s))) [
      | none ↦ str_of repr lo
      | some n ↦ elim (float_of lo) [
        | none ↦ str_of repr lo
        | some l ↦ if greater l n then str_of repr lo else elim (float_of hi) [
          | none ↦ str_of repr lo
          | some h ↦ if greater n h then str_of repr hi else c ∷ s
        ]
      ]
    ]

    unfoldable pub render_slider : Text → VarDict → Option Text → Text
    unfolding esc common_attrs help_text_attr clamped effective_min effective_max render_number
        not_none
    render_slider name var current = elim (effective_min var) [
      | none ↦ render_number name var current
      | some lo ↦ elim (effective_max var) [
        | none ↦ render_number name var current
        | some hi ↦
            join b' ' (
              (codes "<input type=\"range\" " ++ common_attrs name current var)
              ∷ attr (codes "min") (str_of repr lo)
              ∷ attr (codes "max") (str_of repr hi)
              ∷ (value_attr repr (codes "step") (not_none (find (codes "step") var))
                  ++ attr (codes "value") (clamped lo hi current) ∷ []))
            ++ help_text_attr repr var
            ++ codes ">"
      ]
    ]

    -- A field with choices: radio buttons where the catalog asks for them.
    abbrev pub render_choices : Text → VarDict → Option Text → List (Value × Text) → Text
    render_choices name var current choices =
        if is_text (codes "radio") (find (codes "widget") var)
        then render_radio name var current choices
        else render_select name var current choices

    abbrev pub bool_choices : List (Value × Text)
    bool_choices = (str (codes "true"), codes "true") ∷ (str (codes "false"), codes "false") ∷ []

    abbrev pub render_int : Text → VarDict → Option Text → Text
    render_int name var current =
        if is_text (codes "slider") (find (codes "widget") var)
          && is_some (effective_min var)
          && is_some (effective_max var)
        then render_slider name var current
        else render_number name var current

    abbrev pub render_string : Text → VarDict → Option Text → Text
    render_string name var current =
        if is_truthy (find (codes "multiline") var)
        then render_textarea name var current
        else if is_text (codes "secret") (find (codes "widget") var)
        then render_secret name var current
        else render_text name var current

    -- The dispatch on the type, with the choices that there are.
    abbrev pub dispatch : Text → VarDict → Option Text → Option (List (Value × Text)) → Text
    dispatch name var current (some choices) =
        if any (λ t. is_text t (find (codes "type") var))
          (codes "int" ∷ codes "float" ∷ codes "string" ∷ codes "enum" ∷ [])
        then render_choices name var current choices
        else if is_text (codes "bool") (find (codes "type") var)
        then (if is_text (codes "radio") (find (codes "widget") var)
            then render_radio name var current bool_choices
            else render_bool name var current)
        else render_text name var current
    dispatch name var current none =
        if is_text (codes "int") (find (codes "type") var)
        then render_int name var current
        else if is_text (codes "float") (find (codes "type") var)
        then render_number name var current
        else if is_text (codes "bool") (find (codes "type") var)
        then (if is_text (codes "radio") (find (codes "widget") var)
            then render_radio name var current bool_choices
            else render_bool name var current)
        else if is_text (codes "string") (find (codes "type") var)
            || is_text (codes "enum") (find (codes "type") var)
        then render_string name var current
        else render_text name var current

    unfoldable pub render_widget : Text → VarDict → Option Text → Result Text
    unfolding enum_choices render_radio render_select render_bool render_text render_slider
        render_number render_textarea render_secret effective_min effective_max truthy
    render_widget name var current = do
      choices ← enum_choices repr var
      ok (dispatch name var current choices)
