-- ===== src/Page/Widgets/Wellformed.antt =====
-- The controls are well-formed, whatever the values: a reader that starts between tags ends there, and
-- meets no tag and no attribute but those of the templates.
use stra2us.Prelude.{
  Text, codes, Bool, true, false, List, [], ◌∷◌, Option, none, some, ◌≡◌, refl, ◌||◌, ◌&&◌, any,
  text_eq, if◌then◌else◌, Bool-cases, Option-cases, inl, inr, All, All-append,
}
use stra2us.Result.{ok, >>=-eq-ok}
use stra2us.Builtins.{lower}
use stra2us.Value.{Value, find, is_text}
use stra2us.Device.{is_some}
use stra2us.Backup.{str_of}
use stra2us.Catalog.{Real}
use stra2us.Page.Values.{not_none}
use stra2us.Page.Widgets.{
  VarDict, is_truthy, or_empty, attr, effective_min, effective_max, enum_choices, value_attr,
  step_attr, display_of, bool_option,
}
use stra2us.Page.Widgets.Render.{
  render_radio, render_number, render_textarea, render_secret, render_text, render_bool, clamped,
  render_slider, render_choices, bool_choices, render_int, render_string, dispatch, render_widget,
}
use stra2us.Page.Widgets.Markup.{outside, Leads, leads, ◌then◌, esc-outside, attr-Leads}
use stra2us.Page.Widgets.Parts.{
  inside, IsAttribute, value-IsAttribute, common_attrs-IsAttribute, help_text_attr-IsAttribute,
  value_attr-All, selected-Leads, render_select-Leads, render_radio-Leads, control-Leads,
}

module _ (repr : Value → Text) where
  abbrev IsElement : Text → Type 0
  IsElement html = Leads outside html outside

  abbrev maxlength_of : VarDict → Option Value
  maxlength_of var = not_none (find (codes "max_length") var)

  maxlength-All :
      (var : VarDict) → All IsAttribute (value_attr repr (codes "maxlength") (maxlength_of var))
  unfolding text_eq
  maxlength-All var = value_attr-All repr (codes "maxlength") (maxlength_of var) (leads refl refl)

  step_attr-All : (var : VarDict) → All IsAttribute (step_attr repr var)
  unfolding text_eq
  step_attr-All var = elim (Option-cases (not_none (find (codes "step") var))) [
    | inr (step, e) ↦
        rw (e, step_attr) (attr-Leads (codes "step") (str_of repr step) (leads refl refl), tt)
    | inl e ↦ elim (Bool-cases (is_text (codes "float") (find (codes "type") var))) [
      | inl f ↦ rw (e, step_attr) (rw f (leads refl refl, tt))
      | inr f ↦ rw (e, step_attr) (rw f tt)
    ]
  ]

  render_number-IsElement :
      (name : Text) (var : VarDict) (current : Option Text)
      → IsElement (render_number repr name var current)
  unfolding render_number text_eq
  render_number-IsElement name var current =
      let bounds =
        All-append IsAttribute (value_attr repr (codes "min") (effective_min var))
          (value_attr repr (codes "max") (effective_max var))
          (value_attr-All repr (codes "min") (effective_min var) (leads refl refl))
          (value_attr-All repr (codes "max") (effective_max var) (leads refl refl)) in
      let stepped = All-append IsAttribute _ (step_attr repr var) bounds (step_attr-All var) in
      control-Leads repr (codes "<input type=\"number\" ") name var current _ (leads refl refl) (
        All-append IsAttribute _ (attr (codes "value") (or_empty current) ∷ []) stepped
          (value-IsAttribute (or_empty current), tt))

  render_textarea-IsElement :
      (name : Text) (var : VarDict) (current : Option Text)
      → IsElement (render_textarea repr name var current)
  unfolding render_textarea text_eq
  render_textarea-IsElement name var current =
      let closing : Leads outside (codes "</textarea>") outside = leads refl refl in
      control-Leads repr (codes "<textarea ") name var current _ (leads refl refl) (
        All-append IsAttribute (value_attr repr (codes "maxlength") (maxlength_of var))
          (codes "rows=\"4\"" ∷ []) (maxlength-All var) (leads refl refl, tt))
      then esc-outside (display_of var current)
      then closing

  render_secret-IsElement :
      (name : Text) (var : VarDict) (current : Option Text)
      → IsElement (render_secret repr name var current)
  unfolding render_secret text_eq
  render_secret-IsElement name var current =
      control-Leads repr (codes "<input type=\"password\" ") name var current _ (leads refl refl)
        (value-IsAttribute (display_of var current), (leads refl refl, maxlength-All var))

  render_text-IsElement :
      (name : Text) (var : VarDict) (current : Option Text)
      → IsElement (render_text repr name var current)
  unfolding render_text text_eq
  render_text-IsElement name var current =
      control-Leads repr (codes "<input type=\"text\" ") name var current _ (leads refl refl) (
        value-IsAttribute (display_of var current),
        All-append IsAttribute
            (value_attr repr (codes "pattern") (not_none (find (codes "pattern") var)))
            (value_attr repr (codes "maxlength") (maxlength_of var))
            (value_attr-All repr (codes "pattern") (not_none (find (codes "pattern") var))
              (leads refl refl))
            (maxlength-All var),
      )

  bool_option-IsElement :
      (current value : Text) → IsElement value → IsElement (bool_option current value)
  unfolding text_eq
  bool_option-IsElement current value h =
      let opening : Leads outside (codes "<option ") inside = leads refl refl in
      let closing : Leads outside (codes "</option>") outside = leads refl refl in
      let (place, mark, end) = selected-Leads (text_eq current value) in
      opening then value-IsAttribute value then mark then end then h then closing

  render_bool-IsElement :
      (name : Text) (var : VarDict) (current : Option Text)
      → IsElement (render_bool repr name var current)
  unfolding render_bool text_eq
  render_bool-IsElement name var current =
      let opening : Leads outside (codes "<select ") inside = leads refl refl in
      let middle : Leads inside (codes ">") outside = leads refl refl in
      let closing : Leads outside (codes "</select>") outside = leads refl refl in
      let now = lower (or_empty current) in
      opening
      then common_attrs-IsAttribute name current var
      then help_text_attr-IsAttribute repr var
      then middle
      then bool_option-IsElement now (codes "true") (leads refl refl)
      then bool_option-IsElement now (codes "false") (leads refl refl)
      then closing

  module _ (float_of : Value → Option Real) where
    render_slider-IsElement :
        (name : Text) (var : VarDict) (current : Option Text)
        → IsElement (render_slider repr float_of name var current)
    unfolding render_slider text_eq
    render_slider-IsElement name var current = elim (Option-cases (effective_min var)) [
      | inl e ↦ rw (e, render_slider) (render_number-IsElement name var current)
      | inr (lo, e) ↦ elim (Option-cases (effective_max var)) [
        | inl f ↦ rw (e, render_slider) (rw f (render_number-IsElement name var current))
        | inr (hi, f) ↦
            rw (e, render_slider)
              (rw f (
                control-Leads repr (codes "<input type=\"range\" ") name var current _
                  (leads refl refl)
                  (
                    attr-Leads (codes "min") (str_of repr lo) (leads refl refl),
                    (
                      attr-Leads (codes "max") (str_of repr hi) (leads refl refl),
                      All-append IsAttribute
                          (value_attr repr (codes "step") (not_none (find (codes "step") var)))
                          (attr (codes "value") (clamped repr float_of lo hi current) ∷ [])
                          (value_attr-All repr (codes "step") (not_none (find (codes "step") var))
                            (leads refl refl))
                          (value-IsAttribute (clamped repr float_of lo hi current), tt),
                    ),
                  )))
      ]
    ]

    either-IsElement :
        (b : Bool) (x y : Text) → IsElement x → IsElement y → IsElement (if b then x else y)
    either-IsElement true x y h k = h
    either-IsElement false x y h k = k

    bool_control-IsElement :
        (b : Bool) (name : Text) (var : VarDict) (current : Option Text)
        → IsElement (
            if b
            then render_radio repr name var current (bool_choices repr float_of)
            else render_bool repr name var current)
    bool_control-IsElement b name var current =
        either-IsElement b _ _
          (render_radio-Leads repr name var current (bool_choices repr float_of))
          (render_bool-IsElement name var current)

    render_choices-IsElement :
        (name : Text) (var : VarDict) (current : Option Text) (choices : List (Value × Text))
        → IsElement (render_choices repr float_of name var current choices)
    render_choices-IsElement name var current choices =
        either-IsElement (is_text (codes "radio") (find (codes "widget") var)) _ _
          (render_radio-Leads repr name var current choices)
          (render_select-Leads repr name var current choices)

    render_int-IsElement :
        (name : Text) (var : VarDict) (current : Option Text)
        → IsElement (render_int repr float_of name var current)
    render_int-IsElement name var current =
        either-IsElement
          (is_text (codes "slider") (find (codes "widget") var)
            && is_some (effective_min var)
            && is_some (effective_max var))
          _ _ (render_slider-IsElement name var current) (render_number-IsElement name var current)

    render_string-IsElement :
        (name : Text) (var : VarDict) (current : Option Text)
        → IsElement (render_string repr float_of name var current)
    render_string-IsElement name var current =
        either-IsElement (is_truthy (find (codes "multiline") var)) _ _
          (render_textarea-IsElement name var current)
          (either-IsElement (is_text (codes "secret") (find (codes "widget") var)) _ _
            (render_secret-IsElement name var current) (render_text-IsElement name var current))

    dispatch-IsElement :
        (name : Text) (var : VarDict) (current : Option Text)
        (choices : Option (List (Value × Text)))
        → IsElement (dispatch repr float_of name var current choices)
    dispatch-IsElement name var current (some choices) =
        let type_of = find (codes "type") var in
        let radio = is_text (codes "radio") (find (codes "widget") var) in
        let with_choices =
          any (λ t. is_text t type_of)
            (codes "int" ∷ codes "float" ∷ codes "string" ∷ codes "enum" ∷ []) in
        either-IsElement with_choices _ _ (render_choices-IsElement name var current choices) (
          either-IsElement (is_text (codes "bool") type_of) _ _
            (bool_control-IsElement radio name var current)
            (render_text-IsElement name var current))
    dispatch-IsElement name var current none =
        let type_of = find (codes "type") var in
        let radio = is_text (codes "radio") (find (codes "widget") var) in
        either-IsElement (is_text (codes "int") type_of) _ _ (render_int-IsElement name var current)
          (either-IsElement (is_text (codes "float") type_of) _ _
            (render_number-IsElement name var current)
            (either-IsElement (is_text (codes "bool") type_of) _ _
              (bool_control-IsElement radio name var current)
              (either-IsElement (is_text (codes "string") type_of || is_text (codes "enum") type_of)
                _ _ (render_string-IsElement name var current)
                (render_text-IsElement name var current))))

    -- Whatever the name, the variable and the current value: a reader of the HTML that
    -- render_widget returns, starting between tags, is between tags again at its end, and meets in
    -- tags, outside of quotes, no word but the names of the elements and attributes of the
    -- templates.
    pub render_widget-Leads :
        (name : Text) (var : VarDict) (current : Option Text) (html : Text)
        → render_widget repr float_of name var current ≡ ok html
        → Leads outside html outside
    unfolding render_widget
    render_widget-Leads name var current html h =
        let (choices, _, e) =
          >>=-eq-ok (enum_choices repr var)
            (λ choices. ok (dispatch repr float_of name var current choices)) h in
        let same : dispatch repr float_of name var current choices ≡ html = cc in
        rw (← same) (dispatch-IsElement name var current choices)
