-- ===== src/Page/Widgets/Parts.antt =====
-- The parts of a control under the reader of HTML: attributes, options, lists of them.
use stra2us.Prelude.{
  Text, codes, Bool, true, false, List, [], ◌∷◌, ◌++◌, Option, none, some, refl, text_eq,
  if◌then◌else◌, Bool-cases, Option-cases, inl, inr, All, join, map,
}
use stra2us.Value.{Value, find}
use stra2us.Backup.{str_of, truthy}
use stra2us.Page.Widgets.{
  VarDict, is_truthy, or_empty, str_or_none, text_of, attr, value_attr, common_attrs,
  help_text_attr, marked, write_only_attr, concat, one_line,
}
use stra2us.Page.Widgets.Render.{option_of, render_select, radio_of, render_radio}
use stra2us.Page.Widgets.Markup.{
  Place, outside, tag, quoted, Leads, leads, ◌then◌, esc-outside, attr-Leads,
}

abbrev pub inside : Place
inside = tag []

-- What stands in a tag and leaves it open.
abbrev pub IsAttribute : Text → Type 0
IsAttribute s = Leads inside s inside

space-Leads : (s : Text) (q : Place) → Leads inside s q → Leads inside (b' ' ∷ s) q
unfolding text_eq
space-Leads s q h = leads h.reached h.known

join-Leads :
    (p : Place) (s : Text) (parts : List Text)
    → Leads p s inside
    → All IsAttribute parts
    → Leads p (join b' ' (s ∷ parts)) inside
unfolding join
join-Leads p s [] h _ = h
join-Leads p s (part ∷ parts) h (k, ks) =
    h then space-Leads (join b' ' (part ∷ parts)) inside (join-Leads inside part parts k ks)

lines-Leads :
    (s : Text) (lines : List Text)
    → Leads outside s outside
    → All (λ x. Leads outside x outside) lines
    → Leads outside (join 10 (s ∷ lines)) outside
unfolding join
lines-Leads s [] h _ = h
lines-Leads s (line ∷ lines) h (k, ks) =
    let rest = lines-Leads line lines k ks in h then leads rest.reached rest.known

all_lines-Leads :
    (lines : List Text)
    → All (λ x. Leads outside x outside) lines
    → Leads outside (join 10 lines) outside
unfolding join
all_lines-Leads [] _ = leads refl refl
all_lines-Leads (line ∷ lines) (h, hs) = lines-Leads line lines h hs

concat-Leads :
    (ss : List Text) → All (λ x. Leads outside x outside) ss → Leads outside (concat ss) outside
concat-Leads [] _ = leads refl refl
concat-Leads (s ∷ ss) (h, hs) = h then concat-Leads ss hs

map-All :
    {A : Type 0} (P : Text → Type 0) (f : A → Text)
    → ((a : A) → P (f a))
    → (xs : List A) → All P (map f xs)
map-All P f h [] = tt
map-All P f h (x ∷ xs) = (h x, map-All P f h xs)

name-IsAttribute : (value : Text) → IsAttribute (attr (codes "name") value)
unfolding text_eq
name-IsAttribute value = attr-Leads (codes "name") value (leads refl refl)

pub value-IsAttribute : (value : Text) → IsAttribute (attr (codes "value") value)
unfolding text_eq
value-IsAttribute value = attr-Leads (codes "value") value (leads refl refl)

original-IsAttribute : (value : Text) → IsAttribute (attr (codes "data-original") value)
unfolding text_eq
original-IsAttribute value = attr-Leads (codes "data-original") value (leads refl refl)

pub common_attrs-IsAttribute :
    (name : Text) (current : Option Text) (var : VarDict)
    → IsAttribute (common_attrs name current var)
unfolding common_attrs text_eq
common_attrs-IsAttribute name current var =
    elim (Bool-cases (is_truthy (find (codes "write_only") var))) [
      | inl e ↦
          rw (e, common_attrs)
            (join-Leads inside (attr (codes "name") name)
              (attr (codes "data-original") (or_empty current)
                ∷ codes "data-write-only=\"true\""
                ∷ [])
              (name-IsAttribute name)
              (original-IsAttribute (or_empty current), (leads refl refl, tt)))
      | inr e ↦
          rw (e, common_attrs)
            (join-Leads inside (attr (codes "name") name)
              (attr (codes "data-original") (or_empty current) ∷ []) (name-IsAttribute name)
              (original-IsAttribute (or_empty current), tt))
    ]

write_only_attr-IsAttribute : (var : VarDict) → IsAttribute (write_only_attr var)
unfolding text_eq
write_only_attr-IsAttribute var = elim (Bool-cases (is_truthy (find (codes "write_only") var))) [
  | inl e ↦ rw (e, write_only_attr) (leads refl refl)
  | inr e ↦ rw (e, write_only_attr) (leads refl refl)
]

-- The mark of the choice that is current, and the end of the tag.
pub selected-Leads :
    (b : Bool)
    → (p : Place) × Leads inside (marked (codes "selected") b) p × Leads p (codes ">") outside
unfolding text_eq
selected-Leads true = (tag (codes "detceles"), leads refl refl, leads refl refl)
selected-Leads false = (inside, leads refl refl, leads refl refl)

checked-Leads :
    (b : Bool)
    → (p : Place) × Leads inside (marked (codes "checked") b) p × Leads p (codes " ") inside
unfolding text_eq
checked-Leads true = (tag (codes "dekcehc"), leads refl refl, leads refl refl)
checked-Leads false = (inside, leads refl refl, leads refl refl)

module _ (repr : Value → Text) where
  pub value_attr-All :
      (name : Text) (value : Option Value)
      → Leads inside (name ++ codes "=\"") quoted
      → All IsAttribute (value_attr repr name value)
  value_attr-All name none h = tt
  value_attr-All name (some v) h = (attr-Leads name (str_of repr v) h, tt)

  pub help_text_attr-IsAttribute : (var : VarDict) → IsAttribute (help_text_attr repr var)
  unfolding help_text_attr text_eq
  help_text_attr-IsAttribute var = elim (Option-cases (find (codes "help") var)) [
    | inl e ↦ rw (e, help_text_attr) (leads refl refl)
    | inr (help, e) ↦ elim (Bool-cases (truthy help)) [
      | inl f ↦
          rw (e, help_text_attr)
            (rw f (
              space-Leads (attr (codes "title") (one_line (str_of repr help))) inside
                (attr-Leads (codes "title") (one_line (str_of repr help)) (leads refl refl))))
      | inr f ↦ rw (e, help_text_attr) (rw f (leads refl refl))
    ]
  ]

  option_of-Leads :
      (current : Option Text) (choice : Value × Text)
      → Leads outside (option_of repr current choice) outside
  unfolding text_eq
  option_of-Leads current (value, label) =
      let opening : Leads outside (codes "<option ") inside = leads refl refl in
      let closing : Leads outside (codes "</option>") outside = leads refl refl in
      let (place, mark, end) = selected-Leads (text_eq (str_of repr value) (str_or_none current)) in
      opening
      then value-IsAttribute (text_of repr value)
      then mark
      then end
      then esc-outside label
      then closing

  pub render_select-Leads :
      (name : Text) (var : VarDict) (current : Option Text) (choices : List (Value × Text))
      → Leads outside (render_select repr name var current choices) outside
  unfolding render_select text_eq
  render_select-Leads name var current choices =
      let opening : Leads outside (codes "<select ") inside = leads refl refl in
      let middle : Leads inside (codes ">\n") outside = leads refl refl in
      let closing : Leads outside (codes "\n</select>") outside = leads refl refl in
      opening
      then common_attrs-IsAttribute name current var
      then help_text_attr-IsAttribute var
      then middle
      then all_lines-Leads (map (option_of repr current) choices) (
          map-All (λ x. Leads outside x outside) (option_of repr current) (option_of-Leads current)
            choices)
      then closing

  radio_of-Leads :
      (name : Text) (var : VarDict) (current : Option Text) (choice : Value × Text)
      → Leads outside (radio_of repr name var current choice) outside
  unfolding text_eq
  radio_of-Leads name var current (value, label) =
      let opening : Leads outside (codes "<label class=\"radio-option\"><input type=\"radio\" ")
          inside =
        leads refl refl in
      let space : Leads inside (codes " ") inside = leads refl refl in
      let middle : Leads inside (codes "> ") outside = leads refl refl in
      let closing : Leads outside (codes "</label>") outside = leads refl refl in
      let (place, mark, after) =
        checked-Leads (text_eq (str_of repr value) (str_or_none current)) in
      opening
      then name-IsAttribute name
      then space
      then value-IsAttribute (text_of repr value)
      then mark
      then after
      then original-IsAttribute (or_empty current)
      then write_only_attr-IsAttribute var
      then middle
      then esc-outside label
      then closing

  pub render_radio-Leads :
      (name : Text) (var : VarDict) (current : Option Text) (choices : List (Value × Text))
      → Leads outside (render_radio repr name var current choices) outside
  unfolding render_radio text_eq
  render_radio-Leads name var current choices =
      let opening : Leads outside (codes "<div class=\"radio-group\" role=\"radiogroup\">")
          outside =
        leads refl refl in
      let closing : Leads outside (codes "</div>") outside = leads refl refl in
      opening
      then concat-Leads (map (radio_of repr name var current) choices) (
          map-All (λ x. Leads outside x outside) (radio_of repr name var current)
            (radio_of-Leads name var current) choices)
      then closing

  -- A control of one tag: what opens it, its attributes, its title.
  pub control-Leads :
      (opening name : Text) (var : VarDict) (current : Option Text) (parts : List Text)
      → Leads outside opening inside
      → All IsAttribute parts
      → Leads outside
          (join b' ' ((opening ++ common_attrs name current var) ∷ parts)
            ++ help_text_attr repr var
            ++ codes ">")
          outside
  unfolding text_eq
  control-Leads opening name var current parts h hs =
      let closing : Leads inside (codes ">") outside = leads refl refl in
      join-Leads outside (opening ++ common_attrs name current var) parts
        (h then common_attrs-IsAttribute name current var) hs
      then help_text_attr-IsAttribute var
      then closing
