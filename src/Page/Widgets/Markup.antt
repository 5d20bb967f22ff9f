-- ===== src/Page/Widgets/Markup.antt =====
-- A reader of HTML: where it is after a text, and the words that it meets inside of tags, outside of
-- quotes: the names of tags and of attributes, and values without quotes.
use stra2us.Prelude.{
  arith, ℕ, Text, codes, Bool, true, List, [], ◌∷◌, ◌++◌, ◌≡◌, refl, ap, ◌∙◌, ◌||◌, ◌&&◌, ◌==◌,
  text_eq, if◌then◌else◌,
}
use mathlib.Core.List.{reverse}
use stra2us.Lint.{is_in}
use stra2us.Page.Widgets.{escape_char, esc, attr}

-- Between tags, in a tag with the word that is being read, in quotes.
pub data Place : Type 0 where
  outside : Place
  tag : Text → Place
  quoted : Place

abbrev pub is_delimiter : ℕ → Bool
is_delimiter c = c == b' ' || c == 10 || c == b'=' || c == b'/'

abbrev pub after_char : Place → ℕ → Place
after_char outside c = if c == b'<' then tag [] else outside
after_char quoted c = if c == b'"' then tag [] else quoted
after_char (tag word) c =
    if c == b'>'
    then outside
    else if c == b'"'
    then quoted
    else if is_delimiter c
    then tag []
    else tag (c ∷ word)

-- A word that ends at this character.
abbrev pub known_names : List Text
known_names =
    codes "input"
    ∷ codes "select"
    ∷ codes "option"
    ∷ codes "textarea"
    ∷ codes "label"
    ∷ codes "div"
    ∷ codes "type"
    ∷ codes "name"
    ∷ codes "value"
    ∷ codes "data-original"
    ∷ codes "data-write-only"
    ∷ codes "title"
    ∷ codes "min"
    ∷ codes "max"
    ∷ codes "step"
    ∷ codes "rows"
    ∷ codes "maxlength"
    ∷ codes "pattern"
    ∷ codes "autocomplete"
    ∷ codes "class"
    ∷ codes "role"
    ∷ codes "selected"
    ∷ codes "checked"
    ∷ []

abbrev pub is_known : Text → Bool
is_known word = text_eq word [] || is_in (reverse word) known_names

abbrev pub ends_known : Place → ℕ → Bool
ends_known (tag word) c = if c == b'>' || c == b'"' || is_delimiter c then is_known word else true
ends_known _ c = true

abbrev pub reach : Place → Text → Place
reach p [] = p
reach p (c ∷ s) = reach (after_char p c) s

abbrev pub all_known : Place → Text → Bool
all_known p [] = true
all_known p (c ∷ s) = ends_known p c && all_known (after_char p c) s

-- From one place to another, meeting known words only.
pub record Leads (p : Place) (s : Text) (q : Place) : Type 0 where
  pub reached : reach p s ≡ q
  pub known : all_known p s ≡ true

abbrev pub leads :
    {p : Place} {s : Text} {q : Place} → reach p s ≡ q → all_known p s ≡ true → Leads p s q
leads r k = record { reached = r; known = k }

reach-append : (p : Place) (s t : Text) → reach p (s ++ t) ≡ reach (reach p s) t
reach-append p [] t = refl
reach-append p (c ∷ s) t = reach-append (after_char p c) s t

all_known-append :
    (p : Place) (s t : Text) → all_known p (s ++ t) ≡ (all_known p s && all_known (reach p s) t)
all_known-append p [] t = refl
all_known-append p (c ∷ s) t = ground (arith, all_known-append (after_char p c) s t)

infixl 60 ◌then◌
pub ◌then◌ : {p q o : Place} {s t : Text} → Leads p s q → Leads q t o → Leads p (s ++ t) o
◌then◌ {p = p} {s = s} {t = t} a b = record {
  reached = reach-append p s t ∙ ap (λ x. reach x t) a.reached ∙ b.reached;
  known = all_known-append p s t ∙ rw (a.known, a.reached) b.known;
}

-- What is escaped ends no quotes and opens no tag.
escape_char-Leads :
    (c : ℕ) → Leads quoted (escape_char c) quoted × Leads outside (escape_char c) outside
unfolding escape_char
escape_char-Leads c = (leads (ground arith) (ground arith), leads (ground arith) (ground arith))

pub esc-quoted : (s : Text) → Leads quoted (esc s) quoted
unfolding esc
esc-quoted [] = leads refl refl
esc-quoted (c ∷ s) = (escape_char-Leads c).0 then esc-quoted s

pub esc-outside : (s : Text) → Leads outside (esc s) outside
unfolding esc
esc-outside [] = leads refl refl
esc-outside (c ∷ s) = (escape_char-Leads c).1 then esc-outside s

pub attr-Leads :
    (name value : Text)
    → Leads (tag []) (name ++ codes "=\"") quoted
    → Leads (tag []) (attr name value) (tag [])
attr-Leads name value h = h then esc-quoted value then leads refl refl
