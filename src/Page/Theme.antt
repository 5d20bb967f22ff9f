-- ===== src/Page/Theme.antt =====
-- backend/src/services/theme_serializer.py: the style sheet of an app's theme. `theme_hash` takes
-- `dumps` of json and SHA-256 as parameters.
use stra2us.Prelude.{
  ℕ, Text, Bytes, codes, Bool, true, false, List, [], ◌∷◌, ◌++◌, Option, none, some, ◌||◌, ◌&&◌,
  leb, ◌==◌, all, take, join, if◌then◌else◌,
}
use stra2us.Builtins.{encode, hexdigest}
use stra2us.Value.{Value, Fields, str, obj, find, items, end}
use stra2us.Lint.{is_hex_digits, is_in}
pub mod OneRule

pub data Kind : Type 0 where
  color font : Kind

-- _FONT_ALLOWLIST
abbrev pub font_allowlist : List Text
font_allowlist = codes "system-ui" ∷ codes "sans-serif" ∷ codes "serif" ∷ codes "monospace" ∷ []

-- _DECLARATIONS
abbrev pub declarations : List (Text × Text × Kind)
declarations =
    (codes "primary_color", codes "--app-primary", color)
    ∷ (codes "accent_color", codes "--app-accent", color)
    ∷ (codes "bg_color", codes "--app-bg", color)
    ∷ (codes "text_color", codes "--app-text", color)
    ∷ (codes "font_family", codes "--app-font", font)
    ∷ []

-- _HEX_COLOR_RE.fullmatch
unfoldable pub is_color : Text → Bool
is_color [] = false
is_color (c ∷ s) = c == b'#' && is_hex_digits s

abbrev pub is_lower : ℕ → Bool
is_lower c = leb 97 c && leb c 122

abbrev pub is_slug_char : ℕ → Bool
is_slug_char c = is_lower c || (leb 48 c && leb c 57) || c == 95

-- _APP_SLUG_RE.fullmatch
unfoldable pub is_slug : Text → Bool
is_slug [] = false
is_slug (c ∷ s) = is_lower c && all is_slug_char s

abbrev pub if_valid : Bool → Text → Option Text
if_valid true s = some s
if_valid false s = none

unfoldable pub safe_color : Value → Option Text
unfolding is_color
safe_color (str s) = if_valid (is_color s) s
safe_color _ = none

unfoldable pub safe_font : Value → Option Text
safe_font (str s) = if_valid (is_in s font_allowlist) s
safe_font _ = none

-- _VALIDATORS
abbrev pub validator : Kind → Value → Option Text
validator color raw = safe_color raw
validator font raw = safe_font raw

abbrev pub declaration : Text → Text → Text
declaration css_var value = codes "  " ++ css_var ++ codes ": " ++ value ++ codes ";"

-- The loop over _DECLARATIONS. A `None` in the theme fails the validators like any other object that
-- is no text.
unfoldable pub declared : List (Text × Value) → List (Text × Text × Kind) → List Text
unfolding safe_color safe_font
declared theme [] = []
declared theme ((key, css_var, kind) ∷ more) =
    let rest = declared theme more in
    elim (find key theme) [
      | none ↦ rest
      | some raw ↦ elim (validator kind raw) [
        | none ↦ rest
        | some value ↦ declaration css_var value ∷ rest
      ]
    ]

abbrev pub theme_items : Option Fields → List (Text × Value)
theme_items none = []
theme_items (some fs) = items fs

abbrev pub rule : Text → List Text → Text
rule selector [] = selector ++ codes " {\n}\n"
rule selector (d ∷ ds) = selector ++ codes " {\n" ++ join 10 (d ∷ ds) ++ codes "\n}\n"

unfoldable pub serialize_theme_css : Text → Option Fields → Text
unfolding is_slug declared
serialize_theme_css app_slug theme =
    if is_slug app_slug
    then rule (codes "[data-app=\"" ++ app_slug ++ codes "\"]")
        (declared (theme_items theme) declarations)
    else []

-- `theme or {}`
abbrev pub theme_or_empty : Option Fields → Value
theme_or_empty none = obj end
theme_or_empty (some fs) = obj fs

-- `dumps` sorts the keys.
unfoldable pub theme_hash : (Value → Text) → (Bytes → Bytes) → Option Fields → Text
theme_hash dumps sha256 theme = take 8 (hexdigest (sha256 (encode (dumps (theme_or_empty theme)))))
