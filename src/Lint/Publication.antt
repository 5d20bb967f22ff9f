-- ===== src/Lint/Publication.antt =====
-- lint_catalog of tools/stra2us_cli/catalog_lint.py: all rules of a catalog, and the errors among the
-- issues. The set of assets is given as a list.
use stra2us.Prelude.{
  Text, codes, Bool, true, false, List, [], ◌∷◌, ◌++◌, Option, none, some, not, ◌≡◌, refl, arith,
  sym, ◌∙◌, if◌then◌else◌, map, ◌||◌,
}
use stra2us.Admin.Browse.{sort_by}
use stra2us.Lint.{
  Severity, error, warning, LintIssue, Limits, Theme, Ui, is_in, error_if, matches_hex_color,
  lint_theme_color, lint_theme, lint_ui,
}
use stra2us.Lint.Bundle.{append-nil_iff, error_if_iff}
use stra2us.Lint.Fields.{Var, lint_field}

pub record LintedCatalog : Type 0 where
  pub vars : List (Text × Var)
  pub theme : Option Theme
  pub ui : Option Ui

abbrev pub is_error : Severity → Bool
is_error error = true
is_error warning = false

unfoldable pub errors : List LintIssue → List LintIssue
errors [] = []
errors (i ∷ issues) = let rest = errors issues in if is_error i.severity then i ∷ rest else rest

unfoldable pub warnings : List LintIssue → List LintIssue
warnings [] = []
warnings (i ∷ issues) = let rest = warnings issues in if is_error i.severity then rest else i ∷ rest

-- `if asset: referenced.add(asset)`
abbrev pub asset_if_given : Option Text → List Text
asset_if_given (some (c ∷ name)) = (c ∷ name) ∷ []
asset_if_given _ = []

abbrev pub referenced_assets : Option Theme → List Text
referenced_assets none = []
referenced_assets (some theme) =
    asset_if_given theme.logo_asset ++ asset_if_given theme.favicon_asset

-- The names that are not among the given ones, each once.
unfoldable pub difference : List Text → List Text → List Text
difference [] names = []
difference (a ∷ listing) names =
    let rest = difference listing names in if is_in a names || is_in a rest then rest else a ∷ rest

unfoldable pub lint_unused : Option (List Text) → Option Theme → List LintIssue
unfolding difference
lint_unused none theme = []
lint_unused (some listing) theme =
    map (λ name. record { severity = warning; path = codes "_assets/" ++ name })
      (sort_by (λ name. name) (difference listing (referenced_assets theme)))

module _ (limits : Limits) (compiles : Text → Bool) where
  unfoldable pub lint_vars : List (Text × Var) → List LintIssue
  unfolding lint_field
  lint_vars [] = []
  lint_vars ((name, var) ∷ vars) = lint_field limits compiles var name ++ lint_vars vars

  unfoldable pub lint_catalog : Option (List Text) → LintedCatalog → List LintIssue
  unfolding lint_vars lint_theme lint_ui lint_unused
  lint_catalog asset_listing catalog =
      lint_vars catalog.vars
      ++ lint_theme limits asset_listing catalog.theme
      ++ lint_ui limits catalog.ui
      ++ lint_unused asset_listing catalog.theme

if-append :
    {A : Type 0} (b : Bool) (x : A) (xs ys : List A)
    → (if b then x ∷ (xs ++ ys) else xs ++ ys) ≡ (if b then x ∷ xs else xs) ++ ys
if-append true x xs ys = refl
if-append false x xs ys = refl

errors-append : (xs ys : List LintIssue) → errors (xs ++ ys) ≡ errors xs ++ errors ys
unfolding errors
errors-append [] ys = refl
errors-append (x ∷ xs) ys =
    rw (errors-append xs ys) (if-append (is_error x.severity) x (errors xs) (errors ys))

clean_parts :
    (xs ys : List LintIssue) → errors (xs ++ ys) ≡ [] → (errors xs ≡ []) × (errors ys ≡ [])
clean_parts xs ys h = (append-nil_iff (errors xs) (errors ys)).0 (sym (errors-append xs ys) ∙ h)

errors-error_if : (b : Bool) (path : Text) → errors (error_if b path) ≡ error_if b path
unfolding errors
errors-error_if true path = refl
errors-error_if false path = refl

-- A colour that is absent or of the pattern.
abbrev pub IsColor : Option Text → Type 0
IsColor none = Unit
IsColor (some color) = matches_hex_color color ≡ true

lint_theme_color-IsColor :
    (path : Text) (color : Option Text) → errors (lint_theme_color path color) ≡ [] → IsColor color
unfolding lint_theme_color
lint_theme_color-IsColor path none h = tt
lint_theme_color-IsColor path (some color) h =
    let b = not (matches_hex_color color) in
    let bad = (error_if_iff b path).0 (sym (errors-error_if b path) ∙ h) in ground (arith, bad)

-- The four colours of a theme.
abbrev pub AreColors : Option Theme → Type 0
AreColors none = Unit
AreColors (some theme) =
    IsColor theme.primary_color
    × IsColor theme.accent_color
    × IsColor theme.bg_color
    × IsColor theme.text_color

module _ (limits : Limits) where
  lint_theme-AreColors :
      (theme : Option Theme) → errors (lint_theme limits none theme) ≡ [] → AreColors theme
  unfolding lint_theme
  lint_theme-AreColors none h = tt
  lint_theme-AreColors (some theme) h =
      let (h8, _) = clean_parts _ _ h in
      let (h7, _) = clean_parts _ _ h8 in
      let (h6, _) = clean_parts _ _ h7 in
      let (h5, _) = clean_parts _ _ h6 in
      let (h4, _) = clean_parts _ _ h5 in
      let (h3, text) = clean_parts _ _ h4 in
      let (h2, bg) = clean_parts _ _ h3 in
      let (primary, accent) = clean_parts _ _ h2 in
      (
        lint_theme_color-IsColor (codes "theme.primary_color") theme.primary_color primary,
        lint_theme_color-IsColor (codes "theme.accent_color") theme.accent_color accent,
        lint_theme_color-IsColor (codes "theme.bg_color") theme.bg_color bg,
        lint_theme_color-IsColor (codes "theme.text_color") theme.text_color text,
      )

  -- A catalog without errors, linted without a listing of assets, has well-formed colours.
  pub lint_catalog-AreColors :
      (compiles : Text → Bool) (catalog : LintedCatalog)
      → errors (lint_catalog limits compiles none catalog) ≡ []
      → AreColors catalog.theme
  unfolding lint_catalog
  lint_catalog-AreColors compiles catalog h =
      let vars = lint_vars limits compiles catalog.vars in
      let theme = lint_theme limits none catalog.theme in
      let ui = lint_ui limits catalog.ui in
      let (h2, _) = clean_parts (vars ++ theme ++ ui) (lint_unused none catalog.theme) h in
      let (h1, _) = clean_parts (vars ++ theme) ui h2 in
      lint_theme-AreColors catalog.theme (clean_parts vars theme h1).1
