-- ===== src/Lint.antt =====
-- tools/stra2us_cli/catalog_lint.py: the rules for the theme, the page texts and the asset bundle of a
-- catalog. The message of an issue is not modelled; the limits come from the environment.
pub mod Bundle
pub mod Patterns
pub mod Fields
pub mod Publication
mod Tests
use stra2us.Prelude.{
  ℕ, ◌+◌, Text, codes, Bool, true, false, List, [], ◌∷◌, ◌++◌, Option, none, some, not, ◌||◌, ◌&&◌,
  ltb, leb, ◌==◌, any, all, text_eq, if◌then◌else◌, length,
}
use stra2us.Builtins.{encode}

pub data Severity : Type 0 where
  error warning : Severity

pub record LintIssue : Type 0 where
  pub severity : Severity
  pub path : Text

pub record Asset : Type 0 where
  pub filename : Text
  pub content_type : Text
  pub size_bytes : ℕ

-- The configuration knobs.
pub record Limits : Type 0 where
  pub markdown_max_bytes : ℕ
  pub asset_max_bytes : ℕ
  pub asset_bundle_max_bytes : ℕ
  pub asset_content_types : List Text
  pub theme_font_allowlist : List Text

pub record Theme : Type 0 where
  pub primary_color : Option Text
  pub accent_color : Option Text
  pub bg_color : Option Text
  pub text_color : Option Text
  pub font_family : Option Text
  pub logo_asset : Option Text
  pub favicon_asset : Option Text
  pub logo_alt : Option Text
  pub product_name : Option Text

pub record Ui : Type 0 where
  pub header_markdown : Option Text
  pub footer_markdown : Option Text

-- `name in names`
abbrev pub is_in : Text → List Text → Bool
is_in name names = any (text_eq name) names

-- The `$` of a pattern matches before a newline that ends the text, too.
abbrev pub before_newline : Text → Text
before_newline [] = []
before_newline (c ∷ []) = if c == 10 then [] else c ∷ []
before_newline (c ∷ d ∷ s) = c ∷ before_newline (d ∷ s)

abbrev pub is_hex : ℕ → Bool
is_hex c = (leb 48 c && leb c 57) || (leb 97 c && leb c 102) || (leb 65 c && leb c 70)

abbrev pub is_hex_digits : Text → Bool
is_hex_digits s = any (λ n. length s == n) (3 ∷ 4 ∷ 6 ∷ 8 ∷ []) && all is_hex s

-- HEX_COLOR_RE
unfoldable pub matches_hex_color : Text → Bool
matches_hex_color [] = false
matches_hex_color (c ∷ s) = c == b'#' && is_hex_digits (before_newline s)

-- `[a-z0-9._-]`
abbrev pub is_filename_char : ℕ → Bool
is_filename_char c =
    (leb 97 c && leb c 122) || (leb 48 c && leb c 57) || c == 46 || c == 95 || c == 45

abbrev pub is_visible_name : Text → Bool
is_visible_name [] = false
is_visible_name (c ∷ s) = not (c == 46) && leb (length (c ∷ s)) 64 && all is_filename_char (c ∷ s)

-- ASSET_FILENAME_RE
unfoldable pub matches_asset_filename : Text → Bool
matches_asset_filename s = is_visible_name (before_newline s)

-- _CTRL_CHARS_RE.search
unfoldable pub has_control_chars : Text → Bool
has_control_chars s = any (λ c. ltb c 32 || c == 127) s

-- One rule: an error at the path where the test holds.
abbrev pub error_if : Bool → Text → List LintIssue
error_if found path = if found then record { severity = error; path = path } ∷ [] else []

-- A rule for a field that may be absent.
abbrev pub lint_present : (Text → List LintIssue) → Option Text → List LintIssue
lint_present rule none = []
lint_present rule (some value) = rule value

unfoldable pub lint_theme_color : Text → Option Text → List LintIssue
unfolding matches_hex_color
lint_theme_color path value = lint_present (λ v. error_if (not (matches_hex_color v)) path) value

-- `asset_listing is not None and name not in asset_listing`
abbrev pub is_missing : Option (List Text) → Text → Bool
is_missing none name = false
is_missing (some listing) name = not (is_in name listing)

unfoldable pub lint_theme_asset : Option (List Text) → Text → Option Text → List LintIssue
unfolding matches_asset_filename
lint_theme_asset asset_listing path value =
    lint_present (λ v. error_if (not (matches_asset_filename v) || is_missing asset_listing v) path)
      value

-- The length and the characters of a plain text.
unfoldable pub lint_theme_text : ℕ → Text → Option Text → List LintIssue
unfolding has_control_chars
lint_theme_text max_length path value =
    lint_present
      (λ v. error_if (ltb max_length (length v)) path ++ error_if (has_control_chars v) path) value

module _ (limits : Limits) where
  unfoldable pub lint_theme : Option (List Text) → Option Theme → List LintIssue
  unfolding lint_theme_color lint_theme_asset lint_theme_text
  lint_theme asset_listing none = []
  lint_theme asset_listing (some theme) =
      lint_theme_color (codes "theme.primary_color") theme.primary_color
      ++ lint_theme_color (codes "theme.accent_color") theme.accent_color
      ++ lint_theme_color (codes "theme.bg_color") theme.bg_color
      ++ lint_theme_color (codes "theme.text_color") theme.text_color
      ++ lint_present
          (λ f. error_if (not (is_in f limits.theme_font_allowlist)) (codes "theme.font_family"))
          theme.font_family
      ++ lint_theme_asset asset_listing (codes "theme.logo_asset") theme.logo_asset
      ++ lint_theme_asset asset_listing (codes "theme.favicon_asset") theme.favicon_asset
      ++ lint_theme_text 100 (codes "theme.logo_alt") theme.logo_alt
      ++ lint_theme_text 60 (codes "theme.product_name") theme.product_name

  unfoldable pub lint_markdown : Text → Option Text → List LintIssue
  lint_markdown path value =
      lint_present (λ v. error_if (ltb limits.markdown_max_bytes (length (encode v))) path) value

  unfoldable pub lint_ui : Option Ui → List LintIssue
  unfolding lint_markdown
  lint_ui none = []
  lint_ui (some ui) =
      lint_markdown (codes "ui.header_markdown") ui.header_markdown
      ++ lint_markdown (codes "ui.footer_markdown") ui.footer_markdown

  -- The checks of one file of the bundle.
  unfoldable pub lint_asset : List Text → Asset → List LintIssue
  lint_asset seen asset =
      let path = codes "_assets/" ++ asset.filename in
      error_if (not (matches_asset_filename asset.filename)) path
      ++ error_if (is_in asset.filename seen) path
      ++ error_if (not (is_in asset.content_type limits.asset_content_types)) path
      ++ error_if (ltb limits.asset_max_bytes asset.size_bytes) path

  -- The loop over the files, with the names seen and the total so far, and the check behind it.
  unfoldable pub lint_assets : List Text → ℕ → List Asset → List LintIssue
  unfolding lint_asset
  lint_assets seen total [] = error_if (ltb limits.asset_bundle_max_bytes total) (codes "_assets/")
  lint_assets seen total (asset ∷ assets) =
      lint_asset seen asset ++ lint_assets (asset.filename ∷ seen) (total + asset.size_bytes) assets

  unfoldable pub lint_asset_bundle : List Asset → List LintIssue
  unfolding lint_assets
  lint_asset_bundle assets = lint_assets [] 0 assets
