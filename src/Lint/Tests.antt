-- ===== src/Lint/Tests.antt =====
-- Examples of the linter.
use stra2us.Prelude.{
  true, List, some, none, pos, ◌||◌, ◌&&◌, not, any, ◌≢◌, ◌≤◌, codes, [], ◌∷◌, ◌≡◌, refl, ◌↔◌, All,
  false,
}
use stra2us.Device.{is_some}
use stra2us.Lint.Fields.{Var, EnumEntry, bare, number, has_type, is_choice, lint_field_enum}
use stra2us.Lint.Fields.Choices.{AreChoices, lint_field_enum_iff}
use stra2us.Lint.{Asset, Limits, lint_asset_bundle}
use stra2us.Lint.Bundle.{IsAsset, AreDistinct, total_size, lint_asset_bundle_iff}

abbrev defaults : Limits
defaults = record {
  markdown_max_bytes = 4096;
  asset_max_bytes = 262144;
  asset_bundle_max_bytes = 2097152;
  asset_content_types = codes "image/png" ∷ [];
  theme_font_allowlist = codes "serif" ∷ [];
}

abbrev logo : Asset
logo = record { filename = codes "logo.png"; content_type = codes "image/png"; size_bytes = 1000 }

lint_asset_bundle_iff_example : (lint_asset_bundle defaults (logo ∷ []) ≡ []) ↔ (
    All (IsAsset defaults) (logo ∷ [])
    × AreDistinct [] (logo ∷ [])
    × (total_size (logo ∷ []) ≤ 2097152))
lint_asset_bundle_iff_example = lint_asset_bundle_iff defaults (logo ∷ [])

abbrev password : Var
password = record {
  type_name = codes "string";
  choices = none;
  min = none;
  max = none;
  step = none;
  widget = some (codes "secret");
  multiline = false;
  max_length = none;
  pattern = none;
  help_markdown = none;
  write_only = true;
  encrypted = true;
}

abbrev entries : List EnumEntry
entries = bare (number (pos 1)) ∷ bare (number (pos 2)) ∷ []

abbrev level : Var
level = record password { type_name = codes "int"; choices = some entries }

lint_field_enum_iff_example : (lint_field_enum level (codes "level") ≡ []) ↔ (
    ((has_type (codes "int") level || has_type (codes "string") level) ≡ true)
    × (entries ≢ [])
    × ((any is_choice entries && any (λ x. not (is_choice x)) entries) ≡ false)
    × ((has_type (codes "int") level && (is_some level.min || is_some level.max)) ≡ false)
    × AreChoices level [] [] entries)
lint_field_enum_iff_example = lint_field_enum_iff level (codes "level") entries refl
