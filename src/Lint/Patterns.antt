-- ===== src/Lint/Patterns.antt =====
-- The patterns of the linter at a text that ends in a newline.
use stra2us.Prelude.{Text, false, [], ◌∷◌, ◌++◌, ◌≡◌, refl, sym, ap, ◌∙◌, ◌==◌, All}
use stra2us.Lint.{before_newline, matches_hex_color, matches_asset_filename}

before_newline-append : (s : Text) → before_newline (s ++ 10 ∷ []) ≡ s
before_newline-append [] = refl
before_newline-append (c ∷ []) = refl
before_newline-append (c ∷ d ∷ s) = ap (λ t. c ∷ t) (before_newline-append (d ∷ s))

before_newline-id : (s : Text) → All (λ c. (c == 10) ≡ false) s → before_newline s ≡ s
before_newline-id [] _ = refl
before_newline-id (c ∷ []) (h, _) = rw h refl
before_newline-id (c ∷ d ∷ s) (_, hs) = ap (λ t. c ∷ t) (before_newline-id (d ∷ s) hs)

-- A newline behind a text that holds none makes no difference to the patterns for asset filenames
-- and colours: what passes without it passes with it.
pub matches-newline :
    (s : Text)
    → All (λ c. (c == 10) ≡ false) s
    → (matches_asset_filename (s ++ 10 ∷ []) ≡ matches_asset_filename s)
      × (matches_hex_color (b'#' ∷ (s ++ 10 ∷ [])) ≡ matches_hex_color (b'#' ∷ s))
unfolding matches_asset_filename matches_hex_color
matches-newline s h =
    let e = before_newline-append s ∙ sym (before_newline-id s h) in (rw e refl, rw e refl)
