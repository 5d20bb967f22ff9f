-- ===== src/Lint/Bundle.antt =====
-- Which bundles and themes pass without an issue.
use stra2us.Prelude.{
  ℕ, ◌+◌, ◌≤◌, Text, codes, Bool, true, false, List, [], ◌∷◌, ◌++◌, not, ◌≡◌, refl, arith, ◌↔◌, ltb,
  All,
}
use stra2us.Lint.{
  Asset, Limits, is_in, matches_asset_filename, error_if, lint_asset, lint_assets,
  lint_asset_bundle,
}

-- The sum of the sizes.
abbrev pub total_size : List Asset → ℕ
total_size [] = 0
total_size (a ∷ assets) = a.size_bytes + total_size assets

-- What one file has to be.
pub record IsAsset (limits : Limits) (a : Asset) : Type 0 where
  pub named : matches_asset_filename a.filename ≡ true
  pub typed : is_in a.content_type limits.asset_content_types ≡ true
  pub sized : a.size_bytes ≤ limits.asset_max_bytes

-- No file has the name of an earlier one, or one of `seen`.
abbrev pub AreDistinct : List Text → List Asset → Type 0
AreDistinct seen [] = Unit
AreDistinct seen (a ∷ assets) =
    (is_in a.filename seen ≡ false) × AreDistinct (a.filename ∷ seen) assets

pub append-nil_iff : {A : Type 0} (xs ys : List A) → ((xs ++ ys) ≡ []) ↔ ((xs ≡ []) × (ys ≡ []))
append-nil_iff [] ys = (λ e. (refl, e), λ (_, e). e)
append-nil_iff (x ∷ xs) ys = (λ e. cc, λ (e, _). cc)

pub error_if_iff : (b : Bool) (path : Text) → (error_if b path ≡ []) ↔ (b ≡ false)
error_if_iff true path = (λ e. cc, λ e. cc)
error_if_iff false path = (λ e. refl, λ e. refl)

-- Four rules in a row.
rules_iff :
    (p q r s : Bool) (path : Text)
    → ((error_if p path ++ error_if q path ++ error_if r path ++ error_if s path) ≡ [])
      ↔ ((p ≡ false) × (q ≡ false) × (r ≡ false) × (s ≡ false))
rules_iff p q r s path =
    let e1 = error_if p path in
    let e2 = error_if q path in
    let e3 = error_if r path in
    let e4 = error_if s path in
    (
      λ h.
          let (k1, h4) = (append-nil_iff ((e1 ++ e2) ++ e3) e4).0 h in
          let (k2, h3) = (append-nil_iff (e1 ++ e2) e3).0 k1 in
          let (h1, h2) = (append-nil_iff e1 e2).0 k2 in
          (
            (error_if_iff p path).0 h1,
            (error_if_iff q path).0 h2,
            (error_if_iff r path).0 h3,
            (error_if_iff s path).0 h4,
          ),
      λ (h1, h2, h3, h4). rw (h1, h2, h3, h4) refl,
    )

module _ (limits : Limits) where
  lint_asset_iff :
      (seen : List Text) (a : Asset)
      → (lint_asset limits seen a ≡ []) ↔ (IsAsset limits a × (is_in a.filename seen ≡ false))
  unfolding lint_asset
  lint_asset_iff seen a =
      let rules =
        rules_iff (not (matches_asset_filename a.filename)) (is_in a.filename seen)
          (not (is_in a.content_type limits.asset_content_types))
          (ltb limits.asset_max_bytes a.size_bytes) (codes "_assets/" ++ a.filename) in
      (
        λ h.
            let (h1, h2, h3, h4) = rules.0 h in
            (
              record {
                named = ground (arith, h1);
                typed = ground (arith, h3);
                sized = ground (arith, h4);
              },
              h2,
            ),
        λ (ok, fresh).
            let n1 = ok.named in
            let n3 = ok.typed in
            let n4 = ok.sized in
            rules.1 (ground (arith, n1), fresh, ground (arith, n3), ground (arith, n4)),
      )

  lint_assets_iff :
      (seen : List Text) (total : ℕ) (assets : List Asset)
      → (lint_assets limits seen total assets ≡ []) ↔ (
          All (IsAsset limits) assets
          × AreDistinct seen assets
          × (total + total_size assets ≤ limits.asset_bundle_max_bytes))
  unfolding lint_assets
  lint_assets_iff seen total [] =
      let e = error_if_iff (ltb limits.asset_bundle_max_bytes total) (codes "_assets/") in
      (
        λ h. let t = e.0 h in (tt, tt, ground (arith, t)),
        λ (_, _, small). e.1 (ground (arith, small)),
      )
  lint_assets_iff seen total (a ∷ assets) =
      let one = lint_asset_iff seen a in
      let rest = lint_assets_iff (a.filename ∷ seen) (total + a.size_bytes) assets in
      let both =
        append-nil_iff (lint_asset limits seen a)
          (lint_assets limits (a.filename ∷ seen) (total + a.size_bytes) assets) in
      (
        λ h.
            let (h1, h2) = both.0 h in
            let (ok, fresh) = one.0 h1 in
            let (oks, apart, small) = rest.0 h2 in
            ((ok, oks), (fresh, apart), omega (arith, small)),
        λ ((ok, oks), (fresh, apart), small).
            both.1 (one.1 (ok, fresh), rest.1 (oks, apart, omega (arith, small))),
      )

  -- A bundle passes without an issue exactly when every file has a name of the pattern, an allowed
  -- content type and a size within the limit, no two files have one name, and the sizes add up to
  -- no more than the bundle's limit.
  pub lint_asset_bundle_iff :
      (assets : List Asset)
      → (lint_asset_bundle limits assets ≡ []) ↔ (
          All (IsAsset limits) assets
          × AreDistinct [] assets
          × (total_size assets ≤ limits.asset_bundle_max_bytes))
  unfolding lint_asset_bundle
  lint_asset_bundle_iff assets =
      let (sound, complete) = lint_assets_iff [] 0 assets in
      (
        λ h. let (oks, apart, small) = sound h in (oks, apart, omega (arith, small)),
        λ (oks, apart, small). complete (oks, apart, omega (arith, small)),
      )
