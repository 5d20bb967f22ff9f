-- ===== src/Page/Blocks.antt =====
-- backend/src/services/markdown_cache.py: the cache of rendered texts. `sanitize_markdown` is a
-- parameter: the cache is about no more than its results. Calls do not overlap.
use stra2us.Prelude.{
  ℕ, suc, Text, Bool, true, false, List, [], ◌∷◌, Option, none, some, ◌&&◌, text_eq, if◌then◌else◌,
}
pub mod History

-- `(app, publish_hash, block_id)`
pub record Key : Type 0 where
  pub app : Text
  pub publish_hash : Text
  pub block_id : Text

abbrev pub same_key : Key → Key → Bool
same_key j k =
    text_eq j.app k.app && text_eq j.publish_hash k.publish_hash && text_eq j.block_id k.block_id

-- The module's state: _cache and _stats.
pub record Cache : Type 0 where
  pub cache : List (Key × Text)
  pub hits : ℕ
  pub misses : ℕ

unfoldable pub cached : Key → List (Key × Text) → Option Text
cached k [] = none
cached k ((j, html) ∷ rest) = if same_key j k then some html else cached k rest

-- `_cache[key] = rendered`
unfoldable pub put : Key → Text → List (Key × Text) → List (Key × Text)
put k html [] = (k, html) ∷ []
put k html ((j, old) ∷ rest) =
    let later = put k html rest in if same_key j k then (j, html) ∷ rest else (j, old) ∷ later

-- clear, and the state at the start of the process.
abbrev pub clear : Cache
clear = record { cache = []; hits = 0; misses = 0 }

-- stats
abbrev pub stats : Cache → ℕ × ℕ
stats c = (c.hits, c.misses)

module _ (sanitize_markdown : Text → Text → Text) where
  -- `source` is no part of the key.
  unfoldable pub render_block : Key → Text → Cache → Text × Cache
  unfolding cached put
  render_block key source c = elim (cached key c.cache) [
    | some html ↦ (html, record { cache = c.cache; hits = suc c.hits; misses = c.misses })
    | none ↦
        let rendered = sanitize_markdown source key.app in
        (
          rendered,
          record { cache = put key rendered c.cache; hits = c.hits; misses = suc c.misses },
        )
  ]

  -- A history of calls, each with its source.
  unfoldable pub render_all : List (Key × Text) → Cache → List Text × Cache
  unfolding render_block
  render_all [] c = ([], c)
  render_all ((key, source) ∷ calls) c =
      let (html, c') = render_block key source c in
      let (more, c'') = render_all calls c' in (html ∷ more, c'')
