-- ===== src/Page/Blocks/History.antt =====
-- The cache over a history of calls: what it answers, and how often the sanitizer runs.
use stra2us.Prelude.{
  arith, ℕ, suc, ◌+◌, Text, true, false, List, [], ◌∷◌, none, some, ◌≡◌, refl, ap, sym, ◌∙◌,
  text_eq_iff, text_eq_refl, Bool-cases, Option-cases, inl, inr, if◌then◌else◌, any, length, map,
}
use stra2us.Device.{is_some}
use stra2us.Page.Blocks.{Key, Cache, same_key, cached, put, clear, render_block, render_all}

eq_of_same_key : (j k : Key) → same_key j k ≡ true → j ≡ k
eq_of_same_key j k h = ground (
  arith,
  text_eq_iff j.app k.app,
  text_eq_iff j.publish_hash k.publish_hash,
  text_eq_iff j.block_id k.block_id,
)

same_key_refl : (k : Key) → same_key k k ≡ true
same_key_refl k =
    ground (arith, text_eq_refl k.app, text_eq_refl k.publish_hash, text_eq_refl k.block_id)

cached-put :
    (k q : Key) (html : Text) (l : List (Key × Text))
    → cached q (put k html l) ≡ (if same_key k q then some html else cached q l)
unfolding cached put
cached-put k q html [] = refl
cached-put k q html ((j, old) ∷ l) = elim (Bool-cases (same_key j k)) [
  | inl e ↦ ground (arith, eq_of_same_key j k e)
  | inr e ↦
      ground (arith, cached-put k q html l, eq_of_same_key j q, eq_of_same_key k q, same_key_refl q)
]

-- The number of keys that come up for the first time.
abbrev pub first_times : List Key → List Key → ℕ
first_times seen [] = 0
first_times seen (k ∷ ks) =
    let again = first_times seen ks in
    let fresh = first_times (k ∷ seen) ks in
    if any (λ j. same_key j k) seen then again else suc fresh

module _ (sanitize_markdown : Text → Text → Text) (source_of : Key → Text) where
  abbrev pub rendering : Key → Text
  rendering k = sanitize_markdown (source_of k) k.app

  abbrev pub call_of : Key → Key × Text
  call_of k = (k, source_of k)

  -- What the cache holds is the rendering of the key's source, and its keys are those seen.
  abbrev IsFresh : Cache → Type 0
  IsFresh c = (k : Key) (html : Text) → cached k c.cache ≡ some html → html ≡ rendering k

  abbrev HasSeen : List Key → Cache → Type 0
  HasSeen seen c = (k : Key) → is_some (cached k c.cache) ≡ any (λ j. same_key j k) seen

  abbrev after_miss : Key → Cache → Cache
  after_miss k c = record {
    cache = put k (rendering k) c.cache;
    hits = c.hits;
    misses = suc c.misses;
  }

  abbrev after_hit : Cache → Cache
  after_hit c = record { cache = c.cache; hits = suc c.hits; misses = c.misses }

  render_block_miss :
      (k : Key) (c : Cache)
      → cached k c.cache ≡ none
      → render_block sanitize_markdown k (source_of k) c ≡ (rendering k, after_miss k c)
  unfolding render_block
  render_block_miss k c e = rw (e, render_block) refl

  render_block_hit :
      (k : Key) (c : Cache) (html : Text)
      → cached k c.cache ≡ some html
      → render_block sanitize_markdown k (source_of k) c ≡ (html, after_hit c)
  unfolding render_block
  render_block_hit k c html e = rw (e, render_block) refl

  render_all_miss :
      (k : Key) (calls : List (Key × Text)) (c : Cache)
      → cached k c.cache ≡ none
      → let rest = render_all sanitize_markdown calls (after_miss k c) in
        render_all sanitize_markdown (call_of k ∷ calls) c ≡ (rendering k ∷ rest.0, rest.1)
  unfolding render_all
  render_all_miss k calls c e = rw (render_block_miss k c e) refl

  render_all_hit :
      (k : Key) (calls : List (Key × Text)) (c : Cache) (html : Text)
      → cached k c.cache ≡ some html
      → let rest = render_all sanitize_markdown calls (after_hit c) in
        render_all sanitize_markdown (call_of k ∷ calls) c ≡ (html ∷ rest.0, rest.1)
  unfolding render_all
  render_all_hit k calls c html e = rw (render_block_hit k c html e) refl

  after_miss-IsFresh : (k : Key) (c : Cache) → IsFresh c → IsFresh (after_miss k c)
  after_miss-IsFresh k c f q html h =
      ground (arith, cached-put k q (rendering k) c.cache, eq_of_same_key k q, f q html)

  after_miss-HasSeen :
      (k : Key) (seen : List Key) (c : Cache) → HasSeen seen c → HasSeen (k ∷ seen) (after_miss k c)
  after_miss-HasSeen k seen c s q = ground (arith, cached-put k q (rendering k) c.cache, s q)

  render_all-IsFresh :
      (keys seen : List Key) (c : Cache)
      → IsFresh c
      → HasSeen seen c
      → let (htmls, d) = render_all sanitize_markdown (map call_of keys) c in
        (htmls ≡ map rendering keys)
        × (d.misses ≡ c.misses + first_times seen keys)
        × (d.hits + d.misses ≡ c.hits + c.misses + length keys)
  unfolding render_all
  render_all-IsFresh [] seen c f s = (refl, omega arith, omega arith)
  render_all-IsFresh (k ∷ keys) seen c f s = elim (Option-cases (cached k c.cache)) [
    | inl e ↦
        let (same, ran, calls) =
          render_all-IsFresh keys (k ∷ seen) (after_miss k c) (after_miss-IsFresh k c f)
            (after_miss-HasSeen k seen c s) in
        let first : any (λ j. same_key j k) seen ≡ false = sym (s k) ∙ ap is_some e in
        let step = render_all_miss k (map call_of keys) c e in
        rw first (
          ap (λ x. x.0) step ∙ ap (λ l. rendering k ∷ l) same,
          omega (arith, ran, ap (λ x. x.1.misses) step),
          omega (arith, calls, ap (λ x. x.1.misses) step, ap (λ x. x.1.hits) step),
        )
    | inr (html, e) ↦
        let (same, ran, calls) = render_all-IsFresh keys seen (after_hit c) f s in
        let again : any (λ j. same_key j k) seen ≡ true = sym (s k) ∙ ap is_some e in
        let step = render_all_hit k (map call_of keys) c html e in
        let right : html ≡ rendering k = f k html e in
        rw again (
          ap (λ x. x.0) step ∙ cc,
          omega (arith, ran, ap (λ x. x.1.misses) step),
          omega (arith, calls, ap (λ x. x.1.misses) step, ap (λ x. x.1.hits) step),
        )
  ]

  -- Over any history of calls after a clear in which a key comes with one source, each call
  -- returns what the sanitizer makes of the key's source, the misses are as many as the different
  -- keys, and hits and misses add up to the number of calls.
  pub render_all-clear :
      (keys : List Key)
      → let (htmls, d) = render_all sanitize_markdown (map call_of keys) clear in
        (htmls ≡ map rendering keys)
        × (d.misses ≡ first_times [] keys)
        × (d.hits + d.misses ≡ length keys)
  unfolding cached
  render_all-clear keys =
      let (same, ran, calls) = render_all-IsFresh keys [] clear (λ k html h. cc) (λ k. refl) in
      (same, omega (arith, ran), omega (arith, calls))
