-- ===== src/Acl/Decision.antt =====
-- What check_acl decides: the first permission that reaches the resource, and nothing else.
use stra2us.Prelude.{
  Text, codes, true, List, [], ◌∷◌, ◌++◌, ◌≡◌, ◌≢◌, refl, ◌⊎◌, inl, inr, Option, none, some, arith,
  any, Bool-cases, starts_with, starts_with-append, drop-append, eq-append_of_starts_with, after,
  All,
}
use stra2us.Value.{Value, str, obj, find, items, is_text}
use stra2us.Acl.{
  Mode, read, write, catalog_stash_prefix, prefix_matches, with_alias, acl_candidate_paths,
}
use stra2us.Acl.Matching.{CoversPath, prefix_matches_iff}

-- The prefix covers the path, or the path is a catalog stash and the prefix covers its app's path.
abbrev pub Reaches : Text → Text → Type 0
Reaches prefix path =
    CoversPath prefix path
    ⊎ ((aliased : Text) × (path ≡ catalog_stash_prefix ++ aliased)
        × (aliased ≢ [])
        × CoversPath prefix aliased)

-- The text of a permission's prefix: absent is empty; no text, and a permission that is no dict,
-- have none.
abbrev pub text_or : Option Value → Option Text
text_or none = some []
text_or (some (str p)) = some p
text_or _ = none

abbrev pub prefix_text : Value → Option Text
prefix_text (obj fs) = text_or (find (codes "prefix") (items fs))
prefix_text _ = none

abbrev pub access_of : Value → Option Value
access_of (obj fs) = find (codes "access") (items fs)
access_of _ = none

-- The permission lets the mode through: any may read, `rw` may write.
abbrev pub Permits : Mode → Value → Type 0
Permits read perm = Unit
Permits write perm = is_text (codes "rw") (access_of perm) ≡ true

-- A permission of the list reaches the path and permits the mode, and none before it reaches it.
pub record Grants (mode : Mode) (perms : List Value) (path : Text) : Type 0 where
  pub before : List Value
  pub perm : Value
  pub behind : List Value
  pub prefix : Text
  pub listed : perms ≡ before ++ perm ∷ behind
  pub first : All (λ v. (p : Text) × (prefix_text v ≡ some p) × (¬ Reaches p path)) before
  pub named : prefix_text perm ≡ some prefix
  pub reached : Reaches prefix path
  pub permitted : Permits mode perm

with_alias_sound :
    (p path aliased : Text)
    → any (prefix_matches p) (with_alias path aliased) ≡ true
    → CoversPath p path ⊎ ((aliased ≢ []) × CoversPath p aliased)
with_alias_sound p path [] h = inl ((prefix_matches_iff p path).0 (ground arith))
with_alias_sound p path (c ∷ aliased) h = elim (Bool-cases (prefix_matches p path)) [
  | inl hit ↦ inl ((prefix_matches_iff p path).0 hit)
  | inr miss ↦ inr ((cc), (prefix_matches_iff p (c ∷ aliased)).0 (ground arith))
]

with_alias_complete :
    (p path aliased : Text)
    → CoversPath p path ⊎ ((aliased ≢ []) × CoversPath p aliased)
    → any (prefix_matches p) (with_alias path aliased) ≡ true
with_alias_complete p path [] (inl c) = ground (arith, (prefix_matches_iff p path).1 c)
with_alias_complete p path [] (inr (h, c)) = absurd (h refl)
with_alias_complete p path (d ∷ aliased) (inl c) = ground (arith, (prefix_matches_iff p path).1 c)
with_alias_complete p path (d ∷ aliased) (inr (h, c)) =
    ground (arith, (prefix_matches_iff p (d ∷ aliased)).1 c)

-- The candidate paths are those that `Reaches` speaks of.
pub candidates_sound :
    (p path : Text) → any (prefix_matches p) (acl_candidate_paths path) ≡ true → Reaches p path
unfolding acl_candidate_paths
candidates_sound p path h = elim (Bool-cases (starts_with catalog_stash_prefix path)) [
  | inl stash ↦ elim (with_alias_sound p path (after catalog_stash_prefix path) (rw stash at h)) [
    | inl c ↦ inl c
    | inr (n, c) ↦ inr (
      after catalog_stash_prefix path,
      eq-append_of_starts_with catalog_stash_prefix path stash,
      n,
      c,
    )
  ]
  | inr plain ↦ inl ((prefix_matches_iff p path).0 (ground (arith, plain)))
]

pub candidates_complete :
    (p path : Text) → Reaches p path → any (prefix_matches p) (acl_candidate_paths path) ≡ true
unfolding acl_candidate_paths
candidates_complete p path (inl c) = elim (Bool-cases (starts_with catalog_stash_prefix path)) [
  | inl stash ↦ rw stash (with_alias_complete p path (after catalog_stash_prefix path) (inl c))
  | inr plain ↦ rw plain (ground (arith, (prefix_matches_iff p path).1 c))
]
candidates_complete p path (inr (aliased, e, n, c)) =
    let stash : starts_with catalog_stash_prefix path ≡ true =
      rw e (starts_with-append catalog_stash_prefix aliased) in
    let cut : after catalog_stash_prefix path ≡ aliased =
      rw e (drop-append catalog_stash_prefix aliased) in
    rw (stash, cut) (with_alias_complete p path aliased (inr (n, c)))
