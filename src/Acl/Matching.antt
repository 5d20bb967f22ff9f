-- ===== src/Acl/Matching.antt =====
-- What a permission's prefix covers, in terms of path segments.
use stra2us.Prelude.{
  Text, codes, true, List, [], ◌∷◌, ◌++◌, ◌≡◌, sym, ap, ◌∙◌, ◌⊎◌, inl, inr, ◌↔◌, arith, append-nil,
  append_assoc, Bool-cases, text_eq, text_eq_iff, text_eq_refl, starts_with, starts_with-append,
  eq-append_of_starts_with, after, split, split-append, split-injective, split-ne-nil, join,
  join-split, join-append,
}
use stra2us.Acl.{prefix_matches}

-- The pieces of a path between its slashes.
abbrev pub segments : Text → List Text
segments = split b'/'

-- The prefix is `*`, or its segments are the first segments of the path.
abbrev pub CoversPath : Text → Text → Type 0
CoversPath prefix path =
    (prefix ≡ codes "*") ⊎ ((rest : List Text) × (segments path ≡ segments prefix ++ rest))

prefix_matches_sound : (p path : Text) → prefix_matches p path ≡ true → CoversPath p path
unfolding prefix_matches
prefix_matches_sound p path h = elim (Bool-cases (text_eq p (codes "*"))) [
  | inl star ↦ inl ((text_eq_iff p (codes "*")).0 star)
  | inr plain ↦ elim (Bool-cases (text_eq path p)) [
    | inl same ↦ inr ([], ap segments ((text_eq_iff path p).0 same) ∙ sym (append-nil (segments p)))
    | inr other ↦
        let below = eq-append_of_starts_with (p ++ codes "/") path (ground arith) in
        inr (
          segments (after (p ++ codes "/") path),
          ap segments (below ∙ append_assoc p (codes "/") (after (p ++ codes "/") path))
              ∙ split-append b'/' p (after (p ++ codes "/") path),
        )
  ]
]

path_below :
    (p path : Text) (s : Text) (rest : List Text)
    → segments path ≡ segments p ++ s ∷ rest
    → path ≡ (p ++ codes "/") ++ join b'/' (s ∷ rest)
path_below p path s rest e =
    sym (join-split b'/' path)
    ∙ ap (join b'/') e
    ∙ join-append b'/' (segments p) (s ∷ rest) (split-ne-nil b'/' p) (cc)
    ∙ ap (λ t. t ++ b'/' ∷ join b'/' (s ∷ rest)) (join-split b'/' p)
    ∙ sym (append_assoc p (codes "/") (join b'/' (s ∷ rest)))

prefix_matches_of_star : (path : Text) → prefix_matches (codes "*") path ≡ true
unfolding prefix_matches
prefix_matches_of_star path = ground (arith, text_eq_refl (codes "*"))

prefix_matches_complete : (p path : Text) → CoversPath p path → prefix_matches p path ≡ true
unfolding prefix_matches
prefix_matches_complete p path (inl star) = ground (arith, text_eq_iff p (codes "*"))
prefix_matches_complete p path (inr ([], e)) =
    let same = split-injective b'/' path p (e ∙ append-nil (segments p)) in
    ground (arith, text_eq_iff path p, same)
prefix_matches_complete p path (inr (s ∷ rest, e)) =
    let below = path_below p path s rest e in
    let begins : starts_with (p ++ codes "/") path ≡ true =
      rw below (starts_with-append (p ++ codes "/") (join b'/' (s ∷ rest))) in
    ground (arith, begins)

-- A prefix matches a path exactly when it is `*` or its segments are the leading segments of the
-- path's: `app` covers `app` and `app/x`, and not `apple`.
pub prefix_matches_iff : (p path : Text) → (prefix_matches p path ≡ true) ↔ CoversPath p path
prefix_matches_iff p path = (prefix_matches_sound p path, prefix_matches_complete p path)
