-- ===== src/Acl.antt =====
-- backend/src/api/dependencies.py: the permission check of every route.
-- An ACL is the decoded JSON value that the source calls `acl`.
pub mod Matching
pub mod Decision
pub mod Check
mod Tests
use stra2us.Prelude.{
  Text, codes, Bool, true, false, not, List, [], ◌∷◌, ◌++◌, Option, none, some, ◌||◌, ◌&&◌, any,
  text_eq, starts_with, after, if◌then◌else◌,
}
use stra2us.Result.{Result, Checked, ok, err, http, fault, ◌>>=◌}
use stra2us.Value.{Value, str, is_text, get, iterate, arr, nil}

pub data Mode : Type 0 where
  read write : Mode

abbrev pub is_write : Mode → Bool
is_write read = false
is_write write = true

-- CATALOG_STASH_PREFIX
abbrev pub catalog_stash_prefix : Text
catalog_stash_prefix = codes "_catalog/"

unfoldable pub prefix_matches : Text → Text → Bool
prefix_matches prefix path =
    text_eq prefix (codes "*") || text_eq path prefix || starts_with (prefix ++ codes "/") path

-- The dealiased path, `paths.append(aliased)` if it is not empty.
abbrev pub with_alias : Text → Text → List Text
with_alias path [] = path ∷ []
with_alias path (c ∷ aliased) = path ∷ (c ∷ aliased) ∷ []

unfoldable pub acl_candidate_paths : Text → List Text
acl_candidate_paths resource_path =
    if starts_with catalog_stash_prefix resource_path
    then with_alias resource_path (after catalog_stash_prefix resource_path)
    else resource_path ∷ []

-- The loop over the type prefixes: the first that fits is cut off.
abbrev pub strip_type : List Text → Text → Text
strip_type [] resource = resource
strip_type (type_prefix ∷ more) resource =
    if starts_with type_prefix resource
    then after type_prefix resource
    else strip_type more resource

-- `v` is what `d.get(k, default)` gives.
abbrev pub or_default : Value → Option Value → Value
or_default v none = v
or_default v (some w) = w

-- `any(_prefix_matches(prefix, p) for p in candidates)`; `prefix + "/"` raises unless it is a text.
unfoldable pub covers : Value → List Text → Result Bool
unfolding prefix_matches
covers (str prefix) candidates = ok (any (prefix_matches prefix) candidates)
covers _ candidates = err fault

-- What the first permission that covers the resource decides.
unfoldable pub decide_access : Mode → Option Value → Checked
decide_access mode access =
    if is_write mode && not (is_text (codes "rw") access) then err (http 403) else ok tt

-- The loop over the permissions.
unfoldable pub scan : Mode → List Text → List Value → Checked
unfolding get covers decide_access
scan mode candidates [] = err (http 403)
scan mode candidates (perm ∷ perms) =
    let rest = scan mode candidates perms in
    do
      prefix ← get (codes "prefix") perm
      access ← get (codes "access") perm
      hit ← covers (or_default (str []) prefix) candidates
      if hit then decide_access mode access else rest

-- The items of `acl.get("permissions", [])`.
unfoldable pub permissions_of : Value → Result (List Value)
unfolding get iterate
permissions_of acl = do
  permissions ← get (codes "permissions") acl
  iterate (or_default (arr nil) permissions)

unfoldable pub check_acl : Value → Text → Mode → Checked
unfolding scan acl_candidate_paths permissions_of
check_acl acl requested_resource mode = do
  perms ← permissions_of acl
  scan mode (acl_candidate_paths (strip_type (codes "q/" ∷ codes "kv/" ∷ []) requested_resource))
      perms

-- The loop of `require_admin_superuser`.
unfoldable pub has_superuser : List Value → Checked
unfolding get
has_superuser [] = err (http 403)
has_superuser (perm ∷ perms) =
    let rest = has_superuser perms in
    do
      prefix ← get (codes "prefix") perm
      access ← get (codes "access") perm
      if is_text (codes "*") prefix && is_text (codes "rw") access then ok tt else rest

unfoldable pub require_superuser : Value → Checked
unfolding has_superuser permissions_of
require_superuser acl = do perms ← permissions_of acl; has_superuser perms
