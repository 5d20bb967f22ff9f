-- ===== src/Admin/Browse/Clients.antt =====
-- Which clients and devices backend/src/api/routes_admin.py shows to an admin, and what the admin's own
-- ACL amounts to. `loads` is json's.
use stra2us.Prelude.{
  Text, Bytes, codes, Bool, true, false, List, [], ◌∷◌, ◌++◌, Option, none, some, ◌||◌, any,
  text_eq, starts_with, split, if◌then◌else◌,
}
use stra2us.Result.{Result, ok, err, fault, ◌>>=◌, ◌>>◌}
use stra2us.Value.{Value, str, arr, obj, get, is_text, items, elems, keys}
use stra2us.Redis.{Redis}
use stra2us.Acl.{read, write, check_acl, permissions_of, covers, has_superuser, or_default}
use stra2us.Device.{acl_key, stored}
use stra2us.Session.Passwords.{cut}
use stra2us.Lint.{is_in}
use stra2us.Admin.Browse.{allows, sort_by}

-- `"/" in prefix`, and the two sides of the first slash: a list or a dict has no `split`.
unfoldable pub split_prefix : Value → Result (Option (Text × Text))
unfolding cut
split_prefix (str prefix) = ok (cut b'/' prefix)
split_prefix (arr vs) =
    if any (λ v. is_text (codes "/") (some v)) (elems vs) then err fault else ok none
split_prefix (obj fs) =
    if any (λ v. is_text (codes "/") (some v)) (keys (items fs)) then err fault else ok none
split_prefix _ = err fault

-- The head of the prefix, if its tail is the client.
abbrev pub owner_in : Text → Option (Text × Text) → Option Text
owner_in client_id none = none
owner_in client_id (some (head, tail)) = if text_eq tail client_id then some head else none

-- The loop of _device_app_for_client.
unfoldable pub device_app_in : Text → List Value → Result (Option Text)
unfolding get split_prefix
device_app_in client_id [] = ok none
device_app_in client_id (perm ∷ perms) =
    let rest = device_app_in client_id perms in
    do
      prefix ← get (codes "prefix") perm
      sides ← split_prefix (or_default (str []) prefix)
      elim (owner_in client_id sides) [ some head ↦ ok (some head) | none ↦ rest ]

unfoldable pub device_app_for_client : Value → Text → Result (Option Text)
unfolding device_app_in permissions_of
device_app_for_client client_acl client_id = do
  perms ← permissions_of client_acl
  device_app_in client_id perms

-- `any(_prefix_matches(p.get("prefix", ""), path) for p in caller_perms)`
unfoldable pub any_covers : Text → List Value → Result Bool
unfolding get covers
any_covers path [] = ok false
any_covers path (p ∷ perms) =
    let rest = any_covers path perms in
    do
      prefix ← get (codes "prefix") p
      hit ← covers (or_default (str []) prefix) (path ∷ [])
      if hit then ok true else rest

-- `k.split(":")[1]`
abbrev pub second_part : List Text → Result Text
second_part (_ ∷ part ∷ _) = ok part
second_part _ = err fault

-- What a client is matched by: `<app>/<client>`, or its bare id.
abbrev pub visible_path : Text → Option Text → Text
visible_path client_id none = client_id
visible_path client_id (some app) = app ++ codes "/" ++ client_id

module _ (r : Redis) (loads : Bytes → Option Value) where
  abbrev pub decoded_record : Option Bytes → Option Value
  decoded_record none = none
  decoded_record (some raw) = loads raw

  -- The ACL of a client, if there is one that JSON reads.
  abbrev pub acl_of : Text → r.State → Option Value
  acl_of key s = decoded_record (stored (r.get key s))

  -- The loop over the clients' keys, before they are sorted.
  unfoldable pub visible_clients : List Value → List Text → r.State → Result (List Text)
  unfolding split device_app_for_client any_covers
  visible_clients caller_perms [] s = ok []
  visible_clients caller_perms (k ∷ ks) s =
      let rest = visible_clients caller_perms ks s in
      do
        client_id ← second_part (split b':' k)
        (elim (acl_of (acl_key client_id) s) [
          | none ↦ rest
          | some client_acl ↦ (do
            app ← device_app_for_client client_acl client_id
            shown ← any_covers (visible_path client_id app) caller_perms
            if shown then (do more ← rest; ok (client_id ∷ more)) else rest)
        ])

  unfoldable pub list_visible_clients : Value → List Text → r.State → Result (List Text)
  unfolding permissions_of visible_clients sort_by
  list_visible_clients acl secret_keys s = do
    caller_perms ← permissions_of acl
    visible ← visible_clients caller_perms secret_keys s
    ok (sort_by (λ name. name) visible)

  -- `prefix == "*" or prefix == app or prefix.startswith(f"{app}/")`
  abbrev pub reaches_app : Text → Value → Result Bool
  reaches_app app (str prefix) =
      ok (text_eq prefix (codes "*") || text_eq prefix app || starts_with (app ++ codes "/") prefix)
  reaches_app app _ = err fault

  unfoldable pub any_reaches : Text → List Value → Result Bool
  unfolding get starts_with
  any_reaches app [] = ok false
  any_reaches app (perm ∷ perms) =
      let rest = any_reaches app perms in
      do
        prefix ← get (codes "prefix") perm
        hit ← reaches_app app (or_default (str []) prefix)
        if hit then ok true else rest

  abbrev pub add_device : Text → List Text → List Text
  add_device device devices = if is_in device devices then devices else device ∷ devices

  -- The loop over the ACL keys; the devices are a set.
  unfoldable pub devices_of_app : Text → List Text → r.State → Result (List Text)
  unfolding split any_reaches permissions_of
  devices_of_app app [] s = ok []
  devices_of_app app (k ∷ ks) s =
      let rest = devices_of_app app ks s in
      elim (split b':' k) [
        | (_ ∷ client_id ∷ _ ∷ _) ↦ elim (acl_of k s) [
          | none ↦ rest
          | some acl ↦ (do
            perms ← permissions_of acl
            hit ← any_reaches app perms
            devices ← rest
            ok (if hit then add_device client_id devices else devices))
        ]
        | _ ↦ rest
      ]

  -- The devices that the caller may write to.
  unfoldable pub writable_devices : Value → Text → List Text → Result (List Text)
  writable_devices acl app [] = ok []
  writable_devices acl app (device ∷ devices) =
      let rest = writable_devices acl app devices in
      do
        writable ← allows (check_acl acl (codes "kv/" ++ app ++ codes "/" ++ device) write)
        if writable then (do more ← rest; ok (device ∷ more)) else rest

  unfoldable pub list_catalog_devices : Value → Text → List Text → r.State → Result (List Text)
  unfolding devices_of_app writable_devices sort_by
  list_catalog_devices acl app acl_keys s = do
    check_acl acl (codes "kv/_catalog/" ++ app) read
    devices ← devices_of_app app acl_keys s
    writable_devices acl app (sort_by (λ d. d) devices)

-- What get_me says of the caller.
pub data ScopeKind : Type 0 where
  superadmin custom : ScopeKind
  app_admin : Text → ScopeKind
  device_admin : Text → Text → ScopeKind

-- The prefixes with write access.
unfoldable pub rw_prefixes : List Value → Result (List Value)
unfolding get
rw_prefixes [] = ok []
rw_prefixes (p ∷ perms) =
    let rest = rw_prefixes perms in
    do
      access ← get (codes "access") p
      prefix ← get (codes "prefix") p
      more ← rest
      ok (if is_text (codes "rw") access then or_default (str []) prefix ∷ more else more)

-- `parts` of the only prefix.
abbrev pub scope_of_parts : List Text → ScopeKind
scope_of_parts ((c ∷ app) ∷ []) = app_admin (c ∷ app)
scope_of_parts ((c ∷ app) ∷ (d ∷ device) ∷ []) = device_admin (c ∷ app) (d ∷ device)
scope_of_parts _ = custom

abbrev pub scope_of : List Value → Result ScopeKind
scope_of (str prefix ∷ []) = ok (scope_of_parts (split b'/' prefix))
scope_of (_ ∷ []) = err fault
scope_of _ = ok custom

unfoldable pub scope_kind : Value → Result ScopeKind
unfolding rw_prefixes permissions_of split
scope_kind acl = do
  perms ← permissions_of acl
  is_superuser ← allows (has_superuser perms)
  if is_superuser then ok superadmin else rw_prefixes perms >>= scope_of
