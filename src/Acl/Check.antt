-- ===== src/Acl/Check.antt =====
-- check_acl as a whole: which requests it lets through.
use stra2us.Prelude.{
  Text, codes, List, [], ◌∷◌, ◌++◌, ◌≡◌, refl, ap, ◌∙◌, sym, inl, inr, ◌↔◌, none, some, arith, any,
  Bool-cases, Option-cases, if◌then◌else◌, All, starts_with,
}
use stra2us.Result.{ok, err, http, fault, >>=-eq-ok}
use stra2us.Value.{Value, null, obj, find, items, Fields, get, iterate}
use stra2us.Acl.{
  Mode, read, write, prefix_matches, acl_candidate_paths, decide_access, scan, check_acl,
  permissions_of, strip_type,
}
use stra2us.Acl.Decision.{
  Reaches, prefix_text, access_of, Permits, Grants, candidates_sound, candidates_complete,
}

-- One round of the loop, at a permission whose prefix is a text.
scan-cons :
    (mode : Mode) (candidates : List Text) (perm : Value) (perms : List Value) (p : Text)
    → prefix_text perm ≡ some p
    → scan mode candidates (perm ∷ perms) ≡ (
        if any (prefix_matches p) candidates
        then decide_access mode (access_of perm)
        else scan mode candidates perms)
unfolding scan
scan-cons mode candidates (obj fs) perms p h = ground arith
scan-cons mode candidates null perms p h = cc
scan-cons mode candidates _ perms p h = cc

-- At any other permission the check raises.
scan_fault :
    (mode : Mode) (candidates : List Text) (perm : Value) (perms : List Value)
    → prefix_text perm ≡ none
    → scan mode candidates (perm ∷ perms) ≡ err fault
unfolding scan
scan_fault mode candidates (obj fs) perms h = ground arith
scan_fault mode candidates null perms h = refl
scan_fault mode candidates _ perms h = refl

decide_access_iff :
    (mode : Mode) (perm : Value) → (decide_access mode (access_of perm) ≡ ok tt) ↔ Permits mode perm
unfolding decide_access
decide_access_iff read perm = ground arith
decide_access_iff write perm = ground arith

module _ (mode : Mode) (path : Text) where
  scan_sound :
      (perms : List Value)
      → scan mode (acl_candidate_paths path) perms ≡ ok tt
      → Grants mode perms path
  scan_sound [] h = unfold scan in cc h
  scan_sound (perm ∷ perms) h = elim (Option-cases (prefix_text perm)) [
    | inl bad ↦ cc (h, scan_fault mode (acl_candidate_paths path) perm perms bad)
    | inr (p, named) ↦
        let step = scan-cons mode (acl_candidate_paths path) perm perms p named in
        elim (Bool-cases (any (prefix_matches p) (acl_candidate_paths path))) [
          | inl hit ↦ record {
            before = [];
            perm = perm;
            behind = perms;
            prefix = p;
            listed = refl;
            first = tt;
            named = named;
            reached = candidates_sound p path hit;
            permitted = (decide_access_iff mode perm).0 (ground (arith, step, hit, h));
          }
          | inr miss ↦
              let g = scan_sound perms (ground (arith, step, miss, h)) in
              record {
                before = perm ∷ g.before;
                perm = g.perm;
                behind = g.behind;
                prefix = g.prefix;
                listed = ap (λ l. perm ∷ l) g.listed;
                first = ((p, named, λ r. cc (candidates_complete p path r, miss)), g.first);
                named = g.named;
                reached = g.reached;
                permitted = g.permitted;
              }
        ]
  ]

  scan_complete :
      (before behind : List Value) (perm : Value) (p : Text)
      → All (λ v. (q : Text) × (prefix_text v ≡ some q) × (¬ Reaches q path)) before
      → prefix_text perm ≡ some p
      → Reaches p path
      → Permits mode perm
      → scan mode (acl_candidate_paths path) (before ++ perm ∷ behind) ≡ ok tt
  scan_complete [] behind perm p _ named reached permitted = ground (
    arith,
    scan-cons mode (acl_candidate_paths path) perm behind p named,
    candidates_complete p path reached,
    (decide_access_iff mode perm).1 permitted,
  )
  scan_complete (v ∷ before) behind perm p ((q, e, away), first) named reached permitted =
      let rest = before ++ perm ∷ behind in
      elim (Bool-cases (any (prefix_matches q) (acl_candidate_paths path))) [
        | inl hit ↦ absurd (away (candidates_sound q path hit))
        | inr miss ↦ ground (
          arith,
          scan-cons mode (acl_candidate_paths path) v rest q e,
          miss,
          scan_complete before behind perm p first named reached permitted,
        )
      ]

  pub scan_iff :
      (perms : List Value)
      → (scan mode (acl_candidate_paths path) perms ≡ ok tt) ↔ Grants mode perms path
  scan_iff perms = (
    scan_sound perms,
    λ g.
        rw g.listed
          (scan_complete g.before g.behind g.perm g.prefix g.first g.named g.reached g.permitted),
  )

strip_type_lem :
    (path : Text)
    → (strip_type (codes "q/" ∷ codes "kv/" ∷ []) (codes "kv/" ++ path) ≡ path)
      × (strip_type (codes "q/" ∷ codes "kv/" ∷ []) (codes "q/" ++ path) ≡ path)
unfolding starts_with
strip_type_lem path = (refl, refl)

-- Whatever the type of the resource, its path is what comes behind the type.
pub check_acl-scan :
    (acl : Value) (path : Text) (mode : Mode) (perms : List Value)
    → permissions_of acl ≡ ok perms
    → (check_acl acl (codes "kv/" ++ path) mode ≡ scan mode (acl_candidate_paths path) perms)
      × (check_acl acl (codes "q/" ++ path) mode ≡ scan mode (acl_candidate_paths path) perms)
check_acl-scan acl path mode perms h =
    let (kv, q) = strip_type_lem path in
    (unfold check_acl in rw (h, kv) refl, unfold check_acl in rw (h, q) refl)

-- An ACL with these permissions passes the check for a key, or for a topic, exactly when the first
-- permission that reaches its path, directly or through the catalog alias, permits the mode.
pub check_acl_iff :
    (acl : Value) (path : Text) (mode : Mode) (perms : List Value)
    → permissions_of acl ≡ ok perms
    → ((check_acl acl (codes "kv/" ++ path) mode ≡ ok tt) ↔ Grants mode perms path)
      × ((check_acl acl (codes "q/" ++ path) mode ≡ ok tt) ↔ Grants mode perms path)
check_acl_iff acl path mode perms h =
    let (kv, q) = check_acl-scan acl path mode perms h in
    let (sound, complete) = scan_iff mode path perms in
    ((λ e. sound (sym kv ∙ e), λ g. kv ∙ complete g), (λ e. sound (sym q ∙ e), λ g. q ∙ complete g))

-- An ACL without a `permissions` entry, such as the one that verify_device_request gives a client
-- without an ACL record, is refused every resource.
pub check_acl_no_permissions :
    (fs : Fields) (resource : Text) (mode : Mode)
    → find (codes "permissions") (items fs) ≡ none
    → check_acl (obj fs) resource mode ≡ err (http 403)
unfolding check_acl get iterate
check_acl_no_permissions fs resource mode h = ground arith

decide_write_read :
    (perm : Value)
    → decide_access write (access_of perm) ≡ ok tt
    → decide_access read (access_of perm) ≡ ok tt
unfolding decide_access
decide_write_read perm h = refl

scan_write_read :
    (candidates : List Text) (perms : List Value)
    → scan write candidates perms ≡ ok tt
    → scan read candidates perms ≡ ok tt
scan_write_read candidates [] h = absurd (unfold scan in cc h)
scan_write_read candidates (perm ∷ perms) h = elim (Option-cases (prefix_text perm)) [
  | inl bad ↦ cc (h, scan_fault write candidates perm perms bad)
  | inr (p, named) ↦ ground (
    arith,
    scan-cons write candidates perm perms p named,
    scan-cons read candidates perm perms p named,
    scan_write_read candidates perms,
    decide_write_read perm,
  )
]

-- An ACL that passes the check for writing a resource passes it for reading.
pub check_acl_write_read :
    (acl : Value) (resource : Text)
    → check_acl acl resource write ≡ ok tt
    → check_acl acl resource read ≡ ok tt
unfolding check_acl
check_acl_write_read acl resource h =
    let (perms, e, k) = >>=-eq-ok (permissions_of acl) _ h in rw e (scan_write_read _ perms k)
