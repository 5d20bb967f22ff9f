-- ===== src/Acl/Tests.antt =====
-- Examples of the permission check.
use stra2us.Prelude.{Text, codes, true, false, List, [], ◌∷◌, ◌++◌, ◌≡◌, refl, ◌↔◌, none, inl, inr}
use stra2us.Result.{ok, err, http}
use stra2us.Value.{Value, obj, field, end, str}
use stra2us.Acl.{read, write, prefix_matches, permissions_of, check_acl}
use stra2us.Acl.Matching.{CoversPath, prefix_matches_iff}
use stra2us.Acl.Decision.{Grants}
use stra2us.Acl.Check.{check_acl_iff, check_acl_no_permissions}
use stra2us.Fixtures.{reader_acl}

abbrev app_permission : Value
app_permission =
    obj (field (codes "prefix") (str (codes "app")) (field (codes "access") (str (codes "rw")) end))

permissions_of-reader_acl : permissions_of reader_acl ≡ ok (app_permission ∷ [])
unfolding permissions_of stra2us.Prelude.text_eq
permissions_of-reader_acl = refl

check_acl-reader_acl : check_acl reader_acl (codes "kv/app/x") write ≡ ok tt
unfolding check_acl stra2us.Prelude.text_eq stra2us.Prelude.starts_with
check_acl-reader_acl = refl

prefix_matches_iff_example :
    (prefix_matches (codes "app") (codes "app/x") ≡ true) ↔ CoversPath (codes "app") (codes "app/x")
prefix_matches_iff_example = prefix_matches_iff (codes "app") (codes "app/x")

check_acl_iff_example :
    ((check_acl reader_acl (codes "kv/" ++ codes "app/x") write ≡ ok tt)
      ↔ Grants write (app_permission ∷ []) (codes "app/x"))
    × ((check_acl reader_acl (codes "q/" ++ codes "app/x") write ≡ ok tt)
        ↔ Grants write (app_permission ∷ []) (codes "app/x"))
check_acl_iff_example =
    check_acl_iff reader_acl (codes "app/x") write (app_permission ∷ []) permissions_of-reader_acl

-- The ACL of a client that has none.
check_acl_no_permissions_example :
    check_acl (obj (field (codes "read_write") (str (codes "*")) end)) (codes "kv/app/x") read
    ≡ err (http 403)
unfolding stra2us.Prelude.text_eq
check_acl_no_permissions_example =
    check_acl_no_permissions (field (codes "read_write") (str (codes "*")) end) (codes "kv/app/x")
      read refl
