-- ===== src/Admin/Browse/Tests.antt =====
-- Examples of the browsing routes, with `root` as the rescue user.
use stra2us.Prelude.{
  ℕ, Text, Bytes, codes, Bool, true, false, List, [], ◌∷◌, ◌++◌, Option, none, some, ◌≡◌, ◌≢◌, refl,
  pos, All, length,
}
use stra2us.Result.{ok}
use stra2us.Value.{Value, str, obj, field, end, bool}
use stra2us.Redis.Memory.{memory, empty, Store}
use stra2us.Device.{Libraries}
use stra2us.Admin.{acl_with, get_admin_context}
use stra2us.Admin.Credentials.{permissions_of_update}
use stra2us.Admin.Browse.{ScanResult, scan_kv}
use stra2us.Admin.Browse.Readable.{IsReadable, HasAll, scan_kv-HasAll}
use stra2us.Admin.Browse.Records.{update_admin_user_acl, delete_admin_user_acl}
use stra2us.Admin.Browse.Records.Stored.{
  row_of, context_of, default_acl, get_admin_context-update_admin_user_acl,
}
use stra2us.Fixtures.{libraries, reader_acl}

-- The reader's ACL is `app:rw`.
abbrev keys : List Text
keys = codes "kv:app/y" ∷ codes "kv:other/z" ∷ codes "kv:app/x" ∷ []

abbrev scanned : ScanResult
scanned = record {
  items =
      record { key = codes "app/x"; bytes = 8 } ∷ record { key = codes "app/y"; bytes = 8 } ∷ [];
  truncated = false;
}

scan_kv-keys : scan_kv reader_acl (λ k. length k) (pos 500) keys ≡ ok scanned
unfolding scan_kv stra2us.Acl.check_acl stra2us.Prelude.text_eq stra2us.Prelude.starts_with
    stra2us.Admin.Browse.text_less
scan_kv-keys = refl

scan_kv-HasAll_example :
    All (λ it. IsReadable reader_acl (λ k. length k) (pos 500) it.key) scanned.items
    × (scanned.truncated ≡ false → HasAll reader_acl (λ k. length k) (pos 500) scanned.items keys)
scan_kv-HasAll_example =
    scan_kv-HasAll reader_acl (λ k. length k) (pos 500) keys scanned scan_kv-keys

abbrev granted : List (Text × Text)
granted = (codes "app", codes "rw") ∷ []

abbrev dumps : Value → Text
dumps _ = codes "{}"

abbrev lib : Libraries
lib = record libraries { loads = λ _. some (acl_with (permissions_of_update granted)) }

abbrev root : List Text
root = codes "root" ∷ []

abbrev after_update : Store
after_update =
    (update_admin_user_acl lib memory root (some (codes "root")) dumps (codes "jo") granted empty).1

abbrev after_delete : Store
after_delete =
    (delete_admin_user_acl lib memory root (some (codes "root")) (codes "jo") after_update).1

abbrev updated_answer : Value
updated_answer = obj (
    field (codes "status") (str (codes "ok")) (
      field (codes "username") (str (codes "jo"))
        (field (codes "acl") (acl_with (permissions_of_update granted)) end)))

abbrev deleted_answer : Value
deleted_answer = obj (
    field (codes "status") (str (codes "ok"))
      (field (codes "username") (str (codes "jo")) (field (codes "deleted") (bool true) end)))

update-jo :
    update_admin_user_acl lib memory root (some (codes "root")) dumps (codes "jo") granted empty
    ≡ (ok updated_answer, after_update)
unfolding update_admin_user_acl stra2us.Admin.require_admin_superuser stra2us.Acl.require_superuser
    stra2us.Prelude.text_eq
update-jo = refl

delete-jo :
    delete_admin_user_acl lib memory root (some (codes "root")) (codes "jo") after_update
    ≡ (ok deleted_answer, after_delete)
unfolding delete_admin_user_acl stra2us.Admin.require_admin_superuser stra2us.Acl.require_superuser
    update_admin_user_acl stra2us.Prelude.text_eq
delete-jo = refl

row-ne-nil : row_of lib memory root (some (codes "root")) dumps granted ≢ []
unfolding stra2us.Builtins.encode
row-ne-nil h = ground stra2us.Prelude.arith

get_admin_context-update_admin_user_acl_example :
    (get_admin_context memory lib.loads root (some (codes "jo")) after_update
      ≡ ok (
          context_of lib memory root
            (some (codes "root"))
            dumps
            (codes "jo")
            (acl_with (permissions_of_update granted))))
    × (get_admin_context memory lib.loads root (some (codes "jo")) after_delete
        ≡ ok (
            context_of lib memory root
              (some (codes "root"))
              dumps
              (codes "jo")
              (default_acl lib memory root (some (codes "root")) dumps (codes "jo"))))
get_admin_context-update_admin_user_acl_example =
    get_admin_context-update_admin_user_acl lib memory root (some (codes "root")) dumps b'j'
      (codes "o") granted empty after_update after_delete updated_answer deleted_answer update-jo
      delete-jo row-ne-nil refl
