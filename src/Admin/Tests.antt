-- ===== src/Admin/Tests.antt =====
-- Examples of the admin side, on a Redis in memory, with `root` as the rescue user.
use stra2us.Prelude.{
  ℕ, Text, Bytes, codes, true, false, List, [], ◌∷◌, ◌++◌, Option, none, some, ◌≡◌, ◌≢◌, refl, ◌↔◌,
  inl, inr, if◌then◌else◌,
}
use stra2us.Result.{Result, ok, err, http}
use stra2us.Builtins.{encode}
use stra2us.Value.{Value, str, obj, field, end, bool}
use stra2us.Redis.Memory.{memory, empty, Store}
use stra2us.Acl.{read, write, check_acl}
use stra2us.Acl.Decision.{Grants}
use stra2us.Device.{
  Libraries, acl_key, secret_key, stored, is_some, load_acl, verify_device_request,
}
use stra2us.Admin.{permission, require_admin_kv, require_admin_queue, require_admin_superuser}
use stra2us.Admin.Denial.{require_admin_denied}
use stra2us.Admin.Credentials.{device_acl, provision_device, revoke_client}
use stra2us.Admin.Provisioning.{verify_device_request-revoke_client, provision_device-check_acl}
use stra2us.Fixtures.{libraries, client, digest-IsBytes, request_of}

abbrev no_json : Bytes → Option Value
no_json _ = none

abbrev dumps : Value → Text
dumps _ = codes "{}"

abbrev root : List Text
root = codes "root" ∷ []

require_admin_denied_example :
    (require_admin_kv memory no_json root read (codes "app/x") (some (codes "jo")) empty
      ≡ err (http 403))
    × (require_admin_queue memory no_json root read (codes "app/x") (some (codes "jo")) empty
        ≡ err (http 403))
    × (require_admin_superuser memory no_json root (some (codes "jo")) empty ≡ err (http 403))
unfolding stra2us.Prelude.text_eq
require_admin_denied_example =
    require_admin_denied memory no_json root b'j' (codes "o") empty read (codes "app/x")
      (inl (refl, refl))

abbrev revoked : Store
revoked = (revoke_client memory no_json root dumps (some (codes "root")) (codes "dev") empty).1

abbrev done : Value
done = obj (field (codes "status") (str (codes "ok")) end)

revoke_client-dev :
    revoke_client memory no_json root dumps (some (codes "root")) (codes "dev") empty
    ≡ (ok done, revoked)
unfolding revoke_client require_admin_superuser stra2us.Acl.require_superuser
    stra2us.Prelude.text_eq
revoke_client-dev = refl

verify_device_request-revoke_client_example :
    verify_device_request libraries memory
      (request_of (codes "hi") none)
      (codes "dev")
      (codes "100")
      (codes "00")
      100
      revoked
    ≢ ok client
verify_device_request-revoke_client_example =
    verify_device_request-revoke_client memory no_json root dumps (some (codes "root")) libraries
      digest-IsBytes (codes "dev") empty revoked done (request_of (codes "hi") none) (codes "100")
      (codes "00") 100 client revoke_client-dev

abbrev reading : Libraries
reading = record libraries { loads = λ _. some (device_acl (codes "app") (codes "dev")) }

abbrev outcome : (Result Value) × Store
outcome =
    provision_device memory no_json root dumps (some (codes "root")) (codes "app") (codes "dev")
      (codes "00ff") empty

abbrev answered : Value
answered = obj (
    field (codes "client_id") (str (codes "dev")) (
      field (codes "secret") (str (codes "00ff")) (
        field (codes "acl") (device_acl (codes "app") (codes "dev"))
          (field (codes "created") (bool true) end))))

provision_device-dev :
    provision_device memory no_json root dumps
      (some (codes "root"))
      (codes "app")
      (codes "dev")
      (codes "00ff")
      empty
    ≡ (ok answered, outcome.1)
unfolding provision_device require_admin_superuser stra2us.Acl.require_superuser
    stra2us.Prelude.text_eq stra2us.Builtins.strip stra2us.Prelude.occurs_in
    stra2us.Admin.Credentials.write_device
provision_device-dev = refl

stored-dumps :
    stored (some (encode (dumps (device_acl (codes "app") (codes "dev")))))
    ≡ some (encode (dumps (device_acl (codes "app") (codes "dev"))))
unfolding encode
stored-dumps = refl

provision_device-check_acl_example :
    (load_acl reading (stored (memory.get (acl_key (codes "dev")) outcome.1))
      ≡ ok (device_acl (codes "app") (codes "dev")))
    × ((check_acl (device_acl (codes "app") (codes "dev")) (codes "kv/" ++ codes "app/dev/x") write
          ≡ ok tt)
        ↔ Grants write
            (permission (codes "app" ++ codes "/" ++ codes "dev") (codes "rw")
              ∷ permission (codes "app" ++ codes "/public") (codes "rw")
              ∷ [])
            (codes "app/dev/x"))
    × (memory.get (secret_key (codes "dev")) outcome.1 ≡ (
        if is_some (memory.get (secret_key (codes "dev")) empty)
        then memory.get (secret_key (codes "dev")) empty
        else some (encode (codes "00ff"))))
provision_device-check_acl_example =
    provision_device-check_acl memory no_json root dumps (some (codes "root")) reading (codes "app")
      (codes "dev") (codes "00ff") empty outcome.1 answered (codes "app/dev/x") write
      provision_device-dev stored-dumps refl
