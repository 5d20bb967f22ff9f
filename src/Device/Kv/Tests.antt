-- ===== src/Device/Kv/Tests.antt =====
-- Examples of uploads of catalogs.
use stra2us.Prelude.{Text, Bytes, codes, true, List, [], ◌∷◌, none, some, ◌≡◌, refl}
use stra2us.Result.{Result, ok, err, http}
use stra2us.Value.{str}
use stra2us.Redis.Memory.{memory, empty, Store}
use stra2us.Lint.{Limits, Theme}
use stra2us.Lint.Publication.{LintedCatalog}
use stra2us.Device.{Request, Response, kv_key, packed_body}
use stra2us.Device.Kv.{write_kv, is_catalog_yaml_key}
use stra2us.Device.Kv.Upload.{validate_catalog_yaml_upload, IsCatalog, write_kv-IsCatalog}
use stra2us.Fixtures.{libraries, client, request_of}

abbrev limits : Limits
limits = record {
  markdown_max_bytes = 16384;
  asset_max_bytes = 262144;
  asset_bundle_max_bytes = 2097152;
  asset_content_types = codes "image/png" ∷ [];
  theme_font_allowlist = codes "system-ui" ∷ [];
}

abbrev theme_of : Text → Theme
theme_of color = record {
  primary_color = some color;
  accent_color = none;
  bg_color = none;
  text_color = none;
  font_family = none;
  logo_asset = none;
  favicon_asset = none;
  logo_alt = none;
  product_name = none;
}

abbrev catalog_of : Text → LintedCatalog
catalog_of color = record { vars = []; theme = some (theme_of color); ui = none }

abbrev key : Text
key = codes "_catalog/app"

abbrev upload : Request
upload = record (request_of (codes "#fff") none) { path = codes "/kv/_catalog/app" }

abbrev attempt : (Result Response) × Store
attempt =
    write_kv libraries memory
      (validate_catalog_yaml_upload libraries Text (λ t. some t) (λ _. true)
        (λ color. some (catalog_of color)) limits (λ _. true))
      key upload client 100 empty

abbrev answer : Result Response → Response
answer (ok response) = response
answer (err _) = record {
  content = [];
  status_code = 0;
  x_response_timestamp = [];
  x_response_signature = [];
}

write_kv-upload : attempt ≡ (ok (answer attempt.0), attempt.1)
unfolding write_kv stra2us.Acl.check_acl stra2us.Prelude.text_eq stra2us.Prelude.starts_with
    packed_body stra2us.Prelude.occurs_in stra2us.Builtins.Utf8.decode is_catalog_yaml_key
    validate_catalog_yaml_upload stra2us.Device.signed_msgpack stra2us.Security.sign_payload
    stra2us.Builtins.Hex.fromhex
write_kv-upload = refl

abbrev body : Bytes
body = libraries.packb (str (codes "#fff"))

upload_named : is_catalog_yaml_key key ≡ true
unfolding is_catalog_yaml_key stra2us.Prelude.text_eq
upload_named = refl

upload_packed : packed_body libraries upload ≡ ok body
unfolding packed_body stra2us.Prelude.occurs_in stra2us.Builtins.Utf8.decode
upload_packed = refl

write_kv-IsCatalog_example :
    (memory.get (kv_key key) attempt.1 ≡ some body)
    × IsCatalog libraries Text
        (λ t. some t)
        (λ _. true)
        (λ color. some (catalog_of color))
        limits
        (λ _. true)
        body
write_kv-IsCatalog_example =
    write_kv-IsCatalog libraries Text (λ t. some t) (λ _. true) (λ color. some (catalog_of color))
      limits (λ _. true) memory key upload client 100 empty attempt.1 (answer attempt.0) body
      write_kv-upload upload_named upload_packed refl

-- A colour of the wrong shape is turned down.
validate-red :
    validate_catalog_yaml_upload libraries Text
      (λ t. some t)
      (λ _. true)
      (λ color. some (catalog_of color))
      limits
      (λ _. true)
      (libraries.packb (str (codes "red")))
    ≡ err (http 400)
unfolding validate_catalog_yaml_upload
validate-red = refl
