-- ===== src/Device.antt =====
-- backend/src/api/routes_device.py and verify_device_request of backend/src/api/dependencies.py:
-- what the device API keeps in Redis, the signed responses and the authentication of a request.
-- MessagePack and JSON are parameters.
pub mod Responses
pub mod Authentication
pub mod Nonce
pub mod Kv
pub mod Queue
mod Tests
use stra2us.Prelude.{
  ℕ, Text, Bytes, codes, Bool, true, false, List, [], ◌∷◌, ◌++◌, Option, none, some, ℤ, pos,
  occurs_in, if◌then◌else◌, not, String, length, ltb,
}
use stra2us.Result.{Failure, Result, ok, err, http, fault, guard, ◌>>=◌, ◌>>◌}
use stra2us.Builtins.{parse_int, str_int, decode}
use stra2us.Value.{Value, str, obj, field, end}
use stra2us.Redis.{Redis}
use stra2us.Security.{sign_payload, verify_signature, verify_timestamp}

-- The libraries that the device API calls: `hmac` is HMAC-SHA256, `packb` and `unpackb` are those of
-- msgpack (`unpackb_raw` with `raw=True`), `loads` is json's, `none` where the library raises.
pub record Libraries : Type 0 where
  pub hmac : Bytes → Bytes → Bytes
  pub packb : Value → Bytes
  pub unpackb : Bytes → Option Value
  pub unpackb_raw : Bytes → Option Value
  pub loads : Bytes → Option Value

-- The parts of a request that the handlers read.
pub record Request : Type 0 where
  pub path : Text
  pub body : Bytes
  pub content_type : Text
  pub x_encrypted : Option Text

-- The dict that verify_device_request returns.
pub record Context : Type 0 where
  pub client_id : Text
  pub secret_hex : Text
  pub acl : Value

pub record Response : Type 0 where
  pub content : Bytes
  pub status_code : ℕ
  pub x_response_timestamp : Text
  pub x_response_signature : Text

abbrev pub secret_key : Text → Text
secret_key client_id = codes "client:" ++ client_id ++ codes ":secret"

abbrev pub acl_key : Text → Text
acl_key client_id = codes "client:" ++ client_id ++ codes ":acl"

abbrev pub kv_key : Text → Text
kv_key key = codes "kv:" ++ key

abbrev pub enc_key : Text → Text
enc_key key = codes "kv:" ++ key ++ codes ":enc"

abbrev pub queue_key : Text → Text
queue_key topic = codes "q:" ++ topic

abbrev pub cursor_key : Text → Text → Text
cursor_key consumer_id topic = codes "cursor:" ++ consumer_id ++ codes ":q:" ++ topic

-- `if value:` of what GET returns: absent and empty are false.
abbrev pub stored : Option Bytes → Option Bytes
stored (some (b ∷ bs)) = some (b ∷ bs)
stored _ = none

abbrev pub or_raise {ℓ} : {A : Type ℓ} → Failure → Option A → Result A
or_raise e none = err e
or_raise e (some a) = ok a

-- The ACL of a client that has no ACL record.
abbrev pub legacy_acl : Value
legacy_acl = obj (field (codes "read_write") (str (codes "*")) end)

abbrev pub is_some {ℓ} : {A : Type ℓ} → Option A → Bool
is_some none = false
is_some (some _) = true

module _ (lib : Libraries) where
  unfoldable pub load_acl : Option Bytes → Result Value
  load_acl none = ok legacy_acl
  load_acl (some json) = or_raise fault (lib.loads json)

  module _ (r : Redis) where
    unfoldable pub verify_device_request :
        Request → Text → Text → Text → ℕ → r.State → Result Context
    unfolding load_acl
    verify_device_request request client_id timestamp_str signature now s = do
      timestamp ← or_raise (http 400) (parse_int timestamp_str)
      guard (verify_timestamp now timestamp) (http 401)
      secret_hex_bytes ← or_raise (http 401) (stored (r.get (secret_key client_id) s))
      secret_hex ← or_raise fault (decode secret_hex_bytes)
      valid ← verify_signature lib.hmac secret_hex request.path request.body timestamp signature
      guard valid (http 401)
      acl ← load_acl (stored (r.get (acl_key client_id) s))
      ok (record { client_id = client_id; secret_hex = secret_hex; acl = acl })

  -- `timestamp` is the response's: the clock, or the nonce of an encrypted value.
  unfoldable pub signed_response : Context → Request → Bytes → ℕ → ℕ → Result Response
  signed_response context request body status_code timestamp = do
    sig ← sign_payload lib.hmac context.secret_hex request.path body (pos timestamp)
    ok (record {
      content = body;
      status_code = status_code;
      x_response_timestamp = str_int (pos timestamp);
      x_response_signature = sig;
    })

  unfoldable pub signed_msgpack : Context → Request → Value → ℕ → Result Response
  unfolding signed_response
  signed_msgpack context request value timestamp =
      signed_response context request (lib.packb value) 200 timestamp

  abbrev pub is_msgpack : Bytes → Bool
  is_msgpack [] = true
  is_msgpack (b ∷ bs) = is_some (lib.unpackb (b ∷ bs))

  -- The body as it is stored: a plain text is wrapped, anything else has to be MessagePack.
  unfoldable pub packed_body : Request → Result Bytes
  packed_body request =
      if occurs_in (codes "text/plain") request.content_type
      then (do text ← or_raise (http 400) (decode request.body); ok (lib.packb (str text)))
      else (do guard (is_msgpack request.body) (http 400); ok request.body)

abbrev pub status_ok : Value
status_ok = obj (field (codes "status") (str (codes "ok")) end)
