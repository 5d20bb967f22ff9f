-- ===== src/Device/Kv.antt =====
-- The key-value handlers of backend/src/api/routes_device.py.
pub mod Frame
pub mod Encrypted
pub mod Deletion
pub mod Upload
mod Tests
use stra2us.Prelude.{
  ℕ, Text, Bytes, codes, Bool, true, false, List, [], ◌∷◌, ◌++◌, Option, none, some, not, ◌&&◌,
  split, text_eq, if◌then◌else◌, length, ◌==◌,
}
use stra2us.Result.{Failure, Result, Checked, ok, err, http, fault}
use stra2us.Builtins.{encode}
use stra2us.Value.{Value, str, bin, ext, obj, field, end}
use stra2us.Redis.{Redis}
use stra2us.Acl.{read, write, check_acl}
use stra2us.Security.{kvenc_xor, kvenc_ext_type}
use stra2us.Exec.{Exec, pure, raise, lift, gets, modify, ◌>>=◌, ◌>>◌}
use stra2us.Device.{
  Libraries, Request, Context, Response, kv_key, enc_key, stored, or_raise, signed_response,
  signed_msgpack, packed_body, status_ok, is_some,
}
use stra2us.Device.Nonce.{next_kvenc_nonce}

abbrev pub not_found : Value
not_found = obj (field (codes "status") (str (codes "not_found")) end)

-- `_catalog/<app>`, exactly two segments.
abbrev pub is_catalog_parts : List Text → Bool
is_catalog_parts (first ∷ (c ∷ app) ∷ []) = text_eq first (codes "_catalog")
is_catalog_parts _ = false

unfoldable pub is_catalog_yaml_key : Text → Bool
unfolding split
is_catalog_yaml_key key = is_catalog_parts (split b'/' key)

abbrev pub is_empty : Bytes → Bool
is_empty [] = true
is_empty (b ∷ bs) = false

-- The inner value of an encrypted record: bytes, or a text that is encoded.
unfoldable pub inner_bytes : Option Value → Result Bytes
inner_bytes (some (bin b)) = ok b
inner_bytes (some (str s)) = ok (encode s)
inner_bytes _ = err (http 500)

-- `request.headers.get("X-Encrypted") == "1"`
abbrev pub is_one : Option Text → Bool
is_one none = false
is_one (some s) = text_eq s (codes "1")

module _ (r : Redis) where
  -- The two writes of a POST: the value, and the flag beside it.
  unfoldable pub store_kv : Text → Bytes → Bool → r.State → r.State
  store_kv key body encrypted s =
      let t = r.set (kv_key key) body s in
      if encrypted then r.set (enc_key key) (codes "1") t else r.delete (enc_key key) t

module _ (lib : Libraries) where
  unfoldable pub signed_encrypted_response : Context → Request → Bytes → ℕ → Result Response
  signed_encrypted_response context request plaintext nonce =
      elim (kvenc_xor lib.hmac context.secret_hex nonce plaintext) [
        | err e ↦ err e
        | ok ciphertext ↦
            signed_response lib context request (lib.packb (ext kvenc_ext_type ciphertext)) 200
              nonce
      ]

  module _ (r : Redis) where
    -- `gate` validates a catalog upload.
    unfoldable pub write_kv :
        (Bytes → Checked) → Text → Request → Context → ℕ → Exec r.State Response
    write_kv gate key request context sent = do
      lift (check_acl context.acl (codes "kv/" ++ key) write)
      body ← lift (packed_body lib request)
      lift (if is_catalog_yaml_key key && not (is_empty body) then gate body else ok tt)
      modify (store_kv r key body (is_one request.x_encrypted))
      lift (signed_msgpack lib context request status_ok sent)

    unfoldable pub read_encrypted : Bytes → Request → Context → ℕ → Exec r.State Response
    read_encrypted val request context now = do
      plaintext ← lift (inner_bytes (lib.unpackb_raw val))
      nonce ← next_kvenc_nonce r context.client_id now
      lift (signed_encrypted_response context request plaintext nonce)

    unfoldable pub read_found :
        Bytes → Option Bytes → Request → Context → ℕ → ℕ → Exec r.State Response
    read_found val none request context now sent =
        lift (signed_response lib context request val 200 sent)
    read_found val (some flag) request context now sent = read_encrypted val request context now

    unfoldable pub read_kv : Text → Request → Context → ℕ → ℕ → Exec r.State Response
    read_kv key request context now sent = do
      lift (check_acl context.acl (codes "kv/" ++ key) read)
      val ← gets (r.get (kv_key key))
      flag ← gets (r.get (enc_key key))
      (elim val [
        | none ↦ lift (signed_msgpack lib context request not_found sent)
        | some v ↦ read_found v (stored flag) request context now sent
      ])

    unfoldable pub delete_kv : Text → Request → Context → ℕ → Exec r.State Response
    delete_kv key request context sent = do
      lift (check_acl context.acl (codes "kv/" ++ key) write)
      modify (λ s. r.delete (enc_key key) (r.delete (kv_key key) s))
      lift (signed_msgpack lib context request status_ok sent)
