-- ===== src/Device/Responses.antt =====
-- The signed responses of the device API.
use stra2us.Prelude.{ℕ, Bytes, ◌≡◌, ◌≢◌, arith, true, pos}
use stra2us.Result.{ok, err, http, >>=-eq-ok}
use stra2us.Value.{Value}
use stra2us.Builtins.{str_int}
use stra2us.Security.{sign_payload, verify_signature}
use stra2us.Security.Signatures.{IsBytes, verify_signature-sign_payload}
use stra2us.Device.{Libraries, Context, Request, Response, signed_response, signed_msgpack}

module _ (lib : Libraries) (context : Context) (request : Request) where
  pub signed_response-ne-http :
      (body : Bytes) (status timestamp n : ℕ)
      → signed_response lib context request body status timestamp ≢ err (http n)
  unfolding signed_response sign_payload
  signed_response-ne-http body status timestamp n h = ground arith

  pub signed_msgpack-ne-http :
      (value : Value) (timestamp n : ℕ)
      → signed_msgpack lib context request value timestamp ≢ err (http n)
  unfolding signed_msgpack
  signed_msgpack-ne-http value timestamp n =
      signed_response-ne-http (lib.packb value) 200 timestamp n

  -- A signed response carries the body, status and timestamp that it was given, and a signature that
  -- the holder of the client's secret verifies over the request's path.
  pub signed_response_lem :
      ((k m : Bytes) → IsBytes (lib.hmac k m))
      → (body : Bytes) (status timestamp : ℕ) (response : Response)
      → signed_response lib context request body status timestamp ≡ ok response
      → (response.content ≡ body)
        × (response.status_code ≡ status)
        × (response.x_response_timestamp ≡ str_int (pos timestamp))
        × (verify_signature lib.hmac context.secret_hex request.path response.content
              (pos timestamp)
              response.x_response_signature
            ≡ ok true)
  unfolding signed_response
  signed_response_lem digests body status timestamp response h =
      let (sig, e, k) =
        >>=-eq-ok (sign_payload lib.hmac context.secret_hex request.path body (pos timestamp)) _
          h in
      let v =
        verify_signature-sign_payload lib.hmac digests context.secret_hex request.path body
          (pos timestamp) sig e in
      (ground arith, ground arith, ground arith, ground (arith, v))
