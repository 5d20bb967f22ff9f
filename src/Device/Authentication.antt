-- ===== src/Device/Authentication.antt =====
-- verify_device_request: which requests are let in, and what a caller learns otherwise.
use stra2us.Prelude.{
  ℕ, ◌+◌, Text, Bytes, Bool, true, false, Option, none, some, ◌≡◌, refl, ap, ◌∙◌, arith, ℤ, pos,
  ◌≤ℤ◌, sub_ℕ, ◌↔◌,
}
use stra2us.Result.{Failure, ok, http, fault, guard, >>=-eq-ok}
use stra2us.Builtins.{parse_int, decode}
use stra2us.Redis.{Redis}
use stra2us.Security.{verify_timestamp, verify_signature, sign_payload}
use stra2us.Security.Signatures.{
  IsBytes, verify_timestamp_iff, eq-ok_of_verify_signature, verify_signature-sign_payload,
}
use stra2us.Device.{
  Libraries, Request, Context, secret_key, acl_key, stored, or_raise, load_acl,
  verify_device_request,
}

pub or_raise-some {ℓ} :
    {A : Type ℓ} (e : Failure) (o : Option A) {a : A} → or_raise e o ≡ ok a → o ≡ some a
or_raise-some e none h = cc
or_raise-some e (some a) h = cc

pub guard-true : (b : Bool) (e : Failure) {u : Unit {0}} → guard b e ≡ ok u → b ≡ true
guard-true true e h = refl
guard-true false e h = cc

-- What is known of a request that was let in. The clock is within 300 seconds of the timestamp, and
-- the signature is that of the stored secret over the request's path, body and timestamp.
pub record Authentic (lib : Libraries) (r : Redis) (request : Request)
    (client_id timestamp_str signature : Text) (now : ℕ) (s : r.State) (context : Context)
    : Type 0 where
  pub timestamp : ℤ
  pub secret : Bytes
  pub parsed : parse_int timestamp_str ≡ some timestamp
  pub recent : (timestamp ≤ℤ pos (now + 300)) × (sub_ℕ now 300 ≤ℤ timestamp)
  pub known : stored (r.get (secret_key client_id) s) ≡ some secret
  pub readable : decode secret ≡ some context.secret_hex
  pub signed :
      sign_payload lib.hmac context.secret_hex request.path request.body timestamp ≡ ok signature
  pub same_client : context.client_id ≡ client_id
  pub own_acl : load_acl lib (stored (r.get (acl_key client_id) s)) ≡ ok context.acl

module _ (lib : Libraries) (r : Redis) (request : Request)
    (client_id timestamp_str signature : Text) (now : ℕ) (s : r.State) where
  verify_device_request-Authentic :
      (context : Context)
      → verify_device_request lib r request client_id timestamp_str signature now s ≡ ok context
      → Authentic lib r request client_id timestamp_str signature now s context
  unfolding verify_device_request
  verify_device_request-Authentic context h =
      let (t, h1, k1) = >>=-eq-ok (or_raise (http 400) (parse_int timestamp_str)) _ h in
      let (_, h2, k2) = >>=-eq-ok (guard (verify_timestamp now t) (http 401)) _ k1 in
      let (secret, h3, k3) =
        >>=-eq-ok (or_raise (http 401) (stored (r.get (secret_key client_id) s))) _ k2 in
      let (hex, h4, k4) = >>=-eq-ok (or_raise fault (decode secret)) _ k3 in
      let (valid, h5, k5) =
        >>=-eq-ok (verify_signature lib.hmac hex request.path request.body t signature) _ k4 in
      let (_, h6, k6) = >>=-eq-ok (guard valid (http 401)) _ k5 in
      let (acl, h7, k7) = >>=-eq-ok (load_acl lib (stored (r.get (acl_key client_id) s))) _ k6 in
      let same : context ≡ record { client_id = client_id; secret_hex = hex; acl = acl } = cc k7 in
      rw same (record {
        timestamp = t;
        secret = secret;
        parsed = or_raise-some (http 400) (parse_int timestamp_str) h1;
        recent = (verify_timestamp_iff now t).0 (guard-true (verify_timestamp now t) (http 401) h2);
        known = or_raise-some (http 401) (stored (r.get (secret_key client_id) s)) h3;
        readable = or_raise-some fault (decode secret) h4;
        signed =
            eq-ok_of_verify_signature lib.hmac hex request.path request.body t signature
              (h5 ∙ ap ok (guard-true valid (http 401) h6));
        same_client = refl;
        own_acl = h7;
      })

  Authentic-verify_device_request :
      ((k m : Bytes) → IsBytes (lib.hmac k m))
      → (context : Context)
      → Authentic lib r request client_id timestamp_str signature now s context
      → verify_device_request lib r request client_id timestamp_str signature now s ≡ ok context
  unfolding verify_device_request
  Authentic-verify_device_request digests context a =
      let window = (verify_timestamp_iff now a.timestamp).1 a.recent in
      let valid =
        verify_signature-sign_payload lib.hmac digests context.secret_hex request.path request.body
          a.timestamp signature a.signed in
      rw (a.parsed) (
        rw window (
          rw (a.known)
            (rw (a.readable) (rw valid (rw (a.own_acl) (ap ok (ground (arith, a.same_client))))))))

  -- Where digests are bytes, a request is let in with a context exactly when its timestamp is a
  -- number within 300 seconds of the clock, the client has a secret that is UTF-8, the signature
  -- is the one that the secret gives for the request's path, body and timestamp, and the client's
  -- ACL record is missing or JSON; the context holds the client's own id, secret and ACL.
  pub verify_device_request_iff :
      ((k m : Bytes) → IsBytes (lib.hmac k m))
      → (context : Context)
      → (verify_device_request lib r request client_id timestamp_str signature now s ≡ ok context)
        ↔ Authentic lib r request client_id timestamp_str signature now s context
  verify_device_request_iff digests context =
      (verify_device_request-Authentic context, Authentic-verify_device_request digests context)
