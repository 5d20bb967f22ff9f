-- ===== src/Device/Kv/Frame.antt =====
-- Which Redis keys the key-value handlers touch.
pub mod Keys
use stra2us.Prelude.{
  ℕ, Text, Bytes, codes, Bool, true, false, List, [], ◌∷◌, ◌++◌, Option, none, some, ◌≡◌, ◌≢◌, refl,
  sym, ap, ◌∙◌, arith, not, ◌&&◌, text_eq, text_eq_iff, text_eq_refl, text_eq_ne, if◌then◌else◌,
  Bool-cases, inl, inr,
}
use stra2us.Result.{Failure, Result, Checked, ok, err, http, fault}
use stra2us.Redis.{Redis}
use stra2us.Acl.{read, write, check_acl}
use stra2us.Exec.{modify, lift, lift-eq-ok, lift-ok, ◌>>=◌, ◌>>◌}
use stra2us.Device.{
  Libraries, Request, Context, Response, kv_key, enc_key, stored, packed_body, signed_msgpack,
  signed_response, status_ok,
}
use stra2us.Device.Kv.{
  write_kv, read_kv, read_found, store_kv, delete_kv, is_one, is_catalog_yaml_key, is_empty,
}
use stra2us.Device.Responses.{signed_msgpack-ne-http}
use Keys.{kv_key-kv_key, kv_key-enc_key, enc_key-kv_key, enc_key-enc_key, text_eq_enc}

module _ (r : Redis) where
  pub get-store_kv :
      (key j : Text) (body : Bytes) (encrypted : Bool) (s : r.State)
      → r.get j (store_kv r key body encrypted s) ≡ (
          if text_eq (enc_key key) j
          then (if encrypted then some (codes "1") else none)
          else if text_eq (kv_key key) j
          then some body
          else r.get j s)
  unfolding store_kv
  get-store_kv key j body true s =
      r.get-set (enc_key key) j (codes "1") _ ∙ rw (r.get-set (kv_key key) j body s) refl
  get-store_kv key j body false s =
      r.get-delete (enc_key key) j _ ∙ rw (r.get-set (kv_key key) j body s) refl

  -- The value and the flag of the key itself, after a write.
  pub store_kv_self :
      (key : Text) (body : Bytes) (encrypted : Bool) (s : r.State)
      → (r.get (kv_key key) (store_kv r key body encrypted s) ≡ some body)
        × (r.get (enc_key key) (store_kv r key body encrypted s)
            ≡ (if encrypted then some (codes "1") else none))
  store_kv_self key body encrypted s = (
    get-store_kv key (kv_key key) body encrypted s
        ∙ rw (enc_key-kv_key key key, text_eq_enc key, text_eq_refl (kv_key key)) refl,
    get-store_kv key (enc_key key) body encrypted s ∙ rw (text_eq_refl (enc_key key)) refl,
  )

-- What a POST that succeeds has done.
pub record Written (lib : Libraries) (r : Redis) (gate : Bytes → Checked) (key : Text)
    (request : Request) (context : Context) (s t : r.State) : Type 0 where
  pub body : Bytes
  pub allowed : check_acl context.acl (codes "kv/" ++ key) write ≡ ok tt
  pub packed : packed_body lib request ≡ ok body
  pub passed : (if is_catalog_yaml_key key && not (is_empty body) then gate body else ok tt) ≡ ok tt
  pub after : t ≡ store_kv r key body (is_one request.x_encrypted) s

module _ (lib : Libraries) (r : Redis) where
  pub write_kv-Written :
      (gate : Bytes → Checked) (key : Text) (request : Request) (context : Context) (sent : ℕ)
      (s t : r.State) (response : Response)
      → write_kv lib r gate key request context sent s ≡ (ok response, t)
      → Written lib r gate key request context s t
  unfolding write_kv
  write_kv-Written gate key request context sent s t response h =
      let (_, allowed, h1) =
        lift-eq-ok (check_acl context.acl (codes "kv/" ++ key) write) _ s t h in
      let (body, packed, h2) = lift-eq-ok (packed_body lib request) _ s t h1 in
      let (_, passed, h3) =
        lift-eq-ok (if is_catalog_yaml_key key && not (is_empty body) then gate body else ok tt)
          (λ _.
            modify (store_kv r key body (is_one request.x_encrypted))
            >> lift (signed_msgpack lib context request status_ok sent))
          s t h2 in
      let (_, same) =
        lift-ok (signed_msgpack lib context request status_ok sent)
          (store_kv r key body (is_one request.x_encrypted) s) t h3 in
      record { body = body; allowed = allowed; packed = packed; passed = passed; after = sym same }

  -- A POST that is turned down with an HTTP status has written nothing.
  pub write_kv_http :
      (gate : Bytes → Checked) (key : Text) (request : Request) (context : Context) (sent : ℕ)
      (s : r.State) (status : ℕ)
      → (write_kv lib r gate key request context sent s).0 ≡ err (http status)
      → (write_kv lib r gate key request context sent s).1 ≡ s
  unfolding write_kv
  write_kv_http gate key request context sent s status h =
      ground (arith, signed_msgpack-ne-http lib context request status_ok sent status)
