-- ===== src/Device/Kv/Encrypted.antt =====
-- What a reader gets after a write: the value, or a ciphertext that it can decrypt.
use stra2us.Prelude.{
  ℕ, ◌^◌, ◌<◌, ◌≤◌, Text, Bytes, codes, true, false, ◌++◌, Option, none, some, ◌≡◌, refl, ap, arith,
  ◌∙◌, pos, length,
}
use stra2us.Result.{Result, Checked, ok}
use stra2us.Builtins.{encode, str_int, hexdigest}
use stra2us.Value.{ext}
use stra2us.Redis.{Redis}
use stra2us.Acl.{read, check_acl}
use stra2us.Security.{
  secret_bytes, nonce_to_bytes, kvenc_xor, kvenc_ext_type, verify_signature, sign_payload,
  calculate_signature,
}
use stra2us.Security.Signatures.{IsBytes}
use stra2us.Security.Keystream.{max_plaintext}
use stra2us.Security.Cipher.{kvenc_xor_bounded, kvenc_xor-kvenc_xor}
use stra2us.Device.{
  Libraries, Request, Context, Response, kv_key, enc_key, stored, packed_body, signed_response,
}
use stra2us.Device.Responses.{signed_response_lem}
use stra2us.Device.Nonce.{next_kvenc_nonce}
use stra2us.Device.Nonce.Increasing.{HasTop, next_number, next_nonce_lem}
use stra2us.Device.Kv.{
  write_kv, read_kv, read_found, read_encrypted, inner_bytes, signed_encrypted_response, is_one,
}
use stra2us.Device.Kv.Frame.{write_kv-Written, store_kv_self}

module _ (lib : Libraries) (r : Redis) where
  -- A GET that is let through, of a value that is there.
  read_kv_found :
      (key : Text) (request : Request) (context : Context) (now sent : ℕ) (s : r.State)
      (val : Bytes) (flag : Option Bytes)
      → check_acl context.acl (codes "kv/" ++ key) read ≡ ok tt
      → r.get (kv_key key) s ≡ some val
      → r.get (enc_key key) s ≡ flag
      → read_kv lib r key request context now sent s
        ≡ read_found lib r val (stored flag) request context now sent s
  unfolding read_kv
  read_kv_found key request context now sent s val flag allowed v f = rw (allowed, v, f) refl

  -- What a POST stored without `X-Encrypted: 1`, a client that may read the key is answered with
  -- the signed response of status 200 that holds the very body; the read changes nothing.
  pub read_kv-write_kv :
      (gate : Bytes → Checked) (key : Text) (wreq : Request) (writer : Context) (sent : ℕ)
      (s s' : r.State) (response : Response) (rreq : Request) (reader : Context) (now sent' : ℕ)
      → write_kv lib r gate key wreq writer sent s ≡ (ok response, s')
      → is_one wreq.x_encrypted ≡ false
      → check_acl reader.acl (codes "kv/" ++ key) read ≡ ok tt
      → (body : Bytes) × (packed_body lib wreq ≡ ok body)
        × (read_kv lib r key rreq reader now sent' s'
            ≡ (signed_response lib reader rreq body 200 sent', s'))
  read_kv-write_kv gate key wreq writer sent s s' response rreq reader now sent' h plain allowed =
      let w = write_kv-Written lib r gate key wreq writer sent s s' response h in
      let (value, flag) = store_kv_self r key w.body (is_one wreq.x_encrypted) s in
      let v : r.get (kv_key key) s' ≡ some w.body = rw w.after value in
      let f : r.get (enc_key key) s' ≡ none = rw w.after (flag ∙ rw plain refl) in
      (
        w.body,
        w.packed,
        read_kv_found key rreq reader now sent' s' w.body none allowed v f
            ∙ (unfold read_found in refl),
      )

-- What the caller of an encrypted GET receives: a ciphertext under the extension type 0x21, the nonce
-- as the timestamp, and a signature; with its secret it verifies the one and decrypts the other.
pub record Delivered (lib : Libraries) (path : Text) (reader : Context) (nonce : ℕ) (plain : Bytes)
    (result : Result Response) : Type 0 where
  pub response : Response
  pub cipher : Bytes
  pub returned : result ≡ ok response
  pub status : response.status_code ≡ 200
  pub content : response.content ≡ lib.packb (ext 0x21 cipher)
  pub timestamp : response.x_response_timestamp ≡ str_int (pos nonce)
  pub decrypts : kvenc_xor lib.hmac reader.secret_hex nonce cipher ≡ ok plain
  pub genuine :
      verify_signature lib.hmac reader.secret_hex path response.content
        (pos nonce)
        response.x_response_signature
      ≡ ok true

module _ (lib : Libraries) (r : Redis) (digest_size : (k m : Bytes) → length (lib.hmac k m) ≡ 32)
    (digests : (k m : Bytes) → IsBytes (lib.hmac k m)) where
  signed_response-ok :
      (reader : Context) (request : Request) (body secret : Bytes) (status timestamp : ℕ)
      → secret_bytes reader.secret_hex ≡ ok secret
      → (response : Response) × (signed_response lib reader request body status timestamp
          ≡ ok response)
  unfolding signed_response sign_payload calculate_signature
  signed_response-ok reader request body secret status timestamp h = (
    record {
      content = body;
      status_code = status;
      x_response_timestamp = str_int (pos timestamp);
      x_response_signature =
          hexdigest
            (lib.hmac secret (encode request.path ++ body ++ encode (str_int (pos timestamp))));
    },
    rw h refl,
  )

  signed_encrypted-ok :
      (reader : Context) (request : Request) (plain cipher : Bytes) (nonce : ℕ)
      → kvenc_xor lib.hmac reader.secret_hex nonce plain ≡ ok cipher
      → signed_encrypted_response lib reader request plain nonce
        ≡ signed_response lib reader request (lib.packb (ext kvenc_ext_type cipher)) 200 nonce
  unfolding signed_encrypted_response
  signed_encrypted-ok reader request plain cipher nonce h = rw (h, signed_encrypted_response) refl

  pub signed_encrypted-Delivered :
      (reader : Context) (request : Request) (plain secret nonce_bytes : Bytes) (nonce : ℕ)
      → secret_bytes reader.secret_hex ≡ ok secret
      → nonce_to_bytes nonce ≡ ok nonce_bytes
      → IsBytes plain
      → length plain ≤ max_plaintext
      → Delivered lib request.path reader nonce plain
          (signed_encrypted_response lib reader request plain nonce)
  signed_encrypted-Delivered reader request plain secret nonce_bytes nonce hs hn octets fits =
      let (cipher, e, _) =
        (kvenc_xor_bounded lib.hmac digest_size digests reader.secret_hex nonce plain secret
            nonce_bytes hs hn).0
          fits in
      let body = lib.packb (ext kvenc_ext_type cipher) in
      let (response, sent) = signed_response-ok reader request body secret 200 nonce hs in
      let (content, status, timestamp, genuine) =
        signed_response_lem lib reader request digests body 200 nonce response sent in
      record {
        response = response;
        cipher = cipher;
        returned = signed_encrypted-ok reader request plain cipher nonce e ∙ sent;
        status = status;
        content = content;
        timestamp = timestamp;
        decrypts =
            kvenc_xor-kvenc_xor lib.hmac digest_size digests reader.secret_hex nonce plain cipher
              octets e;
        genuine = genuine;
      }

  read_encrypted-next :
      (val plain : Bytes) (request : Request) (reader : Context) (now sent n : ℕ) (s t : r.State)
      → inner_bytes (lib.unpackb_raw val) ≡ ok plain
      → next_kvenc_nonce r reader.client_id now s ≡ (ok n, t)
      → read_found lib r val (some (codes "1")) request reader now sent s
        ≡ (signed_encrypted_response lib reader request plain n, t)
  unfolding read_found read_encrypted
  read_encrypted-next val plain request reader now sent n s t hp hn = rw hp (rw hn refl)

  -- A nonce of 32 bits comes from a clock and an entry far below 2 ^ 53.
  nonce_to_bytes-small :
      (now top : ℕ) (bytes : Bytes)
      → nonce_to_bytes (next_number now top) ≡ ok bytes
      → (now ≤ 2 ^ 53) × (top < 2 ^ 53)
  unfolding nonce_to_bytes
  nonce_to_bytes-small now top bytes h = (ground (arith, h), ground (arith, h))

  -- What a POST stored with `X-Encrypted: 1`, a client that may read the key gets as a ciphertext
  -- under its next nonce, which it decrypts with its own secret to the plaintext, in a response
  -- whose signature verifies: if the stored value is a MessagePack text or binary of at most 8160
  -- bytes, the client's secret is hexadecimal, its nonce entry is a number, the new nonce fits 32
  -- bits, and digests are 32 bytes.
  pub read_kv-write_kv_encrypted :
      (gate : Bytes → Checked) (key : Text) (wreq : Request) (writer : Context) (sent : ℕ)
      (s s' : r.State) (response : Response) (rreq : Request) (reader : Context) (now sent' top : ℕ)
      (body plain secret nonce_bytes : Bytes)
      → write_kv lib r gate key wreq writer sent s ≡ (ok response, s')
      → is_one wreq.x_encrypted ≡ true
      → check_acl reader.acl (codes "kv/" ++ key) read ≡ ok tt
      → packed_body lib wreq ≡ ok body
      → inner_bytes (lib.unpackb_raw body) ≡ ok plain
      → IsBytes plain
      → length plain ≤ max_plaintext
      → HasTop r reader.client_id top s'
      → secret_bytes reader.secret_hex ≡ ok secret
      → nonce_to_bytes (next_number now top) ≡ ok nonce_bytes
      → Delivered lib rreq.path reader
          (next_number now top)
          plain
          (read_kv lib r key rreq reader now sent' s').0
  read_kv-write_kv_encrypted gate key wreq writer sent s s' response rreq reader now sent' top body
        plain secret nonce_bytes h flagged allowed packed inner octets fits tops hs hn =
      let w = write_kv-Written lib r gate key wreq writer sent s s' response h in
      let same : w.body ≡ body = cc (w.packed, packed) in
      let (value, flag) = store_kv_self r key w.body (is_one wreq.x_encrypted) s in
      let v : r.get (kv_key key) s' ≡ some body = rw w.after (value ∙ ap some same) in
      let f : r.get (enc_key key) s' ≡ some (codes "1") = rw w.after (flag ∙ rw flagged refl) in
      let n = next_number now top in
      let (small, below) = nonce_to_bytes-small now top nonce_bytes hn in
      let d = signed_encrypted-Delivered reader rreq plain secret nonce_bytes n hs hn octets fits in
      let step : (read_kv lib r key rreq reader now sent' s').0
          ≡ signed_encrypted_response lib reader rreq plain n =
        ap (λ p. p.0)
          (read_kv_found lib r key rreq reader now sent' s' body (some (codes "1")) allowed v f
            ∙ read_encrypted-next body plain rreq reader now sent' n s' _ inner
                (next_nonce_lem r reader.client_id now top s' tops small below)) in
      rw step d
