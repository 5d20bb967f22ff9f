-- ===== src/Device/Kv/Deletion.antt =====
-- What stands under a key after a DELETE, under other keys after a POST, and where the flag of one
-- key is the value of another.
use stra2us.Prelude.{
  ℕ, Text, Bytes, codes, false, ◌++◌, none, some, ◌≡◌, refl, sym, ◌∙◌, text_eq, text_eq_refl,
}
use stra2us.Result.{Checked, ok}
use stra2us.Redis.{Redis}
use stra2us.Acl.{read, write, check_acl}
use stra2us.Exec.{modify, lift, lift-eq-ok, lift-ok, ◌>>◌}
use stra2us.Device.{
  Libraries, Request, Context, Response, kv_key, enc_key, packed_body, signed_msgpack, status_ok,
}
use stra2us.Device.Kv.{write_kv, read_kv, delete_kv, is_one, not_found}
use stra2us.Device.Kv.Frame.{write_kv-Written, store_kv_self, get-store_kv}
use stra2us.Device.Kv.Frame.Keys.{enc_key-kv_key, text_eq_enc}

module _ (lib : Libraries) (r : Redis) where
  delete_kv-state :
      (key : Text) (request : Request) (context : Context) (sent : ℕ) (s t : r.State)
      (response : Response)
      → delete_kv lib r key request context sent s ≡ (ok response, t)
      → t ≡ r.delete (enc_key key) (r.delete (kv_key key) s)
  unfolding delete_kv
  delete_kv-state key request context sent s t response h =
      let (_, _, h1) =
        lift-eq-ok (check_acl context.acl (codes "kv/" ++ key) write)
          (λ _.
            modify (λ u. r.delete (enc_key key) (r.delete (kv_key key) u))
            >> lift (signed_msgpack lib context request status_ok sent))
          s t h in
      sym
        (lift-ok (signed_msgpack lib context request status_ok sent)
          (r.delete (enc_key key) (r.delete (kv_key key) s)) t h1).1

  read_kv_missing :
      (key : Text) (request : Request) (context : Context) (now sent : ℕ) (s : r.State)
      → check_acl context.acl (codes "kv/" ++ key) read ≡ ok tt
      → r.get (kv_key key) s ≡ none
      → read_kv lib r key request context now sent s
        ≡ (signed_msgpack lib context request not_found sent, s)
  unfolding read_kv
  read_kv_missing key request context now sent s allowed v = rw (allowed, v) refl

  get-deleted :
      (key : Text) (s : r.State)
      → r.get (kv_key key) (r.delete (enc_key key) (r.delete (kv_key key) s)) ≡ none
  get-deleted key s =
      r.get-delete (enc_key key) (kv_key key) (r.delete (kv_key key) s)
      ∙ rw
          (
            enc_key-kv_key key key,
            text_eq_enc key,
            r.get-delete (kv_key key) (kv_key key) s,
            text_eq_refl (kv_key key),
          )
          refl

  -- After a DELETE that succeeded, a client that may read the key is answered with the signed
  -- not_found, and the read changes nothing.
  pub read_kv-delete_kv :
      (key : Text) (dreq : Request) (owner : Context) (sent : ℕ) (s s' : r.State)
      (response : Response) (rreq : Request) (reader : Context) (now sent' : ℕ)
      → delete_kv lib r key dreq owner sent s ≡ (ok response, s')
      → check_acl reader.acl (codes "kv/" ++ key) read ≡ ok tt
      → read_kv lib r key rreq reader now sent' s'
        ≡ (signed_msgpack lib reader rreq not_found sent', s')
  read_kv-delete_kv key dreq owner sent s s' response rreq reader now sent' h allowed =
      let after = delete_kv-state key dreq owner sent s s' response h in
      read_kv_missing key rreq reader now sent' s' allowed (rw after (get-deleted key s))

  -- A POST that succeeds keeps the value under every Redis key but the value's and the flag's.
  pub write_kv-get :
      (gate : Bytes → Checked) (key j : Text) (request : Request) (context : Context) (sent : ℕ)
      (s t : r.State) (response : Response)
      → write_kv lib r gate key request context sent s ≡ (ok response, t)
      → text_eq (kv_key key) j ≡ false
      → text_eq (enc_key key) j ≡ false
      → r.get j t ≡ r.get j s
  write_kv-get gate key j request context sent s t response h value flag =
      let w = write_kv-Written lib r gate key request context sent s t response h in
      rw w.after
        (get-store_kv r key j w.body (is_one request.x_encrypted) s ∙ rw (flag, value) refl)

  -- A POST to the key `<key>:enc` that succeeds sets the encrypted flag of `<key>` to its body.
  pub write_kv-enc_key :
      (gate : Bytes → Checked) (key : Text) (request : Request) (context : Context) (sent : ℕ)
      (s t : r.State) (response : Response)
      → write_kv lib r gate (key ++ codes ":enc") request context sent s ≡ (ok response, t)
      → (body : Bytes) × (packed_body lib request ≡ ok body) × (r.get (enc_key key) t ≡ some body)
  write_kv-enc_key gate key request context sent s t response h =
      let w =
        write_kv-Written lib r gate (key ++ codes ":enc") request context sent s t response h in
      let (value, _) =
        store_kv_self r (key ++ codes ":enc") w.body (is_one request.x_encrypted) s in
      (w.body, w.packed, rw w.after value)
