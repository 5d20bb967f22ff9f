-- ===== src/Page/Values/Writes.antt =====
-- What resolve_value of backend/src/services/value_resolver.py gives after the device API
-- has stored a value under the key of the variable.
use stra2us.Prelude.{
  ℕ, Text, Bytes, codes, Bool, true, false, List, Option, none, some, ◌≡◌, refl, ap, sym, ◌∙◌, ◌⊎◌,
  inl, inr, if◌then◌else◌,
}
use stra2us.Result.{Checked, ok}
use stra2us.Value.{Value}
use stra2us.Redis.{Redis}
use stra2us.Device.{
  Libraries, Request, Context, Response, kv_key, enc_key, stored, is_some, packed_body,
}
use stra2us.Device.Kv.{write_kv, is_one}
use stra2us.Device.Kv.Frame.{write_kv-Written, store_kv_self}
use stra2us.Catalog.{kv_path}
use stra2us.Page.Values.{
  ResolvedValue, not_none, to_form_string, read_record, found_or, resolve_value,
}

module _ (repr : Value → Text) (lib : Libraries) (r : Redis) where
  -- The override of the device, if there is one that can be decoded.
  abbrev pub override : Text → Text → Text → r.State → Option Value
  override app device var_name s =
      (read_record repr lib.unpackb r (kv_path app var_name (some device)) s).0

  flag_is_some : (b : Bool) → is_some (stored (if b then some (codes "1") else none)) ≡ b
  flag_is_some true = refl
  flag_is_some false = refl

  found_or_missing :
      (rec : Option Value × Bool) (next : ResolvedValue)
      → rec.0 ≡ none
      → found_or repr lib.unpackb r rec next ≡ next
  found_or_missing (none, _) next h = refl
  found_or_missing (some v, _) next h = cc

  read_record_found :
      (key : Text) (raw : Bytes) (flag : Option Bytes) (t : r.State)
      → r.get (kv_key key) t ≡ some raw
      → r.get (enc_key key) t ≡ flag
      → read_record repr lib.unpackb r key t ≡ (not_none (lib.unpackb raw), is_some (stored flag))
  unfolding read_record
  read_record_found key raw flag t v f = rw (v, read_record) (rw f refl)

  read_record-write_kv :
      (gate : Bytes → Checked) (key : Text) (request : Request) (context : Context) (sent : ℕ)
      (s t : r.State) (response : Response)
      → write_kv lib r gate key request context sent s ≡ (ok response, t)
      → (body : Bytes) × (packed_body lib request ≡ ok body)
        × (read_record repr lib.unpackb r key t
            ≡ (not_none (lib.unpackb body), is_one request.x_encrypted))
  unfolding read_record
  read_record-write_kv gate key request context sent s t response h =
      let w = write_kv-Written lib r gate key request context sent s t response h in
      let (value, flag) = store_kv_self r key w.body (is_one request.x_encrypted) s in
      let v : r.get (kv_key key) t ≡ some w.body = rw w.after value in
      let f : r.get (enc_key key) t
          ≡ (if is_one request.x_encrypted then some (codes "1") else none) =
        rw w.after flag in
      (
        w.body,
        w.packed,
        read_record_found key w.body _ t v f
            ∙ (ap (λ b. (not_none (lib.unpackb w.body), b))
                (flag_is_some (is_one request.x_encrypted))),
      )

  -- After a POST that succeeded to the key that kv_path gives for a device, or for the app where
  -- the device has no override that can be decoded, resolve_value gives the form string of the
  -- decoded body of the POST, also where the POST asked for encryption, flags it as encrypted
  -- exactly if the POST asked for it, and not as a default; where the body decodes to something.
  pub resolve_value-write_kv :
      (gate : Bytes → Checked) (app device var_name : Text) (place : Option Text)
      (request : Request) (context : Context) (sent : ℕ) (s t : r.State) (response : Response)
      (var : List (Text × Value))
      → write_kv lib r gate (kv_path app var_name place) request context sent s ≡ (ok response, t)
      → ((place ≡ some device) ⊎ ((place ≡ none) × (override app device var_name t ≡ none)))
      → (body : Bytes) × (packed_body lib request ≡ ok body)
        × ((v : Value)
            → not_none (lib.unpackb body) ≡ some v
            → resolve_value repr lib.unpackb r app device var_name var t ≡ record {
              value = some (to_form_string repr v);
              encrypted = is_one request.x_encrypted;
              from_default = false;
            })
  unfolding resolve_value kv_path
  resolve_value-write_kv gate app device var_name place request context sent s t response var h
        (inl e) =
      let (body, packed, reads) =
        read_record-write_kv gate (kv_path app var_name place) request context sent s t response
          h in
      let here =
        ap (λ p. read_record repr lib.unpackb r (kv_path app var_name p) t) (sym e) ∙ reads in
      (body, packed, λ v decodes. rw (here, decodes) refl)
  resolve_value-write_kv gate app device var_name place request context sent s t response var h
        (inr (e, missing)) =
      let (body, packed, reads) =
        read_record-write_kv gate (kv_path app var_name place) request context sent s t response
          h in
      let here =
        ap (λ p. read_record repr lib.unpackb r (kv_path app var_name p) t) (sym e) ∙ reads in
      (
        body,
        packed,
        λ v decodes.
            found_or_missing (read_record repr lib.unpackb r (kv_path app var_name (some device)) t)
              _ missing
            ∙ rw (here, decodes) refl,
      )
