-- ===== src/Admin/Provisioning.antt =====
-- What a device can do after it was provisioned, and after it was revoked.
use stra2us.Prelude.{
  ℕ, Text, Bytes, codes, false, List, [], ◌∷◌, ◌++◌, Option, none, some, not, ◌≡◌, ◌≢◌, refl, sym,
  ap, ◌∙◌, arith, inl, inr, ◌↔◌, Option-cases, occurs_in, ◌||◌, text_eq, text_eq_refl, text_eq_ne,
  length, length-append, if◌then◌else◌,
}
use stra2us.Result.{ok, http}
use stra2us.Builtins.{encode, strip}
use stra2us.Value.{Value}
use stra2us.Redis.{Redis}
use stra2us.Acl.{Mode, check_acl, permissions_of}
use stra2us.Acl.Decision.{Grants}
use stra2us.Acl.Check.{check_acl_iff}
use stra2us.Exec.{Exec, guard, ◌>>◌, lift-eq-ok, guard-eq-ok}
use stra2us.Device.{
  Libraries, Request, Context, secret_key, acl_key, stored, is_some, load_acl,
  verify_device_request,
}
use stra2us.Device.Authentication.{verify_device_request_iff}
use stra2us.Security.Signatures.{IsBytes}
use stra2us.Backup.Restore.{device_app_key}
use stra2us.Admin.{permission, require_admin_superuser}
use stra2us.Admin.Credentials.{
  device_acl, is_blank, is_reserved, write_device, provision_device, revoke_client,
}

secret_key-acl_key :
    (a : Text)
    → (text_eq (secret_key a) (acl_key a) ≡ false) × (text_eq (acl_key a) (secret_key a) ≡ false)
secret_key-acl_key a =
    let differ : secret_key a ≢ acl_key a = λ e.
      omega
        (arith, ap length e, length-append a (codes ":secret"), length-append a (codes ":acl")) in
    (
      text_eq_ne (secret_key a) (acl_key a) differ,
      text_eq_ne (acl_key a) (secret_key a) (λ e. differ (sym e)),
    )

device_app_key-secret_key : (a b : Text) → text_eq (device_app_key a) (secret_key b) ≡ false
unfolding text_eq
device_app_key-secret_key a b = refl

device_app_key-acl_key : (a b : Text) → text_eq (device_app_key a) (acl_key b) ≡ false
unfolding text_eq
device_app_key-acl_key a b = refl

some_permissions :
    (app client_id : Text)
    → permissions_of (device_acl app client_id)
      ≡ ok (
          permission (app ++ codes "/" ++ client_id) (codes "rw")
          ∷ permission (app ++ codes "/public") (codes "rw")
          ∷ [])
unfolding permissions_of text_eq
some_permissions app client_id = refl

module _ (r : Redis) (loads : Bytes → Option Value) (rescue_users : List Text)
    (dumps : Value → Text) (username : Option Text) where
  revoke_client-state :
      (client_id : Text) (s t : r.State) (v : Value)
      → revoke_client r loads rescue_users dumps username client_id s ≡ (ok v, t)
      → t
        ≡ r.delete
            (device_app_key client_id)
            (r.delete (acl_key client_id) (r.delete (secret_key client_id) s))
  unfolding revoke_client
  revoke_client-state client_id s t v h =
      let (_, _, k) =
        lift-eq-ok (require_admin_superuser r loads rescue_users username s) _ s t h in
      ground (arith, k)

  -- After revoke_client succeeded, no request of the client is let in, whatever its timestamp,
  -- body and signature, where digests are bytes.
  pub verify_device_request-revoke_client :
      (lib : Libraries)
      → ((k m : Bytes) → IsBytes (lib.hmac k m))
      → (client_id : Text) (s t : r.State) (v : Value) (request : Request)
        (timestamp_str signature : Text) (now : ℕ) (context : Context)
      → revoke_client r loads rescue_users dumps username client_id s ≡ (ok v, t)
      → verify_device_request lib r request client_id timestamp_str signature now t ≢ ok context
  verify_device_request-revoke_client lib digests client_id s t v request timestamp_str signature
        now context h e =
      let a =
        (verify_device_request_iff lib r request client_id timestamp_str signature now t digests
            context).0
          e in
      let after = revoke_client-state client_id s t v h in
      let key = secret_key client_id in
      let gone : r.get key t ≡ none = rw after (
        r.get-delete (device_app_key client_id) key _
        ∙ rw (device_app_key-secret_key client_id client_id) (
            r.get-delete (acl_key client_id) key _
            ∙ rw ((secret_key-acl_key client_id).1)
                (r.get-delete key key s ∙ rw (text_eq_refl key) refl))) in
      absurd (cc (a.known, ap stored gone))

  abbrev provisioned : Text → Text → Text → r.State → r.State
  provisioned app client_id secret s = r.set (device_app_key client_id) (encode app) (
      r.set (acl_key client_id) (encode (dumps (device_acl app client_id))) (
        if not (is_some (r.get (secret_key client_id) s))
        then r.set (secret_key client_id) (encode secret) s
        else s))

  write_device-state :
      (app client_id secret : Text) (s t : r.State) (v : Value)
      → write_device r loads rescue_users dumps username app client_id secret s ≡ (ok v, t)
      → t ≡ provisioned app client_id secret s
  unfolding write_device
  write_device-state app client_id secret s t v h = cc h

  provision_device-state :
      (app client_id secret : Text) (s t : r.State) (v : Value)
      → provision_device r loads rescue_users dumps username app client_id secret s ≡ (ok v, t)
      → t ≡ provisioned app client_id secret s
  unfolding provision_device
  provision_device-state app client_id secret s t v h =
      let (_, _, k1) =
        lift-eq-ok (require_admin_superuser r loads rescue_users username s) _ s t h in
      let write_all : Exec r.State Value =
        write_device r loads rescue_users dumps username app client_id secret in
      let no_slash = not (occurs_in (codes "/") app || occurs_in (codes "/") client_id) in
      let last : Exec r.State Value = guard no_slash (http 400) >> write_all in
      let then_app : Exec r.State Value = guard (not (is_blank (strip app))) (http 400) >> last in
      let then_id : Exec r.State Value =
        guard (not (is_blank (strip client_id))) (http 400) >> then_app in
      let (_, k2) = guard-eq-ok (not (is_reserved client_id)) (http 400) then_id s t k1 in
      let (_, k3) = guard-eq-ok (not (is_blank (strip client_id))) (http 400) then_app s t k2 in
      let (_, k4) = guard-eq-ok (not (is_blank (strip app))) (http 400) last s t k3 in
      let (_, k5) = guard-eq-ok no_slash (http 400) write_all s t k4 in
      write_device-state app client_id secret s t v k5

  get-provisioned :
      (app client_id secret : Text) (s : r.State)
      → (r.get (acl_key client_id) (provisioned app client_id secret s)
          ≡ some (encode (dumps (device_acl app client_id))))
        × (r.get (secret_key client_id) (provisioned app client_id secret s) ≡ (
            if is_some (r.get (secret_key client_id) s)
            then r.get (secret_key client_id) s
            else some (encode secret)))
  get-provisioned app client_id secret s =
      let acl = acl_key client_id in
      let key = secret_key client_id in
      let first = if not (is_some (r.get key s)) then r.set key (encode secret) s else s in
      (
        r.get-set (device_app_key client_id) acl (encode app) _
            ∙ rw (device_app_key-acl_key client_id client_id) (
                r.get-set acl acl (encode (dumps (device_acl app client_id))) first
                ∙ rw (text_eq_refl acl) refl),
        r.get-set (device_app_key client_id) key (encode app) _
            ∙ rw (device_app_key-secret_key client_id client_id) (
                r.get-set acl key (encode (dumps (device_acl app client_id))) first
                ∙ rw ((secret_key-acl_key client_id).1) (elim (Option-cases (r.get key s)) [
                  | inl missing ↦
                      rw missing (r.get-set key key (encode secret) s ∙ rw (text_eq_refl key) refl)
                  | inr (old, found) ↦ rw found found
                ])),
      )

  -- After provision_device succeeded, where JSON reads back the ACL that it wrote,
  -- verify_device_request loads the ACL of the device, that ACL passes the check for a key exactly
  -- as its two permissions grant it, and the stored secret is the one that was there, or the new
  -- one where there was none.
  pub provision_device-check_acl :
      (lib : Libraries) (app client_id secret : Text) (s t : r.State) (v : Value) (path : Text)
      (mode : Mode)
      → provision_device r loads rescue_users dumps username app client_id secret s ≡ (ok v, t)
      → stored (some (encode (dumps (device_acl app client_id))))
        ≡ some (encode (dumps (device_acl app client_id)))
      → lib.loads (encode (dumps (device_acl app client_id))) ≡ some (device_acl app client_id)
      → (load_acl lib (stored (r.get (acl_key client_id) t)) ≡ ok (device_acl app client_id))
        × ((check_acl (device_acl app client_id) (codes "kv/" ++ path) mode ≡ ok tt)
            ↔ Grants mode
                (permission (app ++ codes "/" ++ client_id) (codes "rw")
                  ∷ permission (app ++ codes "/public") (codes "rw")
                  ∷ [])
                path)
        × (r.get (secret_key client_id) t ≡ (
            if is_some (r.get (secret_key client_id) s)
            then r.get (secret_key client_id) s
            else some (encode secret)))
  unfolding load_acl
  provision_device-check_acl lib app client_id secret s t v path mode h kept reads =
      let after = provision_device-state app client_id secret s t v h in
      let (acl, key) = get-provisioned app client_id secret s in
      (
        rw (after, acl, kept, reads) refl,
        (check_acl_iff (device_acl app client_id) path mode _ (some_permissions app client_id)).0,
        rw after key,
      )
