-- ===== src/Device/Tests.antt =====
-- Examples of the device API, on a Redis in memory.
use stra2us.Prelude.{
  ℕ, Text, Bytes, codes, true, false, List, [], ◌∷◌, ◌++◌, Option, none, some, ◌≡◌, refl, ◌↔◌, ℤ,
  pos, inl, inr, arith, All, ◌≤◌, length,
}
use stra2us.Result.{Result, Checked, ok, err, http}
use stra2us.Builtins.{encode, decimal}
use stra2us.Builtins.Utf8.{IsScalar}
use stra2us.Value.{str}
use stra2us.Redis.{Redis, Entry}
use stra2us.Redis.Memory.{memory, empty, Store}
use stra2us.Acl.{read, check_acl}
use stra2us.Security.{secret_bytes, nonce_to_bytes}
use stra2us.Device.{
  Request, Context, Response, kv_key, enc_key, secret_key, queue_key, cursor_key, packed_body,
  verify_device_request, signed_response, signed_msgpack,
}
use stra2us.Device.Authentication.{Authentic, verify_device_request_iff}
use stra2us.Device.Nonce.{allocate_all}
use stra2us.Device.Nonce.Increasing.{nonces_IsRising, nonces_of, IsRising, next_number, HasRoom}
use stra2us.Device.Kv.{write_kv, read_kv, delete_kv, is_one, inner_bytes, not_found}
use stra2us.Device.Kv.Frame.{write_kv_http}
use stra2us.Device.Kv.Encrypted.{read_kv-write_kv, read_kv-write_kv_encrypted, Delivered}
use stra2us.Device.Kv.Deletion.{read_kv-delete_kv, write_kv-get}
use stra2us.Device.Queue.{cursor_id, next_message}
use stra2us.Device.Queue.Draining.{Draining, stopped, delivered, AreWithin, next_message_drains}
use stra2us.Device.Queue.Pending.{first_live}
use stra2us.Device.Queue.Delivery.{pending, next_message-first_live, next_message_resumes, Found}
use stra2us.Fixtures.{libraries, client, request_of, digest-IsBytes, length-digest}

abbrev plain : Request
plain = request_of (codes "hi") none

abbrev flagged : Request
flagged = request_of (codes "hi") (some (codes "1"))

abbrev any_catalog : Bytes → Checked
any_catalog _ = ok tt

abbrev key : Text
key = codes "app/x"

check_acl-client : check_acl client.acl (codes "kv/" ++ key) read ≡ ok tt
unfolding check_acl stra2us.Prelude.text_eq stra2us.Prelude.starts_with
check_acl-client = refl

verify_device_request_iff_example :
    (verify_device_request libraries memory plain (codes "dev") (codes "100") (codes "00") 100 empty
      ≡ ok client)
    ↔ Authentic libraries memory plain (codes "dev") (codes "100") (codes "00") 100 empty client
verify_device_request_iff_example =
    verify_device_request_iff libraries memory plain (codes "dev") (codes "100") (codes "00") 100
      empty digest-IsBytes client

abbrev asks : List (Text × ℕ)
asks = (codes "a", 100) ∷ (codes "b", 90) ∷ (codes "a", 100) ∷ []

asks-HasRoom : HasRoom memory (length asks) asks
asks-HasRoom = (omega arith, (omega arith, (omega arith, tt)))

nonces_IsRising_example :
    (given : List (Text × ℕ)) × ((allocate_all memory asks empty).0 ≡ ok given)
    × IsRising 0 (nonces_of (codes "a") given)
nonces_IsRising_example =
    nonces_IsRising memory asks (λ _. 0) empty (codes "a") (λ c. inl (refl, refl)) asks-HasRoom
      (λ c. omega arith)

-- The state and the response after a write.
abbrev written : Request → Text → (Result Response) × Store
written request k = write_kv libraries memory any_catalog k request client 100 empty

abbrev sent : Response
sent = record {
  content = 0x80 ∷ [];
  status_code = 200;
  x_response_timestamp = codes "100";
  x_response_signature = codes "0102030405060708090a0b0c0d0e0f101112131415161718191a1b1c1d1e1fff";
}

abbrev after_plain : Store
after_plain = (written plain key).1

write_kv-plain :
    write_kv libraries memory any_catalog key plain client 100 empty ≡ (ok sent, after_plain)
unfolding write_kv check_acl stra2us.Prelude.text_eq stra2us.Prelude.starts_with packed_body
    stra2us.Prelude.occurs_in stra2us.Builtins.decode stra2us.Device.Kv.is_catalog_yaml_key
    signed_msgpack stra2us.Security.sign_payload stra2us.Builtins.fromhex stra2us.Builtins.str_int
write_kv-plain = refl

abbrev after_flagged : Store
after_flagged = (written flagged key).1

write_kv-flagged :
    write_kv libraries memory any_catalog key flagged client 100 empty ≡ (ok sent, after_flagged)
unfolding write_kv check_acl stra2us.Prelude.text_eq stra2us.Prelude.starts_with packed_body
    stra2us.Prelude.occurs_in stra2us.Builtins.decode stra2us.Device.Kv.is_catalog_yaml_key
    signed_msgpack stra2us.Security.sign_payload stra2us.Builtins.fromhex stra2us.Builtins.str_int
write_kv-flagged = refl

abbrev stranger : Context
stranger = record client { acl = str (codes "none") }

abbrev outside : Text
outside = codes "other/x"

write_kv-outside :
    (write_kv libraries memory any_catalog outside plain client 100 empty).0 ≡ err (http 403)
unfolding write_kv check_acl stra2us.Prelude.text_eq stra2us.Prelude.starts_with
write_kv-outside = refl

write_kv_http_example :
    (write_kv libraries memory any_catalog outside plain client 100 empty).1 ≡ empty
write_kv_http_example =
    write_kv_http libraries memory any_catalog outside plain client 100 empty 403 write_kv-outside

flag_false : is_one plain.x_encrypted ≡ false
flag_false = refl

flag_true : is_one flagged.x_encrypted ≡ true
unfolding stra2us.Prelude.text_eq
flag_true = refl

read_kv-write_kv_example :
    (body : Bytes) × (packed_body libraries plain ≡ ok body)
    × (read_kv libraries memory key plain client 120 120 after_plain
        ≡ (signed_response libraries client plain body 200 120, after_plain))
read_kv-write_kv_example =
    read_kv-write_kv libraries memory any_catalog key plain client 100 empty after_plain sent plain
      client 120 120 write_kv-plain flag_false check_acl-client

packed_body-flagged : packed_body libraries flagged ≡ ok (0xd9 ∷ codes "hi")
unfolding packed_body stra2us.Prelude.occurs_in stra2us.Builtins.decode
packed_body-flagged = refl

inner_bytes-flagged : inner_bytes (libraries.unpackb_raw (0xd9 ∷ codes "hi")) ≡ ok (codes "hi")
unfolding inner_bytes encode
inner_bytes-flagged = refl

secret_bytes-client : secret_bytes client.secret_hex ≡ ok (0 ∷ 255 ∷ [])
unfolding secret_bytes stra2us.Builtins.fromhex
secret_bytes-client = refl

nonce_to_bytes-next : nonce_to_bytes (next_number 120 0) ≡ ok (0 ∷ 0 ∷ 0 ∷ 120 ∷ [])
unfolding nonce_to_bytes
nonce_to_bytes-next = refl

no_nonce : memory.get (codes "kvenc:nonce:dev") after_flagged ≡ none
unfolding write_kv check_acl stra2us.Prelude.text_eq stra2us.Prelude.starts_with packed_body
    stra2us.Prelude.occurs_in stra2us.Builtins.decode stra2us.Device.Kv.is_catalog_yaml_key
    stra2us.Device.Kv.store_kv
no_nonce = refl

read_kv-write_kv_encrypted_example :
    Delivered libraries
      (codes "/kv/app/x")
      client
      (next_number 120 0)
      (codes "hi")
      (read_kv libraries memory key plain client 120 120 after_flagged).0
read_kv-write_kv_encrypted_example =
    read_kv-write_kv_encrypted libraries memory length-digest digest-IsBytes any_catalog key flagged
      client 100 empty after_flagged sent plain client 120 120 0 (0xd9 ∷ codes "hi") (codes "hi")
      (0 ∷ 255 ∷ []) (0 ∷ 0 ∷ 0 ∷ 120 ∷ []) write_kv-flagged flag_true check_acl-client
      packed_body-flagged inner_bytes-flagged (ground arith) (ground arith) (inl (no_nonce, refl))
      secret_bytes-client nonce_to_bytes-next

delete_kv-key :
    delete_kv libraries memory key plain client 100 after_plain
    ≡ (ok sent, (delete_kv libraries memory key plain client 100 after_plain).1)
unfolding delete_kv check_acl stra2us.Prelude.text_eq stra2us.Prelude.starts_with signed_msgpack
    stra2us.Security.sign_payload stra2us.Builtins.fromhex stra2us.Builtins.str_int
delete_kv-key = refl

read_kv-delete_kv_example :
    read_kv libraries memory key plain client 120 120
      (delete_kv libraries memory key plain client 100 after_plain).1
    ≡ (
      signed_msgpack libraries client plain not_found 120,
      (delete_kv libraries memory key plain client 100 after_plain).1,
    )
read_kv-delete_kv_example =
    read_kv-delete_kv libraries memory key plain client 100 after_plain
      (delete_kv libraries memory key plain client 100 after_plain).1 sent plain client 120 120
      delete_kv-key check_acl-client

write_kv-get_example : memory.get (kv_key (codes "app/y")) after_plain ≡ none
unfolding stra2us.Prelude.text_eq
write_kv-get_example =
    write_kv-get libraries memory any_catalog key (kv_key (codes "app/y")) plain client 100 empty
      after_plain sent write_kv-plain refl refl

-- A topic with an expired message and one that is alive.
abbrev fields_at : Bytes → List (Text × Bytes)
fields_at exp = (codes "payload", codes "p") ∷ (codes "exp", exp) ∷ []

abbrev topic : Text
topic = codes "app/t"

abbrev two_messages : Store
two_messages =
    memory.xadd (queue_key topic) (fields_at (codes "500"))
      (memory.xadd (queue_key topic) (fields_at (codes "90")) empty)

abbrev alive : Entry
alive = record { id = codes "1111110-0"; fields = fields_at (codes "500") }

cursor_id-new :
    cursor_id memory (memory.get (cursor_key (codes "dev") topic) two_messages) ≡ ok (codes "0-0")
unfolding cursor_id
cursor_id-new = refl

next_message-first_live_example :
    (next_message memory (codes "dev") topic 100 two_messages).0
    ≡ first_live 100 (pending memory (codes "dev") topic (codes "0-0") two_messages)
next_message-first_live_example =
    next_message-first_live memory (codes "dev") topic 100 two_messages (codes "0-0") cursor_id-new

IsScalar-alive : All IsScalar alive.id
IsScalar-alive = ground arith

next_message-two :
    next_message memory (codes "dev") topic 100 two_messages
    ≡ (ok (some alive), (next_message memory (codes "dev") topic 100 two_messages).1)
unfolding next_message cursor_id stra2us.Device.Queue.consume_loop stra2us.Redis.Streams.xread
    stra2us.Prelude.text_eq stra2us.Device.Queue.scan_batch stra2us.Device.Queue.expiry
    stra2us.Builtins.decode stra2us.Builtins.parse_int
next_message-two = refl

next_message_resumes_example :
    (f : Found 100 (pending memory (codes "dev") topic (codes "0-0") two_messages) alive)
    × ((next_message memory
          (codes "dev")
          topic
          200
          (next_message memory (codes "dev") topic 100 two_messages).1).0
        ≡ first_live 200 f.behind)
next_message_resumes_example =
    next_message_resumes memory (codes "dev") topic 100 200 two_messages
      (next_message memory (codes "dev") topic 100 two_messages).1 (codes "0-0") alive cursor_id-new
      next_message-two IsScalar-alive

one_delivery :
    Draining memory
      (codes "dev")
      topic
      two_messages
      (alive ∷ [])
      (next_message memory (codes "dev") topic 100 two_messages).1
one_delivery = delivered 100 next_message-two IsScalar-alive stopped

next_message_drains_example :
    AreWithin (alive ∷ []) (pending memory (codes "dev") topic (codes "0-0") two_messages)
    × (1 ≤ length (pending memory (codes "dev") topic (codes "0-0") two_messages))
next_message_drains_example =
    next_message_drains memory (codes "dev") topic two_messages
      (next_message memory (codes "dev") topic 100 two_messages).1 (alive ∷ []) (codes "0-0")
      cursor_id-new one_delivery
