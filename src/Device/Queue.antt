-- ===== src/Device/Queue.antt =====
-- The queue handlers of backend/src/api/routes_device.py: publishing to a Redis stream, and reading
-- it with a cursor of one's own.
pub mod Pending
pub mod Consume
pub mod Delivery
pub mod Draining
use stra2us.Prelude.{
  ℕ, zero, suc, ◌+◌, ◌/◌, Text, Bytes, codes, Bool, true, false, List, [], ◌∷◌, ◌++◌, Option, none,
  some, ℤ, pos, negsuc, leℤ, text_eq, if◌then◌else◌, split, length, addℤ,
}
use stra2us.Result.{Failure, Result, ok, err, http, fault}
use stra2us.Builtins.{encode, decode, parse_int, str_int}
use stra2us.Value.{Value, str, bin, int, obj, field, end}
use stra2us.Redis.{Redis, Entry}
use stra2us.Redis.Streams.{xread}
use stra2us.Acl.{read, write, check_acl}
use stra2us.Exec.{Exec, pure, raise, lift, gets, modify, ◌>>=◌, ◌>>◌}
use stra2us.Device.{
  Libraries, Request, Context, Response, queue_key, cursor_key, or_raise, signed_response,
  signed_msgpack, packed_body, status_ok,
}

-- `if ttl > 604800: ttl = 604800`
abbrev pub max_ttl : ℤ
max_ttl = pos 604800

unfoldable pub capped_ttl : ℤ → ℤ
capped_ttl ttl = if leℤ ttl max_ttl then ttl else max_ttl

-- `fields[name]` of a stream entry, or nothing.
abbrev pub field_of : Text → List (Text × Bytes) → Option Bytes
field_of name [] = none
field_of name ((k, v) ∷ fs) = if text_eq k name then some v else field_of name fs

-- `int(fields[b"exp"])`
abbrev pub int_of : Option Bytes → Result ℤ
int_of none = err fault
int_of (some bytes) = elim (decode bytes) [
  | none ↦ err fault
  | some text ↦ or_raise fault (parse_int text)
]

unfoldable pub expiry : Entry → Result ℤ
expiry e = int_of (field_of (codes "exp") e.fields)

-- What the loop over one batch comes to: a message that is still alive, or the last id seen.
pub data Batch : Type 0 where
  found : Entry → Batch
  expired : Text → Batch

unfoldable pub scan_batch : ℕ → Text → List Entry → Result Batch
scan_batch current_time last_id [] = ok (expired last_id)
scan_batch current_time last_id (e ∷ es) =
    let rest = scan_batch current_time e.id es in
    elim (expiry e) [
      | err x ↦ err x
      | ok exp ↦ if leℤ (pos current_time) exp then ok (found e) else rest
    ]

-- `msgpack.unpackb(raw, raw=False)`, or the raw bytes where that raises.
abbrev pub decoded_or_raw : Bytes → Option Value → Value
decoded_or_raw raw none = bin raw
decoded_or_raw raw (some v) = v

-- `fields.get(b"client_id", b"unknown").decode("utf-8")`
abbrev pub publisher : Option Bytes → Result Text
publisher none = ok (codes "unknown")
publisher (some bytes) = or_raise fault (decode bytes)

abbrev pub first_piece : List Text → Text
first_piece [] = []
first_piece (p ∷ ps) = p

-- `int(last_id.split("-")[0]) // 1000`, the second in which the message arrived. A negative number
-- is rounded down, but no stream id holds one.
abbrev pub seconds_of : ℤ → ℤ
seconds_of (pos ms) = pos (ms / 1000)
seconds_of (negsuc ms) = negsuc (ms / 1000)

unfoldable pub received_at : Text → Result ℤ
received_at id = elim (parse_int (first_piece (split b'-' id))) [
  | none ↦ err fault
  | some ms ↦ ok (seconds_of ms)
]

module _ (r : Redis) where
  -- The loop of consume_message over the batches of 50. `none` is the empty answer; the fuel is not
  -- used up when it exceeds the number of entries after the cursor.
  unfoldable pub consume_loop : ℕ → ℕ → Text → Text → Text → Exec r.State (Option Entry)
  consume_loop zero current_time key cursor last_id s = (err fault, s)
  consume_loop (suc fuel) current_time key cursor last_id s = elim (xread r 50 key last_id s) [
    | [] ↦ (ok none, s)
    | e ∷ es ↦ elim (scan_batch current_time last_id (e ∷ es)) [
      | err x ↦ (err x, s)
      | ok (found m) ↦ (ok (some m), r.set cursor (encode m.id) s)
      | ok (expired id) ↦ consume_loop fuel current_time key cursor id (r.set cursor (encode id) s)
    ]
  ]

  -- The id to read from: the cursor, or the start of the stream.
  unfoldable pub cursor_id : Option Bytes → Result Text
  cursor_id none = ok (codes "0-0")
  cursor_id (some bytes) = or_raise fault (decode bytes)

  -- The part of consume_message that moves the cursor.
  unfoldable pub next_message : Text → Text → ℕ → Exec r.State (Option Entry)
  next_message consumer_id topic current_time s =
      elim (cursor_id (r.get (cursor_key consumer_id topic) s)) [
        | err x ↦ (err x, s)
        | ok last_id ↦
            consume_loop (suc (length (r.entries (queue_key topic) s))) current_time
              (queue_key topic) (cursor_key consumer_id topic) last_id s
      ]

  module _ (lib : Libraries) where
    unfoldable pub publish_message : Text → Request → ℤ → Context → ℕ → ℕ → Exec r.State Response
    publish_message topic request ttl context now sent = do
      lift (check_acl context.acl (codes "q/" ++ topic) write)
      body ← lift (packed_body lib request)
      modify (
          r.xadd (queue_key topic) (
            (codes "payload", body)
            ∷ (codes "exp", encode (str_int (addℤ (pos now) (capped_ttl ttl))))
            ∷ (codes "client_id", encode context.client_id)
            ∷ []))
      modify (r.expire (queue_key topic) 604800)
      lift (signed_msgpack lib context request status_ok sent)

    -- The envelope of a message.
    unfoldable pub wrapped : Entry → Bytes → Result Bytes
    wrapped m raw_payload = elim (received_at m.id) [
      | err x ↦ err x
      | ok at ↦ elim (publisher (field_of (codes "client_id") m.fields)) [
        | err x ↦ err x
        | ok publisher_id ↦ ok (
            lib.packb (
              obj (
                field (codes "data") (decoded_or_raw raw_payload (lib.unpackb raw_payload)) (
                  field (codes "client_id") (str publisher_id)
                    (field (codes "received_at") (int at) end)))))
      ]
    ]

    -- The response to what the loop found.
    unfoldable pub answer : Bool → Context → Request → ℕ → Option Entry → Result Response
    answer envelope context request sent none = signed_response lib context request [] 204 sent
    answer envelope context request sent (some m) = elim (field_of (codes "payload") m.fields) [
      | none ↦ err fault
      | some raw_payload ↦
          if envelope
          then elim (wrapped m raw_payload) [
            | err x ↦ err x
            | ok body ↦ signed_response lib context request body 200 sent
          ]
          else signed_response lib context request raw_payload 200 sent
    ]

    unfoldable pub consume_message : Text → Request → Bool → Context → ℕ → ℕ → Exec r.State Response
    consume_message topic request envelope context now sent = do
      lift (check_acl context.acl (codes "q/" ++ topic) read)
      message ← next_message context.client_id topic now
      lift (answer envelope context request sent message)
