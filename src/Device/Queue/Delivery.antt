-- ===== src/Device/Queue/Delivery.antt =====
-- consume_message over the life of a consumer.
use stra2us.Prelude.{
  ℕ, suc, Text, Bytes, true, false, List, [], ◌∷◌, ◌++◌, Option, some, ◌≡◌, refl, sym, ap, ◌∙◌,
  arith, ℤ, pos, ◌≤ℤ◌, leℤ, length, text_eq, Bool-cases, inl, inr, All,
}
use stra2us.Result.{ok, Result-cases}
use stra2us.Builtins.{encode}
use stra2us.Builtins.Utf8.{IsScalar, decode-encode}
use stra2us.Redis.{Redis, Entry}
use stra2us.Device.{queue_key, cursor_key}
use stra2us.Device.Queue.{expiry, consume_loop, cursor_id, next_message}
use stra2us.Device.Queue.Pending.{first_live, first_live_err, first_live_ok}
use stra2us.Device.Queue.Consume.{
  remaining, consume_loop_lem, consume_loop_cursor, length-remaining, remaining_behind,
}

-- The expiry of the entry can be read, and has passed.
abbrev pub IsDead : ℕ → Entry → Type 0
IsDead now e = (exp : ℤ) × (expiry e ≡ ok exp) × (leℤ (pos now) exp ≡ false)

-- The expiry of the entry can be read, and has not passed.
abbrev pub IsLive : ℕ → Entry → Type 0
IsLive now e = (exp : ℤ) × (expiry e ≡ ok exp) × (pos now ≤ℤ exp)

-- The first live entry of a list, and what stands before and behind it.
pub record Found (now : ℕ) (es : List Entry) (m : Entry) : Type 0 where
  pub skipped : List Entry
  pub behind : List Entry
  pub split : es ≡ skipped ++ m ∷ behind
  pub dead : All (IsDead now) skipped
  pub live : IsLive now m

live_of_test : (now : ℕ) (exp : ℤ) → leℤ (pos now) exp ≡ true → pos now ≤ℤ exp
live_of_test now exp h = ground arith

pub first_live-Found :
    (now : ℕ) (es : List Entry) (m : Entry) → first_live now es ≡ ok (some m) → Found now es m
first_live-Found now [] m h = absurd (unfold first_live in cc h)
first_live-Found now (e ∷ es) m h = elim (Result-cases (expiry e)) [
  | inl (x, bad) ↦ absurd (cc (h, first_live_err now e.id e es bad))
  | inr (exp, good) ↦ elim (Bool-cases (leℤ (pos now) exp)) [
    | inl alive ↦
        let step : first_live now (e ∷ es) ≡ ok (some e) =
          first_live_ok now e.id e es good ∙ rw alive refl in
        let same : e ≡ m = cc (h, step) in
        record {
          skipped = [];
          behind = es;
          split = ap (λ x. x ∷ es) same;
          dead = tt;
          live = rw (← same) (exp, good, live_of_test now exp alive);
        }
    | inr gone ↦
        let step : first_live now (e ∷ es) ≡ first_live now es =
          first_live_ok now e.id e es good ∙ rw gone refl in
        let f = first_live-Found now es m (sym step ∙ h) in
        record {
          skipped = e ∷ f.skipped;
          behind = f.behind;
          split = ap (λ l. e ∷ l) f.split;
          dead = ((exp, good, gone), f.dead);
          live = f.live;
        }
  ]
]

cursor_apart :
    (consumer topic : Text) → text_eq (cursor_key consumer topic) (queue_key topic) ≡ false
unfolding text_eq
cursor_apart consumer topic = refl

module _ (r : Redis) (consumer topic : Text) where
  -- What the consumer has still to see: the entries behind its cursor.
  pub pending : Text → r.State → List Entry
  pending = remaining r (queue_key topic)

  next_message-loop :
      (now : ℕ) (s : r.State) (id : Text)
      → cursor_id r (r.get (cursor_key consumer topic) s) ≡ ok id
      → next_message r consumer topic now s
        ≡ consume_loop r
            (suc (length (r.entries (queue_key topic) s)))
            now
            (queue_key topic)
            (cursor_key consumer topic)
            id
            s
  unfolding next_message
  next_message-loop now s id h = rw (h, next_message) refl

  -- One call from a readable cursor returns what the first live entry behind the cursor is,
  -- nothing where there is none, and the error where an entry before it has no readable expiry;
  -- its batches of 50 do not show.
  pub next_message-first_live :
      (now : ℕ) (s : r.State) (id : Text)
      → cursor_id r (r.get (cursor_key consumer topic) s) ≡ ok id
      → (next_message r consumer topic now s).0 ≡ first_live now (pending id s)
  unfolding pending
  next_message-first_live now s id h =
      ap (λ p. p.0) (next_message-loop now s id h)
      ∙ consume_loop_lem r (queue_key topic) (cursor_key consumer topic)
          (cursor_apart consumer topic) (suc (length (r.entries (queue_key topic) s))) now id s
          (length-remaining r (queue_key topic) id s)

  cursor_of_stored :
      {o : Option Bytes} (id : Text)
      → o ≡ some (encode id)
      → All IsScalar id
      → cursor_id r o ≡ ok id
  unfolding cursor_id
  cursor_of_stored id h scalar = ground (arith, h, decode-encode id scalar)

  -- The same of one call, with the cursor that it leaves.
  pub next_message_step :
      (now : ℕ) (s t : r.State) (id : Text) (m : Entry)
      → cursor_id r (r.get (cursor_key consumer topic) s) ≡ ok id
      → next_message r consumer topic now s ≡ (ok (some m), t)
      → All IsScalar m.id
      → (f : Found now (pending id s) m) × (cursor_id r (r.get (cursor_key consumer topic) t)
          ≡ ok m.id)
        × (pending m.id t ≡ f.behind)
  unfolding pending
  next_message_step now s t id m start h scalar =
      let result : first_live now (pending id s) ≡ ok (some m) =
        sym (next_message-first_live now s id start) ∙ ap (λ p. p.0) h in
      let f = first_live-Found now (pending id s) m result in
      let (at, same) =
        consume_loop_cursor r (queue_key topic) (cursor_key consumer topic)
          (cursor_apart consumer topic) (suc (length (r.entries (queue_key topic) s))) now id s t m
          (sym (next_message-loop now s id start) ∙ h) in
      (
        f,
        cursor_of_stored m.id at scalar,
        remaining_behind r (queue_key topic) id s t f.skipped f.behind m f.split same,
      )

  -- A call that starts from a readable cursor and returns a message has skipped only expired
  -- entries before it, and the message is alive; where its id is a text that UTF-8 can encode, the
  -- next call returns the first live entry of just those that stand behind it.
  pub next_message_resumes :
      (now now' : ℕ) (s t : r.State) (id : Text) (m : Entry)
      → cursor_id r (r.get (cursor_key consumer topic) s) ≡ ok id
      → next_message r consumer topic now s ≡ (ok (some m), t)
      → All IsScalar m.id
      → (f : Found now (pending id s) m) × ((next_message r consumer topic now' t).0
          ≡ first_live now' f.behind)
  unfolding pending
  next_message_resumes now now' s t id m start h scalar =
      let (f, at, rest) = next_message_step now s t id m start h scalar in
      (f, next_message-first_live now' t m.id at ∙ ap (first_live now') rest)
