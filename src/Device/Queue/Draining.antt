-- ===== src/Device/Queue/Draining.antt =====
-- A consumer of consume_message that calls until there is nothing left.
use mathlib.Core.Path.{subst}
use stra2us.Prelude.{ℕ, Text, List, [], ◌∷◌, ◌++◌, some, ◌≡◌, arith, ◌≤◌, ◌+◌, length, All}
use stra2us.Result.{ok}
use stra2us.Builtins.Utf8.{IsScalar}
use stra2us.Redis.{Redis, Entry}
use stra2us.Device.{cursor_key}
use stra2us.Device.Queue.{cursor_id, next_message}
use stra2us.Device.Queue.Delivery.{pending, next_message_step}

-- The messages stand in the entries in this order, each at a place of its own.
abbrev pub AreWithin : List Entry → List Entry → Type 0
AreWithin [] es = Unit
AreWithin (m ∷ ms) es =
    (skipped : List Entry) × (behind : List Entry) × (es ≡ skipped ++ m ∷ behind)
    × AreWithin ms behind

length-split :
    (skipped behind : List Entry) (m : Entry) → 1 + length behind ≤ length (skipped ++ m ∷ behind)
length-split [] behind m = ground arith
length-split (e ∷ skipped) behind m = ground (arith, length-split skipped behind m)

length-AreWithin : (ms es : List Entry) → AreWithin ms es → length ms ≤ length es
length-AreWithin [] es w = ground arith
length-AreWithin (m ∷ ms) es (skipped, behind, split, rest) =
    rw split (ground (arith, length-AreWithin ms behind rest, length-split skipped behind m))

module _ (r : Redis) (consumer topic : Text) where
  -- Calls, at any times, that have each returned a message, with nothing else between them.
  pub data Draining : r.State → List Entry → r.State → Type 0 where
    stopped : {s : r.State} → Draining s [] s
    delivered :
        {s t u : r.State} {m : Entry} {ms : List Entry} (now : ℕ)
        → next_message r consumer topic now s ≡ (ok (some m), t)
        → All IsScalar m.id
        → Draining t ms u
        → Draining s (m ∷ ms) u

  Draining-AreWithin :
      (s u : r.State) (ms : List Entry) (id : Text)
      → cursor_id r (r.get (cursor_key consumer topic) s) ≡ ok id
      → Draining s ms u
      → AreWithin ms (pending r consumer topic id s)
  Draining-AreWithin s u [] id start stopped = tt
  Draining-AreWithin s u (m ∷ ms) id start (delivered {t = t} now call scalar run) =
      let (f, at, rest) = next_message_step r consumer topic now s t id m start call scalar in
      (
        f.skipped,
        f.behind,
        f.split,
        subst (AreWithin ms) rest (Draining-AreWithin t u ms m.id at run),
      )

  -- From a readable cursor, any run of calls that each return a message whose id UTF-8 can encode,
  -- with nothing else between them, delivers entries from behind the cursor, in their order and
  -- each at most once, and has at most as many calls as there are entries behind the cursor.
  pub next_message_drains :
      (s u : r.State) (ms : List Entry) (id : Text)
      → cursor_id r (r.get (cursor_key consumer topic) s) ≡ ok id
      → Draining s ms u
      → AreWithin ms (pending r consumer topic id s)
        × (length ms ≤ length (pending r consumer topic id s))
  next_message_drains s u ms id start run =
      let within = Draining-AreWithin s u ms id start run in
      (within, length-AreWithin ms (pending r consumer topic id s) within)
