-- ===== src/Device/Queue/Consume.antt =====
-- The cursor of a consumer: each live message once, in order.
use stra2us.Prelude.{
  ℕ, zero, suc, ◌≤◌, ◌<◌, Text, Bytes, Bool, false, List, [], ◌∷◌, ◌++◌, Option, none, some, ◌≡◌,
  refl, sym, ap, ◌∙◌, arith, length, take, drop, text_eq, text_eq_refl, length-append,
  take-append-drop, append_assoc, ◌⊎◌, inl, inr,
}
use stra2us.Result.{Result, ok, err}
use stra2us.Builtins.{encode}
use stra2us.Redis.{Redis, Entry, IsIncreasing}
use stra2us.Redis.Streams.{xread, after_id, after_id_suffix, after_id-append}
use stra2us.Device.Queue.{Batch, found, expired, scan_batch, consume_loop}
use stra2us.Device.Queue.Pending.{first_live, last_of, Agrees, scan_batch-Agrees}

drop-shorter : (n : ℕ) (e : Entry) (es : List Entry) → length (drop (suc n) (e ∷ es)) ≤ length es
drop-shorter zero e es = omega arith
drop-shorter (suc n) e [] = omega arith
drop-shorter (suc n) e (x ∷ es) = omega (arith, drop-shorter n x es)

-- An entry of a nonempty list stands last in it.
last_of-split :
    (id : Text) (e : Entry) (es : List Entry)
    → (before : List Entry) × (m : Entry) × (e ∷ es ≡ before ++ m ∷ [])
      × (last_of id (e ∷ es) ≡ m.id)
last_of-split id e [] = ([], e, refl, refl)
last_of-split id e (x ∷ es) =
    let (before, m, split, same) = last_of-split e.id x es in
    (e ∷ before, m, ap (λ l. e ∷ l) split, same)

List-cases : {A : Type 0} (xs : List A) → (xs ≡ []) ⊎ ((y : A) × (ys : List A) × (xs ≡ y ∷ ys))
List-cases [] = inl refl
List-cases (y ∷ ys) = inr (y, ys, refl)

first_live_nil : (now : ℕ) {es : List Entry} → es ≡ [] → first_live now es ≡ ok none
unfolding first_live
first_live_nil now h = rw h refl

module _ (r : Redis) (key : Text) where
  -- What stands behind a consumer that has read up to `id`.
  pub remaining : Text → r.State → List Entry
  remaining id s = after_id r.later id (r.entries key s)

  -- After the last entry of a batch, the rest of the batch's stream is left.
  remaining_after :
      (id : Text) (s : r.State) (batch rest : List Entry) (e : Entry) (es : List Entry)
      → batch ≡ e ∷ es
      → remaining id s ≡ batch ++ rest
      → remaining (last_of id batch) s ≡ rest
  unfolding remaining
  remaining_after id s batch rest e es shape h =
      let (before, all) =
        after_id_suffix r.later r.later_trans r.later_asym id (r.entries key s)
          (r.increasing key s) in
      let (front, m, split, same) = last_of-split id e es in
      let e1 : r.entries key s ≡ (before ++ front) ++ m ∷ rest =
        all
        ∙ ap (λ l. before ++ l)
            (h ∙ ap (λ l. l ++ rest) (shape ∙ split) ∙ append_assoc front (m ∷ []) rest)
        ∙ sym (append_assoc before front (m ∷ rest)) in
      let inc : IsIncreasing r.later ((before ++ front) ++ m ∷ rest) =
        rw e1 at (r.increasing key s) in
      let l1 : last_of id batch ≡ m.id = ap (last_of id) shape ∙ same in
      rw (l1, e1) (after_id-append r.later r.later_trans r.later_asym (before ++ front) m rest inc)

  module _ (cursor : Text) (apart : text_eq cursor key ≡ false) where
    -- Moving the cursor leaves the stream alone.
    remaining-set :
        (id : Text) (v : Bytes) (s : r.State) → remaining id (r.set cursor v s) ≡ remaining id s
    unfolding remaining
    remaining-set id v s = rw (r.entries-set cursor key v s, apart) refl

    moved : Text → r.State → r.State
    moved id s = r.set cursor (encode id) s

    loop_empty :
        (fuel now : ℕ) (id : Text) (s : r.State)
        → xread r 50 key id s ≡ []
        → consume_loop r (suc fuel) now key cursor id s ≡ (ok none, s)
    unfolding consume_loop
    loop_empty fuel now id s h = rw (h, consume_loop) refl

    -- A round of the loop on a batch that is not empty.
    round : ℕ → ℕ → r.State → Result Batch → Result (Option Entry) × r.State
    round fuel now s (err x) = (err x, s)
    round fuel now s (ok (found m)) = (ok (some m), moved m.id s)
    round fuel now s (ok (expired i)) = consume_loop r fuel now key cursor i (moved i s)

    loop_round :
        (fuel now : ℕ) (id : Text) (s : r.State) (e : Entry) (es : List Entry) (m : Result Batch)
        → xread r 50 key id s ≡ e ∷ es
        → scan_batch now id (e ∷ es) ≡ m
        → consume_loop r (suc fuel) now key cursor id s ≡ round fuel now s m
    unfolding consume_loop round moved
    loop_round fuel now id s e es (err x) h k = rw (h, consume_loop) (rw k refl)
    loop_round fuel now id s e es (ok (found m)) h k = rw (h, consume_loop) (rw k refl)
    loop_round fuel now id s e es (ok (expired i)) h k = rw (h, consume_loop) (rw k refl)

    remaining-moved : (id i : Text) (s : r.State) → remaining id (moved i s) ≡ remaining id s
    unfolding moved
    remaining-moved id i s = remaining-set id (encode i) s

    xread-take : (id : Text) (s : r.State) → xread r 50 key id s ≡ take 50 (remaining id s)
    unfolding xread remaining
    xread-take id s = refl

    take-nil : (es : List Entry) → take 50 es ≡ [] → es ≡ []
    take-nil [] h = refl
    take-nil (e ∷ es) h = cc h

    -- What a round leaves to be read.
    rest_of : Text → r.State → List Entry
    rest_of id s = drop 50 (remaining id s)

    remaining_round :
        (id : Text) (s : r.State) (e : Entry) (es : List Entry)
        → xread r 50 key id s ≡ e ∷ es
        → (remaining id s ≡ (e ∷ es) ++ rest_of id s)
          × (remaining (last_of id (e ∷ es)) s ≡ rest_of id s)
    unfolding rest_of
    remaining_round id s e es h =
        let split : remaining id s ≡ (e ∷ es) ++ drop 50 (remaining id s) =
          sym (take-append-drop 50 (remaining id s))
          ∙ ap (λ l. l ++ drop 50 (remaining id s)) (sym (xread-take id s) ∙ h) in
        (split, remaining_after id s (e ∷ es) (drop 50 (remaining id s)) e es refl split)

    round_lem :
        (fuel now : ℕ) (id : Text) (s : r.State) (e : Entry) (es : List Entry) (m : Result Batch)
        → remaining id s ≡ (e ∷ es) ++ rest_of id s
        → remaining (last_of id (e ∷ es)) s ≡ rest_of id s
        → Agrees now id (e ∷ es) m
        → ((i : Text)
            → remaining i s ≡ rest_of id s
            → (consume_loop r fuel now key cursor i (moved i s)).0
              ≡ first_live now (remaining i (moved i s)))
        → (round fuel now s m).0 ≡ first_live now (remaining id s)
    unfolding round
    round_lem fuel now id s e es (err x) split rest agrees ih =
        sym (ap (first_live now) split ∙ agrees (rest_of id s))
    round_lem fuel now id s e es (ok (found m)) split rest agrees ih =
        sym (ap (first_live now) split ∙ agrees (rest_of id s))
    round_lem fuel now id s e es (ok (expired i)) split rest (ids, agrees) ih =
        let here : remaining i s ≡ rest_of id s = rw ids rest in
        ih i here
        ∙ ap (first_live now) (remaining-moved i i s ∙ here)
        ∙ sym (ap (first_live now) split ∙ agrees (rest_of id s))

    -- With enough fuel the loop returns the first live message of those behind the cursor, and the
    -- error where one before it cannot be read: the batches of 50 make no difference.
    pub consume_loop_lem :
        (fuel now : ℕ) (id : Text) (s : r.State)
        → length (remaining id s) < fuel
        → (consume_loop r fuel now key cursor id s).0 ≡ first_live now (remaining id s)
    consume_loop_lem zero now id s h = absurd (omega arith)
    consume_loop_lem (suc fuel) now id s h = elim (List-cases (xread r 50 key id s)) [
      | inl none_left ↦
          ap (λ p. p.0) (loop_empty fuel now id s none_left)
          ∙ sym (first_live_nil now (take-nil (remaining id s) (sym (xread-take id s) ∙ none_left)))
      | inr (e, es, some_left) ↦
          let (split, rest) = remaining_round id s e es some_left in
          let shorter : length (rest_of id s) < fuel =
            omega (arith, ap length split, length-append (e ∷ es) (rest_of id s)) in
          ap (λ p. p.0) (loop_round fuel now id s e es (scan_batch now id (e ∷ es)) some_left refl)
          ∙ round_lem fuel now id s e es (scan_batch now id (e ∷ es)) split rest
              (scan_batch-Agrees now id (e ∷ es))
              (λ i eq.
                consume_loop_lem fuel now i (moved i s) (rw (remaining-moved i i s, eq) shorter))
    ]

    get-moved : (i : Text) (s : r.State) → r.get cursor (moved i s) ≡ some (encode i)
    unfolding moved
    get-moved i s = r.get-set cursor cursor (encode i) s ∙ rw (text_eq_refl cursor) refl

    entries-moved : (i : Text) (s : r.State) → r.entries key (moved i s) ≡ r.entries key s
    unfolding moved
    entries-moved i s = r.entries-set cursor key (encode i) s ∙ rw apart refl

    round_cursor :
        (fuel now : ℕ) (s : r.State) (b : Result Batch) (t : r.State) (m : Entry)
        → round fuel now s b ≡ (ok (some m), t)
        → ((i : Text) (u : r.State)
            → consume_loop r fuel now key cursor i (moved i s) ≡ (ok (some m), u)
            → (r.get cursor u ≡ some (encode m.id)) × (r.entries key u ≡ r.entries key (moved i s)))
        → (r.get cursor t ≡ some (encode m.id)) × (r.entries key t ≡ r.entries key s)
    unfolding round
    round_cursor fuel now s (err x) t m h ih = absurd (cc h)
    round_cursor fuel now s (ok (found n)) t m h ih =
        let same : n ≡ m = cc h in
        let after : moved n.id s ≡ t = cc h in
        (
          sym (ap (r.get cursor) after)
              ∙ get-moved n.id s
              ∙ ap (λ (x : Entry). some (encode x.id)) same,
          sym (ap (r.entries key) after) ∙ entries-moved n.id s,
        )
    round_cursor fuel now s (ok (expired i)) t m h ih =
        let (c, e) = ih i t h in (c, e ∙ entries-moved i s)

    -- Where the loop returns a message, the cursor holds the message's id, and the stream is what it was.
    pub consume_loop_cursor :
        (fuel now : ℕ) (id : Text) (s t : r.State) (m : Entry)
        → consume_loop r fuel now key cursor id s ≡ (ok (some m), t)
        → (r.get cursor t ≡ some (encode m.id)) × (r.entries key t ≡ r.entries key s)
    consume_loop_cursor zero now id s t m h = absurd (unfold consume_loop in cc h)
    consume_loop_cursor (suc fuel) now id s t m h = elim (List-cases (xread r 50 key id s)) [
      | inl none_left ↦ absurd (cc (h, loop_empty fuel now id s none_left))
      | inr (e, es, some_left) ↦
          round_cursor fuel now s (scan_batch now id (e ∷ es)) t m
            (sym (loop_round fuel now id s e es (scan_batch now id (e ∷ es)) some_left refl) ∙ h)
            (λ i u. consume_loop_cursor fuel now i (moved i s) u m)
    ]

-- There is no more behind an id than the stream holds.
length-keep :
    (later : Text → Text → Bool) (id : Text) (es : List Entry)
    → length (after_id later id es) ≤ length es
length-keep later id [] = omega arith
length-keep later id (e ∷ es) = ground (arith, length-keep later id es)

pub length-remaining :
    (r : Redis) (key id : Text) (s : r.State)
    → length (remaining r key id s) < suc (length (r.entries key s))
unfolding remaining
length-remaining r key id s = omega (arith, length-keep r.later id (r.entries key s))

-- Behind an entry of the stream stands what follows it.
pub remaining_behind :
    (r : Redis) (key id : Text) (s t : r.State) (front behind : List Entry) (m : Entry)
    → remaining r key id s ≡ front ++ m ∷ behind
    → r.entries key t ≡ r.entries key s
    → remaining r key m.id t ≡ behind
unfolding remaining
remaining_behind r key id s t front behind m h same =
    let (before, all) =
      after_id_suffix r.later r.later_trans r.later_asym id (r.entries key s)
        (r.increasing key s) in
    let e : r.entries key t ≡ (before ++ front) ++ m ∷ behind =
      same ∙ all ∙ ap (λ l. before ++ l) h ∙ sym (append_assoc before front (m ∷ behind)) in
    let inc : IsIncreasing r.later ((before ++ front) ++ m ∷ behind) =
      rw e at (r.increasing key t) in
    rw e (after_id-append r.later r.later_trans r.later_asym (before ++ front) m behind inc)
