-- ===== src/Device/Nonce/Increasing.antt =====
-- The nonces of one client never repeat.
use stra2us.Prelude.{
  ℕ, ◌+◌, ◌^◌, ◌≤◌, ◌<◌, Text, Bool, true, false, leb, length, List, [], ◌∷◌, none, some, ◌≡◌, ◌⊎◌,
  refl, sym, ap, ◌∙◌, arith, if◌then◌else◌, All, text_eq, text_eq_iff, inl, inr, Bool-cases,
}
use stra2us.Result.{ok}
use stra2us.Builtins.{decimal, encode}
use stra2us.Redis.{Redis, Lua}
use stra2us.Device.Nonce.{
  nonce_key, value_or_zero, lua_number, bump, next_kvenc_nonce, allocate_all,
}

-- The larger of the clock and the successor of the last nonce.
abbrev pub next_number : ℕ → ℕ → ℕ
next_number now last = if leb now last then last + 1 else now

if-ap :
    {A : Type 0} (f : ℕ → A) (b : Bool) (x y : ℕ)
    → (if b then f x else f y) ≡ f (if b then x else y)
if-ap f true x y = refl
if-ap f false x y = refl

module _ (lua : Lua) where
  -- Below 2 ^ 53 the script computes it exactly.
  bump-next_number :
      (now last : ℕ)
      → now ≤ 2 ^ 53
      → last < 2 ^ 53
      → bump lua (lua.of_nat now) (lua.of_nat last) ≡ lua.of_nat (next_number now last)
  unfolding bump
  bump-next_number now last small below =
      rw (lua.at_least-of_nat last now (omega arith) small)
        (rw (lua.add_one-of_nat last below) (if-ap lua.of_nat (leb now last) (last + 1) now))

-- The nonces that a history gave to one client.
abbrev pub nonces_of : Text → List (Text × ℕ) → List ℕ
nonces_of client_id [] = []
nonces_of client_id ((c, n) ∷ given) =
    if text_eq c client_id then n ∷ nonces_of client_id given else nonces_of client_id given

-- Every number is above those before it, and above `low`.
abbrev pub IsRising : ℕ → List ℕ → Type 0
IsRising low [] = Unit
IsRising low (n ∷ ns) = (low < n) × IsRising n ns

nonce_key-injective : (a b : Text) → text_eq (nonce_key a) (nonce_key b) ≡ text_eq a b
unfolding text_eq
nonce_key-injective a b = refl

module _ (r : Redis) where
  -- What Redis holds for the client's nonce is a number, `top` if there is one.
  abbrev pub HasTop : Text → ℕ → r.State → Type 0
  HasTop client_id top s =
      ((r.get (nonce_key client_id) s ≡ none) × (top ≡ 0))
      ⊎ (r.get (nonce_key client_id) s ≡ some (encode (decimal top)))

  -- Every client's entry is a number.
  abbrev pub HasTops : (Text → ℕ) → r.State → Type 0
  HasTops top s = (client_id : Text) → HasTop client_id (top client_id) s

  stored_number :
      (client_id : Text) (top : ℕ) (s : r.State)
      → HasTop client_id top s
      → value_or_zero (r.get (nonce_key client_id) s) ≡ encode (decimal top)
  stored_number client_id top s (inl (missing, zero')) =
      rw (missing, zero') (unfold decimal encode in refl)
  stored_number client_id top s (inr found) = rw found refl

  pub next_nonce_lem :
      (client_id : Text) (now top : ℕ) (s : r.State)
      → HasTop client_id top s
      → now ≤ 2 ^ 53
      → top < 2 ^ 53
      → next_kvenc_nonce r client_id now s ≡ (
        ok (next_number now top),
        r.set (nonce_key client_id) (encode (decimal (next_number now top))) s,
      )
  unfolding next_kvenc_nonce lua_number
  next_nonce_lem client_id now top s h small below =
      let n = next_number now top in
      let fits : n ≤ 2 ^ 53 = ground (arith, small, below) in
      rw (stored_number client_id top s h) (
        rw (r.lua.tonumber-decimal now small) (
          rw (r.lua.tonumber-decimal top (omega (arith, below))) (
            rw (bump-next_number r.lua now top small below)
              (rw (r.lua.text_of-of_nat n fits) (rw (r.lua.reply-of_nat n fits) refl)))))

  next_number-gt : (now top : ℕ) → top < next_number now top
  next_number-gt now top = ground arith

  -- The tops after an allocation.
  abbrev raised : (Text → ℕ) → Text → ℕ → Text → ℕ
  raised top client_id n c = if text_eq client_id c then n else top c

  raised-HasTops :
      (top : Text → ℕ) (client_id : Text) (n : ℕ) (s : r.State)
      → HasTops top s
      → HasTops (raised top client_id n) (r.set (nonce_key client_id) (encode (decimal n)) s)
  raised-HasTops top client_id n s h c =
      let law = r.get-set (nonce_key client_id) (nonce_key c) (encode (decimal n)) s in
      elim (Bool-cases (text_eq client_id c)) [
        | inl same ↦ rw same (inr (law ∙ rw (nonce_key-injective client_id c, same) refl))
        | inr other ↦
            let frame : r.get (nonce_key c) (r.set (nonce_key client_id) (encode (decimal n)) s)
                ≡ r.get (nonce_key c) s =
              law ∙ rw (nonce_key-injective client_id c, other) refl in
            rw (other, frame) (h c)
      ]

  allocate_all-cons :
      (c : Text) (n now : ℕ) (history given : List (Text × ℕ)) (s s' : r.State)
      → next_kvenc_nonce r c now s ≡ (ok n, s')
      → (allocate_all r history s').0 ≡ ok given
      → (allocate_all r ((c, now) ∷ history) s).0 ≡ ok ((c, n) ∷ given)
  unfolding allocate_all
  allocate_all-cons c n now history given s s' h e = rw h (rw e refl)

  IsRising-cons :
      (top : Text → ℕ) (client_id c : Text) (n : ℕ) (given : List (Text × ℕ))
      → top c < n
      → IsRising (raised top c n client_id) (nonces_of client_id given)
      → IsRising (top client_id) (nonces_of client_id ((c, n) ∷ given))
  IsRising-cons top client_id c n given h rising = elim (Bool-cases (text_eq c client_id)) [
    | inl same ↦
        let e : top client_id ≡ top c = ap top (sym ((text_eq_iff c client_id).0 same)) in
        rw same (omega (arith, e), rw same at rising)
    | inr other ↦ rw other (rw other at rising)
  ]

  -- The clock is below 2 ^ 53 at every allocation, with `room` to spare.
  abbrev pub HasRoom : ℕ → List (Text × ℕ) → Type 0
  HasRoom room history = All (λ ask. ask.1 + room ≤ 2 ^ 53) history

  next_number-fits :
      (now top room left : ℕ)
      → now + room ≤ 2 ^ 53
      → left ≤ room
      → top + (left + 1) ≤ 2 ^ 53
      → next_number now top + left ≤ 2 ^ 53
  next_number-fits now top room left h k l = ground (arith, h, k, l)

  raised-fits :
      (top : Text → ℕ) (c : Text) (n left : ℕ)
      → n + left ≤ 2 ^ 53
      → ((d : Text) → top d + (left + 1) ≤ 2 ^ 53)
      → (d : Text) → raised top c n d + left ≤ 2 ^ 53
  raised-fits top c n left h k d = elim (Bool-cases (text_eq c d)) [
    | inl same ↦ rw same h
    | inr other ↦ rw other (omega (arith, k d))
  ]

  allocate_all-IsRising :
      (room : ℕ) (history : List (Text × ℕ)) (top : Text → ℕ) (s : r.State) (client_id : Text)
      → HasTops top s
      → HasRoom room history
      → length history ≤ room
      → ((c : Text) → top c + length history ≤ 2 ^ 53)
      → (given : List (Text × ℕ)) × ((allocate_all r history s).0 ≡ ok given)
        × IsRising (top client_id) (nonces_of client_id given)
  allocate_all-IsRising room [] top s client_id h early few low =
      ([], unfold allocate_all in refl, tt)
  allocate_all-IsRising room ((c, now) ∷ history) top s client_id h (early, rest) few low =
      let left = length history in
      let n = next_number now (top c) in
      let s' = r.set (nonce_key c) (encode (decimal n)) s in
      let l : top c + (left + 1) ≤ 2 ^ 53 = omega (arith, low c) in
      let fits = next_number-fits now (top c) room left early (omega (arith, few)) l in
      let step = next_nonce_lem c now (top c) s (h c) (omega (arith, early)) (omega (arith, l)) in
      let (given, e, rising) =
        allocate_all-IsRising room history (raised top c n) s' client_id
          (raised-HasTops top c n s h) rest (omega (arith, few))
          (raised-fits top c n left fits (λ d. omega (arith, low d))) in
      (
        (c, n) ∷ given,
        allocate_all-cons c n now history given s s' step e,
        IsRising-cons top client_id c n given (next_number-gt now (top c)) rising,
      )

  -- From a state whose nonce entries are natural numbers, any history of allocations succeeds, and
  -- each client's nonces rise from its entry on, whatever order the clock takes: as long as every
  -- clock reading and every entry, plus the number of allocations, is at most 2 ^ 53, up to where
  -- the doubles of the Lua script are exact.
  pub nonces_IsRising :
      (history : List (Text × ℕ)) (top : Text → ℕ) (s : r.State) (client_id : Text)
      → HasTops top s
      → HasRoom (length history) history
      → ((c : Text) → top c + length history ≤ 2 ^ 53)
      → (given : List (Text × ℕ)) × ((allocate_all r history s).0 ≡ ok given)
        × IsRising (top client_id) (nonces_of client_id given)
  nonces_IsRising history top s client_id h early low =
      allocate_all-IsRising (length history) history top s client_id h early (omega arith) low
