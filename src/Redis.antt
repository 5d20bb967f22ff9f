-- ===== src/Redis.antt =====
-- The Redis commands that the program calls, as operations on an abstract state with the laws that
-- Redis documents. Redis is a service: it is a parameter of the model. Expiry of keys by the passing
-- of time is left to the environment, so EXPIRE changes nothing that a law speaks of.
pub mod Streams
pub mod Interpreter
pub mod Memory
use stra2us.Prelude.{
  ℕ, ◌+◌, ◌^◌, ◌≤◌, ◌<◌, leb, Text, Bytes, Bool, true, false, List, [], ◌∷◌, ◌++◌, Option, none,
  some, ◌≡◌, text_eq, if◌then◌else◌, All,
}
use stra2us.Builtins.{decimal, encode}

-- One entry of a stream: its id and its fields.
pub record Entry : Type 0 where
  pub id : Text
  pub fields : List (Text × Bytes)

-- Every entry is later than those before it.
abbrev pub IsIncreasing : (Text → Text → Bool) → List Entry → Type 0
IsIncreasing later [] = Unit
IsIncreasing later (e ∷ es) = All (λ x. later e.id x.id ≡ true) es × IsIncreasing later es

-- The numbers of the Lua interpreter in which Redis runs scripts. They are doubles, so that the laws
-- stop at 2 ^ 53: up to there, integers are exact.
pub record Lua : Type 1 where
  pub Number : Type 0
  pub of_nat : ℕ → Number
  -- `tonumber(text)`: `none` for nil
  pub tonumber : Bytes → Option Number
  -- `a >= b`
  pub at_least : Number → Number → Bool
  -- `a + 1`
  pub add_one : Number → Number
  -- what SET stores of a number that is its argument
  pub text_of : Number → Bytes
  -- the integer in which EVAL returns a number that is not negative
  pub reply : Number → ℕ
  pub tonumber-decimal : (n : ℕ) → n ≤ 2 ^ 53 → tonumber (encode (decimal n)) ≡ some (of_nat n)
  pub at_least-of_nat :
      (m n : ℕ) → m ≤ 2 ^ 53 → n ≤ 2 ^ 53 → at_least (of_nat m) (of_nat n) ≡ leb n m
  pub add_one-of_nat : (n : ℕ) → n < 2 ^ 53 → add_one (of_nat n) ≡ of_nat (n + 1)
  pub text_of-of_nat : (n : ℕ) → n ≤ 2 ^ 53 → text_of (of_nat n) ≡ encode (decimal n)
  pub reply-of_nat : (n : ℕ) → n ≤ 2 ^ 53 → reply (of_nat n) ≡ n

pub record Redis : Type 1 where
  pub State : Type 0
  -- the interpreter of EVAL
  pub lua : Lua
  -- GET, SET, DEL, EXISTS of one key
  pub get : Text → State → Option Bytes
  pub set : Text → Bytes → State → State
  pub delete : Text → State → State
  pub exists : Text → State → Bool
  -- XRANGE key - +: all entries of a stream, none if the key is missing
  pub entries : Text → State → List Entry
  -- the id that XADD key * gives
  pub next_id : Text → State → Text
  pub xadd : Text → List (Text × Bytes) → State → State
  -- XADD with an id of the caller's: `none` where Redis refuses the id
  pub xadd_at : Text → Entry → State → Option State
  pub expire : Text → ℕ → State → State
  -- `later a b`: the id `b` comes after `a`
  pub later : Text → Text → Bool
  pub later_trans : (a b c : Text) → later a b ≡ true → later b c ≡ true → later a c ≡ true
  pub later_asym : (a b : Text) → later a b ≡ true → later b a ≡ false
  pub increasing : (k : Text) (s : State) → IsIncreasing later (entries k s)
  pub get-set :
      (k j : Text) (v : Bytes) (s : State)
      → get j (set k v s) ≡ (if text_eq k j then some v else get j s)
  pub get-delete :
      (k j : Text) (s : State) → get j (delete k s) ≡ (if text_eq k j then none else get j s)
  pub get-xadd : (k j : Text) (fs : List (Text × Bytes)) (s : State) → get j (xadd k fs s) ≡ get j s
  pub get-xadd_at :
      (k j : Text) (e : Entry) (s t : State) → xadd_at k e s ≡ some t → get j t ≡ get j s
  pub get-expire : (k j : Text) (n : ℕ) (s : State) → get j (expire k n s) ≡ get j s
  pub entries-set :
      (k j : Text) (v : Bytes) (s : State)
      → entries j (set k v s) ≡ (if text_eq k j then [] else entries j s)
  pub entries-delete :
      (k j : Text) (s : State) → entries j (delete k s) ≡ (if text_eq k j then [] else entries j s)
  pub entries-xadd :
      (k j : Text) (fs : List (Text × Bytes)) (s : State)
      → entries j (xadd k fs s) ≡ (
          if text_eq k j
          then entries k s ++ record { id = next_id k s; fields = fs } ∷ []
          else entries j s)
  pub entries-xadd_at :
      (k j : Text) (e : Entry) (s t : State)
      → xadd_at k e s ≡ some t
      → entries j t ≡ (if text_eq k j then entries k s ++ e ∷ [] else entries j s)
  -- an id later than all that the stream holds is accepted
  pub xadd_at_accepts :
      (k : Text) (e : Entry) (s : State)
      → All (λ x. later x.id e.id ≡ true) (entries k s)
      → (t : State) × (xadd_at k e s ≡ some t)
  pub entries-expire : (k j : Text) (n : ℕ) (s : State) → entries j (expire k n s) ≡ entries j s
  pub exists_of_get : (k : Text) (s : State) → exists k s ≡ false → get k s ≡ none
  pub exists_of_entries : (k : Text) (s : State) → exists k s ≡ false → entries k s ≡ []
  pub exists-set :
      (k j : Text) (v : Bytes) (s : State)
      → exists j (set k v s) ≡ (if text_eq k j then true else exists j s)
  pub exists-delete :
      (k j : Text) (s : State) → exists j (delete k s) ≡ (if text_eq k j then false else exists j s)
  pub exists-xadd_at :
      (k j : Text) (e : Entry) (s t : State)
      → xadd_at k e s ≡ some t
      → exists j t ≡ (if text_eq k j then true else exists j s)
