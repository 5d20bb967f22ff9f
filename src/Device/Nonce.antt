-- ===== src/Device/Nonce.antt =====
-- next_kvenc_nonce and its Lua script in backend/src/api/routes_device.py. The script runs
-- atomically in Redis, so that allocations come one after another whichever worker asks.
pub mod Increasing
use stra2us.Prelude.{ℕ, Text, Bytes, codes, List, [], ◌∷◌, ◌++◌, Option, none, some, if◌then◌else◌}
use stra2us.Result.{Failure, Result, ok, err, fault}
use stra2us.Builtins.{decimal, encode}
use stra2us.Redis.{Redis, Lua}
use stra2us.Exec.{Exec, pure, lift, gets, modify, ◌>>=◌, ◌>>◌}
use stra2us.Device.{or_raise}

abbrev pub nonce_key : Text → Text
nonce_key client_id = codes "kvenc:nonce:" ++ client_id

-- `redis.call('GET', key) or '0'`
abbrev pub value_or_zero : Option Bytes → Bytes
value_or_zero none = codes "0"
value_or_zero (some bytes) = bytes

-- The numbers of the script: those of the Lua interpreter, which are doubles.
module _ (lua : Lua) where
  -- `tonumber(...)`; a comparison with nil raises.
  unfoldable pub lua_number : Bytes → Result lua.Number
  lua_number text = or_raise fault (lua.tonumber text)

  -- `if last >= now then now = last + 1 end`
  unfoldable pub bump : lua.Number → lua.Number → lua.Number
  bump now last = if lua.at_least last now then lua.add_one last else now

module _ (r : Redis) where
  -- The reply is `int(nonce)`; it is not below the clock.
  unfoldable pub next_kvenc_nonce : Text → ℕ → Exec r.State ℕ
  unfolding lua_number bump
  next_kvenc_nonce client_id clock = do
    value ← gets (r.get (nonce_key client_id))
    now ← lift (lua_number r.lua (encode (decimal clock)))
    last ← lift (lua_number r.lua (value_or_zero value))
    modify (r.set (nonce_key client_id) (r.lua.text_of (bump r.lua now last)))
    pure (r.lua.reply (bump r.lua now last))

  -- A history of allocations: who asks, and what the clock says then.
  unfoldable pub allocate_all : List (Text × ℕ) → Exec r.State (List (Text × ℕ))
  allocate_all [] = pure []
  allocate_all ((client_id, now) ∷ rest) = do
    nonce ← next_kvenc_nonce client_id now
    later ← allocate_all rest
    pure ((client_id, nonce) ∷ later)
