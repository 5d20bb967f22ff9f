-- ===== src/Session.antt =====
-- The session tokens of backend/src/core/admin_auth.py. `loads` and `dumps` are json's, `hmac` is
-- HMAC-SHA256, `session_secret` is SESSION_SECRET, `repr` and `truncate` give the texts of containers
-- and the integers of floats.
pub mod Lifetime
pub mod Passwords
mod Tests
use stra2us.Prelude.{
  ℕ, ◌+◌, Text, Bytes, codes, Bool, true, false, List, [], ◌∷◌, ◌++◌, Option, none, some, not, ◌&&◌,
  ℤ, pos, leℤ, text_eq, if◌then◌else◌,
}
use stra2us.Result.{Result, ok, err, fault, guard, ◌>>=◌, ◌>>◌}
use stra2us.Builtins.{
  b64encode, b64decode, decimal, encode, decode, hexdigest, parse_int, compare_digest,
}
use stra2us.Value.{Value, str, int, bool, float, obj, field, end, get}
use stra2us.Device.{or_raise}
use stra2us.Backup.{or_none, str_of, truthy}

abbrev pub token_dict : Text → ℕ → Text → Value
token_dict username exp signature = obj (
    field (codes "u") (str username)
      (field (codes "e") (int (pos exp)) (field (codes "s") (str signature) end)))

abbrev pub int_of_bool : Bool → ℤ
int_of_bool true = pos 1
int_of_bool false = pos 0

-- `int(v)`
unfoldable pub int_of_value : (Text → Option ℤ) → Value → Result ℤ
int_of_value truncate (int z) = ok z
int_of_value truncate (bool b) = ok (int_of_bool b)
int_of_value truncate (str t) = or_raise fault (parse_int t)
int_of_value truncate (float t) = or_raise fault (truncate t)
int_of_value truncate _ = err fault

-- compare_digest of a text and a value that JSON gave.
unfoldable pub compare_value : Text → Value → Result Bool
compare_value a (str b) = compare_digest a b
compare_value a _ = err fault

-- `except Exception: return None`
abbrev pub or_no_user : Result Value → Option Value
or_no_user (ok v) = some v
or_no_user (err _) = none

module _ (hmac : Bytes → Bytes → Bytes) (session_secret : Text) where
  unfoldable pub session_signature : Text → Text
  session_signature payload = hexdigest (hmac (encode session_secret) (encode payload))

  -- `int(time.time()) + 24 * 3600`
  unfoldable pub generate_session_token : (Value → Text) → ℕ → Text → Text
  unfolding session_signature
  generate_session_token dumps now username =
      let exp = now + 86400 in
      b64encode (
        encode (
          dumps
            (token_dict username exp (session_signature (username ++ codes ":" ++ decimal exp)))))

  module _ (loads : Bytes → Option Value) (repr : Value → Text) (truncate : Text → Option ℤ) where
    -- The checks on the dict of a token; a token that fails one names no user.
    unfoldable pub check_token : ℕ → Value → Result Value
    unfolding session_signature
    check_token now token_dict' = do
      u ← get (codes "u") token_dict'
      e ← get (codes "e") token_dict'
      s ← get (codes "s") token_dict'
      let username = or_none u
      let exp = or_none e
      guard (truthy username && truthy exp && truthy (or_none s)) fault
      until ← int_of_value truncate exp
      guard (leℤ (pos now) until) fault
      same ←
          compare_value (session_signature (str_of repr username ++ codes ":" ++ str_of repr exp))
            (or_none s)
      guard same fault
      ok username

    unfoldable pub verify_session_token : ℕ → Text → Option Value
    unfolding check_token
    verify_session_token now token = or_no_user (do
      bytes ← or_raise fault (b64decode token)
      _ ← or_raise fault (decode bytes)
      token_dict' ← or_raise fault (loads bytes)
      check_token now token_dict')
