-- ===== src/Session/Passwords.antt =====
-- The htpasswd file of backend/src/core/admin_auth.py. A file is its lines,
-- `none` where there is none; `sha256` is a parameter.
use stra2us.Prelude.{
  ℕ, Text, Bytes, codes, Bool, false, List, [], ◌∷◌, ◌++◌, Option, none, some, ◌==◌, text_eq,
  starts_with, if◌then◌else◌,
}
use stra2us.Result.{Result, ok}
use stra2us.Builtins.{encode, hexdigest, compare_digest, strip}

-- `s.split(sep, 1)` on a separator of one character: what stands before it and behind it.
unfoldable pub cut : ℕ → Text → Option (Text × Text)
cut sep [] = none
cut sep (c ∷ s) =
    let rest = cut sep s in
    if c == sep
    then some ([], s)
    else elim rest [ none ↦ none | some (before, behind) ↦ some (c ∷ before, behind) ]

module _ (sha256 : Bytes → Bytes) where
  -- The stored form `salt$hash` of a password.
  unfoldable pub check_hash : Text → Text → Result Bool
  unfolding cut
  check_hash stored_hash password = elim (cut b'$' stored_hash) [
    | none ↦ ok false
    | some (salt, expected_hash) ↦
        compare_digest expected_hash (hexdigest (sha256 (encode (salt ++ password))))
  ]

  -- The loop over the lines of the file.
  unfoldable pub verify_lines : Text → Text → List Text → Result Bool
  unfolding cut check_hash
  verify_lines username password [] = ok false
  verify_lines username password (line ∷ lines) =
      let rest = verify_lines username password lines in
      elim (cut b':' (strip line)) [
        | none ↦ rest
        | some (uname, stored_hash) ↦
            if text_eq uname username then check_hash stored_hash password else rest
      ]

  unfoldable pub verify_password : Option (List Text) → Text → Text → Result Bool
  unfolding verify_lines
  verify_password none username password = ok false
  verify_password (some lines) username password = verify_lines username password lines

-- _find_user_line
unfoldable pub find_user_line : Text → List Text → Option Text
find_user_line user [] = none
find_user_line user (line ∷ lines) =
    let rest = find_user_line user lines in
    if starts_with (user ++ codes ":") (strip line) then some (strip line) else rest

abbrev pub user_line : Option (List Text) → Option Text
user_line none = none
user_line (some lines) = find_user_line (codes "rescue") lines

abbrev pub same_line : Option Text → Option Text → Bool
same_line (some live) (some default) = text_eq live default
same_line _ _ = false

unfoldable pub is_rescue_on_default : Option (List Text) → Option (List Text) → Bool
unfolding find_user_line
is_rescue_on_default live default = same_line (user_line live) (user_line default)
