-- ===== src/Page/Values.antt =====
-- backend/src/services/value_resolver.py: the value of a variable that the form of a device shows.
-- `unpackb` is msgpack's, `none` where it raises, and `repr` gives the text of any other object.
use stra2us.Prelude.{Text, Bytes, codes, Bool, true, false, List, ◌++◌, Option, none, some}
use stra2us.Builtins.{str_int}
use stra2us.Value.{Value, null, bool, int, float, str, find}
use stra2us.Redis.{Redis}
use stra2us.Device.{kv_key, enc_key, stored, is_some}
pub mod Writes

pub record ResolvedValue : Type 0 where
  pub value : Option Text
  pub encrypted : Bool
  pub from_default : Bool

-- `v is not None`, of what a dict or a decoder returned.
unfoldable pub not_none : Option Value → Option Value
not_none none = none
not_none (some null) = none
not_none (some v) = some v

abbrev pub flag_text : Bool → Text
flag_text true = codes "true"
flag_text false = codes "false"

module _ (repr : Value → Text) where
  unfoldable pub to_form_string : Value → Text
  to_form_string (bool b) = flag_text b
  to_form_string (int z) = str_int z
  to_form_string (float t) = t
  to_form_string (str s) = s
  to_form_string v = repr v

  abbrev pub default_value : Option Value → ResolvedValue
  default_value none = record { value = none; encrypted = false; from_default = false }
  default_value (some v) = record {
    value = some (to_form_string v);
    encrypted = false;
    from_default = true;
  }

  module _ (unpackb : Bytes → Option Value) (r : Redis) where
    -- The decoded value, and whether the record is encrypted.
    unfoldable pub read_record : Text → r.State → Option Value × Bool
    unfolding not_none
    read_record key s = elim (r.get (kv_key key) s) [
      | none ↦ (none, false)
      | some raw ↦ (not_none (unpackb raw), is_some (stored (r.get (enc_key key) s)))
    ]

    abbrev pub found_or : Option Value × Bool → ResolvedValue → ResolvedValue
    found_or (none, _) next = next
    found_or (some v, encrypted) next = record {
      value = some (to_form_string v);
      encrypted = encrypted;
      from_default = false;
    }

    -- `var` is the dict of the variable.
    unfoldable pub resolve_value :
        Text → Text → Text → List (Text × Value) → r.State → ResolvedValue
    unfolding read_record not_none
    resolve_value app device var_name var s =
        found_or (read_record (app ++ codes "/" ++ device ++ codes "/" ++ var_name) s) (
          found_or (read_record (app ++ codes "/public/" ++ var_name) s)
            (default_value (not_none (find (codes "default") var))))
