-- ===== src/Value.antt =====
-- The Python objects that JSON and MessagePack decode to. A list or a dict holds its items in a list
-- type of its own; the keys of a dict are texts, in insertion order. A float is its `repr`.
use stra2us.Prelude.{
  ℕ, Text, Bytes, Bool, false, List, [], ◌∷◌, Option, none, some, text_eq, if◌then◌else◌, ℤ, pos,
}
use stra2us.Result.{Result, ok, err, fault}

mutual
  pub data Value : Type 0 where
    null : Value
    bool : Bool → Value
    int : ℤ → Value
    float : Text → Value
    str : Text → Value
    bin : Bytes → Value
    ext : ℕ → Bytes → Value
    arr : Values → Value
    obj : Fields → Value

  pub data Values : Type 0 where
    nil : Values
    cons : Value → Values → Values

  pub data Fields : Type 0 where
    end : Fields
    field : Text → Value → Fields → Fields

abbrev pub elems : Values → List Value
elems nil = []
elems (cons v vs) = v ∷ elems vs

abbrev pub array : List Value → Values
array [] = nil
array (v ∷ vs) = cons v (array vs)

abbrev pub items : Fields → List (Text × Value)
items end = []
items (field k v fs) = (k, v) ∷ items fs

abbrev pub object : List (Text × Value) → Fields
object [] = end
object ((k, v) ∷ kvs) = field k v (object kvs)

-- `d.get(k)` of a dict
abbrev pub find : Text → List (Text × Value) → Option Value
find k [] = none
find k ((j, v) ∷ kvs) = if text_eq j k then some v else find k kvs

-- `v.get(k)`: an object that is no dict has no such method.
unfoldable pub get : Text → Value → Result (Option Value)
get k (obj fs) = ok (find k (items fs))
get k _ = err fault

-- `v == "..."`
abbrev pub is_text : Text → Option Value → Bool
is_text t (some (str s)) = text_eq s t
is_text t _ = false

abbrev pub keys : List (Text × Value) → List Value
keys [] = []
keys ((k, _) ∷ kvs) = str k ∷ keys kvs

abbrev pub chars : Text → List Value
chars [] = []
chars (c ∷ s) = str (c ∷ []) ∷ chars s

abbrev pub octets : Bytes → List Value
octets [] = []
octets (b ∷ bs) = int (pos b) ∷ octets bs

-- The items that `for x in v` goes through.
unfoldable pub iterate : Value → Result (List Value)
iterate (arr vs) = ok (elems vs)
iterate (obj fs) = ok (keys (items fs))
iterate (str s) = ok (chars s)
iterate (bin b) = ok (octets b)
iterate _ = err fault
