-- ===== src/Fixtures.antt =====
-- Concrete libraries, clients and requests, for the examples.
use stra2us.Prelude.{arith, Text, Bytes, codes, [], ◌∷◌, Option, none, some, ◌≡◌, refl, length}
use stra2us.Value.{Value, str, bin, arr, obj, cons, nil, field, end}
use stra2us.Security.Signatures.{IsBytes}
use stra2us.Device.{Libraries, Request, Context}

-- A digest of 32 bytes.
abbrev pub digest : Bytes → Bytes → Bytes
digest _ _ =
    1 ∷ 2 ∷ 3 ∷ 4 ∷ 5 ∷ 6 ∷ 7 ∷ 8 ∷ 9 ∷ 10 ∷ 11 ∷ 12 ∷ 13 ∷ 14 ∷ 15 ∷ 16 ∷ 17 ∷ 18 ∷ 19 ∷ 20 ∷ 21
    ∷ 22 ∷ 23 ∷ 24 ∷ 25 ∷ 26 ∷ 27 ∷ 28 ∷ 29 ∷ 30 ∷ 31 ∷ 255 ∷ []

pub length-digest : (k m : Bytes) → length (digest k m) ≡ 32
length-digest k m = refl

pub digest-IsBytes : (k m : Bytes) → IsBytes (digest k m)
digest-IsBytes k m = ground arith

-- Texts and binaries with a leading tag.
abbrev pub packb : Value → Bytes
packb (str s) = 0xd9 ∷ s
packb (bin b) = 0xc4 ∷ b
packb _ = 0x80 ∷ []

abbrev pub unpackb : Bytes → Option Value
unpackb (b ∷ bs) = some (str bs)
unpackb [] = none

abbrev pub secret_hex : Text
secret_hex = codes "00ff"

abbrev pub reader_acl : Value
reader_acl = obj (
    field (codes "permissions")
      (arr (
        cons
          (obj (
            field (codes "prefix") (str (codes "app"))
              (field (codes "access") (str (codes "rw")) end)))
          nil))
      end)

abbrev pub libraries : Libraries
libraries = record {
  hmac = digest;
  packb = packb;
  unpackb = unpackb;
  unpackb_raw = unpackb;
  loads = λ _. some reader_acl;
}

abbrev pub client : Context
client = record { client_id = codes "dev"; secret_hex = secret_hex; acl = reader_acl }

-- A request with this body, and the header X-Encrypted or not.
abbrev pub request_of : Bytes → Option Text → Request
request_of body x_encrypted = record {
  path = codes "/kv/app/x";
  body = body;
  content_type = codes "text/plain";
  x_encrypted = x_encrypted;
}
