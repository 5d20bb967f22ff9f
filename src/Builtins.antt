-- ===== src/Builtins.antt =====
-- The parts of Python's standard library that the program calls: integers and their decimal texts,
-- hexadecimal, UTF-8, and the constant-time comparison.
pub mod Numbers
pub mod Decimal
pub mod Hex
pub mod Utf8
pub mod Base64
unfoldable pub use Numbers.{decimal, str_int, parse_int, strip, is_space, lower}
unfoldable pub use Hex.{fromhex, hexdigest}
unfoldable pub use Utf8.{encode, decode}
unfoldable pub use Base64.{b64encode, b64decode}
use stra2us.Prelude.{Text, Bool, all, ltb, ◌&&◌, text_eq, if◌then◌else◌}
use stra2us.Result.{Result, ok, err, fault}

-- `hmac.compare_digest(a, b)` on two texts: it raises unless both are ASCII.
unfoldable pub compare_digest : Text → Text → Result Bool
compare_digest a b =
    if all (λ c. ltb c 128) a && all (λ c. ltb c 128) b then ok (text_eq a b) else err fault
