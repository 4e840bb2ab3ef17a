-- ===== src/Adapter/Validate.antt =====
-- Plausible values and identifiers (internal/adapter/validate/validate.go). A pattern with a range of
-- repetitions of one class of bytes is a test of the length and of every byte.
use statehouse.Prelude.{
  ℕ, Float64, Num, is_nan, is_inf, ◌≤f◌, Bool, not, ◌&&◌, ◌||◌, leb, ◌==◌, length, Str,
}
use statehouse.Strings.{all_bytes}

abbrev pub is_alphanumeric : ℕ → Bool
is_alphanumeric c =
    (leb b'a' c && leb c b'z') || (leb b'A' c && leb c b'Z') || (leb b'0' c && leb c b'9')

abbrev pub repeats : ℕ → ℕ → (ℕ → Bool) → Str → Bool
repeats least most p s = leb least (length s) && leb (length s) most && all_bytes p s

abbrev pub is_identifier_byte : ℕ → Bool
is_identifier_byte c = is_alphanumeric c || c == b'_' || c == b'-'

unfoldable pub identifier : Str → Bool
identifier s = repeats 1 64 is_identifier_byte s

abbrev pub is_hex_byte : ℕ → Bool
is_hex_byte c =
    (leb b'0' c && leb c b'9') || (leb b'A' c && leb c b'F') || (leb b'a' c && leb c b'f')

unfoldable pub hex_identifier : Str → Bool
hex_identifier s = repeats 6 32 is_hex_byte s

module _ ⦃fl : Float64⦄ where
  unfoldable pub finite_in_range : Num → Num → Num → Bool
  finite_in_range v lo hi = not (is_nan v) && not (is_inf v) && lo ≤f v && v ≤f hi
