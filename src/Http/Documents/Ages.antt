-- ===== src/Http/Documents/Ages.antt =====
-- Times and ages (nilIfZero and agoInt in internal/httpapi/dto.go).
use statehouse.Prelude.{
  ℕ, ◌+◌, ◌-◌, ◌*◌, ◌/◌, ◌^◌, ◌≤◌, ◌<◌, false, ◌≡◌, arith, Option, some, none, ltb, leb, ◌==◌, ℤ,
  pos, negsuc, if◌then◌else◌,
}
use statehouse.Time.{Time, is_zero, elapsed, elapsed_exact}

unfoldable pub nil_if_zero : Time → Option Time
nil_if_zero t = if is_zero t then none else some t

-- The sum of an int64 and `n`, which wraps around.
unfoldable pub add_int64 : ℤ → ℕ → ℤ
add_int64 (pos m) n = if ltb (m + n) (2 ^ 63) then pos (m + n) else negsuc (2 ^ 64 - (m + n) - 1)
add_int64 (negsuc m) n = if leb (m + 1) n then pos (n - (m + 1)) else negsuc (m - n)

abbrev negated : ℕ → ℤ
negated n = if n == 0 then pos 0 else negsuc (n - 1)

-- Go's division, which cuts off toward zero.
unfoldable pub quotient : ℤ → ℕ → ℤ
quotient (pos m) n = pos (m / n)
quotient (negsuc m) n = negated ((m + 1) / n)

unfoldable pub ago_int : Time → Time → Option ℤ
unfolding add_int64 quotient
ago_int t now =
    if is_zero t
    then none
    else some (quotient (add_int64 (elapsed now t) 500_000_000) 1_000_000_000)

-- The age of a time that is not in the future, and not more than 292 years old, is its distance in
-- seconds, rounded to the nearest whole number, half a second upward.
pub ago_int_nearest :
    (t now : Time)
    → is_zero t ≡ false
    → t ≤ now
    → now - t + 500_000_000 < 2 ^ 63
    → (v : ℕ) × (ago_int t now ≡ some (pos v))
      × (v * 1_000_000_000 ≤ now - t + 500_000_000)
      × (now - t + 500_000_000 < (v + 1) * 1_000_000_000)
unfolding ago_int add_int64 quotient
ago_int_nearest t now h k n = (
  (now - t + 500_000_000) / 1_000_000_000,
  rw (h, elapsed_exact now t k (omega arith)) (ground arith),
  omega arith,
  omega arith,
)
