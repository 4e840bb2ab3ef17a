-- ===== src/Time.antt =====
-- Go's time.Time and time.Duration, as far as the program uses them.
-- An instant is the number of nanoseconds since Go's zero time (1 January of year 1), so 0 is the
-- value for which `IsZero` holds, and earlier instants are not represented. A duration is an
-- integer of nanoseconds, and `Sub` saturates at the ends of int64 as documented.
use statehouse.Prelude.{
  ℕ, ◌-◌, ◌^◌, ◌≤◌, ◌<◌, ◌*◌, min, ◌≡◌, Bool, not, leb, ltb, ◌==◌, if◌then◌else◌, ℤ, pos, negsuc,
  leb_ℤ, ◌≤ℤ◌, arith,
}

abbrev pub Time : Type 0
Time = ℕ

abbrev pub Duration : Type 0
Duration = ℤ

abbrev pub is_zero : Time → Bool
is_zero t = t == 0

abbrev pub after : Time → Time → Bool
after t u = ltb u t

-- `t.Sub(u)`
unfoldable pub elapsed : Time → Time → Duration
elapsed t u =
    if leb u t then pos (min (t - u) (2 ^ 63 - 1)) else negsuc (min (u - t - 1) (2 ^ 63 - 1))

-- The duration is positive exactly if the first instant is later.
pub elapsed_pos : (t u : Time) → leb_ℤ (elapsed t u) (pos 0) ≡ not (after t u)
unfolding elapsed
elapsed_pos t u = ground arith

-- A later instant has no smaller distance.
pub elapsed-mono : (t t' u : Time) → t ≤ t' → elapsed t u ≤ℤ elapsed t' u
unfolding elapsed
elapsed-mono t t' u h = ground arith

-- Below 2 ^ 63 nanoseconds (292 years) nothing saturates.
pub elapsed_exact : (t u : Time) → u ≤ t → t - u < 2 ^ 63 → elapsed t u ≡ pos (t - u)
unfolding elapsed
elapsed_exact t u h k = ground arith

abbrev pub minutes : ℕ → Duration
minutes n = pos (n * 60_000_000_000)
