-- ===== src/Energy/Integration/Intervals.antt =====
-- The integrator against a description by intervals (internal/energy/integration.go).
use statehouse.Prelude.{
  Float64, Num, ◌+f◌, constant, some, Bool, not, ◌&&◌, ◌≡◌, refl, arith, List, [], ◌∷◌, foldl, map,
  keep, length, ◌+◌, leb_ℤ, ltb_ℤ, pos,
}
use statehouse.Time.{Time, Duration, elapsed}
use statehouse.Energy.Integration.{Integrator, new_integrator, update, trapezoid}

module _ ⦃fl : Float64⦄ where
  abbrev pub Sample : Type 0
  Sample = Time × Num

  -- Two neighbouring samples.
  abbrev pub Interval : Type 0
  Interval = Sample × Sample

  abbrev pub intervals : Sample → List Sample → List Interval
  intervals s [] = []
  intervals s (s' ∷ ss) = (s, s') ∷ intervals s' ss

  abbrev pub width : Interval → Duration
  width ((t, _), (t', _)) = elapsed t' t

  -- Forward in time.
  abbrev pub is_forward : Interval → Bool
  is_forward v = not (leb_ℤ (width v) (pos 0))

  -- Longer than a gap limit that is set.
  abbrev pub is_gap : Duration → Interval → Bool
  is_gap max_gap v = ltb_ℤ (pos 0) max_gap && ltb_ℤ max_gap (width v)

  abbrev pub area : Interval → Num
  area ((t, w), (t', w')) = trapezoid w w' (elapsed t' t)

  abbrev pub counted : Duration → Interval → Bool
  counted max_gap v = is_forward v && not (is_gap max_gap v)

  abbrev pub clamped : Duration → Interval → Bool
  clamped max_gap v = is_forward v && is_gap max_gap v

  abbrev pub update_all : Integrator → List Sample → Integrator
  update_all i [] = i
  update_all i ((t, w) ∷ ss) = update_all (update i t w) ss

  update_all_from :
      (i : Integrator) (t : Time) (w : Num) (ss : List Sample)
      → i.last_watts ≡ some w
      → i.last_at ≡ t
      → ((update_all i ss).total
          ≡ foldl ◌+f◌ i.total (map area (keep (counted i.max_gap) (intervals (t, w) ss))))
        × ((update_all i ss).gaps
            ≡ i.gaps + length (keep (clamped i.max_gap) (intervals (t, w) ss)))
  unfolding update
  update_all_from i t w [] e f = (refl, omega arith)
  update_all_from i t w ((t', w') ∷ ss) e f =
      ground (arith, update_all_from (update i t' w') t' w' ss)

  -- From a first sample on, the total of a new integrator is the sum, in order, of the trapezoids
  -- of the intervals between neighbouring samples that run forward in time and do not exceed a set
  -- gap limit; the gap count is the number of forward intervals that exceed it.
  pub update_all_lem :
      (max_gap : Duration) (t : Time) (w : Num) (ss : List Sample)
      → let i = update_all (new_integrator max_gap) ((t, w) ∷ ss) in
        (i.total
          ≡ foldl ◌+f◌ (constant 0 1) (map area (keep (counted max_gap) (intervals (t, w) ss))))
        × (i.gaps ≡ length (keep (clamped max_gap) (intervals (t, w) ss)))
  unfolding update new_integrator
  update_all_lem max_gap t w ss =
      let p = update_all_from (update (new_integrator max_gap) t w) t w ss refl refl in
      (p.0, omega (arith, p.1))
