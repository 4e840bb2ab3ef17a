-- ===== src/Examples/Energy.antt =====
-- The theorems on energy, at small sessions.
use statehouse.Prelude.{
  ◌≡◌, refl, pos, ◌*◌, List, [], ◌∷◌, foldl, map, keep, length, constant, ◌+f◌,
}
use statehouse.Examples.{milli, second}
use statehouse.Energy.Counter.{fresh, set_baseline, delta}
use statehouse.Energy.Counter.Delta
use statehouse.Energy.Counter.Delta.{delta-update_all, delta_not_negative}
use statehouse.Energy.Integration.{new_integrator}
use statehouse.Energy.Integration.Intervals.{
  Sample, intervals, area, counted, clamped, update_all, update_all_lem,
}

-- 10 kWh, 12 kWh and 11 kWh: the fall is no new baseline.
delta-update_all_example :
    delta (Delta.update_all (set_baseline fresh 10_000) (12_000 ∷ 11_000 ∷ [])) ≡ 1000
delta-update_all_example = delta-update_all fresh 10_000 (12_000 ∷ 11_000 ∷ []) (refl, (refl, tt))

-- 2000 W for a minute, and one sample after a gap.
abbrev later_samples : List Sample
later_samples = (60 * second, 2_000_000) ∷ (7200 * second, 2_000_000) ∷ []

update_all_lem_example :
    let i = update_all (new_integrator (pos (300 * second))) ((0, 2_000_000) ∷ later_samples) in
    (i.total
      ≡ foldl ◌+f◌
          (constant 0 1)
          (map area (keep (counted (pos (300 * second))) (intervals (0, 2_000_000) later_samples))))
    × (i.gaps
        ≡ length (keep (clamped (pos (300 * second))) (intervals (0, 2_000_000) later_samples)))
update_all_lem_example = update_all_lem (pos (300 * second)) 0 2_000_000 later_samples
