-- ===== src/Energy/Strategy.antt =====
-- internal/energy/strategy.go and divergence.go. A strategy is a string; the two known ones are
-- constructors and any other is `other`.
pub mod Selection
use statehouse.Prelude.{
  Float64, Num, ◌<f◌, ◌≤f◌, ◌==f◌, ◌-f◌, ◌*f◌, ◌/f◌, abs, max_f, constant, if◌then◌else◌, Str, str,
}

pub data Strategy : Type 0 where
  counter integration : Strategy
  other : Str → Strategy

-- The source of a selected total, a string in the source.
pub data Source : Type 0 where
  unset by_counter by_integration : Source

module _ ⦃fl : Float64⦄ where
  unfoldable pub select_kwh : Strategy → Num → Num → Num × Source
  select_kwh counter counter_kwh integrated_kwh =
      if constant 0 1 <f counter_kwh
      then (counter_kwh, by_counter)
      else if constant 0 1 <f integrated_kwh
      then (integrated_kwh, by_integration)
      else (constant 0 1, by_counter)
  select_kwh integration counter_kwh integrated_kwh =
      if constant 0 1 <f integrated_kwh
      then (integrated_kwh, by_integration)
      else if constant 0 1 <f counter_kwh
      then (counter_kwh, by_counter)
      else (constant 0 1, by_integration)
  select_kwh (other s) counter_kwh integrated_kwh =
      if integrated_kwh ≤f counter_kwh
      then (counter_kwh, by_counter)
      else (integrated_kwh, by_integration)

  unfoldable pub divergence_pct : Num → Num → Num
  divergence_pct counter_kwh integrated_kwh =
      let a = abs counter_kwh in
      let b = abs integrated_kwh in
      let denom = max_f a b in
      if denom ==f constant 0 1 then constant 0 1 else abs (a -f b) /f denom *f constant 100 1
