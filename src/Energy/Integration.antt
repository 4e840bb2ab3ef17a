-- ===== src/Energy/Integration.antt =====
-- internal/energy/integration.go.
pub mod Intervals
use statehouse.Prelude.{
  Float64, Num, ◌+f◌, ◌*f◌, ◌/f◌, constant, hours, Option, some, none, if◌then◌else◌, ℕ, suc, ◌&&◌,
  leb_ℤ, ltb_ℤ, pos, not,
}
use statehouse.Time.{Time, Duration, elapsed}

module _ ⦃fl : Float64⦄ where
  pub record Integrator : Type 0 where
    pub max_gap : Duration
    pub last_watts : Option Num
    pub last_at : Time
    pub total : Num
    pub gaps : ℕ

  unfoldable pub new_integrator : Duration → Integrator
  new_integrator max_gap = record {
    max_gap = max_gap;
    last_watts = none;
    last_at = 0;
    total = constant 0 1;
    gaps = 0;
  }

  -- `avgW * dt.Hours() / 1000`
  unfoldable pub trapezoid : Num → Num → Duration → Num
  trapezoid last watts dt = (last +f watts) /f constant 2 1 *f hours dt /f constant 1000 1

  -- The body of `Update` behind the first guard, at the previous power `last`.
  advance : Integrator → Num → Time → Num → Integrator
  unfolding trapezoid
  advance i last at watts =
      let dt = elapsed at i.last_at in
      if leb_ℤ dt (pos 0)
      then record i { last_watts = some watts; last_at = at }
      else if ltb_ℤ (pos 0) i.max_gap && ltb_ℤ i.max_gap dt
      then record i { gaps = suc i.gaps; last_watts = some watts; last_at = at }
      else record i {
        total = i.total +f trapezoid last watts dt;
        last_watts = some watts;
        last_at = at;
      }

  resume : Option Num → Integrator → Time → Num → Integrator
  unfolding advance
  resume none i at watts = record i { last_watts = some watts; last_at = at }
  resume (some last) i at watts = advance i last at watts

  unfoldable pub update : Integrator → Time → Num → Integrator
  unfolding resume
  update i at watts = resume i.last_watts i at watts

  pub record Snapshot : Type 0 where
    pub total : Num
    pub gaps_clamped : ℕ

  unfoldable pub snapshot_state : Integrator → Snapshot
  snapshot_state i = record { total = i.total; gaps_clamped = i.gaps }
