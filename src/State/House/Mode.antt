-- ===== src/State/House/Mode.antt =====
-- What the mode dimension means (internal/state/house.go).
use statehouse.Prelude.{Float64, Bool, true, false, ◌≡◌, arith, ℕ, pos, ◌<ℤ◌, List, ◌⊎◌, length}
use statehouse.Time.{Time, Duration}
use statehouse.Model.Signal.{ActivitySignal}
use statehouse.Model.Device.{Device}
use statehouse.Model.House.{OccupancyState, HouseActivityState, ModeState, OccupancyDimension}
use statehouse.State.House.{
  TimeZones, HouseConfig, Gathered, gather, derive_house_state, derive_occupancy, derive_mode,
  maybe_occupied,
}
use statehouse.State.House.Dimensions.{any, shows_presence, gather_lem}

module _ ⦃fl : Float64⦄ where
  away_empty :
      (cfg : HouseConfig) (occ : OccupancyDimension) (act : HouseActivityState) (quiet : Duration)
      (active_count hour : ℕ)
      → (derive_mode cfg occ act quiet active_count hour).state ≡ ModeState.away
      → occ.state ≡ OccupancyState.empty
  unfolding derive_mode
  away_empty cfg occ act quiet active_count hour h = ground arith

  empty_nobody :
      (now : Time) (cfg : HouseConfig) (none_known : Bool) (g : Gathered)
      → (derive_occupancy now cfg none_known g).state ≡ OccupancyState.empty
      → g.anyone_active ≡ false
  unfolding derive_occupancy
  empty_nobody now cfg none_known g h = ground arith

  -- If the mode is away, the house is empty, no device that counts for occupancy is active, and
  -- there is no signal.
  pub away_nobody :
      (tz : TimeZones) (now : Time) (cfg : HouseConfig) (ds : List Device)
      (ss : List ActivitySignal) (last : Time)
      → (derive_house_state tz now cfg ds ss last).mode.state ≡ ModeState.away
      → ((derive_house_state tz now cfg ds ss last).occupancy.state ≡ OccupancyState.empty)
        × (any shows_presence ds ≡ false)
        × (length ss ≡ 0)
  unfolding derive_house_state
  away_nobody tz now cfg ds ss last h =
      let e = away_empty cfg _ _ _ _ _ h in
      let nobody = empty_nobody now cfg _ (gather ds ss last) e in
      let facts = gather_lem ds ss last in
      (e, ground (arith, nobody, facts.0), ground (arith, nobody, facts.0))

  -- In a house that is idle and not known to be empty, with a positive sleeping window, the mode
  -- is sleeping after the window and night or day before it, but at the window's very end it is
  -- unknown.
  pub mode_gap :
      (cfg : HouseConfig) (occ : OccupancyDimension) (quiet : Duration) (active_count hour : ℕ)
      → maybe_occupied occ.state ≡ true
      → pos 0 <ℤ cfg.sleeping_after
      → let m = (derive_mode cfg occ HouseActivityState.idle quiet active_count hour).state in
        (cfg.sleeping_after <ℤ quiet → m ≡ ModeState.sleeping)
        × (quiet <ℤ cfg.sleeping_after → (m ≡ ModeState.night) ⊎ (m ≡ ModeState.day))
        × (quiet ≡ cfg.sleeping_after → m ≡ ModeState.unknown)
  unfolding derive_mode
  mode_gap cfg occ quiet active_count hour h w = ground arith
