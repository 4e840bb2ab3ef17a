-- ===== src/State/Presence/Changes.antt =====
-- When the state of the house changes (RecomputeHouse and setHouse).
use statehouse.Prelude.{Float64, true, false, ◌≡◌, refl, ap}
use statehouse.Time.{Time}
use statehouse.Model.House.{OccupancyState, HouseActivityState, ModeState, House}
use statehouse.State.House.{HouseState, derive_house_state}
use statehouse.State.SignalStore.{active}
use statehouse.State.Presence.{
  same_occupancy, same_activity, same_mode, set_house, Presence, Surroundings, emit_change,
  recompute_house,
}

same_occupancy_refl : (o : OccupancyState) → same_occupancy o o ≡ true
unfolding same_occupancy
same_occupancy_refl OccupancyState.unknown = refl
same_occupancy_refl OccupancyState.empty = refl
same_occupancy_refl OccupancyState.occupied = refl

same_activity_refl : (a : HouseActivityState) → same_activity a a ≡ true
unfolding same_activity
same_activity_refl HouseActivityState.unknown = refl
same_activity_refl HouseActivityState.idle = refl
same_activity_refl HouseActivityState.quiet = refl
same_activity_refl HouseActivityState.active = refl
same_activity_refl HouseActivityState.busy = refl

same_mode_refl : (m : ModeState) → same_mode m m ≡ true
unfolding same_mode
same_mode_refl ModeState.unknown = refl
same_mode_refl ModeState.day = refl
same_mode_refl ModeState.night = refl
same_mode_refl ModeState.away = refl
same_mode_refl ModeState.sleeping = refl

module _ ⦃fl : Float64⦄ where
  set_house_again :
      (wall later : Time) (h : HouseState) (old : House)
      → set_house later h (set_house wall h old).0 ≡ ((set_house wall h old).0, false)
  unfolding set_house
  set_house_again wall later h old =
      rw
        (
          same_occupancy_refl h.occupancy.state,
          same_activity_refl h.activity.state,
          same_mode_refl h.mode.state,
        )
        refl

  -- Where nothing but the wall clock has moved, a second derivation of the house changes nothing: no
  -- event is emitted, and the times of the last changes stay.
  pub recompute_house_again :
      (s : Surroundings) (later : Time) (p : Presence)
      → recompute_house (record s { wall = later }) (recompute_house s p) ≡ recompute_house s p
  unfolding recompute_house
  recompute_house_again s later p =
      let h =
        derive_house_state s.tz s.now s.cfg s.devices (active p.signals s.now) p.signals.last_at in
      ap (λ z. emit_change z (recompute_house s p)) (set_house_again s.wall later h p.house)
