-- ===== src/Device/Invariant.antt =====
-- What holds of a runtime between two calls, and the writes that keep it
-- (internal/device/statemachine.go).
pub mod Steps
pub mod Readings
use statehouse.Prelude.{
  Float64, Num, Option, some, none, Bool, true, false, not, ◌≡◌, refl, ◌≤◌, ◌<◌, arith, is_some,
  Str, if◌then◌else◌, Bool-cases, inl, inr,
}
use statehouse.Time.{Time, Duration}
use statehouse.Device.Profile.{Profile}
use statehouse.Energy.Counter
use statehouse.Energy.Integration
use statehouse.Device.Class.{Class, is_passive_sensor}
use statehouse.Device.Runtime.{
  Runtime, Outcome, CandidateSample, is_active, start_cycle, finish_cycle, refresh_cycle_energy,
  seed_counter, mark_divergence, mark_stale_counter, new_runtime,
}
use statehouse.Device.Hysteresis.{is_busy, maybe_begin, maybe_end}
use statehouse.Device.Steps.{
  Step, step_short_burst, step_media, step_cycle, step_continuous, step_binary, step_power, feed,
  decay, finish_reading, step_state, step_power?, report, is_binary, on_reading, tick,
}
use statehouse.Model.Activity.{DeviceActivityState, same_state}
use statehouse.Model.Device.{Cycle}
use statehouse.Model.Reading.{Reading}

-- The states that a class uses.
abbrev pub allowed : Class → DeviceActivityState → Bool
allowed c DeviceActivityState.unknown = true
allowed Class.short_burst DeviceActivityState.idle = true
allowed Class.short_burst DeviceActivityState.active = true
allowed Class.cycle_power DeviceActivityState.idle = true
allowed Class.cycle_power DeviceActivityState.running = true
allowed Class.cycle_power DeviceActivityState.finished_recently = true
allowed Class.continuous DeviceActivityState.normal_idle = true
allowed Class.continuous DeviceActivityState.active_cycle = true
allowed Class.media DeviceActivityState.idle = true
allowed Class.media DeviceActivityState.active = true
allowed Class.media DeviceActivityState.standby = true
allowed Class.binary_state DeviceActivityState.idle = true
allowed Class.binary_state DeviceActivityState.active = true
allowed Class.environmental_sensor DeviceActivityState.reporting = true
allowed Class.ups_sensor DeviceActivityState.reporting = true
allowed Class.energy_meter DeviceActivityState.reporting = true
allowed Class.fire_alarm DeviceActivityState.reporting = true
allowed Class.appliance_probe DeviceActivityState.reporting = true
allowed _ _ = false

module _ ⦃fl : Float64⦄ where
  -- A pending sample is a low one in a busy state, and a high one in any other.
  abbrev pub CandidateFits : Bool → Option CandidateSample → Type 0
  CandidateFits busy none = Unit
  CandidateFits busy (some c) = (c.above_prev_hi ≡ not busy) × (c.below_prev_lo ≡ busy)

  -- A cycle is active until it has a finish time.
  abbrev pub CycleFits : Option Cycle → Type 0
  CycleFits none = Unit
  CycleFits (some c) = is_some c.finished_at ≡ not c.active

  pub record IsConsistent (r : Runtime) : Type 0 where
    pub state_allowed : allowed r.profile.class r.activity ≡ true
    pub cycle_busy : is_active r.cycle ≡ is_busy r.activity
    pub candidate_fits : CandidateFits (is_busy r.activity) r.candidate
    pub cycle_fits : CycleFits r.cycle
    pub low_count_bounded : r.finished_low_count < 3
    pub low_count_zero :
        same_state r.activity DeviceActivityState.finished_recently ≡ false
        → r.finished_low_count ≡ 0
    pub finished_has_cycle :
        same_state r.activity DeviceActivityState.finished_recently ≡ true → is_some r.cycle ≡ true

  pub maybe_begin-IsConsistent :
      (r : Runtime) (at : Time) (p : Num) → IsConsistent r → IsConsistent (maybe_begin r at p).0
  unfolding maybe_begin
  maybe_begin-IsConsistent r at p v = ground arith

  -- A beginning happens out of a busy state only, uses the sample up, and writes nothing else.
  pub maybe_begin_facts :
      (r : Runtime) (at : Time) (p : Num)
      → let (r', b) = maybe_begin r at p in
        (r'.activity ≡ r.activity)
        × (r'.profile ≡ r.profile)
        × (r'.cycle ≡ r.cycle)
        × (b ≡ true → is_busy r.activity ≡ false)
        × (b ≡ true → r'.candidate ≡ none)
        × (r'.thresholds ≡ r.thresholds)
  unfolding maybe_begin
  maybe_begin_facts r at p = ground arith

  pub maybe_end-IsConsistent :
      (r : Runtime) (at : Time) (p : Num) → IsConsistent r → IsConsistent (maybe_end r at p).0
  unfolding maybe_end
  maybe_end-IsConsistent r at p v = ground arith

  pub maybe_end_facts :
      (r : Runtime) (at : Time) (p : Num)
      → let (r', b) = maybe_end r at p in
        (r'.activity ≡ r.activity)
        × (r'.profile ≡ r.profile)
        × (r'.cycle ≡ r.cycle)
        × (b ≡ true → is_busy r.activity ≡ true)
        × (b ≡ true → r'.candidate ≡ none)
        × (r'.thresholds ≡ r.thresholds)
  unfolding maybe_end
  maybe_end_facts r at p = ground arith

  pub start_cycle-IsConsistent :
      (r : Runtime) (at : Time) (a : DeviceActivityState)
      → allowed r.profile.class a ≡ true
      → is_busy a ≡ true
      → r.candidate ≡ none
      → IsConsistent (start_cycle (record r { activity = a }) at)
  unfolding start_cycle
  start_cycle-IsConsistent r at a h b c = ground arith

  pub finish_cycle-IsConsistent :
      (r : Runtime) (at : Time) (a : DeviceActivityState)
      → allowed r.profile.class a ≡ true
      → is_busy a ≡ false
      → r.candidate ≡ none
      → is_busy r.activity ≡ true
      → IsConsistent r
      → IsConsistent (finish_cycle (record r { activity = a }) at)
  unfolding finish_cycle same_state is_busy
  finish_cycle-IsConsistent r at a h b c d v = ground arith

  pub decay-IsConsistent :
      (r : Runtime) (p : Num) (out : Outcome)
      → r.profile.class ≡ Class.cycle_power
      → r.activity ≡ DeviceActivityState.finished_recently
      → IsConsistent r
      → IsConsistent (decay r p out).0
  unfolding decay same_state is_busy
  decay-IsConsistent r p out e h v = ground arith

  pub feed-IsConsistent :
      (r : Runtime) (at : Time) (reading : Reading)
      → IsConsistent r
      → IsConsistent (feed r at reading)
  unfolding feed
  feed-IsConsistent r at reading v = ground arith

  pub profile-feed :
      (r : Runtime) (at : Time) (reading : Reading) → (feed r at reading).profile ≡ r.profile
  unfolding feed
  profile-feed r at reading = ground arith

  pub refresh_cycle_energy-IsConsistent :
      (r : Runtime) (at : Time) → IsConsistent r → IsConsistent (refresh_cycle_energy r at)
  unfolding refresh_cycle_energy
  refresh_cycle_energy-IsConsistent r at v = ground arith

  pub tick-IsConsistent : (r : Runtime) (at : Time) → IsConsistent r → IsConsistent (tick r at).0
  unfolding tick same_state is_busy
  tick-IsConsistent r at v = ground arith

  pub seed_counter-IsConsistent :
      (r : Runtime) (w : Num) → IsConsistent r → IsConsistent (seed_counter r w)
  unfolding seed_counter
  seed_counter-IsConsistent r w v = ground arith

  pub mark_divergence-IsConsistent :
      (r : Runtime) (pct : Num) → IsConsistent r → IsConsistent (mark_divergence r pct)
  unfolding mark_divergence
  mark_divergence-IsConsistent r pct v = ground arith

  pub mark_stale_counter-IsConsistent :
      (r : Runtime) → IsConsistent r → IsConsistent (mark_stale_counter r)
  unfolding mark_stale_counter
  mark_stale_counter-IsConsistent r v = ground arith

  pub new_runtime-IsConsistent :
      (p : Profile) (max_gap : Duration) → IsConsistent (new_runtime p max_gap)
  unfolding new_runtime is_busy same_state
  new_runtime-IsConsistent p max_gap = ground arith
