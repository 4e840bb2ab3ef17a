-- ===== src/Device/Steps.antt =====
-- The state machines of the classes, OnReading and Tick (internal/device/statemachine.go).
use statehouse.Prelude.{
  Float64, Num, ◌<f◌, ◌≤f◌, constant, Option, some, none, Bool, true, false, pos, leb_ℤ, leb,
  if◌then◌else◌, not, ◌&&◌, Str, str, str_eq, ℕ, suc, get_or_else,
}
use statehouse.Time.{Time, Duration, elapsed, minutes}
use statehouse.Energy.Counter
use statehouse.Energy.Integration
use statehouse.Device.Class.{Class, is_passive_sensor}
use statehouse.Device.Runtime.{
  Runtime, Outcome, deref_f64, deref_dur, is_active, start_cycle, finish_cycle,
  refresh_cycle_energy,
}
use statehouse.Device.Hysteresis.{
  is_high, is_low, candidate_at, high_sample, low_sample, with_candidate, maybe_begin, maybe_end,
}
use statehouse.Model.Activity.{DeviceActivityState, same_state}
use statehouse.Model.Device.{Cycle}
use statehouse.Model.Reading.{Reading}

abbrev pub finished_recently_low_readings : ℕ
finished_recently_low_readings = 3

abbrev pub finished_recently_ttl : Duration
finished_recently_ttl = minutes 30

unfoldable pub is_binary : Class → Bool
is_binary Class.binary_state = true
is_binary _ = false

module _ ⦃fl : Float64⦄ where
  -- A runtime and the outcome that is being filled in.
  abbrev pub Step : Type 0
  Step = Runtime × Outcome

  abbrev pub settle : DeviceActivityState → Runtime → Outcome → Step
  settle a r out = (record r { activity = a }, record out { new_activity = a })

  -- The writes of a branch that starts a cycle, and of one that finishes it.
  abbrev pub began : DeviceActivityState → Runtime → Time → Outcome → Step
  began a r at out = (
    start_cycle (record r { activity = a }) at,
    record out { new_activity = a; cycle_started = true },
  )

  abbrev pub ended : DeviceActivityState → Runtime → Time → Outcome → Step
  ended a r at out = (
    finish_cycle (record r { activity = a }) at,
    record out { new_activity = a; cycle_finished = true },
  )

  abbrev is_state : DeviceActivityState → Runtime → Bool
  is_state a r = same_state r.activity a

  abbrev below_idle : Runtime → Num → Bool
  below_idle r p = p <f deref_f64 r.thresholds.idle_below_w

  -- The first low reading resolves unknown to idle.
  abbrev resolve_idle : Runtime → Num → Outcome → Step
  resolve_idle r p out =
      if is_state DeviceActivityState.unknown r && below_idle r p
      then settle DeviceActivityState.idle r out
      else (r, out)

  unfoldable pub step_short_burst : Runtime → Time → Num → Outcome → Step
  step_short_burst r at p out =
      let (r₁, begins) = maybe_begin r at p in
      let (r₂, ends) = maybe_end r₁ at p in
      if begins
      then began DeviceActivityState.active r₁ at out
      else if ends
      then ended DeviceActivityState.idle r₂ at out
      else resolve_idle r₂ p out

  unfoldable pub step_media : Runtime → Time → Num → Outcome → Step
  step_media r at p out =
      let (r₁, begins) = maybe_begin r at p in
      let (r₂, ends) = maybe_end r₁ at p in
      if begins
      then began DeviceActivityState.active r₁ at out
      else if ends
      then ended DeviceActivityState.standby r₂ at out
      else resolve_idle r₂ p out

  -- finished_recently decays on the third consecutive low reading; any other resets the count.
  unfoldable pub decay : Runtime → Num → Outcome → Step
  decay r p out =
      if below_idle r p
      then (if leb finished_recently_low_readings (suc r.finished_low_count)
          then settle DeviceActivityState.idle (record r { finished_low_count = 0 }) out
          else (record r { finished_low_count = suc r.finished_low_count }, out))
      else (record r { finished_low_count = 0 }, out)

  unfoldable pub step_cycle : Runtime → Time → Num → Outcome → Step
  step_cycle r at p out =
      let (r₁, begins) = maybe_begin r at p in
      let (r₂, ends) = maybe_end r₁ at p in
      if begins
      then began DeviceActivityState.running r₁ at out
      else if ends
      then ended DeviceActivityState.finished_recently r₂ at out
      else if is_state DeviceActivityState.finished_recently r₂
      then decay r₂ p out
      else resolve_idle r₂ p out

  -- A signal that must end a cycle (`low`) or may leave it running, in the busy state, and one that
  -- must start a cycle in any other: the two halves that stepContinuous and stepBinary share.
  abbrev sustain_low : DeviceActivityState → Runtime → Time → Num → Outcome → Step
  sustain_low a r at p out =
      let needed = deref_dur r.thresholds.inactive_sustained_for in
      if not (is_low r.candidate)
      then (if leb_ℤ needed (pos 0)
          then ended a (with_candidate r none) at out
          else (with_candidate r (low_sample at p), out))
      else if leb_ℤ needed (elapsed at (candidate_at r.candidate))
      then ended a (with_candidate r none) at out
      else (r, out)

  abbrev sustain_high : DeviceActivityState → Runtime → Time → Num → Outcome → Step
  sustain_high a r at p out =
      let needed = deref_dur r.thresholds.active_sustained_for in
      if not (is_high r.candidate)
      then (if leb_ℤ needed (pos 0)
          then began a (with_candidate r none) at out
          else (with_candidate r (high_sample at p), out))
      else if leb_ℤ needed (elapsed at (candidate_at r.candidate))
      then began a (with_candidate r none) at out
      else (r, out)

  abbrev high_threshold : Runtime → Num
  high_threshold r =
      get_or_else r.thresholds.compressor_above_w (deref_f64 r.thresholds.active_above_w)

  unfoldable pub step_continuous : Runtime → Time → Num → Outcome → Step
  step_continuous r at p out =
      if is_state DeviceActivityState.active_cycle r
      then (if p <f high_threshold r
          then sustain_low DeviceActivityState.normal_idle r at p out
          else (with_candidate r none, out))
      else if high_threshold r ≤f p
      then sustain_high DeviceActivityState.active_cycle r at p out
      else (record r { activity = DeviceActivityState.normal_idle; candidate = none }, out)

  -- A sample of a state carries no power: the zero value.
  unfoldable pub step_binary : Runtime → Time → Str → Outcome → Step
  step_binary r at state out =
      if is_state DeviceActivityState.active r
      then (if str_eq state (str "OFF")
          then sustain_low DeviceActivityState.idle r at (constant 0 1) out
          else if str_eq state (str "ON")
          then (with_candidate r none, out)
          else (r, out))
      else if str_eq state (str "ON")
      then sustain_high DeviceActivityState.active r at (constant 0 1) out
      else if str_eq state (str "OFF")
      then (let (r', out') =
            if is_state DeviceActivityState.unknown r
            then settle DeviceActivityState.idle r out
            else (r, out) in
          (with_candidate r' none, out'))
      else (r, out)

  -- The energy paths run first, whatever the class.
  feed_power : Option Num → Runtime → Time → Runtime
  feed_power none r at = r
  feed_power (some w) r at = record r { integrator = Integration.update r.integrator at w }

  feed_counter : Option Num → Runtime → Runtime
  feed_counter none r = r
  feed_counter (some v) r = record r { counter = Counter.update r.counter v }

  unfoldable pub feed : Runtime → Time → Reading → Runtime
  unfolding feed_power feed_counter
  feed r at reading = feed_counter reading.energy_kwh (feed_power reading.power_w r at)

  unfoldable pub step_state : Option Str → Runtime → Time → Outcome → Step
  step_state none r at out = (r, out)
  step_state (some state) r at out = step_binary r at state out

  -- The `switch` on the class, for a reading with power.
  unfoldable pub step_power : Class → Runtime → Time → Num → Outcome → Step
  step_power Class.short_burst r at p out = step_short_burst r at p out
  step_power Class.cycle_power r at p out = step_cycle r at p out
  step_power Class.continuous r at p out = step_continuous r at p out
  step_power Class.media r at p out = step_media r at p out
  step_power _ r at p out = (r, out)

  unfoldable pub step_power? : Option Num → Runtime → Time → Outcome → Step
  step_power? none r at out = (r, out)
  step_power? (some p) r at out = step_power r.profile.class r at p out

  -- `if r.cycle != nil && r.cycle.Active { r.refreshCycleEnergy(at) }`, and the outcome's last fields
  unfoldable pub finish_reading : Time → Step → Step
  finish_reading at (r, out) =
      let r' = if is_active r.cycle then refresh_cycle_energy r at else r in
      (r', record out { new_activity = r'.activity; cycle = r'.cycle })

  abbrev pub unchanged : Runtime → Outcome
  unchanged r = record {
    prev_activity = r.activity;
    new_activity = r.activity;
    cycle_started = false;
    cycle_finished = false;
    cycle = none;
  }

  -- A passive sensor reports from the first reading on.
  unfoldable pub report : Runtime → Outcome → Step
  report r out =
      let r' =
        if is_state DeviceActivityState.unknown r
        then record r { activity = DeviceActivityState.reporting }
        else r in
      (r', record out { new_activity = r'.activity; cycle = none })

  unfoldable pub on_reading : Runtime → Time → Reading → Step
  on_reading r at reading =
      let out = unchanged r in
      let r' = feed r at reading in
      if is_binary r.profile.class
      then finish_reading at (step_state reading.state r' at out)
      else if is_passive_sensor r.profile.class
      then report r' out
      else finish_reading at (step_power? reading.power_w r' at out)

  -- `r.cycle.FinishedAt`
  abbrev pub finish_time : Option Cycle → Option Time
  finish_time none = none
  finish_time (some c) = c.finished_at

  abbrev expired : Time → Option Time → Bool
  expired at none = false
  expired at (some t) = leb_ℤ finished_recently_ttl (elapsed at t)

  -- Time-driven decay of finished_recently.
  unfoldable pub tick : Runtime → Time → Step
  tick r at =
      if is_state DeviceActivityState.finished_recently r && expired at (finish_time r.cycle)
      then settle DeviceActivityState.idle (record r { finished_low_count = 0 }) (unchanged r)
      else (r, unchanged r)
