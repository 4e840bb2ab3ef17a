-- ===== src/Device/Invariant/Steps.antt =====
-- The invariant of a runtime over the steps of each class (internal/device/statemachine.go).
use statehouse.Prelude.{Float64, Num, ◌≡◌, arith, Str}
use statehouse.Time.{Time}
use statehouse.Device.Class.{Class}
use statehouse.Device.Runtime.{Runtime, Outcome, start_cycle, finish_cycle}
use statehouse.Device.Hysteresis.{is_busy, maybe_begin, maybe_end}
use statehouse.Device.Steps.{
  step_short_burst, step_media, step_cycle, step_continuous, step_binary, step_power,
}
use statehouse.Model.Activity.{DeviceActivityState, same_state}
use statehouse.Device.Invariant.{
  IsConsistent, maybe_begin-IsConsistent, maybe_begin_facts, maybe_end-IsConsistent,
  maybe_end_facts, start_cycle-IsConsistent, finish_cycle-IsConsistent, decay-IsConsistent,
}

module _ ⦃fl : Float64⦄ where
  pub step_short_burst-IsConsistent :
      (r : Runtime) (at : Time) (p : Num) (out : Outcome)
      → r.profile.class ≡ Class.short_burst
      → IsConsistent r
      → IsConsistent (step_short_burst r at p out).0
  unfolding step_short_burst maybe_begin maybe_end is_busy same_state start_cycle finish_cycle
  step_short_burst-IsConsistent r at p out e v = ground arith

  pub step_media-IsConsistent :
      (r : Runtime) (at : Time) (p : Num) (out : Outcome)
      → r.profile.class ≡ Class.media
      → IsConsistent r
      → IsConsistent (step_media r at p out).0
  unfolding step_media maybe_begin maybe_end is_busy same_state start_cycle finish_cycle
  step_media-IsConsistent r at p out e v = ground arith

  pub step_cycle-IsConsistent :
      (r : Runtime) (at : Time) (p : Num) (out : Outcome)
      → r.profile.class ≡ Class.cycle_power
      → IsConsistent r
      → IsConsistent (step_cycle r at p out).0
  unfolding step_cycle same_state is_busy
  step_cycle-IsConsistent r at p out e v =
      let r₁ = (maybe_begin r at p).0 in
      let r₂ = (maybe_end r₁ at p).0 in
      ground (
        arith,
        maybe_begin-IsConsistent r at p,
        maybe_begin_facts r at p,
        maybe_end-IsConsistent r₁ at p,
        maybe_end_facts r₁ at p,
        start_cycle-IsConsistent r₁ at DeviceActivityState.running,
        finish_cycle-IsConsistent r₂ at DeviceActivityState.finished_recently,
        decay-IsConsistent r₂ p out,
      )

  pub step_continuous-IsConsistent :
      (r : Runtime) (at : Time) (p : Num) (out : Outcome)
      → r.profile.class ≡ Class.continuous
      → IsConsistent r
      → IsConsistent (step_continuous r at p out).0
  unfolding step_continuous is_busy same_state start_cycle finish_cycle
  step_continuous-IsConsistent r at p out e v = ground arith

  pub step_binary-IsConsistent :
      (r : Runtime) (at : Time) (state : Str) (out : Outcome)
      → r.profile.class ≡ Class.binary_state
      → IsConsistent r
      → IsConsistent (step_binary r at state out).0
  unfolding step_binary is_busy same_state start_cycle finish_cycle
  step_binary-IsConsistent r at state out e v = ground arith

  pub step_power-IsConsistent :
      (c : Class) (r : Runtime) (at : Time) (p : Num) (out : Outcome)
      → r.profile.class ≡ c
      → IsConsistent r
      → IsConsistent (step_power c r at p out).0
  unfolding step_power
  step_power-IsConsistent Class.short_burst r at p out e v =
      step_short_burst-IsConsistent r at p out e v
  step_power-IsConsistent Class.cycle_power r at p out e v = step_cycle-IsConsistent r at p out e v
  step_power-IsConsistent Class.continuous r at p out e v =
      step_continuous-IsConsistent r at p out e v
  step_power-IsConsistent Class.media r at p out e v = step_media-IsConsistent r at p out e v
  step_power-IsConsistent _ r at p out e v = v
