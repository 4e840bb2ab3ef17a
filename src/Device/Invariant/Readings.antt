-- ===== src/Device/Invariant/Readings.antt =====
-- The invariant of a runtime over OnReading as a whole (internal/device/statemachine.go).
use statehouse.Prelude.{
  Float64, Num, Option, some, none, true, ◌≡◌, refl, arith, Str, Bool-cases, inl, inr,
}
use statehouse.Time.{Time}
use statehouse.Device.Class.{is_passive_sensor}
use statehouse.Device.Runtime.{Runtime, Outcome}
use statehouse.Device.Hysteresis.{is_busy}
use statehouse.Device.Steps.{
  Step, feed, finish_reading, step_state, step_power?, report, is_binary, on_reading,
}
use statehouse.Model.Activity.{same_state}
use statehouse.Model.Reading.{Reading}
use statehouse.Device.Invariant.{
  IsConsistent, feed-IsConsistent, profile-feed, refresh_cycle_energy-IsConsistent,
}
use statehouse.Device.Invariant.Steps.{step_binary-IsConsistent, step_power-IsConsistent}

module _ ⦃fl : Float64⦄ where
  pub finish_reading-IsConsistent :
      (at : Time) (s : Step) → IsConsistent s.0 → IsConsistent (finish_reading at s).0
  unfolding finish_reading
  finish_reading-IsConsistent at (r, out) v =
      ground (arith, refresh_cycle_energy-IsConsistent r at v)

  pub step_state-IsConsistent :
      (o : Option Str) (r : Runtime) (at : Time) (out : Outcome)
      → is_binary r.profile.class ≡ true
      → IsConsistent r
      → IsConsistent (step_state o r at out).0
  unfolding step_state is_binary
  step_state-IsConsistent none r at out e v = v
  step_state-IsConsistent (some s) r at out e v =
      step_binary-IsConsistent r at s out (ground arith) v

  pub step_power?-IsConsistent :
      (o : Option Num) (r : Runtime) (at : Time) (out : Outcome)
      → IsConsistent r
      → IsConsistent (step_power? o r at out).0
  unfolding step_power?
  step_power?-IsConsistent none r at out v = v
  step_power?-IsConsistent (some p) r at out v =
      step_power-IsConsistent r.profile.class r at p out refl v

  pub report-IsConsistent :
      (r : Runtime) (out : Outcome)
      → is_passive_sensor r.profile.class ≡ true
      → IsConsistent r
      → IsConsistent (report r out).0
  unfolding report is_passive_sensor same_state is_busy
  report-IsConsistent r out e v = ground arith

  -- Every reading of every class keeps the runtime consistent: its state is one its class uses,
  -- its cycle is active exactly in the busy states and until it has a finish time, a pending
  -- sample fits the state, and the count of low readings stays below 3 and is 0 but in
  -- finished_recently, where there is a cycle.
  pub on_reading-IsConsistent :
      (r : Runtime) (at : Time) (reading : Reading)
      → IsConsistent r
      → IsConsistent (on_reading r at reading).0
  unfolding on_reading
  on_reading-IsConsistent r at reading v =
      let fed = feed r at reading in
      let w = feed-IsConsistent r at reading v in
      elim (Bool-cases (is_binary r.profile.class)) [
        | inl b ↦ rw b (
            finish_reading-IsConsistent at _
              (step_state-IsConsistent reading.state fed at _ (rw (profile-feed r at reading) b) w))
        | inr nb ↦ elim (Bool-cases (is_passive_sensor r.profile.class)) [
          | inl passive ↦
              rw (nb, passive)
                (report-IsConsistent fed _ (rw (profile-feed r at reading) passive) w)
          | inr np ↦
              rw (nb, np)
                (finish_reading-IsConsistent at _
                  (step_power?-IsConsistent reading.power_w fed at _ w))
        ]
      ]
