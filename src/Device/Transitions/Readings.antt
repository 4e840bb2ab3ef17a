-- ===== src/Device/Transitions/Readings.antt =====
-- OnReading as a whole: what its outcome says of the runtimes before and after it
-- (internal/device/statemachine.go).
use statehouse.Prelude.{Float64, none, ◌≡◌, refl, sym, arith, Bool-cases, if◌then◌else◌, inl, inr}
use statehouse.Time.{Time}
use statehouse.Device.Class.{is_passive_sensor}
use statehouse.Device.Runtime.{Runtime, Outcome, refresh_cycle_energy}
use statehouse.Device.Hysteresis.{is_busy}
use statehouse.Device.Steps.{Step, unchanged, feed, finish_reading, report, is_binary, on_reading}
use statehouse.Device.Invariant.{IsConsistent, feed-IsConsistent}
use statehouse.Device.Transitions.{
  Transition, IsFresh, step_state-Transition, step_power?-Transition,
}
use statehouse.Model.Activity.{same_state}
use statehouse.Model.Reading.{Reading}

module _ ⦃fl : Float64⦄ where
  -- Feeding the energy paths touches neither activity, nor cycle, nor profile.
  pub feed_facts :
      (r : Runtime) (at : Time) (reading : Reading)
      → ((feed r at reading).activity ≡ r.activity)
        × ((feed r at reading).cycle ≡ r.cycle)
        × ((feed r at reading).profile ≡ r.profile)
        × ((feed r at reading).candidate ≡ r.candidate)
        × ((feed r at reading).thresholds ≡ r.thresholds)
  unfolding feed
  feed_facts r at reading = ground arith

  fed_IsFresh :
      (r : Runtime) (at : Time) (reading : Reading) → IsFresh (feed r at reading) (unchanged r)
  fed_IsFresh r at reading = record {
    prev = sym (feed_facts r at reading).0;
    not_started = refl;
    not_finished = refl;
  }

  fed-Transition :
      (r f : Runtime) (at : Time) (r' : Runtime) (out : Outcome)
      → f.activity ≡ r.activity
      → f.cycle ≡ r.cycle
      → f.profile ≡ r.profile
      → Transition f at r' out
      → Transition r at r' out
  fed-Transition r f at r' out a c p t = ground arith

  finish_reading-Transition :
      (r : Runtime) (at : Time) (s : Step)
      → Transition r at s.0 s.1
      → Transition r at (finish_reading at s).0 (finish_reading at s).1
  unfolding finish_reading refresh_cycle_energy
  finish_reading-Transition r at (r', out) t = ground arith

  report-Transition :
      (r : Runtime) (at : Time) (out : Outcome)
      → IsFresh r out
      → Transition r at (report r out).0 (report r out).1
  unfolding report is_busy same_state
  report-Transition r at out f = ground arith

  -- Each reading of a consistent runtime relates the runtimes before and after it to its outcome:
  -- the previous activity is that before, a cycle starts exactly if the device becomes busy and
  -- finishes exactly if it ceases to be, the cycle's start and finish times change then alone, and
  -- the profile is kept.
  pub on_reading-Transition :
      (r : Runtime) (at : Time) (reading : Reading)
      → IsConsistent r
      → Transition r at (on_reading r at reading).0 (on_reading r at reading).1
  unfolding on_reading
  on_reading-Transition r at reading v =
      let fed = feed r at reading in
      let w = feed-IsConsistent r at reading v in
      let facts = feed_facts r at reading in
      let fresh = fed_IsFresh r at reading in
      elim (Bool-cases (is_binary r.profile.class)) [
        | inl b ↦ rw b (
            finish_reading-Transition r at _ (
              fed-Transition r fed at _ _ facts.0 facts.1 facts.2
                (step_state-Transition reading.state fed at _ (rw facts.2 b) w fresh)))
        | inr nb ↦ elim (Bool-cases (is_passive_sensor r.profile.class)) [
          | inl passive ↦
              rw (nb, passive)
                (fed-Transition r fed at _ _ facts.0 facts.1 facts.2
                  (report-Transition fed at _ fresh))
          | inr np ↦
              rw (nb, np)
                (finish_reading-Transition r at _ (
                  fed-Transition r fed at _ _ facts.0 facts.1 facts.2
                    (step_power?-Transition reading.power_w fed at _ w fresh)))
        ]
      ]

  -- The outcome reports the activity and, but for passive sensors, the cycle of the new runtime.
  pub on_reading_reports :
      (r : Runtime) (at : Time) (reading : Reading)
      → let (r', out) = on_reading r at reading in
        (out.new_activity ≡ r'.activity)
        × (out.cycle ≡ (if is_passive_sensor r.profile.class then none else r'.cycle))
  unfolding on_reading report finish_reading is_passive_sensor is_binary
  on_reading_reports r at reading = ground arith
