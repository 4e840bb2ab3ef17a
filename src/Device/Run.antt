-- ===== src/Device/Run.antt =====
-- A device over all the readings that it has sent (internal/device/statemachine.go).
use statehouse.Prelude.{Float64, Num, Option, some, none, List, [], ◌∷◌, ◌≡◌, refl, ◌∙◌, arith, Str}
use statehouse.Time.{Time}
use statehouse.Device.Runtime.{Runtime, Outcome, start_cycle, finish_cycle, refresh_cycle_energy}
use statehouse.Device.Hysteresis.{maybe_begin, maybe_end}
use statehouse.Device.Class.{Class}
use statehouse.Device.Steps.{
  unchanged, on_reading, step_power, step_state, step_power?, report, finish_reading, feed,
  step_short_burst, step_media, step_cycle, step_continuous, step_binary, decay,
}
use statehouse.Device.Invariant.{IsConsistent, maybe_begin_facts, maybe_end_facts}
use statehouse.Device.Invariant.Readings.{on_reading-IsConsistent}
use statehouse.Device.Transitions.Readings.{on_reading-Transition}
use statehouse.Model.Reading.{Reading}

module _ ⦃fl : Float64⦄ where
  -- The runtime after a list of readings, newest first.
  unfoldable pub run : Runtime → List (Time × Reading) → Runtime
  run r [] = r
  run r ((at, reading) ∷ earlier) = (on_reading (run r earlier) at reading).0

  pub run-IsConsistent :
      (r : Runtime) (readings : List (Time × Reading))
      → IsConsistent r
      → IsConsistent (run r readings)
  unfolding run
  run-IsConsistent r [] v = v
  run-IsConsistent r ((at, reading) ∷ earlier) v =
      on_reading-IsConsistent (run r earlier) at reading (run-IsConsistent r earlier v)

  pub profile-run :
      (r : Runtime) (readings : List (Time × Reading))
      → IsConsistent r
      → (run r readings).profile ≡ r.profile
  unfolding run
  profile-run r [] v = refl
  profile-run r ((at, reading) ∷ earlier) v =
      (on_reading-Transition (run r earlier) at reading (run-IsConsistent r earlier v)).same_profile
      ∙ profile-run r earlier v

  thresholds-step_cycle :
      (r : Runtime) (at : Time) (p : Num) (out : Outcome)
      → (step_cycle r at p out).0.thresholds ≡ r.thresholds
  unfolding step_cycle decay start_cycle finish_cycle
  thresholds-step_cycle r at p out =
      ground (arith, maybe_begin_facts r at p, maybe_end_facts (maybe_begin r at p).0 at p)

  thresholds-step_power :
      (c : Class) (r : Runtime) (at : Time) (p : Num) (out : Outcome)
      → (step_power c r at p out).0.thresholds ≡ r.thresholds
  unfolding step_power step_short_burst step_media step_continuous maybe_begin maybe_end start_cycle
      finish_cycle
  thresholds-step_power Class.short_burst r at p out = ground arith
  thresholds-step_power Class.cycle_power r at p out = thresholds-step_cycle r at p out
  thresholds-step_power Class.continuous r at p out = ground arith
  thresholds-step_power Class.media r at p out = ground arith
  thresholds-step_power _ r at p out = refl

  thresholds-step_power? :
      (o : Option Num) (r : Runtime) (at : Time) (out : Outcome)
      → (step_power? o r at out).0.thresholds ≡ r.thresholds
  unfolding step_power?
  thresholds-step_power? none r at out = refl
  thresholds-step_power? (some p) r at out = thresholds-step_power r.profile.class r at p out

  thresholds-step_state :
      (o : Option Str) (r : Runtime) (at : Time) (out : Outcome)
      → (step_state o r at out).0.thresholds ≡ r.thresholds
  unfolding step_state step_binary start_cycle finish_cycle
  thresholds-step_state none r at out = refl
  thresholds-step_state (some s) r at out = ground arith

  -- No reading changes the thresholds of a runtime.
  pub thresholds-on_reading :
      (r : Runtime) (at : Time) (reading : Reading)
      → (on_reading r at reading).0.thresholds ≡ r.thresholds
  unfolding on_reading finish_reading report feed refresh_cycle_energy
  thresholds-on_reading r at reading = ground (
    arith,
    thresholds-step_power? reading.power_w (feed r at reading) at (unchanged r),
    thresholds-step_state reading.state (feed r at reading) at (unchanged r),
  )

  pub thresholds-run :
      (r : Runtime) (readings : List (Time × Reading)) → (run r readings).thresholds ≡ r.thresholds
  unfolding run
  thresholds-run r [] = refl
  thresholds-run r ((at, reading) ∷ earlier) =
      thresholds-on_reading (run r earlier) at reading ∙ thresholds-run r earlier
