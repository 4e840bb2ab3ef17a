-- ===== src/Device/Reload.antt =====
-- A reload of the configuration and the thresholds in use (EnsureDiscovered in
-- internal/state/engine.go, over internal/device/statemachine.go).
use statehouse.Prelude.{
  Float64, Num, Option, some, none, true, ◌≡◌, refl, arith, List, [], ◌∷◌, Str, if◌then◌else◌,
}
use statehouse.Time.{Time, Duration}
use statehouse.Device.Class.{Class, same_class}
use statehouse.Device.Profile.{Profile, Thresholds}
use statehouse.Device.Runtime.{
  Runtime, Outcome, new_runtime, start_cycle, finish_cycle, refresh_cycle_energy, measured_energy,
}
use statehouse.Device.Hysteresis.{maybe_begin, maybe_end}
use statehouse.Device.Steps.{
  Step, unchanged, step_short_burst, step_media, step_cycle, step_continuous, step_binary, decay,
  step_power, step_power?, step_state, report, on_reading, finish_reading, feed,
}
use statehouse.Model.Reading.{Reading}

module _ ⦃fl : Float64⦄ where
  -- The runtime of a known device under a profile that differs in its thresholds only.
  abbrev pub with_thresholds : Runtime → Thresholds → Runtime
  with_thresholds r th = record r { profile = record (r.profile) { thresholds = th } }

  abbrev on_step : Step → Thresholds → Step
  on_step (r, out) th = (with_thresholds r th, out)

  maybe_begin-with_thresholds :
      (r : Runtime) (th : Thresholds) (at : Time) (p : Num)
      → let (r', b) = maybe_begin r at p in
        maybe_begin (with_thresholds r th) at p ≡ (with_thresholds r' th, b)
  unfolding maybe_begin
  maybe_begin-with_thresholds r th at p = ground arith

  maybe_end-with_thresholds :
      (r : Runtime) (th : Thresholds) (at : Time) (p : Num)
      → let (r', b) = maybe_end r at p in
        maybe_end (with_thresholds r th) at p ≡ (with_thresholds r' th, b)
  unfolding maybe_end
  maybe_end-with_thresholds r th at p = ground arith

  refresh_cycle_energy-with_thresholds :
      (r : Runtime) (th : Thresholds) (at : Time)
      → refresh_cycle_energy (with_thresholds r th) at
        ≡ with_thresholds (refresh_cycle_energy r at) th
  unfolding refresh_cycle_energy measured_energy
  refresh_cycle_energy-with_thresholds r th at = ground arith

  step_short_burst-with_thresholds :
      (r : Runtime) (th : Thresholds) (at : Time) (p : Num) (out : Outcome)
      → step_short_burst (with_thresholds r th) at p out ≡ on_step (step_short_burst r at p out) th
  unfolding step_short_burst start_cycle finish_cycle measured_energy
  step_short_burst-with_thresholds r th at p out =
      let r₁ = (maybe_begin r at p).0 in
      ground (arith, maybe_begin-with_thresholds r th at p, maybe_end-with_thresholds r₁ th at p)

  step_media-with_thresholds :
      (r : Runtime) (th : Thresholds) (at : Time) (p : Num) (out : Outcome)
      → step_media (with_thresholds r th) at p out ≡ on_step (step_media r at p out) th
  unfolding step_media start_cycle finish_cycle measured_energy
  step_media-with_thresholds r th at p out =
      let r₁ = (maybe_begin r at p).0 in
      ground (arith, maybe_begin-with_thresholds r th at p, maybe_end-with_thresholds r₁ th at p)

  step_cycle-with_thresholds :
      (r : Runtime) (th : Thresholds) (at : Time) (p : Num) (out : Outcome)
      → step_cycle (with_thresholds r th) at p out ≡ on_step (step_cycle r at p out) th
  unfolding step_cycle decay start_cycle finish_cycle measured_energy
  step_cycle-with_thresholds r th at p out =
      let r₁ = (maybe_begin r at p).0 in
      ground (arith, maybe_begin-with_thresholds r th at p, maybe_end-with_thresholds r₁ th at p)

  step_continuous-with_thresholds :
      (r : Runtime) (th : Thresholds) (at : Time) (p : Num) (out : Outcome)
      → step_continuous (with_thresholds r th) at p out ≡ on_step (step_continuous r at p out) th
  unfolding step_continuous start_cycle finish_cycle measured_energy
  step_continuous-with_thresholds r th at p out = ground arith

  step_binary-with_thresholds :
      (r : Runtime) (th : Thresholds) (at : Time) (s : Str) (out : Outcome)
      → step_binary (with_thresholds r th) at s out ≡ on_step (step_binary r at s out) th
  unfolding step_binary start_cycle finish_cycle measured_energy
  step_binary-with_thresholds r th at s out = ground arith

  step_power-with_thresholds :
      (c : Class) (r : Runtime) (th : Thresholds) (at : Time) (p : Num) (out : Outcome)
      → step_power c (with_thresholds r th) at p out ≡ on_step (step_power c r at p out) th
  unfolding step_power
  step_power-with_thresholds Class.short_burst = step_short_burst-with_thresholds
  step_power-with_thresholds Class.cycle_power = step_cycle-with_thresholds
  step_power-with_thresholds Class.continuous = step_continuous-with_thresholds
  step_power-with_thresholds Class.media = step_media-with_thresholds
  step_power-with_thresholds _ = λ r th at p out. refl

  step_power?-with_thresholds :
      (o : Option Num) (r : Runtime) (th : Thresholds) (at : Time) (out : Outcome)
      → step_power? o (with_thresholds r th) at out ≡ on_step (step_power? o r at out) th
  unfolding step_power?
  step_power?-with_thresholds none r th at out = refl
  step_power?-with_thresholds (some p) r th at out =
      step_power-with_thresholds r.profile.class r th at p out

  step_state-with_thresholds :
      (o : Option Str) (r : Runtime) (th : Thresholds) (at : Time) (out : Outcome)
      → step_state o (with_thresholds r th) at out ≡ on_step (step_state o r at out) th
  unfolding step_state
  step_state-with_thresholds none r th at out = refl
  step_state-with_thresholds (some s) r th at out = step_binary-with_thresholds r th at s out

  finish_reading-with_thresholds :
      (s : Step) (th : Thresholds) (at : Time)
      → finish_reading at (on_step s th) ≡ on_step (finish_reading at s) th
  unfolding finish_reading
  finish_reading-with_thresholds (r, out) th at =
      ground (arith, refresh_cycle_energy-with_thresholds r th at)

  report-with_thresholds :
      (r : Runtime) (th : Thresholds) (out : Outcome)
      → report (with_thresholds r th) out ≡ on_step (report r out) th
  unfolding report
  report-with_thresholds r th out = ground arith

  feed-with_thresholds :
      (r : Runtime) (th : Thresholds) (at : Time) (reading : Reading)
      → feed (with_thresholds r th) at reading ≡ with_thresholds (feed r at reading) th
  unfolding feed
  feed-with_thresholds r th at reading = ground arith

  on_reading-with_thresholds :
      (r : Runtime) (th : Thresholds) (at : Time) (reading : Reading)
      → on_reading (with_thresholds r th) at reading ≡ on_step (on_reading r at reading) th
  unfolding on_reading
  on_reading-with_thresholds r th at reading =
      let fed = feed r at reading in
      let out = unchanged r in
      ground (
        arith,
        feed-with_thresholds r th at reading,
        step_state-with_thresholds reading.state fed th at out,
        step_power?-with_thresholds reading.power_w fed th at out,
        report-with_thresholds fed th out,
        finish_reading-with_thresholds (step_state reading.state fed at out) th at,
        finish_reading-with_thresholds (step_power? reading.power_w fed at out) th at,
      )

  -- The outcomes of readings given in order.
  unfoldable pub outcomes : Runtime → List (Time × Reading) → List Outcome
  outcomes r [] = []
  outcomes r ((at, reading) ∷ later) =
      let (r', out) = on_reading r at reading in out ∷ outcomes r' later

  -- The runtime that EnsureDiscovered keeps for a known device: a new one if the class changed, and
  -- the old one with the new profile otherwise.
  unfoldable pub refresh_runtime : Runtime → Profile → Duration → Runtime
  refresh_runtime r p max_gap =
      if same_class r.profile.class p.class then record r { profile = p } else new_runtime p max_gap

  outcomes-with_thresholds :
      (r : Runtime) (th : Thresholds) (readings : List (Time × Reading))
      → outcomes (with_thresholds r th) readings ≡ outcomes r readings
  unfolding outcomes
  outcomes-with_thresholds r th [] = refl
  outcomes-with_thresholds r th ((at, reading) ∷ later) = ground (
    arith,
    on_reading-with_thresholds r th at reading,
    outcomes-with_thresholds (on_reading r at reading).0 th later,
  )

  -- A reload that keeps the class of a known device applies none of its new thresholds: whatever
  -- they are, every later sequence of readings has the outcomes that it has where they are any
  -- others.
  pub outcomes-refresh_runtime :
      (r : Runtime) (p : Profile) (th : Thresholds) (max_gap : Duration)
      (readings : List (Time × Reading))
      → same_class r.profile.class p.class ≡ true
      → outcomes (refresh_runtime r (record p { thresholds = th }) max_gap) readings
        ≡ outcomes (refresh_runtime r p max_gap) readings
  unfolding refresh_runtime
  outcomes-refresh_runtime r p th max_gap readings e =
      rw e (outcomes-with_thresholds (record r { profile = p }) th readings)
