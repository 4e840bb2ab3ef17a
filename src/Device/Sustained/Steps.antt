-- ===== src/Device/Sustained/Steps.antt =====
-- maybeBegin's debt to the samples, carried through OnReading and a whole run of readings
-- (internal/device/statemachine.go).
use statehouse.Prelude.{
  Float64, Num, Option, some, none, true, false, ◌≡◌, arith, List, [], ◌∷◌, ◌≤ℤ◌,
}
use statehouse.Time.{Time, elapsed}
use statehouse.Device.Runtime.{Runtime, Outcome, start_cycle, finish_cycle}
use statehouse.Device.Hysteresis.{maybe_begin}
use statehouse.Device.Steps.{step_short_burst, step_media, step_cycle, decay}
use statehouse.Device.Invariant.{IsConsistent}
use statehouse.Device.Sustained.{
  History, HeldSince, CandidateHeld, active_threshold, sustained_for, held_from, maybe_begin_held,
  maybe_end_held,
}
use statehouse.Model.Reading.{Reading}

module _ ⦃fl : Float64⦄ where
  abbrev pub add_sample : Time → Option Num → History → History
  add_sample at none h = h
  add_sample at (some p) h = (at, p) ∷ h

  -- The power samples among the readings so far, newest first.
  abbrev pub power_history : List (Time × Reading) → History
  power_history [] = []
  power_history ((at, reading) ∷ earlier) = add_sample at reading.power_w (power_history earlier)

  -- The runtime `r` and its outcome after a sample, against the candidate and thresholds before it.
  pub record Begins (before : Runtime) (at : Time) (h : History) (r : Runtime) (out : Outcome)
      : Type 0 where
    pub held : CandidateHeld (active_threshold before) r.candidate h
    pub since :
        out.cycle_started ≡ true
        → HeldSince (active_threshold before) (held_from before.candidate at) h
    pub long :
        out.cycle_started ≡ true
        → sustained_for before ≤ℤ elapsed at (held_from before.candidate at)

  pub step_short_burst-Begins :
      (r : Runtime) (at : Time) (p : Num) (h : History) (out : Outcome)
      → IsConsistent r
      → out.cycle_started ≡ false
      → CandidateHeld (active_threshold r) r.candidate h
      → let (r', out') = step_short_burst r at p out in Begins r at ((at, p) ∷ h) r' out'
  unfolding step_short_burst start_cycle finish_cycle
  step_short_burst-Begins r at p h out v f held =
      let r₁ = (maybe_begin r at p).0 in
      let th = active_threshold r in
      ground (arith, maybe_begin_held r at p h v held, maybe_end_held r₁ at p th ((at, p) ∷ h))

  pub step_media-Begins :
      (r : Runtime) (at : Time) (p : Num) (h : History) (out : Outcome)
      → IsConsistent r
      → out.cycle_started ≡ false
      → CandidateHeld (active_threshold r) r.candidate h
      → let (r', out') = step_media r at p out in Begins r at ((at, p) ∷ h) r' out'
  unfolding step_media start_cycle finish_cycle
  step_media-Begins r at p h out v f held =
      let r₁ = (maybe_begin r at p).0 in
      let th = active_threshold r in
      ground (arith, maybe_begin_held r at p h v held, maybe_end_held r₁ at p th ((at, p) ∷ h))

  pub step_cycle-Begins :
      (r : Runtime) (at : Time) (p : Num) (h : History) (out : Outcome)
      → IsConsistent r
      → out.cycle_started ≡ false
      → CandidateHeld (active_threshold r) r.candidate h
      → let (r', out') = step_cycle r at p out in Begins r at ((at, p) ∷ h) r' out'
  unfolding step_cycle decay start_cycle finish_cycle
  step_cycle-Begins r at p h out v f held =
      let r₁ = (maybe_begin r at p).0 in
      let th = active_threshold r in
      ground (arith, maybe_begin_held r at p h v held, maybe_end_held r₁ at p th ((at, p) ∷ h))
