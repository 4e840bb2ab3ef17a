-- ===== src/Device/Sustained/Readings.antt =====
-- A device with hysteresis over all its readings (internal/device/statemachine.go).
use statehouse.Prelude.{
  Float64, Num, Option, some, none, true, false, ◌≡◌, refl, arith, List, [], ◌∷◌, ◌≤ℤ◌,
}
use statehouse.Time.{Time, Duration, elapsed}
use statehouse.Device.Class.{Class, is_passive_sensor}
use statehouse.Device.Profile.{Profile}
use statehouse.Device.Runtime.{
  Runtime, Outcome, new_runtime, deref_f64, deref_dur, refresh_cycle_energy,
}
use statehouse.Device.Steps.{
  Step, step_power, step_power?, is_binary, on_reading, finish_reading, feed,
}
use statehouse.Device.Invariant.{IsConsistent, feed-IsConsistent, new_runtime-IsConsistent}
use statehouse.Device.Run.{run, run-IsConsistent, profile-run, thresholds-run}
use statehouse.Device.Transitions.Readings.{feed_facts}
use statehouse.Device.Sustained.{
  History, HeldSince, CandidateHeld, active_threshold, held_from, has_hysteresis,
}
use statehouse.Device.Sustained.Steps.{
  Begins, add_sample, power_history, step_short_burst-Begins, step_media-Begins, step_cycle-Begins,
}
use statehouse.Model.Reading.{Reading}

module _ ⦃fl : Float64⦄ where
  step_power-Begins :
      (c : Class) (r : Runtime) (at : Time) (p : Num) (h : History) (out : Outcome)
      → has_hysteresis c ≡ true
      → IsConsistent r
      → out.cycle_started ≡ false
      → CandidateHeld (active_threshold r) r.candidate h
      → let (r', out') = step_power c r at p out in Begins r at ((at, p) ∷ h) r' out'
  unfolding step_power
  step_power-Begins Class.short_burst r at p h out _ = step_short_burst-Begins r at p h out
  step_power-Begins Class.cycle_power r at p h out _ = step_cycle-Begins r at p h out
  step_power-Begins Class.media r at p h out _ = step_media-Begins r at p h out
  step_power-Begins _ r at p h out e = cc

  step_power?-Begins :
      (o : Option Num) (r : Runtime) (at : Time) (h : History) (out : Outcome)
      → has_hysteresis r.profile.class ≡ true
      → IsConsistent r
      → out.cycle_started ≡ false
      → CandidateHeld (active_threshold r) r.candidate h
      → let (r', out') = step_power? o r at out in Begins r at (add_sample at o h) r' out'
  unfolding step_power?
  step_power?-Begins none r at h out e v f held = record {
    held = held;
    since = λ s. cc;
    long = λ s. cc;
  }
  step_power?-Begins (some p) r at h out e v f held =
      step_power-Begins r.profile.class r at p h out e v f held

  -- The candidate and the thresholds are all that `Begins` reads of the runtimes.
  transfer-Begins :
      (r f : Runtime) (at : Time) (h : History) (s : Step)
      → f.candidate ≡ r.candidate
      → f.thresholds ≡ r.thresholds
      → Begins f at h s.0 s.1
      → Begins r at h (finish_reading at s).0 (finish_reading at s).1
  unfolding finish_reading refresh_cycle_energy
  transfer-Begins r f at h (r', out) c t b = ground arith

  has_hysteresis_powered :
      (c : Class) → has_hysteresis c ≡ true → (is_binary c ≡ false) × (is_passive_sensor c ≡ false)
  unfolding is_binary is_passive_sensor
  has_hysteresis_powered c e = ground arith

  on_reading-Begins :
      (r : Runtime) (at : Time) (reading : Reading) (h : History)
      → has_hysteresis r.profile.class ≡ true
      → IsConsistent r
      → CandidateHeld (active_threshold r) r.candidate h
      → let (r', out) = on_reading r at reading in
        Begins r at (add_sample at reading.power_w h) r' out
  unfolding on_reading
  on_reading-Begins r at reading h e v held =
      let fed = feed r at reading in
      let facts = feed_facts r at reading in
      let powered = has_hysteresis_powered r.profile.class e in
      rw (powered.0, powered.1)
        (transfer-Begins r fed at _ _ facts.3 facts.4 (
          step_power?-Begins reading.power_w fed at h _ (rw facts.2 e)
            (feed-IsConsistent r at reading v) refl (rw (facts.3, facts.4) held)))

  module _ (p : Profile) (gap : Duration) (hysteresis : has_hysteresis p.class ≡ true) where
    abbrev device : List (Time × Reading) → Runtime
    device earlier = run (new_runtime p gap) earlier

    device-has_hysteresis :
        (earlier : List (Time × Reading)) → has_hysteresis (device earlier).profile.class ≡ true
    unfolding new_runtime
    device-has_hysteresis earlier =
        rw (profile-run (new_runtime p gap) earlier (new_runtime-IsConsistent p gap)) hysteresis

    device-IsConsistent : (earlier : List (Time × Reading)) → IsConsistent (device earlier)
    device-IsConsistent earlier =
        run-IsConsistent (new_runtime p gap) earlier (new_runtime-IsConsistent p gap)

    device_thresholds :
        (earlier : List (Time × Reading)) → (device earlier).thresholds ≡ p.thresholds
    unfolding new_runtime
    device_thresholds earlier = thresholds-run (new_runtime p gap) earlier

    device_held :
        (earlier : List (Time × Reading))
        → CandidateHeld
            (active_threshold (device earlier))
            (device earlier).candidate
            (power_history earlier)
    unfolding run new_runtime
    device_held [] = tt
    device_held ((at, reading) ∷ earlier) =
        let b =
          on_reading-Begins (device earlier) at reading (power_history earlier)
            (device-has_hysteresis earlier) (device-IsConsistent earlier) (device_held earlier) in
        rw (device_thresholds ((at, reading) ∷ earlier)) (rw (device_thresholds earlier) at b.held)

  -- Where a reading starts a cycle of a device of a class with hysteresis (short burst, cycle or
  -- media) that was created with its profile, whatever it sent before: from some instant on, all
  -- its power samples, this one included, reach the active threshold, and that instant lies at
  -- least ActiveSustainedFor back.
  pub cycle_started_sustained :
      (p : Profile) (gap : Duration) (earlier : List (Time × Reading)) (at : Time)
      (reading : Reading)
      → has_hysteresis p.class ≡ true
      → (on_reading (run (new_runtime p gap) earlier) at reading).1.cycle_started ≡ true
      → (t : Time) × HeldSince
          (deref_f64 p.thresholds.active_above_w)
          t
          (power_history ((at, reading) ∷ earlier))
        × (deref_dur p.thresholds.active_sustained_for ≤ℤ elapsed at t)
  cycle_started_sustained p gap earlier at reading e started =
      let r = run (new_runtime p gap) earlier in
      let b =
        on_reading-Begins r at reading (power_history earlier)
          (device-has_hysteresis p gap e earlier) (device-IsConsistent p gap e earlier)
          (device_held p gap e earlier) in
      let th = device_thresholds p gap e earlier in
      (held_from r.candidate at, rw th at (b.since started), rw th at (b.long started))
