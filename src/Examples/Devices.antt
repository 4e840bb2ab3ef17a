-- ===== src/Examples/Devices.antt =====
-- The theorems on the state machine of a device, at a kettle and a washing machine.
use statehouse.Prelude.{◌≡◌, refl, some, true, false, pos, ◌≤ℤ◌, List, [], ◌∷◌, ◌*◌}
use statehouse.Time.{Time, elapsed}
use statehouse.Examples.{milli, second, drawing, profile, thresholds}
use statehouse.Device.Class.{Class, same_class, is_passive_sensor}
use statehouse.Device.Profile.{Profile}
use statehouse.Device.Runtime.{
  Runtime, Outcome, new_runtime, deref_f64, deref_dur, no_energy, start_cycle, refresh_cycle_energy,
}
use statehouse.Device.Hysteresis.{maybe_begin, maybe_end, is_busy}
use statehouse.Device.Steps.{
  on_reading, feed, step_state, step_power?, step_power, step_short_burst, finish_reading,
  is_binary,
}
use statehouse.Device.Invariant.{IsConsistent, new_runtime-IsConsistent}
use statehouse.Device.Invariant.Readings.{on_reading-IsConsistent}
use statehouse.Device.Run.{run, run-IsConsistent, profile-run}
use statehouse.Device.Transitions.{Transition}
use statehouse.Device.Transitions.Readings.{on_reading-Transition}
use statehouse.Device.Sustained.{HeldSince}
use statehouse.Device.Sustained.Steps.{power_history}
use statehouse.Device.Sustained.Readings.{cycle_started_sustained}
use statehouse.Device.Decay.{IsWaning, IsLow, finished_recently_decays}
use statehouse.Device.Reload.{outcomes, refresh_runtime, outcomes-refresh_runtime}
use statehouse.Model.Activity.{DeviceActivityState, same_state}
use statehouse.Model.Reading.{Reading}

abbrev kettle : Profile
kettle = profile Class.short_burst

abbrev washer : Profile
washer = profile Class.cycle_power

-- 2000 W at 100 s and at 105 s.
abbrev boiling : List (Time × Reading)
boiling = (105 * second, drawing 2000) ∷ (100 * second, drawing 2000) ∷ []

abbrev before_start : Runtime
before_start = run (new_runtime kettle (pos 0)) boiling

abbrev started : Runtime × Outcome
started = on_reading before_start (112 * second) (drawing 2000)

boiling_starts : started.1.cycle_started ≡ true
unfolding on_reading run new_runtime feed step_state step_power? step_power step_short_burst
    maybe_begin finish_reading start_cycle is_binary is_passive_sensor is_busy refresh_cycle_energy
    maybe_end same_state elapsed
boiling_starts = refl

cycle_started_sustained_example :
    (t : Time) × HeldSince
      (deref_f64 thresholds.active_above_w)
      t
      (power_history ((112 * second, drawing 2000) ∷ boiling))
    × (deref_dur thresholds.active_sustained_for ≤ℤ elapsed (112 * second) t)
cycle_started_sustained_example =
    cycle_started_sustained kettle (pos 0) boiling (112 * second) (drawing 2000) refl boiling_starts

on_reading-Transition_example : Transition before_start (112 * second) started.0 started.1
on_reading-Transition_example = on_reading-Transition before_start (112 * second) (drawing 2000) (
    run-IsConsistent (new_runtime kettle (pos 0)) boiling (new_runtime-IsConsistent kettle (pos 0)))

on_reading-IsConsistent_example :
    IsConsistent (on_reading (new_runtime washer (pos 0)) second (drawing 3)).0
on_reading-IsConsistent_example =
    on_reading-IsConsistent (new_runtime washer (pos 0)) second (drawing 3)
      (new_runtime-IsConsistent washer (pos 0))

unchanged_class : same_class before_start.profile.class kettle.class ≡ true
unfolding new_runtime same_class
unchanged_class =
    rw (profile-run (new_runtime kettle (pos 0)) boiling (new_runtime-IsConsistent kettle (pos 0)))
      same_kettle
  where
    same_kettle : same_class kettle.class kettle.class ≡ true
    same_kettle = refl

outcomes-refresh_runtime_example :
    outcomes
      (refresh_runtime before_start
        (record kettle { thresholds = record thresholds { active_above_w = some 1000 } })
        (pos 0))
      ((112 * second, drawing 2000) ∷ [])
    ≡ outcomes (refresh_runtime before_start kettle (pos 0)) ((112 * second, drawing 2000) ∷ [])
outcomes-refresh_runtime_example =
    outcomes-refresh_runtime before_start kettle (record thresholds { active_above_w = some 1000 })
      (pos 0) ((112 * second, drawing 2000) ∷ []) unchanged_class

-- A washing machine that finished at 50 s and then draws 3 W.
abbrev finished : Runtime
finished = record (new_runtime washer (pos 0)) {
  activity = DeviceActivityState.finished_recently;
  cycle = some (record {
    active = false;
    started_at = 10 * second;
    finished_at = some (50 * second);
    duration_seconds = pos 40;
    energy = no_energy;
  });
}

finished-IsWaning : IsWaning finished 0
unfolding new_runtime
finished-IsWaning = record { class = refl; state = refl; count = refl }

finished-IsLow : IsLow finished (drawing 3)
unfolding new_runtime
finished-IsLow = (3000, refl, refl, refl)

finished_recently_decays_example :
    let two : List (Time × Reading) = (70 * second, drawing 3) ∷ (60 * second, drawing 3) ∷ [] in
    ((run finished two).activity ≡ DeviceActivityState.finished_recently)
    × ((run finished ((80 * second, drawing 3) ∷ two)).activity ≡ DeviceActivityState.idle)
    × ((run finished ((80 * second, drawing 3) ∷ two)).finished_low_count ≡ 0)
finished_recently_decays_example =
    finished_recently_decays finished (60 * second) (70 * second) (80 * second) (drawing 3)
      (drawing 3) (drawing 3) finished-IsWaning finished-IsLow finished-IsLow finished-IsLow
