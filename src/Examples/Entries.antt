-- ===== src/Examples/Entries.antt =====
-- The theorems on a device's entry, at a kettle.
use statehouse.Prelude.{
  ◌≡◌, refl, true, false, ◌*◌, inl, some, none, pos, is_some, constant, ◌<f◌, ◌==f◌, ℕ, arith,
}
use statehouse.Examples.{milli, second, profile, device, drawing}
use statehouse.Device.Class.{Class, is_passive_sensor}
use statehouse.Device.Runtime.{Runtime, Outcome, new_runtime, no_energy}
use statehouse.Device.Invariant.{IsConsistent}
use statehouse.Device.Hysteresis.{is_busy}
use statehouse.Device.Steps.{unchanged}
use statehouse.Model.Activity.{Availability, DeviceActivityState, same_state}
use statehouse.Model.Device.{Cycle}
use statehouse.Model.Reading.{Reading}
use statehouse.State.Entry.{DeviceEntry, ingest_entry, reset_phantom}
use statehouse.State.Entry.Mirror.{ingest_entry-mirrors, reset_phantom_undone}
use statehouse.State.Entry.Record.{FiniteOrder}

-- A kettle that has been boiling since 10 s.
abbrev boiling : Cycle
boiling = record {
  active = true;
  started_at = 10 * second;
  finished_at = none;
  duration_seconds = pos 5;
  energy = no_energy;
}

abbrev running : Runtime
running = record (new_runtime (profile Class.short_burst) (pos 0)) {
  activity = DeviceActivityState.active;
  active_since = 10 * second;
  cycle = some boiling;
}

running-IsConsistent : IsConsistent running
unfolding new_runtime is_busy same_state
running-IsConsistent = record {
  state_allowed = refl;
  cycle_busy = refl;
  candidate_fits = tt;
  cycle_fits = refl;
  low_count_bounded = omega arith;
  low_count_zero = λ _. refl;
  finished_has_cycle = λ _. refl;
}

abbrev entry : DeviceEntry
entry = record {
  device = record (device Class.short_burst) {
    activity = record {
      state = DeviceActivityState.active;
      since = 10 * second;
      last_changed = 10 * second;
      confidence = 900;
    };
    cycle = some boiling;
  };
  runtime = running;
  availability_offline_at = none;
}

abbrev next : Reading
next = record (drawing 2000) { timestamp = 16 * second }

ingest_entry-mirrors_example :
    let e' = (ingest_entry 20_000 entry next).entry in
    (e'.device.activity.state ≡ e'.runtime.activity)
    × (e'.device.availability ≡ Availability.online)
    × (is_passive_sensor entry.runtime.profile.class ≡ false
        → is_some entry.runtime.cycle ≡ true
        → e'.device.cycle ≡ e'.runtime.cycle)
ingest_entry-mirrors_example =
    ingest_entry-mirrors 20_000 entry next running-IsConsistent (inl refl)

reset_phantom_undone_example :
    let e' = (ingest_entry 20_000 (reset_phantom entry) next).entry in
    (e'.device.activity.state ≡ e'.runtime.activity)
    × (e'.device.cycle ≡ e'.runtime.cycle)
    × (e'.runtime ≡ (ingest_entry 20_000 entry next).entry.runtime)
unfolding new_runtime is_passive_sensor
reset_phantom_undone_example = reset_phantom_undone 20_000 entry next running-IsConsistent refl refl

abbrev ended : Outcome
ended = record (unchanged running) { cycle_finished = true }

positive : (x : ℕ) → (constant 0 1 <f x) ≡ true → (x ==f constant 0 1) ≡ false
positive x h = ground arith

milli_order : FiniteOrder
milli_order = record {
  asym = λ x y h. ground arith;
  not_lt_trans = λ x y z f g h k l. ground arith;
}
