-- ===== src/Device/Runtime.antt =====
-- The working state of a device and its cycle bookkeeping (internal/device/statemachine.go).
-- A method that writes through `*Runtime` returns the new runtime. The source shares one `*Cycle`
-- between the runtime and the outcome of a reading; the outcome is read before the next write, so
-- a copy of the value is the same.
use statehouse.Prelude.{
  Float64, Num, ◌<f◌, ◌-f◌, constant, seconds, to_int, Option, some, none, Bool, true, false, ℕ, ℤ,
  pos, if◌then◌else◌, get_or_else,
}
use statehouse.Time.{Time, Duration, elapsed}
use statehouse.Energy.Counter.{Counter}
use statehouse.Energy.Counter
use statehouse.Energy.Integration.{Integrator, Snapshot, new_integrator, snapshot_state}
use statehouse.Energy.Strategy.{select_kwh, unset}
use statehouse.Device.Profile.{Profile, Thresholds}
use statehouse.Model.Activity.{DeviceActivityState}
use statehouse.Model.Device.{Cycle, CycleEnergy}

module _ ⦃fl : Float64⦄ where
  pub record CandidateSample : Type 0 where
    pub at : Time
    pub power_w : Num
    pub above_prev_hi : Bool
    pub below_prev_lo : Bool

  pub record Runtime : Type 0 where
    pub profile : Profile
    pub thresholds : Thresholds
    pub activity : DeviceActivityState
    pub active_since : Time
    pub candidate : Option CandidateSample
    pub finished_low_count : ℕ
    pub counter : Counter
    pub integrator : Integrator
    pub cycle : Option Cycle
    pub cycle_start_integrator_snap : Snapshot

  pub record Outcome : Type 0 where
    pub prev_activity : DeviceActivityState
    pub new_activity : DeviceActivityState
    pub cycle_started : Bool
    pub cycle_finished : Bool
    pub cycle : Option Cycle

  unfoldable pub new_runtime : Profile → Duration → Runtime
  unfolding Counter.fresh new_integrator
  new_runtime p max_gap = record {
    profile = p;
    thresholds = p.thresholds;
    activity = DeviceActivityState.unknown;
    active_since = 0;
    candidate = none;
    finished_low_count = 0;
    counter = Counter.fresh;
    integrator = new_integrator max_gap;
    cycle = none;
    cycle_start_integrator_snap = record { total = constant 0 1; gaps_clamped = 0 };
  }

  abbrev pub deref_f64 : Option Num → Num
  deref_f64 v = get_or_else v (constant 0 1)

  abbrev pub deref_dur : Option Duration → Duration
  deref_dur d = get_or_else d (pos 0)

  -- `p != nil && p.Active`
  abbrev pub is_active : Option Cycle → Bool
  is_active none = false
  is_active (some c) = c.active

  abbrev pub no_energy : CycleEnergy
  no_energy = record {
    primary_source = unset;
    reported_kwh_delta = constant 0 1;
    integrated_kwh = constant 0 1;
    selected_kwh = constant 0 1;
    divergence_pct = constant 0 1;
    divergence_warning = false;
    stale_counter = false;
  }

  abbrev whole_seconds : Time → Time → ℤ
  whole_seconds at from = to_int (seconds (elapsed at from))

  -- The energy of a cycle as `refreshCycleEnergy` computes it.
  unfoldable pub measured_energy : Runtime → CycleEnergy
  measured_energy r =
      let counter_kwh = Counter.delta r.counter in
      let raw = r.integrator.total -f r.cycle_start_integrator_snap.total in
      let integrated_kwh = if raw <f constant 0 1 then constant 0 1 else raw in
      let (selected, source) = select_kwh r.profile.strategy counter_kwh integrated_kwh in
      record no_energy {
        primary_source = source;
        reported_kwh_delta = counter_kwh;
        integrated_kwh = integrated_kwh;
        selected_kwh = selected;
      }

  refreshed : Runtime → Time → Cycle → Cycle
  refreshed r at c = record c {
    energy = measured_energy r;
    duration_seconds = if c.active then whole_seconds at c.started_at else c.duration_seconds;
  }

  abbrev on_cycle : Option Cycle → (Cycle → Cycle) → Option Cycle
  on_cycle none f = none
  on_cycle (some c) f = some (f c)

  unfoldable pub refresh_cycle_energy : Runtime → Time → Runtime
  unfolding refreshed
  refresh_cycle_energy r at = record r { cycle = on_cycle r.cycle (refreshed r at) }

  unfoldable pub start_cycle : Runtime → Time → Runtime
  start_cycle r at = record r {
    finished_low_count = 0;
    cycle = some (record {
      active = true;
      started_at = at;
      finished_at = none;
      duration_seconds = pos 0;
      energy = no_energy;
    });
    active_since = at;
    counter = Counter.rebaseline_at_latest r.counter;
    cycle_start_integrator_snap = snapshot_state r.integrator;
  }

  closed : Time → Cycle → Cycle
  closed at c = record c {
    active = false;
    finished_at = some at;
    duration_seconds = whole_seconds at c.started_at;
  }

  unfoldable pub finish_cycle : Runtime → Time → Runtime
  unfolding closed refresh_cycle_energy
  finish_cycle r at = refresh_cycle_energy (record r { cycle = on_cycle r.cycle (closed at) }) at

  unfoldable pub seed_counter : Runtime → Num → Runtime
  seed_counter r v =
      if is_active r.cycle then r else record r { counter = Counter.set_baseline r.counter v }

  unfoldable pub mark_divergence : Runtime → Num → Runtime
  mark_divergence r pct = record r {
    cycle = on_cycle r.cycle (λ c. record c {
      energy = record (c.energy) { divergence_pct = pct; divergence_warning = true };
    });
  }

  unfoldable pub mark_stale_counter : Runtime → Runtime
  mark_stale_counter r = record r {
    cycle =
        on_cycle r.cycle (λ c. record c { energy = record (c.energy) { stale_counter = true } });
  }
