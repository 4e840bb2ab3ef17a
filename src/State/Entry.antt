-- ===== src/State/Entry.antt =====
-- One device's entry under the store's write lock: the bodies that IngestReading, Tick and
-- EnsureDiscovered run on it, and the derived events that a reading leads to
-- (internal/state/engine.go). EnsureDiscovered installs a runtime with every entry, so an entry's
-- runtime is not optional here.
pub mod Events
pub mod Mirror
pub mod Record
use statehouse.Prelude.{
  Float64, Num, ◌<f◌, ◌≤f◌, ◌==f◌, constant, Option, some, none, Bool, true, false, not, ◌&&◌, ◌||◌,
  ℤ, pos, leb_ℤ, if◌then◌else◌, is_some, Str,
}
use statehouse.Time.{Time, Duration}
use statehouse.Energy.Strategy.{Strategy, divergence_pct}
use statehouse.Device.Profile.{Profile}
use statehouse.Device.Runtime.{
  Runtime, Outcome, no_energy, seed_counter, mark_divergence, mark_stale_counter,
}
use statehouse.Device.Steps.{on_reading}
use statehouse.Device.Steps
use statehouse.Model.Activity.{DeviceActivityState, same_state}
use statehouse.Model.Reading.{Reading}
use statehouse.Model.Device.{
  Device, Activity, Latest, Lifetime, Extremum, Cycle, CycleEnergy, observe_max, observe_min,
}
use statehouse.State.Availability.{Contact, seen}
use statehouse.State.Availability

unfoldable pub is_counter : Strategy → Bool
is_counter Strategy.counter = true
is_counter _ = false

module _ ⦃fl : Float64⦄ where
  pub record DeviceEntry : Type 0 where
    pub device : Device
    pub runtime : Runtime
    pub availability_offline_at : Option Time

  abbrev pub contact : DeviceEntry → Contact
  contact e = record {
    availability = e.device.availability;
    offline_at = e.availability_offline_at;
  }

  abbrev pub with_contact : DeviceEntry → Contact → DeviceEntry
  with_contact e c = record e {
    device = record (e.device) { availability = c.availability };
    availability_offline_at = c.offline_at;
  }

  -- `if reading.X != nil { v := *reading.X; l.X = &v }`
  abbrev pub or_keep {ℓ} : {A : Type ℓ} → Option A → Option A → Option A
  or_keep none old = old
  or_keep (some v) old = some v

  unfoldable pub latest_after : Latest → Reading → Latest
  latest_after l reading = record {
    power_w = or_keep reading.power_w l.power_w;
    voltage_v = or_keep reading.voltage_v l.voltage_v;
    energy_kwh = or_keep reading.energy_kwh l.energy_kwh;
    temperature_c = or_keep reading.temperature_c l.temperature_c;
    humidity_pct = or_keep reading.humidity_pct l.humidity_pct;
    pressure_hpa = or_keep reading.pressure_hpa l.pressure_hpa;
    wind_speed_ms = or_keep reading.wind_speed_ms l.wind_speed_ms;
    wind_dir_deg = or_keep reading.wind_dir_deg l.wind_dir_deg;
    rainfall_mm = or_keep reading.rainfall_mm l.rainfall_mm;
    illuminance_lux = or_keep reading.illuminance_lux l.illuminance_lux;
    uv_index = or_keep reading.uv_index l.uv_index;
    battery_runtime_mins = or_keep reading.battery_runtime_mins l.battery_runtime_mins;
    on_battery = or_keep reading.on_battery l.on_battery;
    low_battery = or_keep reading.low_battery l.low_battery;
    smoke = or_keep reading.smoke l.smoke;
    tamper = or_keep reading.tamper l.tamper;
    battery_pct = or_keep reading.battery l.battery_pct;
    link_quality = or_keep reading.link_quality l.link_quality;
    rssi = or_keep reading.rssi l.rssi;
    last_seen = reading.timestamp;
  }

  abbrev no_lifetime : Lifetime
  no_lifetime = record {
    max_power = none;
    min_temperature = none;
    max_temperature = none;
    min_humidity = none;
    max_humidity = none;
  }

  abbrev pub lifetime_of : Option Lifetime → Lifetime
  lifetime_of none = no_lifetime
  lifetime_of (some lt) = lt

  abbrev high : Option Num → Option Extremum → Time → Option Extremum
  high none e t = e
  high (some v) e t = observe_max e v t

  abbrev low : Option Num → Option Extremum → Time → Option Extremum
  low none e t = e
  low (some v) e t = observe_min e v t

  unfoldable pub lifetime_after : Option Lifetime → Reading → Option Lifetime
  lifetime_after lt reading =
      let l = lifetime_of lt in
      let t = reading.timestamp in
      if is_some reading.power_w || is_some reading.temperature_c || is_some reading.humidity_pct
      then some (record {
        max_power = high reading.power_w l.max_power t;
        min_temperature = low reading.temperature_c l.min_temperature t;
        max_temperature = high reading.temperature_c l.max_temperature t;
        min_humidity = low reading.humidity_pct l.min_humidity t;
        max_humidity = high reading.humidity_pct l.max_humidity t;
      })
      else lt

  abbrev changed_at : Activity → DeviceActivityState → Time → Activity
  changed_at a s t = record { state = s; since = t; last_changed = t; confidence = constant 9 10 }

  abbrev is_unknown : DeviceActivityState → Bool
  is_unknown s = same_state s DeviceActivityState.unknown

  unfoldable pub activity_after : Activity → Outcome → Time → Activity
  activity_after a out t =
      if not (same_state out.new_activity out.prev_activity)
      then changed_at a out.new_activity t
      else if not (is_unknown out.new_activity) && is_unknown a.state
      then changed_at a out.new_activity t
      else a

  abbrev pub energy_of : Option Cycle → CycleEnergy
  energy_of none = no_energy
  energy_of (some c) = c.energy

  abbrev pub duration_of : Option Cycle → ℤ
  duration_of none = pos 0
  duration_of (some c) = c.duration_seconds

  -- What a reading did to an entry.
  pub record Ingested : Type 0 where
    pub entry : DeviceEntry
    pub outcome : Outcome
    pub divergence_hit : Option Num
    pub stale_counter_hit : Bool

  abbrev with_cycle : DeviceEntry → Option Cycle → DeviceEntry
  with_cycle e c = record e { device = record (e.device) { cycle = c } }

  -- The writes of a warning: the runtime's cycle is marked, the outcome shares it, and the device
  -- gets a copy.
  abbrev marked : DeviceEntry → Outcome → Runtime → DeviceEntry × Outcome
  marked e out rt = (
    record e { runtime = rt; device = record (e.device) { cycle = rt.cycle } },
    record out { cycle = rt.cycle },
  )

  -- The divergence check, on a device whose cycle has been copied.
  unfoldable pub check_divergence : Num → DeviceEntry → Outcome → Ingested
  unfolding is_counter
  check_divergence warning_pct e out =
      let energy = energy_of e.device.cycle in
      let pct = divergence_pct energy.reported_kwh_delta energy.integrated_kwh in
      let (e', out') = marked e out (mark_divergence e.runtime pct) in
      if out.cycle_finished
        && is_some e.device.cycle
        && constant 0 1 <f energy.reported_kwh_delta
        && is_counter e.runtime.profile.strategy
        && warning_pct ≤f pct
      then record {
        entry = e';
        outcome = out';
        divergence_hit = some pct;
        stale_counter_hit = false;
      }
      else record { entry = e; outcome = out; divergence_hit = none; stale_counter_hit = false }

  -- The stale counter check: at least 1 Wh integrated, or 30 seconds.
  unfoldable pub check_stale_counter : Ingested → Ingested
  unfolding is_counter
  check_stale_counter i =
      let energy = energy_of i.entry.device.cycle in
      let (e', out') = marked i.entry i.outcome (mark_stale_counter i.entry.runtime) in
      if i.outcome.cycle_finished
        && is_some i.entry.device.cycle
        && is_counter i.entry.runtime.profile.strategy
        && energy.reported_kwh_delta ==f constant 0 1
        && (constant 1 1000 ≤f energy.integrated_kwh
            || leb_ℤ (pos 30) (duration_of i.entry.device.cycle))
      then record i { entry = e'; outcome = out'; stale_counter_hit = true }
      else i

  seeded : Runtime → Option Num → Runtime
  seeded rt none = rt
  seeded rt (some v) = seed_counter rt v

  -- The writes between OnReading and the checks.
  unfoldable pub recorded : DeviceEntry → Runtime → Outcome → Reading → DeviceEntry
  unfolding seen
  recorded e rt out reading =
      let c = seen (contact e) in
      record {
        device = record (e.device) {
          availability = c.availability;
          latest = latest_after e.device.latest reading;
          lifetime = lifetime_after e.device.lifetime reading;
          activity = activity_after e.device.activity out reading.timestamp;
          cycle = or_keep out.cycle e.device.cycle;
        };
        runtime = rt;
        availability_offline_at = c.offline_at;
      }

  -- The body that IngestReading runs on the entry; the reading's timestamp is set.
  unfoldable pub ingest_entry : Num → DeviceEntry → Reading → Ingested
  unfolding seeded
  ingest_entry warning_pct e reading =
      let (rt, out) = on_reading (seeded e.runtime reading.energy_kwh) reading.timestamp reading in
      check_stale_counter (check_divergence warning_pct (recorded e rt out reading) out)

  -- The body that Tick runs on the entry: whether availability changed, and the runtime's outcome.
  unfoldable pub tick_entry : Duration → Time → DeviceEntry → DeviceEntry × Bool × Outcome
  tick_entry debounce now e =
      let (c, matured) = Availability.tick debounce now (contact e) in
      let (rt, out) = Steps.tick e.runtime now in
      let e' = record (with_contact e c) { runtime = rt } in
      let a = e.device.activity in
      let activity' = record a { state = out.new_activity; last_changed = now; since = now } in
      if not (same_state out.prev_activity out.new_activity)
      then (record e' { device = record (e'.device) { activity = activity' } }, matured, out)
      else (e', matured, out)

  -- The reset of a phantom entry whose real primary has been learned.
  unfoldable pub reset_phantom : DeviceEntry → DeviceEntry
  reset_phantom e = record e {
    device = record (e.device) {
      activity = record {
        state = DeviceActivityState.unknown;
        since = 0;
        last_changed = 0;
        confidence = constant 0 1;
      };
      cycle = none;
    };
  }
