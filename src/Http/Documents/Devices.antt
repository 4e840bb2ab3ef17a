-- ===== src/Http/Documents/Devices.antt =====
-- The document of a device (internal/httpapi/dto.go).
use statehouse.Prelude.{
  Float64, Num, seconds, of_int, ◌≤f◌, Bool, false, not, ◌&&◌, Option, some, none, ℤ, List, [], ◌∷◌,
  ◌++◌, Str, str, str_eq, if◌then◌else◌,
}
use statehouse.Time.{Time, is_zero, elapsed}
use statehouse.Device.Class.{Class, staleness_seconds_for_class}
use statehouse.Energy.Strategy.{Source}
use statehouse.Model.Activity.{Availability, DeviceActivityState}
use statehouse.Model.Identity.{DeviceIdentity, is_empty}
use statehouse.Model.Device.{Device, Activity, Latest, Lifetime, Cycle}
use statehouse.Http.Documents.Ages.{nil_if_zero, ago_int}

-- The room of a device, with the sentinel that is no room.
unfoldable pub place : ⦃fl : Float64⦄ → Device → Str
place d =
    if not (is_empty d.room)
    then d.room
    else if str_eq d.location (str "house")
    then []
    else d.location

unfoldable pub cycle_type_for_class : Class → Str
cycle_type_for_class Class.short_burst = str "appliance_cycle"
cycle_type_for_class Class.cycle_power = str "appliance_cycle"
cycle_type_for_class Class.media = str "appliance_cycle"
cycle_type_for_class Class.continuous = str "compressor_cycle"
cycle_type_for_class Class.binary_state = str "binary_cycle"
cycle_type_for_class _ = str "unknown"

module _ ⦃fl : Float64⦄ where
  pub record ActivityResponse : Type 0 where
    pub state : DeviceActivityState
    pub last_changed : Option Time
    pub last_changed_ago : Option ℤ
    pub confidence : Num

  pub record LatestResponse : Type 0 where
    pub power_w : Option Num
    pub voltage_v : Option Num
    pub energy_kwh : Option Num
    pub temperature_c : Option Num
    pub humidity_pct : Option Num
    pub pressure_hpa : Option Num
    pub wind_speed_ms : Option Num
    pub wind_dir_deg : Option Num
    pub rainfall_mm : Option Num
    pub illuminance_lux : Option Num
    pub uv_index : Option Num
    pub battery_runtime_mins : Option Num
    pub on_battery : Option Bool
    pub low_battery : Option Bool
    pub smoke : Option Bool
    pub tamper : Option Bool
    pub battery_pct : Option Num
    pub link_quality : Option ℤ
    pub rssi : Option ℤ
    pub last_seen : Option Time
    pub last_seen_ago : Option ℤ
    pub stale : Bool

  pub record DivergenceResponse : Type 0 where
    pub status : Str
    pub reason : Str
    pub pct : Option Num
    pub warning : Option Bool

  pub record CycleEnergyResponse : Type 0 where
    pub primary_source : Source
    pub reported_kwh_delta : Num
    pub integrated_kwh : Num
    pub selected_kwh : Num
    pub stale_counter : Bool
    pub divergence : DivergenceResponse

  pub record CycleResponse : Type 0 where
    pub type : Str
    pub active : Bool
    pub started_at : Option Time
    pub finished_at : Option Time
    pub duration_seconds : ℤ
    pub energy : CycleEnergyResponse

  -- The aggregates of a device are copied, and stand here as they are in its record.
  pub record DeviceResponse : Type 0 where
    pub id : Str
    pub display_name : Str
    pub class : Class
    pub room : Str
    pub floor : Str
    pub covers : Str
    pub location : Str
    pub identity : Option DeviceIdentity
    pub availability : Availability
    pub activity : ActivityResponse
    pub latest : LatestResponse
    pub lifetime : Option Lifetime
    pub cycle : Option CycleResponse
    pub unclassified : Bool
    pub warnings : List Str

  unfoldable pub build_activity_response : Activity → Time → ActivityResponse
  unfolding nil_if_zero ago_int
  build_activity_response a now = record {
    state = a.state;
    last_changed = nil_if_zero a.last_changed;
    last_changed_ago = ago_int a.last_changed now;
    confidence = a.confidence;
  }

  -- The staleness of a device that has been seen.
  unfoldable pub is_stale : Latest → Class → Time → Option ℤ → Bool
  is_stale l class now staleness =
      not (is_zero l.last_seen)
      && of_int (staleness_seconds_for_class class staleness) ≤f seconds (elapsed now l.last_seen)

  unfoldable pub build_latest_response : Latest → Class → Time → Option ℤ → LatestResponse × Bool
  unfolding nil_if_zero ago_int is_stale
  build_latest_response l class now staleness =
      let stale = is_stale l class now staleness in
      (
        record {
          power_w = l.power_w;
          voltage_v = l.voltage_v;
          energy_kwh = l.energy_kwh;
          temperature_c = l.temperature_c;
          humidity_pct = l.humidity_pct;
          pressure_hpa = l.pressure_hpa;
          wind_speed_ms = l.wind_speed_ms;
          wind_dir_deg = l.wind_dir_deg;
          rainfall_mm = l.rainfall_mm;
          illuminance_lux = l.illuminance_lux;
          uv_index = l.uv_index;
          battery_runtime_mins = l.battery_runtime_mins;
          on_battery = l.on_battery;
          low_battery = l.low_battery;
          smoke = l.smoke;
          tamper = l.tamper;
          battery_pct = l.battery_pct;
          link_quality = l.link_quality;
          rssi = l.rssi;
          last_seen = nil_if_zero l.last_seen;
          last_seen_ago = if is_zero l.last_seen then none else ago_int l.last_seen now;
          stale = stale;
        },
        stale,
      )

  unfoldable pub build_divergence : Cycle → DivergenceResponse
  build_divergence c =
      if c.active
      then record {
        status = str "pending";
        reason = str "cycle_active";
        pct = none;
        warning = none;
      }
      else record {
        status = if c.energy.divergence_warning then str "warning" else str "ok";
        reason = [];
        pct = some c.energy.divergence_pct;
        warning = some c.energy.divergence_warning;
      }

  unfoldable pub build_cycle_response : Option Cycle → Class → Option CycleResponse
  unfolding build_divergence cycle_type_for_class nil_if_zero
  build_cycle_response none class = none
  build_cycle_response (some c) class = some (record {
    type = cycle_type_for_class class;
    active = c.active;
    started_at = nil_if_zero c.started_at;
    finished_at = c.finished_at;
    duration_seconds = c.duration_seconds;
    energy = record {
      primary_source = c.energy.primary_source;
      reported_kwh_delta = c.energy.reported_kwh_delta;
      integrated_kwh = c.energy.integrated_kwh;
      selected_kwh = c.energy.selected_kwh;
      stale_counter = c.energy.stale_counter;
      divergence = build_divergence c;
    };
  })

  abbrev pub when : Bool → Str → List Str
  when b w = if b then w ∷ [] else []

  abbrev pub diverges : Option Cycle → Bool
  diverges none = false
  diverges (some c) = c.energy.divergence_warning

  abbrev pub counter_stale : Option Cycle → Bool
  counter_stale none = false
  counter_stale (some c) = c.energy.stale_counter

  unfoldable pub build_device_response : Device → Time → Option ℤ → Bool → DeviceResponse
  unfolding build_latest_response build_activity_response build_cycle_response place
  build_device_response d now staleness include_identity =
      let (latest, stale) = build_latest_response d.latest d.class now staleness in
      record {
        id = d.id;
        display_name = d.display_name;
        class = d.class;
        room = place d;
        floor = d.floor;
        covers = d.covers;
        location = place d;
        identity = if include_identity then some d.identity else none;
        availability = d.availability;
        activity = build_activity_response d.activity now;
        latest = latest;
        lifetime = d.lifetime;
        cycle = build_cycle_response d.cycle d.class;
        unclassified = d.unclassified;
        warnings =
            when stale (str "stale_device")
            ++ (when (diverges d.cycle) (str "cycle_divergence")
                ++ when (counter_stale d.cycle) (str "stale_counter"));
      }
