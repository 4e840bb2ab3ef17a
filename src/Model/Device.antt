-- ===== src/Model/Device.antt =====
-- The public record of a device (internal/model/state.go).
use statehouse.Prelude.{
  Float64, Num, ◌<f◌, is_nan, is_inf, Option, some, none, ℤ, Bool, ◌||◌, Str, if◌then◌else◌,
}
use statehouse.Time.{Time}
use statehouse.Model.Activity.{Availability, DeviceActivityState}
use statehouse.Model.Identity.{DeviceIdentity}
use statehouse.Device.Class.{Class}
use statehouse.Energy.Strategy.{Source}

module _ ⦃fl : Float64⦄ where
  pub record Activity : Type 0 where
    pub state : DeviceActivityState
    pub since : Time
    pub last_changed : Time
    pub confidence : Num

  pub record Latest : Type 0 where
    pub power_w : Option Num
    pub voltage_v : Option Num
    pub energy_kwh : Option Num
    pub temperature_c : Option Num
    pub humidity_pct : Option Num
    pub pressure_hpa : Option Num
    pub wind_speed_ms : Option Num
    pub wind_dir_deg : Option Num
    pub rainfall_mm : Option Num
    pub illuminance_lux : Option Num
    pub uv_index : Option Num
    pub battery_runtime_mins : Option Num
    pub on_battery : Option Bool
    pub low_battery : Option Bool
    pub smoke : Option Bool
    pub tamper : Option Bool
    pub battery_pct : Option Num
    pub link_quality : Option ℤ
    pub rssi : Option ℤ
    pub last_seen : Time

  pub record Extremum : Type 0 where
    pub value : Num
    pub at : Time

  pub record Lifetime : Type 0 where
    pub max_power : Option Extremum
    pub min_temperature : Option Extremum
    pub max_temperature : Option Extremum
    pub min_humidity : Option Extremum
    pub max_humidity : Option Extremum

  -- `*e == nil || v > (*e).Value`
  abbrev exceeds : Option Extremum → Num → Bool
  exceeds none v = Bool.true
  exceeds (some e) v = e.value <f v

  abbrev undercuts : Option Extremum → Num → Bool
  undercuts none v = Bool.true
  undercuts (some e) v = v <f e.value

  unfoldable pub observe_max : Option Extremum → Num → Time → Option Extremum
  observe_max e v t =
      if is_nan v || is_inf v
      then e
      else if exceeds e v
      then some (record { value = v; at = t })
      else e

  unfoldable pub observe_min : Option Extremum → Num → Time → Option Extremum
  observe_min e v t =
      if is_nan v || is_inf v
      then e
      else if undercuts e v
      then some (record { value = v; at = t })
      else e

  pub record CycleEnergy : Type 0 where
    pub primary_source : Source
    pub reported_kwh_delta : Num
    pub integrated_kwh : Num
    pub selected_kwh : Num
    pub divergence_pct : Num
    pub divergence_warning : Bool
    pub stale_counter : Bool

  pub record Cycle : Type 0 where
    pub active : Bool
    pub started_at : Time
    pub finished_at : Option Time
    pub duration_seconds : ℤ
    pub energy : CycleEnergy

  pub record Device : Type 0 where
    pub id : Str
    pub display_name : Str
    pub class : Class
    pub room : Str
    pub floor : Str
    pub covers : Str
    pub location : Str
    pub identity : DeviceIdentity
    pub availability : Availability
    pub activity : Activity
    pub latest : Latest
    pub lifetime : Option Lifetime
    pub cycle : Option Cycle
    pub unclassified : Bool
