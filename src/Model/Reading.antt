-- ===== src/Model/Reading.antt =====
-- One parsed payload of a device (internal/model/reading.go): an absent field is `none`.
use statehouse.Prelude.{Float64, Num, Option, ℤ, Bool, Str}
use statehouse.Time.{Time}

module _ ⦃fl : Float64⦄ where
  pub record Reading : Type 0 where
    pub timestamp : Time
    pub source_topic : Str
    pub state : Option Str
    pub power_w : Option Num
    pub voltage_v : Option Num
    pub current_a : Option Num
    pub energy_kwh : Option Num
    pub meter_today_kwh : Option Num
    pub meter_week_kwh : Option Num
    pub meter_month_kwh : Option Num
    pub temperature_c : Option Num
    pub humidity_pct : Option Num
    pub pressure_hpa : Option Num
    pub wind_speed_ms : Option Num
    pub wind_dir_deg : Option Num
    pub rainfall_mm : Option Num
    pub illuminance_lux : Option Num
    pub uv_index : Option Num
    pub battery_runtime_mins : Option Num
    pub on_battery : Option Bool
    pub low_battery : Option Bool
    pub smoke : Option Bool
    pub tamper : Option Bool
    pub link_quality : Option ℤ
    pub battery : Option Num
    pub rssi : Option ℤ
