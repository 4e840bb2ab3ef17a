-- ===== src/Examples.antt =====
-- Concrete devices, readings and floats on which the theorems are applied. A float is a number of
-- thousandths here.
pub mod Devices
pub mod Entries
pub mod Energy
pub mod House
pub mod Electricity
pub mod Signals
pub mod Contacts
pub mod Stores
pub mod Origins
pub mod Requests
pub mod Configs
pub mod Calls
pub mod Documents
use statehouse.Prelude.{
  Float64, Num, constant, Option, some, none, Bool, true, false, ℕ, ◌*◌, ◌/◌, ◌-◌, ◌+◌, ◌==◌, ltb,
  leb, ℤ, pos, pos_part, if◌then◌else◌, str, List, [], ◌∷◌,
}
use statehouse.Time.{Time, Duration}
use statehouse.Energy.Strategy.{Strategy, Source}
use statehouse.Device.Class.{Class}
use statehouse.Device.Profile.{Profile, Thresholds, Resolution}
use statehouse.Model.Activity.{Availability, DeviceActivityState}
use statehouse.Model.Device.{Device, Latest, Activity}
use statehouse.Model.Reading.{Reading}

instance abbrev pub milli : Float64
milli = record {
  Carrier = ℕ;
  add = λ a b. a + b;
  sub = λ a b. a - b;
  mul = λ a b. a * b / 1000;
  div = λ a b. a * 1000 / b;
  lt = ltb;
  le = leb;
  eq = λ a b. a == b;
  constant = λ n d. n * 1000 / d;
  abs = λ a. a;
  max = λ a b. if leb a b then b else a;
  is_nan = λ _. false;
  is_inf = λ _. false;
  of_int = λ z. pos_part z * 1000;
  to_int = λ a. pos (a / 1000);
  hours = λ z. pos_part z / 3_600_000_000;
  seconds = λ z. pos_part z / 1_000_000;
}

abbrev pub second : ℕ
second = 1_000_000_000

abbrev pub no_reading : Reading
no_reading = record {
  timestamp = 0;
  source_topic = [];
  state = none;
  power_w = none;
  voltage_v = none;
  current_a = none;
  energy_kwh = none;
  meter_today_kwh = none;
  meter_week_kwh = none;
  meter_month_kwh = none;
  temperature_c = none;
  humidity_pct = none;
  pressure_hpa = none;
  wind_speed_ms = none;
  wind_dir_deg = none;
  rainfall_mm = none;
  illuminance_lux = none;
  uv_index = none;
  battery_runtime_mins = none;
  on_battery = none;
  low_battery = none;
  smoke = none;
  tamper = none;
  link_quality = none;
  battery = none;
  rssi = none;
}

-- A reading of so many watts.
abbrev pub drawing : ℕ → Reading
drawing w = record no_reading { power_w = some (w * 1000) }

abbrev pub thresholds : Thresholds
thresholds = record {
  idle_below_w = some 5000;
  active_above_w = some 50_000;
  active_sustained_for = some (pos (10 * second));
  inactive_sustained_for = some (pos 0);
  compressor_above_w = none;
}

-- A profile of a class: below 5 W idle, from 50 W on active if held for 10 seconds.
abbrev pub profile : Class → Profile
profile c = record {
  id = str "kettle";
  class = c;
  display_name = str "Kettle";
  room = str "kitchen";
  floor = [];
  covers = [];
  location = str "kitchen";
  thresholds = thresholds;
  strategy = Strategy.counter;
  unclassified = false;
  resolution = Resolution.device_config;
}

abbrev pub no_latest : Latest
no_latest = record {
  power_w = none;
  voltage_v = none;
  energy_kwh = none;
  temperature_c = none;
  humidity_pct = none;
  pressure_hpa = none;
  wind_speed_ms = none;
  wind_dir_deg = none;
  rainfall_mm = none;
  illuminance_lux = none;
  uv_index = none;
  battery_runtime_mins = none;
  on_battery = none;
  low_battery = none;
  smoke = none;
  tamper = none;
  battery_pct = none;
  link_quality = none;
  rssi = none;
  last_seen = 0;
}

abbrev pub device : Class → Device
device c = record {
  id = str "kettle";
  display_name = str "Kettle";
  class = c;
  room = str "kitchen";
  floor = [];
  covers = [];
  location = str "kitchen";
  identity = record { scheme = str "zigbee2mqtt"; primary = str "0x01"; display = [] };
  availability = Availability.online;
  activity = record {
    state = DeviceActivityState.unknown;
    since = 0;
    last_changed = 0;
    confidence = 0;
  };
  latest = no_latest;
  lifetime = none;
  cycle = none;
  unclassified = false;
}
