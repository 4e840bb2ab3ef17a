-- ===== src/Examples/House.antt =====
-- The theorems on the state of the house, at a kitchen.
use statehouse.Prelude.{
  ◌≡◌, refl, false, ◌*◌, ◌/◌, ◌%◌, arith, ◌<ℤ◌, ◌⊎◌, none, pos, List, [], ◌∷◌, length, str,
}
use mathlib.Core.List.{Permᴰ}
use statehouse.Time.{elapsed}
use statehouse.Examples.{milli, second, device}
use statehouse.Device.Class.{Class}
use statehouse.Model.Activity.{DeviceActivityState}
use statehouse.Model.Device.{Device}
use statehouse.Model.Signal.{ActivitySignal}
use statehouse.Model.House.{OccupancyState, HouseActivityState, ModeState, OccupancyDimension}
use statehouse.State.House.{
  TimeZones, HouseConfig, derive_house_state, derive_mode, is_occupancy_relevant,
  is_active_device_state, is_continuous, derive_occupancy, gather, scan_device,
  is_idle_device_state,
}
use statehouse.State.House.Order.{derive_house_state-Perm}
use statehouse.State.House.Dimensions.{any, shows_presence, empty_persists}
use statehouse.State.House.Mode.{away_nobody, mode_gap}

-- One zone, whose hours start at the zero time.
abbrev pub zones : TimeZones
zones = record {
  Location = Unit;
  utc = tt;
  load_location = λ _. none;
  hour = λ _ t. t / (3600 * second) % 24;
}

-- Quiet after 10 minutes, empty after an hour, sleeping after 30 minutes.
abbrev pub limits : HouseConfig
limits = record {
  quiet_after = pos (600 * second);
  empty_after = pos (3600 * second);
  sleeping_after = pos (1800 * second);
  timezone = [];
}

abbrev acting : DeviceActivityState → Device
acting s =
    let d = device Class.short_burst in
    record d {
      activity = record {
        state = s;
        since = 100 * second;
        last_changed = 100 * second;
        confidence = 900;
      };
    }

abbrev pub fridge : Device
fridge = record (device Class.continuous) { id = str "fridge" }

abbrev pub at_home : List Device
at_home = acting DeviceActivityState.active ∷ fridge ∷ []

abbrev gone : List Device
gone = acting DeviceActivityState.idle ∷ fridge ∷ []

derive_house_state-Perm_example :
    derive_house_state zones (200 * second) limits at_home [] 0
    ≡ derive_house_state zones
        (200 * second)
        limits
        (fridge ∷ acting DeviceActivityState.active ∷ [])
        []
        0
derive_house_state-Perm_example =
    derive_house_state-Perm zones (200 * second) limits 0 (Permᴰ.swap refl refl) Permᴰ.nil

gone_empty :
    (derive_house_state zones (4000 * second) limits gone [] 0).occupancy.state
    ≡ OccupancyState.empty
unfolding derive_house_state derive_occupancy gather scan_device is_occupancy_relevant
    is_active_device_state is_continuous elapsed is_idle_device_state
gone_empty = refl

empty_persists_example :
    (derive_house_state zones (5000 * second) limits gone [] 0).occupancy.state
    ≡ OccupancyState.empty
empty_persists_example =
    empty_persists zones (4000 * second) (5000 * second) limits gone [] 0 (omega arith) gone_empty

gone_away : (derive_house_state zones (9000 * second) limits gone [] 0).mode.state ≡ ModeState.away
unfolding derive_house_state derive_occupancy gather scan_device is_occupancy_relevant
    is_active_device_state is_continuous elapsed derive_mode is_idle_device_state
gone_away = refl

away_nobody_example :
    ((derive_house_state zones (9000 * second) limits gone [] 0).occupancy.state
      ≡ OccupancyState.empty)
    × (any shows_presence gone ≡ false)
    × (length {A = ActivitySignal} [] ≡ 0)
away_nobody_example = away_nobody zones (9000 * second) limits gone [] 0 gone_away

abbrev unsure : OccupancyDimension
unsure = record { state = OccupancyState.unknown; confidence = 500; last_changed = 0 }

mode_gap_example :
    let m = (derive_mode limits unsure HouseActivityState.idle (pos (1800 * second)) 0 23).state in
    (limits.sleeping_after <ℤ pos (1800 * second) → m ≡ ModeState.sleeping)
    × (pos (1800 * second) <ℤ limits.sleeping_after → (m ≡ ModeState.night) ⊎ (m ≡ ModeState.day))
    × (pos (1800 * second) ≡ limits.sleeping_after → m ≡ ModeState.unknown)
mode_gap_example = mode_gap limits unsure (pos (1800 * second)) 0 23 refl (omega arith)
