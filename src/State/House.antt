-- ===== src/State/House.antt =====
-- Whole-house state from device states and signals (internal/state/house.go). A Go map is visited
-- in an arbitrary order, so the devices and the signals are lists in the order of the visit. The
-- time zone database is a parameter.
pub mod Order
pub mod Dimensions
pub mod Mode
use statehouse.Prelude.{
  Float64, Num, ◌+f◌, ◌*f◌, ◌/f◌, ◌<f◌, constant, of_int, Option, some, none, Bool, true, false,
  not, ◌&&◌, ◌||◌, ℕ, suc, ℤ, pos, leb, ltb, ◌==◌, leb_ℤ, ltb_ℤ, List, [], ◌∷◌, if◌then◌else◌, Str,
  sort_strings, foldl, get_or_else,
}
use statehouse.Time.{Time, Duration, is_zero, after, elapsed}
use statehouse.Device.Class.{Class}
use statehouse.Model.Activity.{DeviceActivityState}
use statehouse.Model.Signal.{ActivitySignal}
use statehouse.Model.Device.{Device}
use statehouse.Model.House.{
  OccupancyState, HouseActivityState, ModeState, OccupancyDimension, HouseActivityDimension,
  ModeDimension,
}

-- `time.LoadLocation`, `time.UTC` and the hour of an instant in a location.
pub record TimeZones : Type 1 where
  pub Location : Type 0
  pub utc : Location
  pub load_location : Str → Option Location
  pub hour : Location → Time → ℕ

pub record HouseConfig : Type 0 where
  pub quiet_after : Duration
  pub empty_after : Duration
  pub sleeping_after : Duration
  pub timezone : Str

-- The hour of `now.In(cfg.Location())`.
unfoldable pub local_hour : TimeZones → HouseConfig → Time → ℕ
local_hour tz cfg now = hour (zone cfg.timezone) now
  where
    open tz use {Location, utc, load_location, hour}

    zone : Str → Location
    zone [] = utc
    zone (c ∷ s) = get_or_else (load_location (c ∷ s)) utc

unfoldable pub is_occupancy_relevant : Class → Bool
is_occupancy_relevant Class.short_burst = true
is_occupancy_relevant Class.cycle_power = true
is_occupancy_relevant Class.media = true
is_occupancy_relevant Class.binary_state = true
is_occupancy_relevant _ = false

unfoldable pub is_active_device_state : DeviceActivityState → Bool
is_active_device_state DeviceActivityState.active = true
is_active_device_state DeviceActivityState.running = true
is_active_device_state DeviceActivityState.starting = true
is_active_device_state DeviceActivityState.finishing = true
is_active_device_state DeviceActivityState.finished_recently = true
is_active_device_state DeviceActivityState.active_cycle = true
is_active_device_state _ = false

unfoldable pub is_idle_device_state : DeviceActivityState → Bool
is_idle_device_state DeviceActivityState.idle = true
is_idle_device_state DeviceActivityState.normal_idle = true
is_idle_device_state DeviceActivityState.unknown = true
is_idle_device_state DeviceActivityState.reporting = true
is_idle_device_state DeviceActivityState.standby = true
is_idle_device_state _ = false

unfoldable pub is_continuous : Class → Bool
is_continuous Class.continuous = true
is_continuous _ = false

-- What the scan of devices and signals gathers.
pub record Gathered : Type 0 where
  pub most_recent_activity : Time
  pub anyone_active : Bool
  pub active_count : ℕ
  pub active_devices : List Str

abbrev pub nothing_gathered : Gathered
nothing_gathered = record {
  most_recent_activity = 0;
  anyone_active = false;
  active_count = 0;
  active_devices = [];
}

-- `!t.IsZero() && t.After(u)`: the later of the two, unless the first is unset.
abbrev pub later_of : Time → Time → Time
later_of t u = if not (is_zero t) && after t u then t else u

module _ ⦃fl : Float64⦄ where
  -- The body of the loop over the devices. The ids are collected newest first: they are sorted before
  -- anything reads them.
  unfoldable pub scan_device : Gathered → Device → Gathered
  scan_device g d =
      let busy = is_active_device_state d.activity.state in
      let g₁ =
        if not (is_continuous d.class) && busy
        then record g {
          active_count = suc g.active_count;
          active_devices = d.id ∷ g.active_devices;
        }
        else g in
      let g₂ = if busy then record g₁ { anyone_active = true } else g₁ in
      let g₃ = record g₂ {
        most_recent_activity =
            if not (is_idle_device_state d.activity.state)
            then later_of d.activity.last_changed g₂.most_recent_activity
            else later_of d.activity.last_changed g₂.most_recent_activity;
      } in
      if not (is_occupancy_relevant d.class) then g₁ else g₃

  -- The body of the loop over the signals.
  unfoldable pub scan_signal : Gathered → ActivitySignal → Gathered
  scan_signal g s = record g {
    anyone_active = true;
    active_count = suc g.active_count;
    most_recent_activity =
        if after s.since g.most_recent_activity then s.since else g.most_recent_activity;
  }

  unfoldable pub gather : List Device → List ActivitySignal → Time → Gathered
  gather devices signals last_signal_at =
      let g = foldl scan_signal (foldl scan_device nothing_gathered devices) signals in
      record g {
        most_recent_activity =
            if after last_signal_at g.most_recent_activity
            then last_signal_at
            else g.most_recent_activity;
      }

  abbrev occupancy : OccupancyState → Num → OccupancyDimension
  occupancy s c = record { state = s; confidence = c; last_changed = 0 }

  abbrev house_activity : HouseActivityState → Num → HouseActivityDimension
  house_activity s c = record { state = s; confidence = c; last_changed = 0 }

  abbrev mode : ModeState → Num → ModeDimension
  mode s c = record { state = s; confidence = c; last_changed = 0 }

  -- The occupancy dimension.
  unfoldable pub derive_occupancy : Time → HouseConfig → Bool → Gathered → OccupancyDimension
  derive_occupancy now cfg no_sources g =
      let since = elapsed now g.most_recent_activity in
      if no_sources
      then occupancy OccupancyState.unknown (constant 0 1)
      else if g.anyone_active
      then occupancy OccupancyState.occupied (constant 9 10)
      else if is_zero g.most_recent_activity
      then occupancy OccupancyState.unknown (constant 0 1)
      else if ltb_ℤ (pos 0) cfg.quiet_after && ltb_ℤ since cfg.quiet_after
      then occupancy OccupancyState.occupied (constant 7 10)
      else if ltb_ℤ (pos 0) cfg.empty_after && ltb_ℤ since cfg.empty_after
      then occupancy OccupancyState.unknown (constant 5 10)
      else occupancy OccupancyState.empty (constant 85 100)

  -- The house activity dimension.
  unfoldable pub derive_activity : Bool → ℕ → HouseActivityDimension
  derive_activity no_sources active_count =
      if no_sources
      then house_activity HouseActivityState.unknown (constant 0 1)
      else if active_count == 0
      then house_activity HouseActivityState.idle (constant 8 10)
      else if active_count == 1
      then house_activity HouseActivityState.quiet (constant 75 100)
      else if leb active_count 3
      then house_activity HouseActivityState.active (constant 8 10)
      else house_activity HouseActivityState.busy (constant 85 100)

  abbrev pub is_empty_house : OccupancyState → Bool
  is_empty_house OccupancyState.empty = true
  is_empty_house _ = false

  abbrev pub is_occupied : OccupancyState → Bool
  is_occupied OccupancyState.occupied = true
  is_occupied _ = false

  abbrev pub maybe_occupied : OccupancyState → Bool
  maybe_occupied OccupancyState.empty = false
  maybe_occupied _ = true

  abbrev pub is_idle_house : HouseActivityState → Bool
  is_idle_house HouseActivityState.idle = true
  is_idle_house _ = false

  abbrev pub is_low : HouseActivityState → Bool
  is_low HouseActivityState.idle = true
  is_low HouseActivityState.quiet = true
  is_low _ = false

  abbrev pub is_lively : HouseActivityState → Bool
  is_lively HouseActivityState.quiet = true
  is_lively HouseActivityState.active = true
  is_lively HouseActivityState.busy = true
  is_lively _ = false

  abbrev at_most : Num → Num → Num
  at_most bound c = if bound <f c then bound else c

  sleeping_confidence : Bool → Num
  sleeping_confidence night =
      at_most (constant 92 100) (if night then constant 7 10 +f constant 15 100 else constant 7 10)

  day_confidence : Bool → ℕ → Num
  day_confidence day active_count =
      let ratio = at_most (constant 3 1) (of_int (pos active_count)) in
      let c = constant 7 10 +f constant 1 10 *f (ratio /f constant 3 1) in
      at_most (constant 1 1) (if day then c +f constant 1 10 else c)

  -- The mode dimension, at a local hour.
  unfoldable pub derive_mode :
      HouseConfig → OccupancyDimension → HouseActivityState → Duration → ℕ → ℕ → ModeDimension
  unfolding sleeping_confidence day_confidence
  derive_mode cfg occ act quiet active_count local_hour =
      let night = leb 22 local_hour || ltb local_hour 7 in
      let day = leb 7 local_hour && ltb local_hour 22 in
      if is_empty_house occ.state && ltb_ℤ (pos 0) cfg.empty_after && ltb_ℤ cfg.empty_after quiet
      then mode ModeState.away occ.confidence
      else if maybe_occupied occ.state
          && is_low act
          && ltb_ℤ (pos 0) cfg.sleeping_after
          && ltb_ℤ cfg.sleeping_after quiet
      then mode ModeState.sleeping (sleeping_confidence night)
      else if is_occupied occ.state && is_lively act
      then mode ModeState.day (day_confidence day active_count)
      else if maybe_occupied occ.state
          && is_idle_house act
          && (is_zero_duration cfg.sleeping_after || ltb_ℤ quiet cfg.sleeping_after)
      then (if night
          then mode ModeState.night (constant 65 100)
          else mode ModeState.day (constant 6 10))
      else mode ModeState.unknown (constant 0 1)
    where
      is_zero_duration : Duration → Bool
      is_zero_duration d = leb_ℤ d (pos 0) && leb_ℤ (pos 0) d

  -- How long nothing has happened.
  abbrev pub quiet_duration : Time → Gathered → Duration
  quiet_duration now g =
      if is_zero g.most_recent_activity then pos 0 else elapsed now g.most_recent_activity

  -- The fields of model.House that DeriveHouseState fills in.
  pub record HouseState : Type 0 where
    pub occupancy : OccupancyDimension
    pub activity : HouseActivityDimension
    pub mode : ModeDimension
    pub active_devices : List Str

  abbrev pub no_sources : List Device → List ActivitySignal → Time → Bool
  no_sources [] [] last_signal_at = is_zero last_signal_at
  no_sources _ _ last_signal_at = false

  unfoldable pub derive_house_state :
      TimeZones → Time → HouseConfig → List Device → List ActivitySignal → Time → HouseState
  derive_house_state tz now cfg devices signals last_signal_at =
      let g = gather devices signals last_signal_at in
      let none_known = no_sources devices signals last_signal_at in
      let occ = derive_occupancy now cfg none_known g in
      let act = derive_activity none_known g.active_count in
      record {
        occupancy = occ;
        activity = act;
        mode =
            derive_mode cfg occ act.state (quiet_duration now g) g.active_count
              (local_hour tz cfg now);
        active_devices = sort_strings g.active_devices;
      }
