-- ===== src/Model/House.antt =====
-- The whole-house record (internal/model/state.go).
use statehouse.Prelude.{Float64, Num, Option, ℕ, Str, List}
use statehouse.Time.{Time}

pub data OccupancyState : Type 0 where
  unknown empty occupied : OccupancyState

pub data HouseActivityState : Type 0 where
  unknown idle quiet active busy : HouseActivityState

pub data ModeState : Type 0 where
  unknown day night away sleeping : ModeState

module _ ⦃fl : Float64⦄ where
  pub record OccupancyDimension : Type 0 where
    pub state : OccupancyState
    pub confidence : Num
    pub last_changed : Time

  pub record HouseActivityDimension : Type 0 where
    pub state : HouseActivityState
    pub confidence : Num
    pub last_changed : Time

  pub record ModeDimension : Type 0 where
    pub state : ModeState
    pub confidence : Num
    pub last_changed : Time

  pub record SessionEnergy : Type 0 where
    pub since : Time
    pub gross_kwh : Num
    pub monitored_kwh : Num
    pub unmonitored_kwh : Num

  pub record ElectricitySummary : Type 0 where
    pub gross_w : Num
    pub monitored_w : Num
    pub unmonitored_w : Num
    pub coverage : Num
    pub stale_device_count : ℕ
    pub stale_devices : List Str
    pub today_kwh : Option Num
    pub week_kwh : Option Num
    pub month_kwh : Option Num
    pub session : SessionEnergy
    pub computed_at : Time

  pub record House : Type 0 where
    pub occupancy : OccupancyDimension
    pub activity : HouseActivityDimension
    pub mode : ModeDimension
    pub active_devices : List Str
    pub electricity : ElectricitySummary
