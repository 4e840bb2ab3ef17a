-- ===== src/Http/Documents/Houses.antt =====
-- The document of the house (internal/httpapi/dto.go).
use statehouse.Prelude.{
  ℕ, Float64, Num, ◌||◌, Option, some, none, ℤ, List, Str, is_some, if◌then◌else◌,
}
use statehouse.Time.{Time, is_zero}
use statehouse.Model.House.{
  OccupancyState, HouseActivityState, ModeState, ElectricitySummary, House,
}
use statehouse.Http.Documents.Ages.{nil_if_zero, ago_int}

module _ ⦃fl : Float64⦄ where
  pub record HouseOccupancyResponse : Type 0 where
    pub state : OccupancyState
    pub confidence : Num
    pub last_changed : Option Time
    pub last_changed_ago : Option ℤ

  pub record HouseActivityResponse : Type 0 where
    pub state : HouseActivityState
    pub confidence : Num
    pub last_changed : Option Time
    pub last_changed_ago : Option ℤ

  pub record HouseModeResponse : Type 0 where
    pub state : ModeState
    pub confidence : Num
    pub last_changed : Option Time
    pub last_changed_ago : Option ℤ

  pub record ElectricitySnapshotResponse : Type 0 where
    pub gross_w : Num
    pub monitored_w : Num
    pub unmonitored_w : Num
    pub coverage : Num
    pub stale_device_count : ℕ
    pub stale_devices : List Str
    pub computed_at : Option Time
    pub computed_ago : Option ℤ

  pub record ElectricityPeriodsResponse : Type 0 where
    pub today_kwh : Option Num
    pub week_kwh : Option Num
    pub month_kwh : Option Num

  pub record SessionEnergyResponse : Type 0 where
    pub started : Option Time
    pub started_ago : Option ℤ
    pub gross_kwh : Num
    pub monitored_kwh : Num
    pub unmonitored_kwh : Num

  pub record HouseElectricityResponse : Type 0 where
    pub snapshot : ElectricitySnapshotResponse
    pub periods : Option ElectricityPeriodsResponse
    pub session : SessionEnergyResponse

  pub record HouseResponse : Type 0 where
    pub occupancy : HouseOccupancyResponse
    pub activity : HouseActivityResponse
    pub mode : HouseModeResponse
    pub active_devices : List Str
    pub electricity : Option HouseElectricityResponse

  -- Periods are there once the meter has reported one of them.
  unfoldable pub build_periods : ElectricitySummary → Option ElectricityPeriodsResponse
  build_periods e =
      if is_some e.today_kwh || is_some e.week_kwh || is_some e.month_kwh
      then some (record { today_kwh = e.today_kwh; week_kwh = e.week_kwh; month_kwh = e.month_kwh })
      else none

  unfoldable pub build_electricity : ElectricitySummary → Time → Option HouseElectricityResponse
  unfolding nil_if_zero ago_int build_periods
  build_electricity e now =
      if is_zero e.computed_at
      then none
      else some (record {
        snapshot = record {
          gross_w = e.gross_w;
          monitored_w = e.monitored_w;
          unmonitored_w = e.unmonitored_w;
          coverage = e.coverage;
          stale_device_count = e.stale_device_count;
          stale_devices = e.stale_devices;
          computed_at = nil_if_zero e.computed_at;
          computed_ago = ago_int e.computed_at now;
        };
        periods = build_periods e;
        session = record {
          started = nil_if_zero e.session.since;
          started_ago = ago_int e.session.since now;
          gross_kwh = e.session.gross_kwh;
          monitored_kwh = e.session.monitored_kwh;
          unmonitored_kwh = e.session.unmonitored_kwh;
        };
      })

  unfoldable pub build_house_response : House → Time → HouseResponse
  unfolding nil_if_zero ago_int build_electricity
  build_house_response h now = record {
    occupancy = record {
      state = h.occupancy.state;
      confidence = h.occupancy.confidence;
      last_changed = nil_if_zero h.occupancy.last_changed;
      last_changed_ago = ago_int h.occupancy.last_changed now;
    };
    activity = record {
      state = h.activity.state;
      confidence = h.activity.confidence;
      last_changed = nil_if_zero h.activity.last_changed;
      last_changed_ago = ago_int h.activity.last_changed now;
    };
    mode = record {
      state = h.mode.state;
      confidence = h.mode.confidence;
      last_changed = nil_if_zero h.mode.last_changed;
      last_changed_ago = ago_int h.mode.last_changed now;
    };
    active_devices = h.active_devices;
    electricity = build_electricity h.electricity now;
  }
