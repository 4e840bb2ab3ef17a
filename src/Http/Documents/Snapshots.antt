-- ===== src/Http/Documents/Snapshots.antt =====
-- The document of the whole state (internal/httpapi/dto.go). A map of devices is the list of its
-- entries in the order of a visit.
use statehouse.Prelude.{
  ℕ, ◌+◌, Float64, Num, Bool, true, false, not, ◌&&◌, Option, some, none, ℤ, List, [], ◌∷◌, length,
  map, ltb, Str, if◌then◌else◌,
}
use statehouse.Time.{Time, is_zero}
use statehouse.Device.Class.{Class, same_class}
use statehouse.Model.Activity.{Availability, DeviceActivityState, same_availability}
use statehouse.Model.Device.{Device}
use statehouse.Model.House.{House}
use statehouse.Model.Signal.{ActivitySignal}
use statehouse.Model.ActivityRecord.{ActivityRecord}
use statehouse.Http.Documents.Ages.{nil_if_zero, ago_int}
use statehouse.Http.Documents.Devices.{DeviceResponse, build_device_response}
use statehouse.Http.Documents.Houses.{HouseResponse, build_house_response}

unfoldable pub is_active_state : DeviceActivityState → Bool
is_active_state DeviceActivityState.active = true
is_active_state DeviceActivityState.starting = true
is_active_state DeviceActivityState.running = true
is_active_state DeviceActivityState.finishing = true
is_active_state DeviceActivityState.finished_recently = true
is_active_state DeviceActivityState.active_cycle = true
is_active_state _ = false

pub record SummaryResponse : Type 0 where
  pub device_count : ℕ
  pub online_count : ℕ
  pub active_count : ℕ
  pub warning_count : ℕ

abbrev pub plus_if : Bool → ℕ → ℕ
plus_if b n = if b then n + 1 else n

module _ ⦃fl : Float64⦄ where
  pub record SignalResponse : Type 0 where
    pub id : Str
    pub source : Str
    pub location : Str
    pub type : Str
    pub confidence : Num
    pub since : Time
    pub expires_at : Option Time

  unfoldable pub build_signal_response : ActivitySignal → SignalResponse
  unfolding nil_if_zero
  build_signal_response s = record {
    id = s.id;
    source = s.source;
    location = s.location;
    type = s.type;
    confidence = s.confidence;
    since = s.since;
    expires_at = nil_if_zero s.expires_at;
  }

  -- A record of the log is copied field by field, and stands here as it is.
  pub record ActivityStateResponse : Type 0 where
    pub generated_at : Time
    pub signals : List SignalResponse
    pub recent : List ActivityRecord

  unfoldable pub build_activity_state_response :
      List ActivitySignal → List ActivityRecord → Time → ActivityStateResponse
  unfolding build_signal_response
  build_activity_state_response signals records now = record {
    generated_at = now;
    signals = map build_signal_response signals;
    recent = records;
  }

  -- One round of the loop of `buildSummary`.
  unfoldable pub count_device : SummaryResponse → DeviceResponse → SummaryResponse
  count_device s d = record {
    device_count = s.device_count;
    online_count = plus_if (same_availability d.availability Availability.online) s.online_count;
    active_count =
        plus_if (not (same_class d.class Class.continuous) && is_active_state d.activity.state)
          s.active_count;
    warning_count = plus_if (ltb 0 (length d.warnings)) s.warning_count;
  }

  unfoldable pub count_devices : SummaryResponse → List (Str × DeviceResponse) → SummaryResponse
  unfolding count_device
  count_devices s [] = s
  count_devices s (e ∷ es) = count_devices (count_device s (e.1)) es

  unfoldable pub build_summary : List (Str × DeviceResponse) → SummaryResponse
  unfolding count_devices
  build_summary devices =
      count_devices
        (record {
          device_count = length devices;
          online_count = 0;
          active_count = 0;
          warning_count = 0;
        })
        devices

  pub record Snapshot : Type 0 where
    pub generated_at : Time
    pub house : House
    pub devices : List (Str × Device)

  pub record SnapshotResponse : Type 0 where
    pub site : Str
    pub generated_at : Time
    pub started_at : Option Time
    pub started_ago : Option ℤ
    pub summary : SummaryResponse
    pub house : HouseResponse
    pub devices : List (Str × DeviceResponse)
    pub activity : ActivityStateResponse

  unfoldable pub build_devices :
      Time → (Class → Option ℤ) → List (Str × Device) → List (Str × DeviceResponse)
  unfolding build_device_response
  build_devices now staleness [] = []
  build_devices now staleness (e ∷ es) =
      (e.0, build_device_response (e.1) now (staleness (e.1).class) false)
      ∷ build_devices now staleness es

  unfoldable pub build_snapshot :
      Snapshot
      → List ActivitySignal
      → List ActivityRecord
      → Time
      → (Class → Option ℤ)
      → Time
      → Str
      → SnapshotResponse
  unfolding build_devices build_summary build_house_response build_activity_state_response ago_int
  build_snapshot snap signals records now staleness started_at site =
      let devices = build_devices now staleness snap.devices in
      record {
        site = site;
        generated_at = snap.generated_at;
        started_at = if is_zero started_at then none else some started_at;
        started_ago = if is_zero started_at then none else ago_int started_at now;
        summary = build_summary devices;
        house = build_house_response snap.house now;
        devices = devices;
        activity = build_activity_state_response signals records now;
      }
