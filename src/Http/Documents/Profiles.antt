-- ===== src/Http/Documents/Profiles.antt =====
-- The resolved configuration of a device (buildDeviceProfileResponse and buildThresholdsResponse in
-- internal/httpapi/dto.go).
use mathlib.Core.Option
use statehouse.Prelude.{
  Float64, Num, seconds, Bool, not, ◌&&◌, Option, some, none, Str, is_some, if◌then◌else◌,
}
use statehouse.Device.Class.{Class}
use statehouse.Energy.Strategy.{Strategy}
use statehouse.Device.Profile.{Thresholds, Profile, Resolution}
use statehouse.Model.Device.{Device}
use statehouse.Http.Documents.Devices.{place}

module _ ⦃fl : Float64⦄ where
  pub record ThresholdsResponse : Type 0 where
    pub idle_below_w : Option Num
    pub active_above_w : Option Num
    pub active_sustained_sec : Option Num
    pub inactive_sustained_sec : Option Num
    pub compressor_above_w : Option Num

  pub record DeviceProfileResponse : Type 0 where
    pub class : Class
    pub energy_strategy : Strategy
    pub resolution : Resolution
    pub display_name : Str
    pub room : Str
    pub floor : Str
    pub covers : Str
    pub location : Str
    pub thresholds : Option ThresholdsResponse

  -- No threshold is configured.
  abbrev pub all_unset : Thresholds → Bool
  all_unset t =
      not (is_some t.idle_below_w)
      && not (is_some t.active_above_w)
      && not (is_some t.compressor_above_w)
      && not (is_some t.active_sustained_for)
      && not (is_some t.inactive_sustained_for)

  -- The response has a duration exactly where the thresholds have one.
  unfoldable pub build_thresholds_response : Thresholds → Option ThresholdsResponse
  build_thresholds_response t =
      if all_unset t
      then none
      else some (record {
        idle_below_w = t.idle_below_w;
        active_above_w = t.active_above_w;
        active_sustained_sec = Option.map seconds t.active_sustained_for;
        inactive_sustained_sec = Option.map seconds t.inactive_sustained_for;
        compressor_above_w = t.compressor_above_w;
      })

  -- Placement comes from the record of the device, all else from the profile.
  unfoldable pub build_device_profile_response : Profile → Device → DeviceProfileResponse
  unfolding build_thresholds_response place
  build_device_profile_response p d = record {
    class = p.class;
    energy_strategy = p.strategy;
    resolution = p.resolution;
    display_name = p.display_name;
    room = place d;
    floor = d.floor;
    covers = d.covers;
    location = place d;
    thresholds = build_thresholds_response p.thresholds;
  }
