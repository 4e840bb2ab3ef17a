-- ===== src/Device/Profile.antt =====
-- The resolved configuration of a device (internal/device/profiles.go). `Thresholds` comes from the
-- shared devices schema; it has the five optional fields that the program reads.
use statehouse.Prelude.{Float64, Num, Option, Bool, Str}
use statehouse.Time.{Duration}
use statehouse.Energy.Strategy.{Strategy}
use statehouse.Device.Class.{Class}

pub data Resolution : Type 0 where
  device_config name_hint unclassified : Resolution

module _ ⦃fl : Float64⦄ where
  pub record Thresholds : Type 0 where
    pub idle_below_w : Option Num
    pub active_above_w : Option Num
    pub active_sustained_for : Option Duration
    pub inactive_sustained_for : Option Duration
    pub compressor_above_w : Option Num

  pub record Profile : Type 0 where
    pub id : Str
    pub class : Class
    pub display_name : Str
    pub room : Str
    pub floor : Str
    pub covers : Str
    pub location : Str
    pub thresholds : Thresholds
    pub strategy : Strategy
    pub unclassified : Bool
    pub resolution : Resolution
