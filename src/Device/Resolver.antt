-- ===== src/Device/Resolver.antt =====
-- Which profile a discovered device gets (Resolver in internal/device/profiles.go).
pub mod Identities
pub mod Merge
use statehouse.Prelude.{
  ℕ, Float64, Bool, true, false, not, ◌&&◌, ◌||◌, Option, none, some, List, [], ◌∷◌, ◌++◌, length,
  ltb, ◌==◌, if◌then◌else◌, Str, str, str_eq, str_lt, is_some,
}
use statehouse.Model.Identity.{DeviceIdentity, is_empty}
use statehouse.Strings.{Unicode, to_lower, contains}
use statehouse.Energy.Strategy.{Strategy}
use statehouse.Device.Class.{Class, class_of}
use statehouse.Device.Profile.{Thresholds, Profile, Resolution}
use statehouse.Device.Hints.{Map, find, put, classify_by_hints}
use statehouse.Config.{Config, DeviceConfig, DeviceClassConfig}

-- The first value that is set.
abbrev pub or_base : {A : Type 0} → Option A → Option A → Option A
or_base none base = base
or_base (some a) base = some a

unfoldable pub strategy_for : Unicode → Str → Strategy
strategy_for u s =
    let l = to_lower u s in
    if str_eq l (str "counter")
    then Strategy.counter
    else if str_eq l (str "integration")
    then Strategy.integration
    else Strategy.integration

unfoldable pub primary_key : Unicode → DeviceIdentity → Str
primary_key u d =
    if is_empty d.scheme || is_empty d.primary
    then []
    else d.scheme ++ (str ":" ++ to_lower u d.primary)

unfoldable pub display_key : Unicode → DeviceIdentity → Str
display_key u d =
    if is_empty d.scheme || is_empty d.display
    then []
    else d.scheme ++ (str ":" ++ to_lower u d.display)

module _ ⦃fl : Float64⦄ where
  pub record Resolver : Type 0 where
    pub classes : Map DeviceClassConfig
    pub by_primary : Map DeviceConfig
    pub by_display : Map DeviceConfig
    pub id_by_primary : Map Str
    pub id_by_display : Map Str

  unfoldable pub merge_thresholds : Thresholds → Thresholds → Thresholds
  merge_thresholds base override = record {
    idle_below_w = or_base override.idle_below_w base.idle_below_w;
    active_above_w = or_base override.active_above_w base.active_above_w;
    active_sustained_for = or_base override.active_sustained_for base.active_sustained_for;
    inactive_sustained_for = or_base override.inactive_sustained_for base.inactive_sustained_for;
    compressor_above_w = or_base override.compressor_above_w base.compressor_above_w;
  }

  -- Zero values: no threshold is set, and the strategy is the empty text.
  abbrev pub no_thresholds : Thresholds
  no_thresholds = record {
    idle_below_w = none;
    active_above_w = none;
    active_sustained_for = none;
    inactive_sustained_for = none;
    compressor_above_w = none;
  }

  abbrev pub no_strategy : Strategy
  no_strategy = Strategy.other []

  module _ (u : Unicode) where
    abbrev pub class_thresholds : Option DeviceClassConfig → Thresholds
    class_thresholds none = no_thresholds
    class_thresholds (some c) = c.default_thresholds

    abbrev pub class_strategy : Option DeviceClassConfig → Strategy
    class_strategy none = no_strategy
    class_strategy (some c) = strategy_for u c.energy_strategy

    abbrev pub override_thresholds : Thresholds → Option Thresholds → Thresholds
    override_thresholds base none = base
    override_thresholds base (some t) = merge_thresholds base t

    -- With the resolution that the caller sets.
    unfoldable pub profile_from_override : DeviceConfig → Map DeviceClassConfig → Profile
    unfolding find merge_thresholds strategy_for
    profile_from_override d classes =
        let cls = find d.class classes in
        record {
          id = [];
          class = class_of d.class;
          display_name = d.display_name;
          room = d.room;
          floor = d.floor;
          covers = d.coverage;
          location = d.location;
          thresholds = override_thresholds (class_thresholds cls) d.thresholds;
          strategy =
              if is_empty d.energy_strategy
              then class_strategy cls
              else strategy_for u d.energy_strategy;
          unclassified = false;
          resolution = Resolution.device_config;
        }

    unfoldable pub add_primary : Resolver → Str × DeviceConfig → Resolver
    add_primary r (id, d) =
        let k = d.scheme ++ (str ":" ++ to_lower u d.primary) in
        if not (is_empty d.scheme) && not (is_empty d.primary)
        then record r {
          by_primary = put k d r.by_primary;
          id_by_primary = put k id r.id_by_primary;
        }
        else r

    unfoldable pub add_display : Resolver → Str × DeviceConfig → Resolver
    add_display r (id, d) =
        let k = d.scheme ++ (str ":" ++ to_lower u d.display) in
        if not (is_empty d.scheme) && not (is_empty d.display)
        then record r {
          by_display = put k d r.by_display;
          id_by_display = put k id r.id_by_display;
        }
        else r

    -- The loop of `NewResolver`.
    unfoldable pub add_devices : Resolver → Map DeviceConfig → Resolver
    unfolding add_primary add_display
    add_devices r [] = r
    add_devices r (e ∷ es) = add_devices (add_display (add_primary r e) e) es

    unfoldable pub new_resolver : Config → Resolver
    unfolding add_devices
    new_resolver cfg =
        add_devices
          (record {
            classes = cfg.device_classes;
            by_primary = [];
            by_display = [];
            id_by_primary = [];
            id_by_display = [];
          })
          cfg.devices

    abbrev pub or_text : Str → Option Str → Str
    or_text s none = s
    or_text s (some t) = t

    -- The profile of an override, with the id that its map has for it.
    unfoldable pub configured_profile :
        Resolver → Option Str → DeviceIdentity → DeviceConfig → Profile
    unfolding profile_from_override
    configured_profile r id i d =
        let p = profile_from_override d r.classes in
        record p {
          id = or_text p.id id;
          display_name = if is_empty p.display_name then i.display else p.display_name;
        }

    abbrev pub unclassified_profile : DeviceIdentity → Profile
    unclassified_profile i = record {
      id = [];
      class = Class.unclassified;
      display_name = i.display;
      room = [];
      floor = [];
      covers = [];
      location = [];
      thresholds = no_thresholds;
      strategy = no_strategy;
      unclassified = true;
      resolution = Resolution.unclassified;
    }

    abbrev pub missing_class_strategy : Option DeviceClassConfig → Strategy
    missing_class_strategy none = strategy_for u []
    missing_class_strategy (some c) = strategy_for u c.energy_strategy

    unfoldable pub hinted_profile : Resolver → DeviceIdentity → Option Str → Profile
    unfolding find strategy_for
    hinted_profile r i none = unclassified_profile i
    hinted_profile r i (some class) =
        let cls = find class r.classes in
        record (unclassified_profile i) {
          class = class_of class;
          unclassified = false;
          thresholds = class_thresholds cls;
          strategy = missing_class_strategy cls;
          resolution = Resolution.name_hint;
        }

    -- An override by primary key, then one by display name, each with its id, then the hints.
    abbrev pub first_profile :
        Resolver
        → DeviceIdentity
        → Option DeviceConfig × Option Str
        → Option DeviceConfig × Option Str
        → Profile
        → Profile
    first_profile r i (some d, id) by_display hinted = configured_profile r id i d
    first_profile r i (none, _) (some d, id) hinted = configured_profile r id i d
    first_profile r i (none, _) (none, _) hinted = hinted

    unfoldable pub resolve : Resolver → DeviceIdentity → Profile
    unfolding find primary_key display_key configured_profile hinted_profile classify_by_hints
    resolve r i =
        let p = primary_key u i in
        let d = display_key u i in
        first_profile r i (find p r.by_primary, find p r.id_by_primary)
          (find d r.by_display, find d r.id_by_display)
          (hinted_profile r i (classify_by_hints u r.classes i.display))

    unfoldable pub configured_id : Resolver → DeviceIdentity → Str
    unfolding find primary_key display_key
    configured_id r i =
        or_text (or_text [] (find (display_key u i) r.id_by_display))
          (find (primary_key u i) r.id_by_primary)
