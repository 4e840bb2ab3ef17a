-- ===== src/Examples/Configs.antt =====
-- The theorems on the configuration, at one kettle and two classes.
use statehouse.Strings.{
  is_ascii, lower_ascii, to_lower, trim_left, trim_right, trim_space, field_starts, field_count,
  cut_prefix, has_prefix, cut_suffix, cut, cut_last, contains_byte, contains_any, split_byte,
  count_byte, all_bytes,
}
use statehouse.Origin.{
  Policy, enabled, port_after_bracket, split_bracket, split_colon, split_port, lift_wildcard, split,
  ends_in_dash, starts_with_dash, is_label, all_labels, digits, validate_port, bracketed, inner_ip,
  validate_literal, validate_host, compile_host, compile_port, compile_rule, compile_entry,
  compile_from, compile,
}
use mathlib.Core.List.{Permᴰ}
use statehouse.Prelude.{◌≡◌, refl, none, true, List, [], ◌∷◌, Str, str, str_eq, ok}
use statehouse.Examples.{milli, thresholds}
use statehouse.Examples.Origins.{loopback, plain}
use statehouse.Model.Identity.{DeviceIdentity}
use statehouse.Http.{Request, Headers, Handler}
use statehouse.Http.Auth.{AuthMetrics}
use statehouse.Http.Server.{handler, validated_handler}
use statehouse.Examples.Requests.{fine}
use statehouse.Config.{
  Config, check_clients, validate_service_tokens, DeviceConfig, DeviceClassConfig, validate,
}
use statehouse.Config.Validation.{IsServable, validate-IsServable}
use statehouse.Device.Class.{Class, class_of}
use statehouse.Device.Hints.{classify_by_hints}
use statehouse.Device.Hints.Order.{classify_by_hints-Perm}
use statehouse.Device.Resolver.{new_resolver, resolve, configured_id}
use statehouse.Device.Resolver.Identities.{Agrees, resolve_id}

abbrev class_named : List Str → DeviceClassConfig
class_named hints = record {
  name_hints = hints;
  default_thresholds = thresholds;
  energy_strategy = str "Counter";
  staleness_seconds = none;
}

abbrev burst : Str × DeviceClassConfig
burst = (str "short_burst_power_device", class_named (str "kettle" ∷ []))

abbrev media : Str × DeviceClassConfig
media = (str "media_power_device", class_named (str "tv" ∷ []))

abbrev kettle : DeviceConfig
kettle = record {
  class = str "short_burst_power_device";
  display_name = [];
  room = str "kitchen";
  floor = [];
  coverage = [];
  location = [];
  scheme = str "zigbee2mqtt";
  primary = str "0x0A";
  display = str "Kettle";
  thresholds = none;
  energy_strategy = [];
}

abbrev pub home : Config
home = record {
  site = record { id = str "home"; devices_namespace = str "devices_home" };
  allowed_origins = str "https://*.swee.net" ∷ [];
  service_tokens = record {
    enabled = none;
    required_audience = str "statehouse";
    required_scope = [];
    allowed_clients = str "greenhouse" ∷ [];
  };
  device_classes = burst ∷ media ∷ [];
  devices = (str "kettle", kettle) ∷ [];
}

home_valid : validate plain loopback (λ s. true) home ≡ ok tt
unfolding port_after_bracket split_bracket split_colon split_port lift_wildcard split ends_in_dash
    starts_with_dash is_label all_labels digits validate_port bracketed inner_ip validate_literal
    validate_host compile_host compile_port compile_rule compile_entry compile_from compile is_ascii
    lower_ascii to_lower trim_left trim_right trim_space field_starts field_count cut_prefix
    has_prefix cut_suffix cut cut_last contains_byte contains_any split_byte count_byte all_bytes
    str_eq check_clients validate_service_tokens validate
home_valid = refl

validate-IsServable_example : IsServable plain loopback (λ s. true) home
validate-IsServable_example = validate-IsServable plain loopback (λ s. true) home home_valid

classify_by_hints-Perm_example :
    classify_by_hints plain (burst ∷ media ∷ []) (str "TV kettle")
    ≡ classify_by_hints plain (media ∷ burst ∷ []) (str "TV kettle")
classify_by_hints-Perm_example =
    classify_by_hints-Perm plain (str "TV kettle") (burst ∷ media ∷ []) (media ∷ burst ∷ [])
      (Permᴰ.swap refl refl)

canonical_classes :
    (class_of (str "short_burst_power_device") ≡ Class.short_burst)
    × (class_of (str "cycle_power_device") ≡ Class.cycle_power)
    × (class_of (str "continuous_power_device") ≡ Class.continuous)
    × (class_of (str "media_power_device") ≡ Class.media)
    × (class_of (str "binary_state_device") ≡ Class.binary_state)
unfolding class_of str_eq
canonical_classes = (refl, refl, refl, refl, refl)

abbrev found_kettle : DeviceIdentity
found_kettle = record { scheme = str "zigbee2mqtt"; primary = str "0x0a"; display = [] }

resolve_id_example :
    Agrees plain home.devices found_kettle
      (resolve plain (new_resolver plain home) found_kettle)
      (configured_id plain (new_resolver plain home) found_kettle)
resolve_id_example = resolve_id plain home found_kettle

validated_handler_example :
    (p : Policy) × (h : Handler AuthMetrics) × (compile loopback plain home.allowed_origins
      ≡ (p, none))
    × (handler loopback plain home.allowed_origins fine ≡ ok h)
    × ((r : Request) (w : Headers) (m : AuthMetrics)
        → str_eq r.method (str "OPTIONS") ≡ true
        → enabled p ≡ true
        → ((h r w m).1 ≡ m) × ((h r w m).0.status ≡ 204))
validated_handler_example = validated_handler loopback plain (λ s. true) home fine home_valid
