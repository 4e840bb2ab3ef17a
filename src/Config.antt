-- ===== src/Config.antt =====
-- The settings that the modelled parts read, and their validation (internal/config/config.go). Device
-- entries and thresholds are types of a schema that several services share; `valid_name` is that
-- schema's test of a namespace's name.
pub mod Validation
use statehouse.Prelude.{
  ℕ, Float64, Bool, true, false, not, ◌&&◌, ◌||◌, Option, none, some, List, [], ◌∷◌, ltb, ◌==◌,
  if◌then◌else◌, Str, str, str_eq, ℤ, Result, ok, err, ◌>>=◌, ◌>>◌, guard,
}
use statehouse.Model.Identity.{is_empty}
use statehouse.Strings.{Unicode, trim_space, field_count}
use statehouse.Origin.{Net, OriginError, Policy, compile}
use statehouse.Device.Profile.{Thresholds}

pub record SiteConfig : Type 0 where
  pub id : Str
  pub devices_namespace : Str

pub record ServiceTokenConfig : Type 0 where
  pub enabled : Option Bool
  pub required_audience : Str
  pub required_scope : Str
  pub allowed_clients : List Str

unfoldable pub is_enabled : ServiceTokenConfig → Bool
is_enabled c = elim c.enabled [ none ↦ true | some b ↦ b ]

module _ ⦃fl : Float64⦄ where
  pub record DeviceClassConfig : Type 0 where
    pub name_hints : List Str
    pub default_thresholds : Thresholds
    pub energy_strategy : Str
    pub staleness_seconds : Option ℤ

  -- `coverage` is the result of the schema's method of that name.
  pub record DeviceConfig : Type 0 where
    pub class : Str
    pub display_name : Str
    pub room : Str
    pub floor : Str
    pub coverage : Str
    pub location : Str
    pub scheme : Str
    pub primary : Str
    pub display : Str
    pub thresholds : Option Thresholds
    pub energy_strategy : Str

  -- The maps in the order of an iteration.
  pub record Config : Type 0 where
    pub site : SiteConfig
    pub allowed_origins : List Str
    pub service_tokens : ServiceTokenConfig
    pub device_classes : List (Str × DeviceClassConfig)
    pub devices : List (Str × DeviceConfig)

pub data ConfigError : Type 0 where
  no_site no_devices_namespace bad_namespace : ConfigError
  bad_origins : OriginError → ConfigError
  padded_audience padded_scope spaced_audience spaced_scope empty_client padded_client : ConfigError

abbrev drop_newline : ℕ → Str → Str
drop_newline c [] = if c == 10 || c == 13 then [] else c ∷ []
drop_newline c (d ∷ t) = c ∷ d ∷ t

unfoldable pub trim_trailing_newline : Str → Str
trim_trailing_newline [] = []
trim_trailing_newline (c ∷ s) = drop_newline c (trim_trailing_newline s)

module _ (u : Unicode) where
  abbrev pub is_padded : Str → Bool
  is_padded s = not (str_eq s (trim_space u s))

  unfoldable pub check_clients : List Str → Result ConfigError (Unit {0})
  check_clients [] = ok tt
  check_clients (c ∷ cs) = do
    guard (not (is_empty (trim_space u c))) empty_client
    guard (not (is_padded c)) padded_client
    check_clients cs

  unfoldable pub validate_service_tokens : ServiceTokenConfig → Result ConfigError (Unit {0})
  unfolding check_clients
  validate_service_tokens s = do
    guard (not (is_padded s.required_audience)) padded_audience
    guard (not (is_padded s.required_scope)) padded_scope
    guard (not (ltb 1 (field_count u s.required_audience))) spaced_audience
    guard (not (ltb 1 (field_count u s.required_scope))) spaced_scope
    check_clients s.allowed_clients

  -- The policy is dropped.
  abbrev pub check_origins : Policy × Option OriginError → Result ConfigError (Unit {0})
  check_origins (_, some e) = err (bad_origins e)
  check_origins (_, none) = ok tt

  module _ ⦃fl : Float64⦄ (net : Net) (valid_name : Str → Bool) where
    unfoldable pub validate : Config → Result ConfigError (Unit {0})
    unfolding validate_service_tokens compile
    validate c = do
      guard (not (is_empty c.site.id)) no_site
      guard (not (is_empty c.site.devices_namespace)) no_devices_namespace
      guard (valid_name c.site.devices_namespace) bad_namespace
      check_origins (compile net u c.allowed_origins)
      validate_service_tokens c.service_tokens
