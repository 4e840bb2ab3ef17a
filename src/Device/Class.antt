-- ===== src/Device/Class.antt =====
-- Device classes (internal/device/profiles.go and staleness.go). A class is a string; the canonical
-- ones are constructors, and any other string, the empty one included, is `other`.
use statehouse.Prelude.{
  Bool, true, false, Option, some, none, ℕ, ℤ, pos, Str, str, str_eq, ◌==◌, List, [], ◌∷◌,
  if◌then◌else◌,
}

pub data Class : Type 0 where
  short_burst cycle_power continuous media binary_state environmental_sensor : Class
  ups_sensor energy_meter fire_alarm appliance_probe unclassified : Class
  other : Str → Class

abbrev pub class_name : Class → Str
class_name short_burst = str "short_burst_power_device"
class_name cycle_power = str "cycle_power_device"
class_name continuous = str "continuous_power_device"
class_name media = str "media_power_device"
class_name binary_state = str "binary_state_device"
class_name environmental_sensor = str "environmental_sensor"
class_name ups_sensor = str "ups_sensor"
class_name energy_meter = str "energy_meter"
class_name fire_alarm = str "fire_alarm"
class_name appliance_probe = str "appliance_probe"
class_name unclassified = str "unclassified"
class_name (other s) = s

-- The first of some classes that has the name.
abbrev named : Str → List Class → Class
named s [] = other s
named s (c ∷ cs) = if str_eq (class_name c) s then c else named s cs

-- The class with a name.
unfoldable pub class_of : Str → Class
class_of s = named s (
    short_burst ∷ cycle_power ∷ continuous ∷ media ∷ binary_state ∷ environmental_sensor
    ∷ ups_sensor ∷ energy_meter ∷ fire_alarm ∷ appliance_probe ∷ unclassified ∷ [])

-- A number for each canonical class, by which two of them are compared.
abbrev class_ordinal : Class → ℕ
class_ordinal short_burst = 0
class_ordinal cycle_power = 1
class_ordinal continuous = 2
class_ordinal media = 3
class_ordinal binary_state = 4
class_ordinal environmental_sensor = 5
class_ordinal ups_sensor = 6
class_ordinal energy_meter = 7
class_ordinal fire_alarm = 8
class_ordinal appliance_probe = 9
class_ordinal unclassified = 10
class_ordinal (other s) = 11

-- Go's `==` on classes.
unfoldable pub same_class : Class → Class → Bool
same_class (other s) (other t) = str_eq s t
same_class a b = class_ordinal a == class_ordinal b

unfoldable pub is_passive_sensor : Class → Bool
is_passive_sensor environmental_sensor = true
is_passive_sensor ups_sensor = true
is_passive_sensor energy_meter = true
is_passive_sensor fire_alarm = true
is_passive_sensor appliance_probe = true
is_passive_sensor _ = false

-- The result is a whole number of seconds, which the source returns as a float64.
unfoldable pub staleness_seconds_for_class : Class → Option ℤ → ℤ
staleness_seconds_for_class class (some override) = override
staleness_seconds_for_class short_burst none = pos 900
staleness_seconds_for_class cycle_power none = pos 900
staleness_seconds_for_class continuous none = pos 900
staleness_seconds_for_class media none = pos 900
staleness_seconds_for_class binary_state none = pos 3600
staleness_seconds_for_class _ none = pos 3600
