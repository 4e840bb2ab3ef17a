-- ===== src/State/Discovery.antt =====
-- How a device enters the engine (EnsureDiscovered and deriveID in internal/state/engine.go). Each
-- call of the store is a step under its lock; the steps of one discovery follow each other here.
pub mod Again
use statehouse.Prelude.{
  Float64, Option, some, none, Bool, true, false, not, ◌&&◌, ◌||◌, Str, str, str_eq, [], ◌∷◌, ◌++◌,
  is_some, constant, if◌then◌else◌,
}
use statehouse.Time.{Duration}
use statehouse.Strings.{Unicode, cut_prefix}
use statehouse.Model.Identity.{DeviceIdentity, is_empty}
use statehouse.Model.Activity.{Availability, DeviceActivityState}
use statehouse.Model.Device.{Device, Latest}
use statehouse.Device.Profile.{Profile}
use statehouse.Device.Runtime.{Runtime, new_runtime}
use statehouse.Device.Reload.{refresh_runtime}
use statehouse.Device.Resolver.{Resolver, resolve, configured_id}
use statehouse.State.Entry.{DeviceEntry, reset_phantom}
use statehouse.State.Entry.Events.{Events, device_discovered, only_if}
use statehouse.State.Store.{Store, put, upsert, lookup_id, rename}

-- What follows the prefix, if something does.
abbrev after_prefix : Option Str → Option Str
after_prefix none = none
after_prefix (some []) = none
after_prefix (some (c ∷ s)) = some (c ∷ s)

abbrev first_of : Option Str → Option Str → Str → Str
first_of (some s) o d = s
first_of none (some s) d = s
first_of none none d = d

-- A primary key without a "0x" before something.
unfoldable pub without_hex_prefix : Str → Str
without_hex_prefix p =
    first_of (after_prefix (cut_prefix (str "0x") p)) (after_prefix (cut_prefix (str "0X") p)) p

unfoldable pub derive_id : DeviceIdentity → Str
unfolding without_hex_prefix
derive_id i =
    let primary = without_hex_prefix i.primary in
    if not (is_empty i.display)
    then i.display
    else if not (is_empty primary)
    then str "dev_" ++ primary
    else str "dev_unknown"

-- `if id == "" { id = next }`
abbrev pub or_next : Str → Str → Str
or_next id next = if is_empty id then next else id

abbrev pub or_empty : Option Str → Str
or_empty none = []
or_empty (some id) = id

-- A record under the key that its display name stood in for, which learns its real key.
unfoldable pub was_phantom : DeviceIdentity → DeviceIdentity → Bool
was_phantom old i =
    not (is_empty old.primary)
    && not (is_empty old.display)
    && str_eq old.primary old.display
    && not (is_empty i.primary)
    && not (str_eq i.primary i.display)

abbrev pub is_renamed : Str → Str → Bool
is_renamed old new = not (is_empty new) && not (is_empty old) && not (str_eq new old)

module _ ⦃fl : Float64⦄ where
  -- The zero value.
  abbrev pub no_latest : Latest
  no_latest = record {
    power_w = none;
    voltage_v = none;
    energy_kwh = none;
    temperature_c = none;
    humidity_pct = none;
    pressure_hpa = none;
    wind_speed_ms = none;
    wind_dir_deg = none;
    rainfall_mm = none;
    illuminance_lux = none;
    uv_index = none;
    battery_runtime_mins = none;
    on_battery = none;
    low_battery = none;
    smoke = none;
    tamper = none;
    battery_pct = none;
    link_quality = none;
    rssi = none;
    last_seen = 0;
  }

  unfoldable pub discovered_device : Str → Profile → DeviceIdentity → Device
  discovered_device id p i = record {
    id = id;
    display_name = p.display_name;
    class = p.class;
    room = p.room;
    floor = p.floor;
    covers = p.covers;
    location = p.location;
    identity = i;
    availability = Availability.unknown;
    activity = record {
      state = DeviceActivityState.unknown;
      since = 0;
      last_changed = 0;
      confidence = constant 0 1;
    };
    latest = no_latest;
    lifetime = none;
    cycle = none;
    unclassified = p.unclassified;
  }

  with_found : Str → (DeviceEntry → DeviceEntry) → Option DeviceEntry → Store → Store
  with_found id f none s = s
  with_found id f (some e) s = record s { dev = put id (f e) s.dev }

  -- `withEntry`.
  unfoldable pub with_entry : Str → (DeviceEntry → DeviceEntry) → Store → Store
  unfolding with_found
  with_entry id f s = with_found id f (s.dev id) s

  -- Where the id has no entry: one is made.
  unfoldable pub enter_new : Str → Profile → Duration → DeviceIdentity → Store → Store
  unfolding upsert discovered_device
  enter_new id p max_gap i s = upsert id (discovered_device id p i) (new_runtime p max_gap) s

  -- Where it has the entry `e`: the profile of its runtime, then the record and the indexes, and the
  -- reset of a phantom.
  unfoldable pub update_known :
      Str → Profile → Duration → DeviceIdentity → DeviceEntry → Store → Store
  unfolding with_entry upsert discovered_device rename was_phantom refresh_runtime reset_phantom
  update_known id p max_gap i e s =
      let rt = refresh_runtime e.runtime p max_gap in
      let old = e.device.identity in
      let upserted =
        upsert id (discovered_device id p i) rt
          (with_entry id (λ x. record x { runtime = rt }) s) in
      let renamed =
        if is_renamed old.display i.display
        then rename id old.display i.display upserted
        else upserted in
      if was_phantom old i then with_entry id reset_phantom renamed else renamed

  abbrev pub enter_or_update :
      Str → Profile → Duration → DeviceIdentity → Option DeviceEntry → Store → Store
  enter_or_update id p max_gap i none s = enter_new id p max_gap i s
  enter_or_update id p max_gap i (some e) s = update_known id p max_gap i e s

  module _ (u : Unicode) (max_gap : Duration) (r : Resolver) where
    -- The id in the store, the configured one, or one from the identity.
    unfoldable pub id_of : DeviceIdentity → Store → Str
    unfolding lookup_id configured_id derive_id
    id_of i s = or_next (or_next (or_empty (lookup_id i s)) (configured_id u r i)) (derive_id i)

    unfoldable pub ensure_discovered : DeviceIdentity → Store → Str × Store × Events
    unfolding id_of resolve enter_new update_known
    ensure_discovered i s =
        let id = id_of i s in
        (
          id,
          enter_or_update id (record (resolve u r i) { id = id }) max_gap i (s.dev id) s,
          only_if (not (is_some (s.dev id))) (device_discovered ∷ []),
        )
