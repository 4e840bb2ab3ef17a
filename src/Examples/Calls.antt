-- ===== src/Examples/Calls.antt =====
-- The theorems on calls, on the house that is set anew, and on discovery, at a call "c1" and a lamp.
use statehouse.Prelude.{true, ◌≡◌, refl, ◌⊎◌, ◌≤◌, ◌+◌, ◌*◌, some, none, pos, Str, str, []}
use statehouse.Examples.{milli, second}
use statehouse.Examples.Origins.{plain}
use statehouse.Examples.Configs.{home}
use statehouse.Examples.House.{zones, limits, at_home}
use statehouse.Examples.Electricity.{no_summary}
use statehouse.Model.House.{OccupancyState, HouseActivityState, ModeState}
use statehouse.Model.Identity.{DeviceIdentity}
use statehouse.State.ActivityLog.{new_activity_log}
use statehouse.State.SignalStore.{new_signal_store}
use statehouse.State.Store.{new_store, lookup_id}
use statehouse.State.Presence.{Presence, Surroundings, recompute_house}
use statehouse.State.Presence.Changes.{recompute_house_again}
use statehouse.State.Discovery.{ensure_discovered}
use statehouse.State.Discovery.Again.{discovered_again}
use statehouse.Device.Resolver.{Resolver, new_resolver}
use statehouse.Adapter.Timestamps.{sanitise, unix_seconds, max_past, max_future, timestamps_bounded}
use statehouse.Adapter.Intercom.{Parsers, Adapter, handle_message}
use statehouse.Adapter.Intercom.Calls.{IsCall, handle_message_outcome}

abbrev surroundings : Surroundings
surroundings = record {
  tz = zones;
  cfg = limits;
  devices = at_home;
  now = 4_000_000 * second;
  wall = 4_000_000 * second;
}

abbrev start : Presence
start = record {
  signals = new_signal_store;
  activity = new_activity_log;
  house = record {
    occupancy = record { state = OccupancyState.unknown; confidence = 0; last_changed = 0 };
    activity = record { state = HouseActivityState.unknown; confidence = 0; last_changed = 0 };
    mode = record { state = ModeState.unknown; confidence = 0; last_changed = 0 };
    active_devices = [];
    electricity = no_summary;
  };
  events = [];
}

recompute_house_again_example :
    recompute_house
      (record surroundings { wall = 4_000_060 * second })
      (recompute_house surroundings start)
    ≡ recompute_house surroundings start
recompute_house_again_example = recompute_house_again surroundings (4_000_060 * second) start

-- Every payload reads as a call that rings.
abbrev ringing : Parsers
ringing = record {
  parse_call = λ _. some (record { event = str "Ringing"; timestamp = [] });
  parse_rfc3339 = λ _. none;
}

abbrev phone : Adapter
phone = record { base = str "asterisk"; has_sink = true }

handle_message_outcome_example :
    let r =
      handle_message ringing plain phone surroundings
        (str "asterisk/call/c1/ringing")
        (str "{}")
        start in
    (r ≡ (start, [])) ⊎ ((id : Str) × IsCall surroundings start r.0 id)
handle_message_outcome_example =
    handle_message_outcome ringing plain phone surroundings (str "asterisk/call/c1/ringing")
      (str "{}") start

timestamps_bounded_example :
    (4_000_000 * second ≤ sanitise (second * 10) (4_000_000 * second) + max_past)
    × (sanitise (second * 10) (4_000_000 * second) ≤ 4_000_000 * second + max_future)
    × (4_000_000 * second ≤ unix_seconds (pos 1_700_000_000) (4_000_000 * second) + max_past)
    × (unix_seconds (pos 1_700_000_000) (4_000_000 * second) ≤ 4_000_000 * second + max_future)
timestamps_bounded_example =
    timestamps_bounded (second * 10) (pos 1_700_000_000) (4_000_000 * second)

abbrev lamp : DeviceIdentity
lamp = record { scheme = str "zigbee2mqtt"; primary = str "0x0b"; display = str "Lamp" }

abbrev resolver : Resolver
resolver = new_resolver plain home

discovered_again_example :
    let (id, s', _) = ensure_discovered plain (pos 0) resolver lamp new_store in
    (lookup_id lamp s' ≡ some id) × ((ensure_discovered plain (pos 0) resolver lamp s').0 ≡ id)
discovered_again_example = discovered_again plain (pos 0) resolver lamp new_store refl
