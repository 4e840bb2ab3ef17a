-- ===== src/Examples/Documents.antt =====
-- The theorems on the documents of the HTTP API, at a kitchen.
use statehouse.Prelude.{
  ◌≡◌, refl, ◌≤◌, ◌<◌, ◌+◌, ◌-◌, ◌*◌, ℕ, arith, some, pos, str, [], ◌∷◌, length,
}
use statehouse.Examples.{milli, second}
use statehouse.Examples.House.{fridge}
use statehouse.Examples.Electricity.{no_summary, default_staleness}
use statehouse.Model.House.{OccupancyState, HouseActivityState, ModeState}
use statehouse.Http.Documents.Ages.{ago_int, ago_int_nearest}
use statehouse.Http.Documents.Snapshots.{Snapshot, build_snapshot}
use statehouse.Http.Documents.Warnings.{
  count, is_online, is_counted_active, has_warning, summary_counts,
}

ago_int_nearest_example :
    (v : ℕ) × (ago_int (10 * second) (12 * second) ≡ some (pos v))
    × (v * 1_000_000_000 ≤ 12 * second - 10 * second + 500_000_000)
    × (12 * second - 10 * second + 500_000_000 < (v + 1) * 1_000_000_000)
ago_int_nearest_example =
    ago_int_nearest (10 * second) (12 * second) refl (omega arith) (omega arith)

abbrev kitchen : Snapshot
kitchen = record {
  generated_at = 4_000_000 * second;
  house = record {
    occupancy = record { state = OccupancyState.unknown; confidence = 0; last_changed = 0 };
    activity = record { state = HouseActivityState.unknown; confidence = 0; last_changed = 0 };
    mode = record { state = ModeState.unknown; confidence = 0; last_changed = 0 };
    active_devices = [];
    electricity = no_summary;
  };
  devices = (str "fridge", fridge) ∷ [];
}

summary_counts_example :
    (build_snapshot kitchen [] [] (4_000_000 * second) default_staleness 0 (str "home")).summary
    ≡ record {
      device_count = length kitchen.devices;
      online_count = count (is_online (4_000_000 * second) default_staleness) kitchen.devices;
      active_count =
          count (is_counted_active (4_000_000 * second) default_staleness) kitchen.devices;
      warning_count = count (has_warning (4_000_000 * second) default_staleness) kitchen.devices;
    }
summary_counts_example =
    summary_counts (4_000_000 * second) default_staleness kitchen [] [] 0 (str "home")
