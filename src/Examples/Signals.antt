-- ===== src/Examples/Signals.antt =====
-- The theorems on the signal store, at one call.
use statehouse.Prelude.{◌≡◌, refl, ◌*◌, ◌≤◌, [], ◌∷◌, str, arith}
use statehouse.Examples.{milli, second}
use statehouse.Model.Signal.{ActivitySignal}
use statehouse.State.SignalStore.{SignalStore, upsert, prune, active, new_signal_store}
use statehouse.State.SignalStore.Expiry.{active-prune}
use statehouse.State.SignalStore.HighWater.{upserts, prunes, apply, apply_all, last_at-covers}

abbrev ringing : ActivitySignal
ringing = record {
  timestamp = 100 * second;
  id = str "call-1";
  source = str "intercom";
  location = str "house";
  type = str "call";
  confidence = 900;
  since = 100 * second;
  expires_at = 160 * second;
}

abbrev rung : SignalStore
rung = upsert new_signal_store ringing

active-prune_example :
    active (prune rung (200 * second)) (300 * second) ≡ active rung (300 * second)
active-prune_example = active-prune rung (200 * second) (300 * second) (omega arith)

last_at-covers_example :
    100 * second ≤ (apply_all (apply rung (upserts ringing)) (prunes (200 * second) ∷ [])).last_at
last_at-covers_example =
    last_at-covers rung (upserts ringing) (100 * second) (prunes (200 * second) ∷ []) refl
