-- ===== src/Examples/Stores.antt =====
-- The theorems on the store, at a kettle whose key is learned late.
use statehouse.Prelude.{◌≡◌, refl, some, none, pos, List, [], ◌∷◌, str}
use statehouse.Examples.{milli, device, profile}
use statehouse.Device.Class.{Class}
use statehouse.Device.Runtime.{Runtime, new_runtime}
use statehouse.Model.Device.{Device}
use statehouse.State.Store.{Store, upsert, lookup_id, new_store, put}
use statehouse.State.Store.Indexes.{lookup_id-upsert}
use statehouse.State.Store.Primary.{Op, upserts, renames, after_ops, IsSound, after_ops-IsSound}

-- Its display name stands for the key.
abbrev early : Device
early =
    let d = device Class.short_burst in
    record d {
      identity = record { scheme = str "z2m"; primary = str "Kettle"; display = str "Kettle" };
    }

abbrev late : Device
late = record early {
  identity = record { scheme = str "z2m"; primary = str "0x01"; display = str "Kettle" };
}

abbrev idle : Runtime
idle = new_runtime (profile Class.short_burst) (pos 0)

abbrev known : Store
known = record new_store {
  dev =
      put (str "kettle") (record { device = early; runtime = idle; availability_offline_at = none })
        new_store.dev;
}

lookup_id-upsert_example :
    lookup_id late.identity
      (upsert (str "other") late idle (upsert (str "kettle") early idle new_store))
    ≡ some (str "other")
lookup_id-upsert_example =
    lookup_id-upsert (str "other") late idle (upsert (str "kettle") early idle new_store) refl

abbrev learned : List Op
learned =
    renames (str "kettle") (str "Kettle") (str "Kitchen kettle")
    ∷ upserts (str "kettle") late idle
    ∷ upserts (str "kettle") early idle
    ∷ []

after_ops-IsSound_example : IsSound (after_ops learned)
after_ops-IsSound_example = after_ops-IsSound learned
