-- ===== src/Examples/Contacts.antt =====
-- The theorem on the debounce, at a device that falls silent.
use statehouse.Prelude.{◌≡◌, refl, true, false, ◌*◌, ◌≤ℤ◌, List, [], ◌∷◌, arith}
use statehouse.Time.{Time, elapsed, minutes}
use statehouse.Examples.{second}
use statehouse.Model.Activity.{Availability, same_availability}
use statehouse.State.Availability.{seen, set_availability, tick}
use statehouse.State.Availability.Debounce.{
  Event, reported, ticked, data_seen, after_all, OfflineSince, offline_debounced, is_offline,
}

-- Data, then an offline report at 100 s under a debounce of one minute.
abbrev silent : List Event
silent = reported (minutes 1) (100 * second) Availability.offline ∷ data_seen ∷ []

abbrev matures : Event
matures = ticked (minutes 1) (160 * second)

pending : is_offline (after_all silent) ≡ false
unfolding seen set_availability same_availability
pending = refl

matured : is_offline (after_all (matures ∷ silent)) ≡ true
unfolding seen set_availability tick same_availability elapsed
matured = refl

offline_debounced_example :
    (t : Time) × OfflineSince t (matures ∷ silent) × (minutes 1 ≤ℤ elapsed (160 * second) t)
offline_debounced_example = offline_debounced silent matures (omega arith) pending matured
