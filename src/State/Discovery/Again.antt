-- ===== src/State/Discovery/Again.antt =====
-- A discovered device is found again (EnsureDiscovered in internal/state/engine.go).
use statehouse.Prelude.{
  Float64, Option, some, none, Bool, true, false, ◌≡◌, refl, ◌∙◌, arith, inl, inr, Str,
  Option-cases, if◌then◌else◌,
}
use statehouse.Time.{Duration}
use statehouse.Strings.{Unicode}
use statehouse.Model.Identity.{DeviceIdentity, is_empty}
use statehouse.Device.Profile.{Profile}
use statehouse.Device.Resolver.{Resolver, resolve, configured_id}
use statehouse.State.Entry.{DeviceEntry, reset_phantom}
use statehouse.State.Store.{Store, is_key, lookup_id, rename}
use statehouse.State.Store.Indexes.{lookup_id-upsert, lookup_id-rename, dev-upsert}
use statehouse.Device.Runtime.{new_runtime}
use statehouse.Device.Reload.{refresh_runtime}
use statehouse.State.Discovery.{
  or_next, or_empty, is_renamed, was_phantom, derive_id, with_entry, with_found, discovered_device,
  enter_new, update_known, enter_or_update, id_of, ensure_discovered,
}

module _ ⦃fl : Float64⦄ where
  lookup_id-with_entry :
      (i : DeviceIdentity) (id : Str) (f : DeviceEntry → DeviceEntry) (s : Store)
      → lookup_id i (with_entry id f s) ≡ lookup_id i s
  unfolding with_entry with_found lookup_id
  lookup_id-with_entry i id f s = elim (Option-cases (s.dev id)) [
    | inl e ↦ rw e refl
    | inr (x, e) ↦ rw e refl
  ]

  after_rename :
      (b : Bool) (id old : Str) (i : DeviceIdentity) (s : Store) (e : DeviceEntry)
      → s.dev id ≡ some e
      → e.device.identity.scheme ≡ i.scheme
      → is_key i.scheme i.display ≡ true
      → lookup_id i s ≡ some id
      → lookup_id i (if b then rename id old i.display s else s) ≡ some id
  after_rename true id old i s e h g k f = lookup_id-rename id old i s e h g k f
  after_rename false id old i s e h g k f = f

  after_reset :
      (b : Bool) (id : Str) (i : DeviceIdentity) (s : Store)
      → lookup_id i s ≡ some id
      → lookup_id i (if b then with_entry id reset_phantom s else s) ≡ some id
  after_reset true id i s f = lookup_id-with_entry i id reset_phantom s ∙ f
  after_reset false id i s f = f

  lookup_id-enter_or_update :
      (id : Str) (p : Profile) (max_gap : Duration) (i : DeviceIdentity) (o : Option DeviceEntry)
      (s : Store)
      → is_key i.scheme i.display ≡ true
      → lookup_id i (enter_or_update id p max_gap i o s) ≡ some id
  unfolding enter_new update_known discovered_device
  lookup_id-enter_or_update id p max_gap i none s k =
      lookup_id-upsert id (discovered_device id p i) (new_runtime p max_gap) s k
  lookup_id-enter_or_update id p max_gap i (some e) s k =
      let rt = refresh_runtime e.runtime p max_gap in
      let d = discovered_device id p i in
      let refreshed = with_entry id (λ x. record x { runtime = rt }) s in
      let (e', there, scheme) = dev-upsert id d rt refreshed (ground arith) in
      let found = lookup_id-upsert id d rt refreshed k in
      after_reset (was_phantom e.device.identity i) id i _ (
        after_rename (is_renamed e.device.identity.display i.display) id _ i _ e' there scheme k
          found)

  -- The id of a lookup is taken if it is not empty.
  known_id :
      (o : Option Str) (id configured derived : Str)
      → o ≡ some id
      → is_empty id ≡ false
      → or_next (or_next (or_empty o) configured) derived ≡ id
  known_id none id configured derived h n = cc
  known_id (some x) id configured derived h n = ground arith

  derive_id_present : (i : DeviceIdentity) → is_empty (derive_id i) ≡ false
  unfolding derive_id
  derive_id_present i = ground arith

  module _ (u : Unicode) (max_gap : Duration) (r : Resolver) where
    id_of_present : (i : DeviceIdentity) (s : Store) → is_empty (id_of u max_gap r i s) ≡ false
    unfolding id_of
    id_of_present i s = ground (arith, derive_id_present i)

    -- Right after the discovery of a device with a scheme and a display name, whatever the store
    -- held, a lookup of its identity finds the id of the discovery, and a second discovery in that
    -- store gives the same id.
    pub discovered_again :
        (i : DeviceIdentity) (s : Store)
        → is_key i.scheme i.display ≡ true
        → let (id, s', _) = ensure_discovered u max_gap r i s in
          (lookup_id i s' ≡ some id) × ((ensure_discovered u max_gap r i s').0 ≡ id)
    unfolding ensure_discovered id_of
    discovered_again i s k =
        let id = id_of u max_gap r i s in
        let p : Profile = record (resolve u r i) { id = id } in
        let s' = enter_or_update id p max_gap i (s.dev id) s in
        let found = lookup_id-enter_or_update id p max_gap i (s.dev id) s k in
        (
          found,
          known_id (lookup_id i s') id (configured_id u r i) (derive_id i) found
              (id_of_present i s),
        )
