-- ===== src/State/Store/Indexes.antt =====
-- What the store's indexes say of its entries (internal/state/store.go).
use statehouse.Prelude.{
  Float64, Option, some, none, true, false, ◌≡◌, ◌⊎◌, inl, refl, ◌∙◌, arith, Str, str_eq,
  str_eq_refl, str_eq_comm,
}
use statehouse.Device.Runtime.{Runtime}
use statehouse.Model.Identity.{DeviceIdentity, is_empty}
use statehouse.Model.Device.{Device}
use statehouse.State.Entry.{DeviceEntry}
use statehouse.State.Store.{
  Store, index_key, is_key, merge_identity, merge_device, upserted, previous, enter, drop_orphan,
  drop_phantom, installed, claim, upsert, lookup_id, rename, rename_entry, or_else,
}

module _ ⦃fl : Float64⦄ where
  -- Another device's orphan entry may go, with its primary key.
  drop_orphan_facts :
      (id old k v : Str) (o : Option DeviceEntry) (s : Store)
      → str_eq old id ≡ false
      → ((drop_orphan old o s).dev id ≡ s.dev id)
        × ((drop_orphan old o s).by_display ≡ s.by_display)
        × (s.by_primary k ≡ some v
            → ((drop_orphan old o s).by_primary k ≡ some v)
              ⊎ ((drop_orphan old o s).by_primary k ≡ none))
  unfolding drop_orphan
  drop_orphan_facts id old k v none s h = (refl, refl, λ e. inl e)
  drop_orphan_facts id old k v (some o) s h = ground (arith, str_eq_comm old id)

  drop_phantom_facts :
      (id k v : Str) (o : Option Str) (s : Store)
      → ((drop_phantom id o s).dev id ≡ s.dev id)
        × ((drop_phantom id o s).by_display ≡ s.by_display)
        × (s.by_primary k ≡ some v
            → ((drop_phantom id o s).by_primary k ≡ some v)
              ⊎ ((drop_phantom id o s).by_primary k ≡ none))
  unfolding drop_phantom
  drop_phantom_facts id k v none s = (refl, refl, λ e. inl e)
  drop_phantom_facts id k v (some old) s =
      ground (arith, drop_orphan_facts id old k v (s.dev old) s)

  -- A claimed display key is the device's, whose entry stays; a primary key may go, but to no other.
  claim_facts :
      (id k : Str) (m : DeviceIdentity) (s : Store)
      → ((claim id m s).dev id ≡ s.dev id)
        × (is_key m.scheme m.display ≡ true
            → (claim id m s).by_display (index_key m.scheme m.display) ≡ some id)
        × (s.by_primary k ≡ some id
            → ((claim id m s).by_primary k ≡ some id) ⊎ ((claim id m s).by_primary k ≡ none))
  unfolding claim
  claim_facts id k m s =
      let key = index_key m.scheme m.display in
      ground (arith, drop_phantom_facts id k id (s.by_display key) s, str_eq_refl key)

  upserted_identity :
      (o : Option DeviceEntry) (d : Device) (rt : Runtime)
      → let m = (upserted o d rt).device.identity in
        (is_empty d.identity.scheme ≡ false → m.scheme ≡ d.identity.scheme)
        × (is_empty d.identity.primary ≡ false → m.primary ≡ d.identity.primary)
        × (is_empty d.identity.display ≡ false → m.display ≡ d.identity.display)
  unfolding upserted merge_device merge_identity
  upserted_identity none d rt = (λ _. refl, λ _. refl, λ _. refl)
  upserted_identity (some e) d rt = ground arith

  installed_primary :
      (id : Str) (e : DeviceEntry) (prev : DeviceIdentity) (s : Store)
      → let m = e.device.identity in
        is_key m.scheme m.primary ≡ true
        → (installed id e prev s).by_primary (index_key m.scheme m.primary) ≡ some id
  unfolding installed enter
  installed_primary id e prev s h =
      ground (arith, str_eq_refl (index_key e.device.identity.scheme e.device.identity.primary))

  lookup_id-claim :
      (id : Str) (i m : DeviceIdentity) (s : Store)
      → m.scheme ≡ i.scheme
      → m.display ≡ i.display
      → (is_empty i.primary ≡ false → m.primary ≡ i.primary)
      → is_key i.scheme i.display ≡ true
      → (is_key m.scheme m.primary ≡ true → s.by_primary (index_key m.scheme m.primary) ≡ some id)
      → lookup_id i (claim id m s) ≡ some id
  unfolding lookup_id
  lookup_id-claim id i m s e f g h p =
      ground (arith, claim_facts id (index_key m.scheme m.primary) m s)

  is_key_parts :
      (scheme name : Str)
      → is_key scheme name ≡ true
      → (is_empty scheme ≡ false) × (is_empty name ≡ false)
  is_key_parts scheme name h = ground arith

  -- Whatever the store holds, an upsert of a device with a scheme and a display name makes a lookup
  -- of its identity find the id.
  pub lookup_id-upsert :
      (id : Str) (d : Device) (rt : Runtime) (s : Store)
      → is_key d.identity.scheme d.identity.display ≡ true
      → lookup_id d.identity (upsert id d rt s) ≡ some id
  unfolding upsert
  lookup_id-upsert id d rt s h =
      let e = upserted (s.dev id) d rt in
      let prev = previous (s.dev id) in
      let same = upserted_identity (s.dev id) d rt in
      let parts = is_key_parts d.identity.scheme d.identity.display h in
      lookup_id-claim id d.identity e.device.identity (installed id e prev s) (same.0 parts.0)
        (same.2 parts.1) same.1 h (installed_primary id e prev s)

  -- An upsert of a known device keeps its runtime, and the activity, cycle, readings, lifetime and
  -- availability in its record, and an identity without a primary key keeps the one learned.
  pub dev-upsert_known :
      (id : Str) (d : Device) (rt : Runtime) (s : Store) (e : DeviceEntry)
      → s.dev id ≡ some e
      → (e' : DeviceEntry) × ((upsert id d rt s).dev id ≡ some e')
        × (e'.runtime ≡ e.runtime)
        × (e'.availability_offline_at ≡ e.availability_offline_at)
        × (e'.device.activity ≡ e.device.activity)
        × (e'.device.cycle ≡ e.device.cycle)
        × (e'.device.latest ≡ e.device.latest)
        × (e'.device.lifetime ≡ e.device.lifetime)
        × (e'.device.availability ≡ e.device.availability)
        × (is_empty d.identity.primary ≡ true
            → e'.device.identity.primary ≡ e.device.identity.primary)
  unfolding upsert upserted merge_device merge_identity installed
  dev-upsert_known id d rt s e h =
      let e' = upserted (some e) d rt in
      let c = claim_facts id id e'.device.identity (installed id e' (previous (some e)) s) in
      rw h (
        e',
        c.0 ∙ ground (arith, str_eq_refl id),
        refl,
        refl,
        refl,
        refl,
        refl,
        refl,
        refl,
        λ n. ground arith,
      )

  -- An upserted device has the merged entry, whose scheme is the device's.
  pub dev-upsert :
      (id : Str) (d : Device) (rt : Runtime) (s : Store)
      → is_empty d.identity.scheme ≡ false
      → (e : DeviceEntry) × ((upsert id d rt s).dev id ≡ some e)
        × (e.device.identity.scheme ≡ d.identity.scheme)
  unfolding upsert installed
  dev-upsert id d rt s h =
      let e = upserted (s.dev id) d rt in
      let c = claim_facts id id e.device.identity (installed id e (previous (s.dev id)) s) in
      (e, c.0 ∙ ground (arith, str_eq_refl id), (upserted_identity (s.dev id) d rt).0 h)

  -- A rename to the display name of an identity whose lookup finds the entry leaves it found.
  pub lookup_id-rename :
      (id old : Str) (i : DeviceIdentity) (s : Store) (e : DeviceEntry)
      → s.dev id ≡ some e
      → e.device.identity.scheme ≡ i.scheme
      → is_key i.scheme i.display ≡ true
      → lookup_id i s ≡ some id
      → lookup_id i (rename id old i.display s) ≡ some id
  unfolding lookup_id rename rename_entry or_else
  lookup_id-rename id old i s e h g k f =
      rw (h, g, k) (ground (arith, str_eq_refl (index_key i.scheme i.display)))
