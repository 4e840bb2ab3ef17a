-- ===== src/State/Store/Primary.antt =====
-- The primary index of the store against its entries (internal/state/store.go).
use statehouse.Prelude.{
  Float64, List, [], ◌∷◌, Option, some, none, true, false, ◌≡◌, ◌⊎◌, inl, inr, refl, ap, sym, ◌∙◌,
  arith, Str, str_eq, str_eq_refl, str_eq→eq, Bool-cases, if◌then◌else◌,
}
use statehouse.Device.Runtime.{Runtime}
use statehouse.Model.Identity.{DeviceIdentity}
use statehouse.Model.Device.{Device}
use statehouse.State.Entry.{DeviceEntry}
use statehouse.State.Store.{
  Store, Map, put, remove, index_key, is_key, upserted, previous, evict, enter, is_phantom,
  drop_orphan, drop_phantom, installed, claim, upsert, rename, rename_entry, with_display,
  new_store,
}

module _ ⦃fl : Float64⦄ where
  -- The id has an entry whose primary key is `k`.
  abbrev pub Holds : Store → Str → Str → Type 0
  Holds s k i =
      (e : DeviceEntry) × (s.dev i ≡ some e)
      × (is_key e.device.identity.scheme e.device.identity.primary ≡ true)
      × (index_key e.device.identity.scheme e.device.identity.primary ≡ k)

  -- Every key of the primary index leads to an entry whose primary key it is.
  abbrev pub IsSound : Store → Type 0
  IsSound s = (k i : Str) → s.by_primary k ≡ some i → Holds s k i

  absurd_str : (k j : Str) → k ≡ j → str_eq k j ≡ false → ⊥
  absurd_str k j h ne = ground (arith, str_eq_refl k)

  remove_lem :
      (k j : Str) (m : Map Str) (i : Str)
      → remove k m j ≡ some i
      → (str_eq j k ≡ false) × (m j ≡ some i)
  remove_lem k j m i h = ground arith

  some_inj : {o : Option DeviceEntry} {x y : DeviceEntry} → o ≡ some x → o ≡ some y → x ≡ y
  some_inj h k = ground arith

  removed-IsSound :
      (old : Str) (o : DeviceEntry) (s : Store)
      → s.dev old ≡ some o
      → IsSound s
      → let key = index_key o.device.identity.scheme o.device.identity.primary in
        IsSound (record s { dev = remove old s.dev; by_primary = remove key s.by_primary })
  removed-IsSound old o s h v k i e =
      let key = index_key o.device.identity.scheme o.device.identity.primary in
      let was = remove_lem key k s.by_primary i e in
      let (x, there, valid, its_key) = v k i was.1 in
      (
        x,
        ap (λ b. if b then none else s.dev i) (distinct x there its_key was.0) ∙ there,
        valid,
        its_key,
      )
    where
      other :
          (x : DeviceEntry)
          → s.dev i ≡ some x
          → index_key x.device.identity.scheme x.device.identity.primary ≡ k
          → str_eq k (index_key o.device.identity.scheme o.device.identity.primary) ≡ false
          → i ≡ old
          → ⊥
      other x there its_key ne same =
          let eq = some_inj there (ap s.dev same ∙ h) in
          absurd_str k _
            (sym its_key
              ∙ ap (λ d. index_key d.device.identity.scheme d.device.identity.primary) eq)
            ne

      distinct :
          (x : DeviceEntry)
          → s.dev i ≡ some x
          → index_key x.device.identity.scheme x.device.identity.primary ≡ k
          → str_eq k (index_key o.device.identity.scheme o.device.identity.primary) ≡ false
          → str_eq i old ≡ false
      distinct x there its_key ne = elim (Bool-cases (str_eq i old)) [
        | inl y ↦ absurd (other x there its_key ne (str_eq→eq i old y))
        | inr n ↦ n
      ]

  drop_orphan-IsSound :
      (old : Str) (o : DeviceEntry) (s : Store)
      → s.dev old ≡ some o
      → IsSound s
      → IsSound (drop_orphan old (some o) s)
  unfolding drop_orphan
  drop_orphan-IsSound old o s h v = elim (Bool-cases (is_phantom o.device.identity)) [
    | inl y ↦ rw y (removed-IsSound old o s h v)
    | inr n ↦ rw n v
  ]

  enter_lem :
      (id scheme name : Str) (m : Map Str) (k i : Str)
      → enter id scheme name m k ≡ some i
      → ((is_key scheme name ≡ true) × (index_key scheme name ≡ k) × (i ≡ id)) ⊎ (m k ≡ some i)
  unfolding enter
  enter_lem id scheme name m k i h = ground (arith, str_eq→eq k (index_key scheme name))

  evict_lem :
      (prev_scheme prev_name scheme name : Str) (m : Map Str) (k i : Str)
      → evict prev_scheme prev_name scheme name m k ≡ some i
      → (m k ≡ some i)
        × (is_key prev_scheme prev_name ≡ true
            → index_key prev_scheme prev_name ≡ k
            → (prev_scheme ≡ scheme) × (prev_name ≡ name))
  unfolding evict
  evict_lem ps pn scheme name m k i h =
      ground (arith, str_eq→eq ps scheme, str_eq→eq pn name, str_eq_refl k)

  own_key :
      (prev own m : DeviceIdentity) (k : Str)
      → prev ≡ own
      → is_key own.scheme own.primary ≡ true
      → index_key own.scheme own.primary ≡ k
      → (is_key prev.scheme prev.primary ≡ true
          → index_key prev.scheme prev.primary ≡ k
          → (prev.scheme ≡ m.scheme) × (prev.primary ≡ m.primary))
      → (is_key m.scheme m.primary ≡ true) × (index_key m.scheme m.primary ≡ k)
  own_key prev own m k e f g h = ground arith

  kept-Holds :
      (id : Str) (e : DeviceEntry) (s : Store) (k i : Str)
      → Holds s k i
      → (i ≡ id → Holds (installed id e (previous (s.dev id)) s) k i)
      → Holds (installed id e (previous (s.dev id)) s) k i
  unfolding installed
  kept-Holds id e s k i (x, there, valid, its_key) same = elim (Bool-cases (str_eq i id)) [
    | inl y ↦ same (str_eq→eq i id y)
    | inr n ↦ (x, ap (λ b. if b then some e else s.dev i) n ∙ there, valid, its_key)
  ]

  installed-IsSound :
      (id : Str) (e : DeviceEntry) (s : Store)
      → IsSound s
      → IsSound (installed id e (previous (s.dev id)) s)
  unfolding installed previous
  installed-IsSound id e s v k i h = elim (enter_lem id m.scheme m.primary evicted k i h) [
    | inl (valid, its_key, same) ↦ (
      e,
      ap (λ b. if b then some e else s.dev i) (ap (λ j. str_eq j id) same ∙ str_eq_refl id),
      valid,
      its_key,
    )
    | inr was ↦ after_evict was
  ]
    where
      m : DeviceIdentity
      m = e.device.identity

      evicted : Map Str
      evicted =
          let prev = previous (s.dev id) in
          evict prev.scheme prev.primary m.scheme m.primary s.by_primary

      after_evict : evicted k ≡ some i → Holds (installed id e (previous (s.dev id)) s) k i
      after_evict was =
          let prev = previous (s.dev id) in
          let (old, same) =
            evict_lem prev.scheme prev.primary m.scheme m.primary s.by_primary k i was in
          let (x, there, valid, its_key) = v k i old in
          kept-Holds id e s k i (x, there, valid, its_key)
            (λ eq.
              let own =
                own_key prev x.device.identity m k (ap previous (ap s.dev (sym eq) ∙ there)) valid
                  its_key same in
              (
                e,
                ap (λ b. if b then some e else s.dev i) (ap (λ j. str_eq j id) eq ∙ str_eq_refl id),
                own.0,
                own.1,
              ))

  drop_phantom-IsSound :
      (id : Str) (o : Option Str) (s : Store) → IsSound s → IsSound (drop_phantom id o s)
  unfolding drop_phantom
  drop_phantom-IsSound id none s v = v
  drop_phantom-IsSound id (some old) s v = elim (Bool-cases (str_eq old id)) [
    | inl y ↦ rw y v
    | inr n ↦ rw n (orphan (s.dev old) refl)
  ]
    where
      orphan : (o : Option DeviceEntry) → s.dev old ≡ o → IsSound (drop_orphan old o s)
      orphan none h = v
      orphan (some o) h = drop_orphan-IsSound old o s h v

  claim-IsSound : (id : Str) (m : DeviceIdentity) (s : Store) → IsSound s → IsSound (claim id m s)
  unfolding claim
  claim-IsSound id m s v = elim (Bool-cases (is_key m.scheme m.display)) [
    | inl y ↦ rw y (drop_phantom-IsSound id (s.by_display (index_key m.scheme m.display)) s v)
    | inr n ↦ rw n v
  ]

  renamed-IsSound :
      (id new : Str) (e : DeviceEntry) (s : Store) (m : Map Str)
      → s.dev id ≡ some e
      → IsSound s
      → IsSound (record s { dev = put id (with_display e new) s.dev; by_display = m })
  renamed-IsSound id new e s m h v k i was =
      let (x, there, valid, its_key) = v k i was in
      elim (Bool-cases (str_eq i id)) [
        | inl y ↦
            let same = some_inj there (ap s.dev (str_eq→eq i id y) ∙ h) in
            (
              with_display e new,
              ap (λ b. if b then some (with_display e new) else s.dev i) y,
              ap (λ d. is_key d.device.identity.scheme d.device.identity.primary) (sym same)
                  ∙ valid,
              ap (λ d. index_key d.device.identity.scheme d.device.identity.primary) (sym same)
                  ∙ its_key,
            )
        | inr n ↦ (
          x,
          ap (λ b. if b then some (with_display e new) else s.dev i) n ∙ there,
          valid,
          its_key,
        )
      ]

  upsert-IsSound :
      (id : Str) (d : Device) (rt : Runtime) (s : Store) → IsSound s → IsSound (upsert id d rt s)
  unfolding upsert
  upsert-IsSound id d rt s v =
      claim-IsSound id _ _ (installed-IsSound id (upserted (s.dev id) d rt) s v)

  rename-IsSound : (id old new : Str) (s : Store) → IsSound s → IsSound (rename id old new s)
  unfolding rename rename_entry
  rename-IsSound id old new s v = entry (s.dev id) refl
    where
      entry : (o : Option DeviceEntry) → s.dev id ≡ o → IsSound (rename_entry id old new o s)
      entry none h = v
      entry (some e) h = elim (Bool-cases (is_key e.device.identity.scheme new)) [
        | inl y ↦
            let scheme = e.device.identity.scheme in
            rw y (
              renamed-IsSound id new e s
                (put (index_key scheme new) id (
                  if is_key scheme old
                  then remove (index_key scheme old) s.by_display
                  else s.by_display))
                h v)
        | inr n ↦ rw n v
      ]

  -- The calls that write the index.
  pub data Op : Type 0 where
    upserts : Str → Device → Runtime → Op
    renames : Str → Str → Str → Op

  -- The store after the calls so far, newest first.
  abbrev pub after_ops : List Op → Store
  after_ops [] = new_store
  after_ops (upserts id d rt ∷ earlier) = upsert id d rt (after_ops earlier)
  after_ops (renames id old new ∷ earlier) = rename id old new (after_ops earlier)

  -- After any sequence of upserts and renames of a new store, every key in the primary index leads
  -- to an entry that is there and whose scheme and primary key, neither of them empty, make up that key.
  pub after_ops-IsSound : (ops : List Op) → IsSound (after_ops ops)
  unfolding new_store
  after_ops-IsSound [] = λ k i h. cc
  after_ops-IsSound (upserts id d rt ∷ earlier) =
      upsert-IsSound id d rt (after_ops earlier) (after_ops-IsSound earlier)
  after_ops-IsSound (renames id old new ∷ earlier) =
      rename-IsSound id old new (after_ops earlier) (after_ops-IsSound earlier)
