-- ===== src/Device/Resolver/Identities.antt =====
-- The ids that the configuration gives to devices (NewResolver, Resolve and ConfiguredID in
-- internal/device/profiles.go).
use statehouse.Prelude.{
  Float64, not, ◌&&◌, ◌≡◌, refl, ◌∙◌, ◌⊎◌, inl, inr, Option, some, none, [], ◌∷◌, ◌++◌, Str, str,
  str_eq, str_eq→eq, Bool-cases,
}
use statehouse.Model.Identity.{DeviceIdentity, is_empty}
use statehouse.Strings.{Unicode, to_lower}
use statehouse.Config.{Config, DeviceConfig}
use statehouse.Device.Class.{class_of}
use statehouse.Device.Profile.{Profile, Resolution}
use statehouse.Device.Hints.{Map, find, classify_by_hints}
use statehouse.Device.Resolver.{
  Resolver, add_primary, add_display, add_devices, new_resolver, primary_key, display_key,
  configured_profile, profile_from_override, hinted_profile, first_profile, or_text, resolve,
  configured_id,
}

-- The map has the entry.
abbrev pub IsEntry : {A : Type 0} → Str → A → Map A → Type 0
IsEntry k a [] = ⊥
IsEntry k a (e ∷ m) = ((e.0 ≡ k) × (e.1 ≡ a)) ⊎ IsEntry k a m

-- The keys of an override.
abbrev pub override_primary : ⦃fl : Float64⦄ → Unicode → DeviceConfig → Str
override_primary u d = d.scheme ++ (str ":" ++ to_lower u d.primary)

abbrev pub override_display : ⦃fl : Float64⦄ → Unicode → DeviceConfig → Str
override_display u d = d.scheme ++ (str ":" ++ to_lower u d.display)

module _ ⦃fl : Float64⦄ (u : Unicode) (devices : Map DeviceConfig) where
  -- Two maps have the overrides and their ids under the same keys.
  abbrev Paired : (DeviceConfig → Str) → Map DeviceConfig → Map Str → Type 0
  Paired key [] [] = Unit
  Paired key [] (f ∷ n) = ⊥
  Paired key (e ∷ m) [] = ⊥
  Paired key (e ∷ m) (f ∷ n) =
      (key e.1 ≡ e.0) × (f.0 ≡ e.0) × IsEntry f.1 e.1 devices × Paired key m n

  -- What lookups of a key in both find.
  abbrev Found : (DeviceConfig → Str) → Str → Option DeviceConfig → Option Str → Type 0
  Found key k d id =
      ((d ≡ none) × (id ≡ none))
      ⊎ ((d' : DeviceConfig) × (id' : Str) × (d ≡ some d')
          × (id ≡ some id')
          × (key d' ≡ k)
          × IsEntry id' d' devices)

  find-Paired :
      (key : DeviceConfig → Str) (k : Str) (m : Map DeviceConfig) (n : Map Str)
      → Paired key m n
      → Found key k (find k m) (find k n)
  unfolding find
  find-Paired key k [] [] p = inl (refl, refl)
  find-Paired key k [] (f ∷ n) p = absurd p
  find-Paired key k (e ∷ m) [] p = absurd p
  find-Paired key k (e ∷ m) (f ∷ n) (own, same, entry, p) = elim (Bool-cases (str_eq e.0 k)) [
    | inl y ↦ inr (e.1, f.1, rw y refl, rw (same, y) refl, own ∙ str_eq→eq e.0 k y, entry)
    | inr w ↦ rw (same, w) (find-Paired key k m n p)
  ]

  -- What `NewResolver` sets up: each override has its id.
  record IsPaired (r : Resolver) : Type 0 where
    primary : Paired (override_primary u) r.by_primary r.id_by_primary
    display : Paired (override_display u) r.by_display r.id_by_display

  add_primary-IsPaired :
      (r : Resolver) (e : Str × DeviceConfig)
      → IsEntry e.0 e.1 devices
      → IsPaired r
      → IsPaired (add_primary u r e)
  unfolding add_primary
  add_primary-IsPaired r (id, d) entry p =
      elim (Bool-cases (not (is_empty d.scheme) && not (is_empty d.primary))) [
        | inl k ↦ rw k (record { primary = (refl, refl, entry, p.primary); display = p.display })
        | inr k ↦ rw k p
      ]

  add_display-IsPaired :
      (r : Resolver) (e : Str × DeviceConfig)
      → IsEntry e.0 e.1 devices
      → IsPaired r
      → IsPaired (add_display u r e)
  unfolding add_display
  add_display-IsPaired r (id, d) entry p =
      elim (Bool-cases (not (is_empty d.scheme) && not (is_empty d.display))) [
        | inl k ↦ rw k (record { primary = p.primary; display = (refl, refl, entry, p.display) })
        | inr k ↦ rw k p
      ]

  add_devices-IsPaired :
      (r : Resolver) (es : Map DeviceConfig)
      → ((id : Str) (d : DeviceConfig) → IsEntry id d es → IsEntry id d devices)
      → IsPaired r
      → IsPaired (add_devices u r es)
  unfolding add_devices
  add_devices-IsPaired r [] within p = p
  add_devices-IsPaired r (e ∷ es) within p =
      let entry = within e.0 e.1 (inl (refl, refl)) in
      let added = add_primary-IsPaired r e entry p in
      add_devices-IsPaired (add_display u (add_primary u r e) e) es (λ id d i. within id d (inr i))
        (add_display-IsPaired (add_primary u r e) e entry added)

module _ ⦃fl : Float64⦄ (u : Unicode) where
  new_resolver-IsPaired : (cfg : Config) → IsPaired u cfg.devices (new_resolver u cfg)
  unfolding new_resolver
  new_resolver-IsPaired cfg =
      add_devices-IsPaired u cfg.devices _ cfg.devices (λ id d i. i)
        (record { primary = tt; display = tt })

  -- The entry is one of the configuration under the id, it has a key of the device, and the profile
  -- has its class.
  pub record Configures (devices : Map DeviceConfig) (i : DeviceIdentity) (p : Profile) (id : Str)
      (d : DeviceConfig) : Type 0 where
    pub entry : IsEntry id d devices
    pub own_key :
        (override_primary u d ≡ primary_key u i) ⊎ (override_display u d ≡ display_key u i)
    pub class : p.class ≡ class_of d.class
    pub resolution : p.resolution ≡ Resolution.device_config

  abbrev pub IsHinted : Profile → Type 0
  IsHinted p = (p.resolution ≡ Resolution.name_hint) ⊎ (p.resolution ≡ Resolution.unclassified)

  -- The outcome of a lookup by both keys.
  abbrev pub Agrees : Map DeviceConfig → DeviceIdentity → Profile → Str → Type 0
  Agrees devices i p id =
      (p.id ≡ id) × (((d : DeviceConfig) × Configures devices i p id d) ⊎ (IsHinted p × (id ≡ [])))

  hinted-Agrees :
      (devices : Map DeviceConfig) (r : Resolver) (i : DeviceIdentity) (c : Option Str)
      → Agrees devices i (hinted_profile u r i c) []
  unfolding hinted_profile
  hinted-Agrees devices r i none = (refl, inr (inr refl, refl))
  hinted-Agrees devices r i (some c) = (refl, inr (inl refl, refl))

  configured-Agrees :
      (devices : Map DeviceConfig) (r : Resolver) (i : DeviceIdentity) (id : Str) (d : DeviceConfig)
      → IsEntry id d devices
      → (override_primary u d ≡ primary_key u i) ⊎ (override_display u d ≡ display_key u i)
      → Agrees devices i (configured_profile u r (some id) i d) id
  unfolding configured_profile profile_from_override
  configured-Agrees devices r i id d entry own =
      (refl, inl (d, record { entry = entry; own_key = own; class = refl; resolution = refl }))

  first_profile-Agrees :
      (devices : Map DeviceConfig) (r : Resolver) (i : DeviceIdentity) (p d : Option DeviceConfig)
      (pid did : Option Str) (h : Profile)
      → Found u devices (override_primary u) (primary_key u i) p pid
      → Found u devices (override_display u) (display_key u i) d did
      → Agrees devices i h []
      → Agrees devices i
          (first_profile u r i (p, pid) (d, did) h)
          (or_text u (or_text u [] did) pid)
  first_profile-Agrees devices r i p d pid did h (inr (d', id, e, f, own, entry)) _ g =
      rw (e, f) (configured-Agrees devices r i id d' entry (inl own))
  first_profile-Agrees devices r i p d pid did h (inl (e, f)) (inr (d', id, e', f', own, entry)) g =
      rw (e, f, e', f') (configured-Agrees devices r i id d' entry (inr own))
  first_profile-Agrees devices r i p d pid did h (inl (e, f)) (inl (e', f')) g = rw (e, f, e', f') g

  -- A resolver made from a configuration gives a device the id that it reports as configured. Either
  -- an entry of the configuration has that id and a key of the device, and the profile has the class
  -- of this entry, or the profile comes from no entry and has no id.
  pub resolve_id :
      (cfg : Config) (i : DeviceIdentity)
      → Agrees cfg.devices i
          (resolve u (new_resolver u cfg) i)
          (configured_id u (new_resolver u cfg) i)
  unfolding resolve configured_id
  resolve_id cfg i =
      let r = new_resolver u cfg in
      let paired = new_resolver-IsPaired cfg in
      let p = primary_key u i in
      let d = display_key u i in
      first_profile-Agrees cfg.devices r i (find p r.by_primary) (find d r.by_display)
        (find p r.id_by_primary) (find d r.id_by_display) _
        (find-Paired u cfg.devices (override_primary u) p r.by_primary r.id_by_primary
          paired.primary)
        (find-Paired u cfg.devices (override_display u) d r.by_display r.id_by_display
          paired.display)
        (hinted-Agrees cfg.devices r i (classify_by_hints u r.classes i.display))
