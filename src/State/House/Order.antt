-- ===== src/State/House/Order.antt =====
-- The house state under the orders in which Go may visit its maps (internal/state/house.go).
use statehouse.Prelude.{
  Float64, Bool, true, false, ◌&&◌, ◌≡◌, refl, subst, ◌∙◌, arith, List, [], ◌∷◌, foldl,
  sort_strings, insert_str-swap,
}
use mathlib.Core.List.{Permᴰ}
use statehouse.Time.{Time, is_zero}
use statehouse.Model.Signal.{ActivitySignal}
use statehouse.Model.Device.{Device}
use statehouse.State.House.{
  TimeZones, HouseConfig, Gathered, nothing_gathered, scan_device, scan_signal, gather, no_sources,
  derive_house_state, derive_occupancy,
}

abbrev is_nil {ℓ} : {A : Type ℓ} → List A → Bool
is_nil [] = true
is_nil (x ∷ xs) = false

is_nil-Permᴰ {ℓ} : {A : Type ℓ} {xs ys : List A} → Permᴰ xs ys → is_nil xs ≡ is_nil ys
is_nil-Permᴰ Permᴰ.nil = refl
is_nil-Permᴰ (Permᴰ.cons e p) = refl
is_nil-Permᴰ (Permᴰ.swap e f) = refl
is_nil-Permᴰ (Permᴰ.trans p q) = is_nil-Permᴰ p ∙ is_nil-Permᴰ q

module _ ⦃fl : Float64⦄ where
  -- Two scans that differ at most in the order of the ids.
  pub record Same (g h : Gathered) : Type 0 where
    pub recent : g.most_recent_activity ≡ h.most_recent_activity
    pub anyone : g.anyone_active ≡ h.anyone_active
    pub count : g.active_count ≡ h.active_count
    pub ids : sort_strings g.active_devices ≡ sort_strings h.active_devices

  Same-refl : (g : Gathered) → Same g g
  Same-refl g = record { recent = refl; anyone = refl; count = refl; ids = refl }

  Same-trans : {f g h : Gathered} → Same f g → Same g h → Same f h
  Same-trans p q = record {
    recent = p.recent ∙ q.recent;
    anyone = p.anyone ∙ q.anyone;
    count = p.count ∙ q.count;
    ids = p.ids ∙ q.ids;
  }

  scan_device-Same :
      (g h : Gathered) (d : Device) → Same g h → Same (scan_device g d) (scan_device h d)
  unfolding scan_device sort_strings
  scan_device-Same g h d p = ground arith

  scan_device-swap :
      (g : Gathered) (a b : Device)
      → Same (scan_device (scan_device g a) b) (scan_device (scan_device g b) a)
  unfolding scan_device sort_strings
  scan_device-swap g a b = ground (arith, insert_str-swap a.id b.id (sort_strings g.active_devices))

  scan_signal-Same :
      (g h : Gathered) (s : ActivitySignal) → Same g h → Same (scan_signal g s) (scan_signal h s)
  unfolding scan_signal
  scan_signal-Same g h s p = ground arith

  scan_signal-swap :
      (g : Gathered) (a b : ActivitySignal)
      → Same (scan_signal (scan_signal g a) b) (scan_signal (scan_signal g b) a)
  unfolding scan_signal
  scan_signal-swap g a b = ground arith

  foldl-Same :
      {D : Type 0} (scan : Gathered → D → Gathered)
      → ((g h : Gathered) (d : D) → Same g h → Same (scan g d) (scan h d))
      → (xs : List D) (g h : Gathered) → Same g h
      → Same (foldl scan g xs) (foldl scan h xs)
  foldl-Same scan respects [] g h s = s
  foldl-Same scan respects (x ∷ xs) g h s =
      foldl-Same scan respects xs (scan g x) (scan h x) (respects g h x s)

  -- A scan whose steps respect and exchange with one another gives the same for each order.
  foldl-Permᴰ :
      {D : Type 0} (scan : Gathered → D → Gathered)
      → ((g h : Gathered) (d : D) → Same g h → Same (scan g d) (scan h d))
      → ((g : Gathered) (a b : D) → Same (scan (scan g a) b) (scan (scan g b) a))
      → {xs ys : List D} (g h : Gathered) → Permᴰ xs ys
      → Same g h
      → Same (foldl scan g xs) (foldl scan h ys)
  foldl-Permᴰ scan respects swaps g h Permᴰ.nil s = s
  foldl-Permᴰ scan respects swaps g h (Permᴰ.cons {a = a} e p) s =
      foldl-Permᴰ scan respects swaps _ _ p
        (subst (λ b. Same (scan g a) (scan h b)) e (respects g h a s))
  foldl-Permᴰ scan respects swaps g h (Permᴰ.swap {a = a} {b = b} {l = l} e f) s =
      rw (← e, ← f)
        (foldl-Same scan respects l _ _
          (Same-trans (swaps g a b) (respects _ _ a (respects g h b s))))
  foldl-Permᴰ scan respects swaps g h (Permᴰ.trans p q) s =
      Same-trans (foldl-Permᴰ scan respects swaps g g p (Same-refl g))
        (foldl-Permᴰ scan respects swaps g h q s)

  gather-Same :
      {devices devices' : List Device} {signals signals' : List ActivitySignal} (last : Time)
      → Permᴰ devices devices'
      → Permᴰ signals signals'
      → Same (gather devices signals last) (gather devices' signals' last)
  unfolding gather
  gather-Same last p q =
      let s = foldl-Permᴰ scan_signal scan_signal-Same scan_signal-swap _ _ q (
        foldl-Permᴰ scan_device scan_device-Same scan_device-swap nothing_gathered nothing_gathered
          p (Same-refl nothing_gathered)) in
      ground (arith, s.recent, s.anyone, s.count, s.ids)

  no_sources-Permᴰ :
      {devices devices' : List Device} {signals signals' : List ActivitySignal} (last : Time)
      → Permᴰ devices devices'
      → Permᴰ signals signals'
      → no_sources devices signals last ≡ no_sources devices' signals' last
  no_sources-Permᴰ last p q = rw (none_known _ _, none_known _ _, is_nil-Permᴰ p, is_nil-Permᴰ q)
    where
      none_known :
          (ds : List Device) (ss : List ActivitySignal)
          → no_sources ds ss last ≡ (is_nil ds && is_nil ss && is_zero last)
      none_known [] [] = refl
      none_known [] (s ∷ ss) = refl
      none_known (d ∷ ds) ss = refl

  derive_occupancy-Same :
      (now : Time) (cfg : HouseConfig) (none_known : Bool) (g h : Gathered)
      → Same g h
      → derive_occupancy now cfg none_known g ≡ derive_occupancy now cfg none_known h
  unfolding derive_occupancy
  derive_occupancy-Same now cfg none_known g h s = rw (s.recent, s.anyone)

  -- Whatever the order of the devices and of the signals, the derived state is the same, the list
  -- of active devices included.
  pub derive_house_state-Perm :
      (tz : TimeZones) (now : Time) (cfg : HouseConfig) {devices devices' : List Device}
      {signals signals' : List ActivitySignal} (last : Time)
      → Permᴰ devices devices'
      → Permᴰ signals signals'
      → derive_house_state tz now cfg devices signals last
        ≡ derive_house_state tz now cfg devices' signals' last
  unfolding derive_house_state
  derive_house_state-Perm tz now cfg last p q =
      let s = gather-Same last p q in
      rw
        (no_sources-Permᴰ last p q, derive_occupancy-Same now cfg _ _ _ s, s.recent, s.count, s.ids)
