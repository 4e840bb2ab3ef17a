-- ===== src/State/House/Dimensions.antt =====
-- What the occupancy and activity dimensions mean (internal/state/house.go).
use statehouse.Prelude.{
  Float64, Bool, true, false, not, ◌&&◌, ◌||◌, ◌≡◌, arith, suc, ◌+◌, ◌≤◌, List, [], ◌∷◌, foldl,
  if◌then◌else◌, length, keep, ltb, leb, ◌==◌,
}
use statehouse.Time.{Time, elapsed-mono}
use statehouse.Model.Signal.{ActivitySignal}
use statehouse.Model.Device.{Device}
use statehouse.Model.House.{OccupancyState, HouseActivityState}
use statehouse.State.House.{
  TimeZones, HouseConfig, Gathered, nothing_gathered, scan_device, scan_signal, gather, no_sources,
  derive_house_state, derive_occupancy, derive_activity, is_occupancy_relevant,
  is_active_device_state, is_continuous,
}

module _ ⦃fl : Float64⦄ where
  -- A device that counts for occupancy and is active.
  abbrev pub shows_presence : Device → Bool
  shows_presence d = is_occupancy_relevant d.class && is_active_device_state d.activity.state

  -- A device that counts for the activity of the house.
  abbrev pub counts_active : Device → Bool
  counts_active d = not (is_continuous d.class) && is_active_device_state d.activity.state

  abbrev pub any : {A : Type 0} → (A → Bool) → List A → Bool
  any p [] = false
  any p (x ∷ xs) = let rest = any p xs in p x || rest

  scan_device_lem :
      (g : Gathered) (d : Device)
      → ((scan_device g d).anyone_active ≡ (g.anyone_active || shows_presence d))
        × ((scan_device g d).active_count
            ≡ (if counts_active d then suc g.active_count else g.active_count))
  unfolding scan_device
  scan_device_lem g d = ground arith

  scan_devices_lem :
      (g : Gathered) (ds : List Device)
      → let h = foldl scan_device g ds in
        (h.anyone_active ≡ (g.anyone_active || any shows_presence ds))
        × (h.active_count ≡ g.active_count + length (keep counts_active ds))
  scan_devices_lem g [] = (ground arith, omega arith)
  scan_devices_lem g (d ∷ ds) =
      ground (arith, scan_devices_lem (scan_device g d) ds, scan_device_lem g d)

  scan_signals_lem :
      (g : Gathered) (ss : List ActivitySignal)
      → let h = foldl scan_signal g ss in
        (h.anyone_active ≡ (g.anyone_active || ltb 0 (length ss)))
        × (h.active_count ≡ g.active_count + length ss)
  unfolding scan_signal
  scan_signals_lem g [] = (ground arith, omega arith)
  scan_signals_lem g (s ∷ ss) = ground (arith, scan_signals_lem (scan_signal g s) ss)

  pub gather_lem :
      (ds : List Device) (ss : List ActivitySignal) (last : Time)
      → let g = gather ds ss last in
        (g.anyone_active ≡ (any shows_presence ds || ltb 0 (length ss)))
        × (g.active_count ≡ length (keep counts_active ds) + length ss)
  unfolding gather
  gather_lem ds ss last =
      let h = foldl scan_device nothing_gathered ds in
      ground (arith, scan_devices_lem nothing_gathered ds, scan_signals_lem h ss)

  -- If a device that counts for occupancy is active, or there is any signal, the house is
  -- occupied.
  pub presence_occupied :
      (tz : TimeZones) (now : Time) (cfg : HouseConfig) (ds : List Device)
      (ss : List ActivitySignal) (last : Time)
      → (any shows_presence ds || ltb 0 (length ss)) ≡ true
      → (derive_house_state tz now cfg ds ss last).occupancy.state ≡ OccupancyState.occupied
  unfolding derive_house_state derive_occupancy
  presence_occupied tz now cfg [] [] last h = cc
  presence_occupied tz now cfg [] (s ∷ ss) last h = ground (arith, gather_lem [] (s ∷ ss) last)
  presence_occupied tz now cfg (d ∷ ds) ss last h = ground (arith, gather_lem (d ∷ ds) ss last)

  -- A house that is empty is empty at every later time, while the devices and signals stay the
  -- same.
  pub empty_persists :
      (tz : TimeZones) (now later : Time) (cfg : HouseConfig) (ds : List Device)
      (ss : List ActivitySignal) (last : Time)
      → now ≤ later
      → (derive_house_state tz now cfg ds ss last).occupancy.state ≡ OccupancyState.empty
      → (derive_house_state tz later cfg ds ss last).occupancy.state ≡ OccupancyState.empty
  unfolding derive_house_state derive_occupancy
  empty_persists tz now later cfg ds ss last h e =
      ground (arith, elapsed-mono now later (gather ds ss last).most_recent_activity h)

  -- The activity of a house that has any device, signal or past signal is graded by the number of
  -- its active devices, those of the continuous class left out, and signals: idle at 0, quiet at
  -- 1, active up to 3, and busy above.
  pub activity_graded :
      (tz : TimeZones) (now : Time) (cfg : HouseConfig) (ds : List Device)
      (ss : List ActivitySignal) (last : Time)
      → no_sources ds ss last ≡ false
      → let n = length (keep counts_active ds) + length ss in
        (derive_house_state tz now cfg ds ss last).activity.state ≡ (
          if n == 0
          then HouseActivityState.idle
          else if n == 1
          then HouseActivityState.quiet
          else if leb n 3
          then HouseActivityState.active
          else HouseActivityState.busy)
  unfolding derive_house_state derive_activity
  activity_graded tz now cfg ds ss last h = ground (arith, gather_lem ds ss last)
