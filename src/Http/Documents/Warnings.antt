-- ===== src/Http/Documents/Warnings.antt =====
-- What the summary counts (buildSummary and buildSnapshot in internal/httpapi/dto.go).
use statehouse.Prelude.{
  ℕ, ◌+◌, Float64, Bool, true, false, not, ◌&&◌, ◌||◌, ◌≡◌, refl, ap, ◌∙◌, arith, Option, ℤ, List,
  [], ◌∷◌, ◌++◌, length, suc, ltb, Str, str, if◌then◌else◌,
}
use statehouse.Time.{Time}
use statehouse.Device.Class.{Class, same_class}
use statehouse.Model.Activity.{Availability, same_availability}
use statehouse.Model.Device.{Device}
use statehouse.Model.Signal.{ActivitySignal}
use statehouse.Model.ActivityRecord.{ActivityRecord}
use statehouse.Http.Documents.Devices.{
  is_stale, diverges, counter_stale, when, build_activity_response, build_latest_response,
  build_device_response,
}
use statehouse.Http.Documents.Snapshots.{
  SummaryResponse, Snapshot, plus_if, is_active_state, count_device, count_devices, build_summary,
  build_devices, build_snapshot,
}

-- How many elements pass a test.
abbrev pub count {ℓ} : {A : Type ℓ} → (A → Bool) → List A → ℕ
count p [] = 0
count p (x ∷ xs) = (if p x then 1 else 0) + count p xs

plus_count : (b : Bool) (n k : ℕ) → plus_if b n + k ≡ n + ((if b then 1 else 0) + k)
plus_count true n k = omega arith
plus_count false n k = omega arith

abbrev counts : ℕ → ℕ → ℕ → ℕ → SummaryResponse
counts d o a w = record { device_count = d; online_count = o; active_count = a; warning_count = w }

same_counts :
    {d d' o o' a a' w w' : ℕ}
    → d ≡ d'
    → o ≡ o'
    → a ≡ a'
    → w ≡ w'
    → counts d o a w ≡ counts d' o' a' w'
same_counts h i j k = rw (h, i, j, k) refl

module _ ⦃fl : Float64⦄ (now : Time) (staleness : Class → Option ℤ) where
  abbrev pub is_online : Str × Device → Bool
  is_online e = same_availability (e.1).availability Availability.online

  -- Fridges and the like, which are never off, do not count as active.
  abbrev pub is_counted_active : Str × Device → Bool
  is_counted_active e =
      not (same_class (e.1).class Class.continuous) && is_active_state (e.1).activity.state

  abbrev pub has_warning : Str × Device → Bool
  has_warning e =
      is_stale (e.1).latest (e.1).class now (staleness (e.1).class)
      || diverges (e.1).cycle
      || counter_stale (e.1).cycle

  warned :
      (a b c : Bool) (x y z : Str)
      → ltb 0 (length (when a x ++ (when b y ++ when c z))) ≡ (a || b || c)
  warned a b c x y z = ground arith

  counted :
      (s : SummaryResponse) (es : List (Str × Device))
      → count_devices s (build_devices now staleness es) ≡ record {
        device_count = s.device_count;
        online_count = s.online_count + count is_online es;
        active_count = s.active_count + count is_counted_active es;
        warning_count = s.warning_count + count has_warning es;
      }
  unfolding count_devices build_devices count_device build_device_response build_latest_response
      build_activity_response
  counted s [] = same_counts refl (omega arith) (omega arith) (omega arith)
  counted s (e ∷ es) =
      let d = e.1 in
      let response = build_device_response d now (staleness d.class) false in
      let stale = is_stale d.latest d.class now (staleness d.class) in
      counted (count_device s response) es
      ∙ same_counts refl (plus_count (is_online e) s.online_count (count is_online es))
          (plus_count (is_counted_active e) s.active_count (count is_counted_active es))
          (ap (λ b. plus_if b s.warning_count + count has_warning es)
              (warned stale (diverges d.cycle) (counter_stale d.cycle) (str "stale_device")
                (str "cycle_divergence") (str "stale_counter"))
            ∙ plus_count (has_warning e) s.warning_count (count has_warning es))

  length-build_devices :
      (es : List (Str × Device)) → length (build_devices now staleness es) ≡ length es
  unfolding build_devices
  length-build_devices [] = refl
  length-build_devices (e ∷ es) = ap suc (length-build_devices es)

  -- The summary of a snapshot counts its devices, those online, those of another class than the
  -- continuous one in an active state, and those with a warning: seen but stale, or with a cycle whose
  -- energies diverge or whose counter stood still.
  pub summary_counts :
      (snap : Snapshot) (signals : List ActivitySignal) (records : List ActivityRecord)
      (started : Time) (site : Str)
      → (build_snapshot snap signals records now staleness started site).summary ≡ record {
        device_count = length snap.devices;
        online_count = count is_online snap.devices;
        active_count = count is_counted_active snap.devices;
        warning_count = count has_warning snap.devices;
      }
  unfolding build_snapshot build_summary
  summary_counts snap signals records started site =
      counted _ snap.devices
      ∙ same_counts (length-build_devices snap.devices) (omega arith) (omega arith) (omega arith)
