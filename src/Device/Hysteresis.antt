-- ===== src/Device/Hysteresis.antt =====
-- maybeBegin and maybeEnd (internal/device/statemachine.go): a threshold must be held for a while
-- before a cycle begins or ends.
use statehouse.Prelude.{
  Float64, Num, ◌<f◌, Option, some, none, Bool, true, false, pos, leb_ℤ, if◌then◌else◌, not,
}
use statehouse.Time.{Time, elapsed}
use statehouse.Device.Runtime.{Runtime, CandidateSample, deref_f64, deref_dur}
use statehouse.Model.Activity.{DeviceActivityState}

-- Active, Running and ActiveCycle.
unfoldable pub is_busy : DeviceActivityState → Bool
is_busy DeviceActivityState.active = true
is_busy DeviceActivityState.running = true
is_busy DeviceActivityState.active_cycle = true
is_busy _ = false

module _ ⦃fl : Float64⦄ where
  -- `c != nil && c.abovePrevHi`
  abbrev pub is_high : Option CandidateSample → Bool
  is_high none = false
  is_high (some c) = c.above_prev_hi

  abbrev pub is_low : Option CandidateSample → Bool
  is_low none = false
  is_low (some c) = c.below_prev_lo

  -- `c.at`, read only where a candidate is present.
  abbrev pub candidate_at : Option CandidateSample → Time
  candidate_at none = 0
  candidate_at (some c) = c.at

  abbrev pub high_sample : Time → Num → Option CandidateSample
  high_sample at p =
      some (record { at = at; power_w = p; above_prev_hi = true; below_prev_lo = false })

  abbrev pub low_sample : Time → Num → Option CandidateSample
  low_sample at p =
      some (record { at = at; power_w = p; above_prev_hi = false; below_prev_lo = true })

  abbrev pub with_candidate : Runtime → Option CandidateSample → Runtime
  with_candidate r c = record r { candidate = c }

  unfoldable pub maybe_begin : Runtime → Time → Num → Runtime × Bool
  unfolding is_busy
  maybe_begin r at p =
      if is_busy r.activity
      then (r, false)
      else if p <f deref_f64 r.thresholds.active_above_w
      then (if is_high r.candidate then (with_candidate r none, false) else (r, false))
      else if not (is_high r.candidate)
      then (if leb_ℤ (deref_dur r.thresholds.active_sustained_for) (pos 0)
          then (with_candidate r none, true)
          else (with_candidate r (high_sample at p), false))
      else if leb_ℤ (deref_dur r.thresholds.active_sustained_for)
          (elapsed at (candidate_at r.candidate))
      then (with_candidate r none, true)
      else (r, false)

  unfoldable pub maybe_end : Runtime → Time → Num → Runtime × Bool
  unfolding is_busy
  maybe_end r at p =
      if not (is_busy r.activity)
      then (r, false)
      else if deref_f64 r.thresholds.idle_below_w <f p
      then (if is_low r.candidate then (with_candidate r none, false) else (r, false))
      else if not (is_low r.candidate)
      then (if leb_ℤ (deref_dur r.thresholds.inactive_sustained_for) (pos 0)
          then (with_candidate r none, true)
          else (with_candidate r (low_sample at p), false))
      else if leb_ℤ (deref_dur r.thresholds.inactive_sustained_for)
          (elapsed at (candidate_at r.candidate))
      then (with_candidate r none, true)
      else (r, false)
