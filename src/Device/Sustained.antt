-- ===== src/Device/Sustained.antt =====
-- For how long the power has been held when a cycle of a device with hysteresis begins (maybeBegin
-- in internal/device/statemachine.go).
pub mod Steps
pub mod Readings
use statehouse.Prelude.{
  Float64, Num, ◌<f◌, Option, some, none, Bool, true, false, not, ◌≡◌, refl, arith, List, [], ◌∷◌,
  ◌⊎◌, inl, inr, ◌≤ℤ◌, ℤ, if◌then◌else◌,
}
use statehouse.Time.{Time, Duration, elapsed}
use statehouse.Device.Class.{Class}
use statehouse.Device.Runtime.{Runtime, CandidateSample, deref_f64, deref_dur}
use statehouse.Device.Hysteresis.{is_busy, is_high, candidate_at, maybe_begin, maybe_end}
use statehouse.Device.Invariant.{IsConsistent}

-- The classes whose cycles begin by maybeBegin.
abbrev pub has_hysteresis : Class → Bool
has_hysteresis Class.short_burst = true
has_hysteresis Class.cycle_power = true
has_hysteresis Class.media = true
has_hysteresis _ = false

module _ ⦃fl : Float64⦄ where
  -- The power samples so far, newest first.
  abbrev pub History : Type 0
  History = List (Time × Num)

  -- The samples from the one at `t` up to the newest all reach the threshold.
  abbrev pub HeldSince : Num → Time → History → Type 0
  HeldSince threshold t [] = ⊥
  HeldSince threshold t ((at, p) ∷ h) =
      ((p <f threshold) ≡ false) × ((at ≡ t) ⊎ HeldSince threshold t h)

  -- A pending high sample marks a time since which the threshold has been held.
  abbrev pub CandidateHeld : Num → Option CandidateSample → History → Type 0
  CandidateHeld threshold none h = Unit
  CandidateHeld threshold (some c) h = c.above_prev_hi ≡ true → HeldSince threshold c.at h

  abbrev pub active_threshold : Runtime → Num
  active_threshold r = deref_f64 r.thresholds.active_above_w

  abbrev pub sustained_for : Runtime → Duration
  sustained_for r = deref_dur r.thresholds.active_sustained_for

  -- From when the threshold has been held, if a cycle begins now.
  abbrev pub held_from : Option CandidateSample → Time → Time
  held_from c at = if is_high c then candidate_at c else at

  elapsed_self : (t : Time) → elapsed t t ≡ ℤ.pos 0
  unfolding elapsed
  elapsed_self t = ground arith

  -- What a call of maybeBegin owes to the samples so far.
  pub maybe_begin_held :
      (r : Runtime) (at : Time) (p : Num) (h : History)
      → IsConsistent r
      → CandidateHeld (active_threshold r) r.candidate h
      → let (r', b) = maybe_begin r at p in
        CandidateHeld (active_threshold r) r'.candidate ((at, p) ∷ h)
        × (b ≡ true → HeldSince (active_threshold r) (held_from r.candidate at) ((at, p) ∷ h))
        × (b ≡ true → sustained_for r ≤ℤ elapsed at (held_from r.candidate at))
  unfolding maybe_begin
  maybe_begin_held r at p h v held = ground (arith, elapsed_self at)

  pub maybe_end_held :
      (r : Runtime) (at : Time) (p : Num) (threshold : Num) (h : History)
      → CandidateHeld threshold r.candidate h
      → CandidateHeld threshold (maybe_end r at p).0.candidate h
  unfolding maybe_end
  maybe_end_held r at p threshold h held = ground arith
