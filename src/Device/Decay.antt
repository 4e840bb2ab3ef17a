-- ===== src/Device/Decay.antt =====
-- How finished_recently decays to idle (stepCycle and Tick in internal/device/statemachine.go).
use statehouse.Prelude.{
  Float64, Num, ◌<f◌, some, true, ◌≡◌, ◌∙◌, ap, arith, ℕ, suc, List, [], ◌∷◌, if◌then◌else◌, leb,
  leb_ℤ,
}
use statehouse.Time.{Time, elapsed}
use statehouse.Device.Class.{Class, is_passive_sensor}
use statehouse.Device.Runtime.{Runtime, Outcome, deref_f64, refresh_cycle_energy}
use statehouse.Device.Hysteresis.{is_busy, maybe_begin, maybe_end}
use statehouse.Device.Steps.{
  Step, unchanged, step_cycle, step_power, step_power?, decay, is_binary, on_reading,
  finish_reading, feed, tick, finish_time, finished_recently_ttl,
}
use statehouse.Device.Run.{run}
use statehouse.Device.Transitions.Readings.{feed_facts}
use statehouse.Model.Activity.{DeviceActivityState, same_state}
use statehouse.Model.Reading.{Reading}

module _ ⦃fl : Float64⦄ where
  -- A cycle device that has just finished, with `k` low readings counted.
  pub record IsWaning (r : Runtime) (k : ℕ) : Type 0 where
    pub class : r.profile.class ≡ Class.cycle_power
    pub state : r.activity ≡ DeviceActivityState.finished_recently
    pub count : r.finished_low_count ≡ k

  -- A reading of low power, by the thresholds of `r`.
  abbrev pub IsLow : Runtime → Reading → Type 0
  IsLow r reading =
      (p : Num) × (reading.power_w ≡ some p)
      × ((p <f deref_f64 r.thresholds.idle_below_w) ≡ true)
      × ((p <f deref_f64 r.thresholds.active_above_w) ≡ true)

  step_cycle_low :
      (r : Runtime) (at : Time) (p : Num) (out : Outcome)
      → r.activity ≡ DeviceActivityState.finished_recently
      → (p <f deref_f64 r.thresholds.idle_below_w) ≡ true
      → (p <f deref_f64 r.thresholds.active_above_w) ≡ true
      → let r' = (step_cycle r at p out).0 in
        let ends = leb 3 (suc r.finished_low_count) in
        (r'.activity
          ≡ (if ends then DeviceActivityState.idle else DeviceActivityState.finished_recently))
        × (r'.finished_low_count ≡ (if ends then 0 else suc r.finished_low_count))
        × (r'.profile ≡ r.profile)
        × (r'.thresholds ≡ r.thresholds)
  unfolding step_cycle maybe_begin maybe_end decay is_busy same_state
  step_cycle_low r at p out e low quiet = ground arith

  finish_reading_keeps :
      (at : Time) (s : Step)
      → let r' = (finish_reading at s).0 in
        (r'.activity ≡ s.0.activity)
        × (r'.finished_low_count ≡ s.0.finished_low_count)
        × (r'.profile ≡ s.0.profile)
        × (r'.thresholds ≡ s.0.thresholds)
  unfolding finish_reading refresh_cycle_energy
  finish_reading_keeps at (r, out) = ground arith

  feed_low_count :
      (r : Runtime) (at : Time) (reading : Reading)
      → (feed r at reading).finished_low_count ≡ r.finished_low_count
  unfolding feed
  feed_low_count r at reading = ground arith

  on_reading_cycle :
      (r : Runtime) (at : Time) (reading : Reading) (p : Num)
      → r.profile.class ≡ Class.cycle_power
      → reading.power_w ≡ some p
      → on_reading r at reading
        ≡ finish_reading at (step_cycle (feed r at reading) at p (unchanged r))
  unfolding on_reading is_binary is_passive_sensor step_power? step_power
  on_reading_cycle r at reading p c e = ground (arith, (feed_facts r at reading).2)

  -- One low reading: the third in a row ends finished_recently, an earlier one is counted.
  pub on_reading_low :
      (r : Runtime) (k : ℕ) (at : Time) (reading : Reading)
      → IsWaning r k
      → IsLow r reading
      → let r' = (on_reading r at reading).0 in
        (r'.activity ≡ (
          if leb 3 (suc k)
          then DeviceActivityState.idle
          else DeviceActivityState.finished_recently))
        × (r'.finished_low_count ≡ (if leb 3 (suc k) then 0 else suc k))
        × (r'.profile ≡ r.profile)
        × (r'.thresholds ≡ r.thresholds)
  on_reading_low r k at reading w (p, powered, low, quiet) =
      let fed = feed r at reading in
      let facts = feed_facts r at reading in
      let step =
        step_cycle_low fed at p (unchanged r) (facts.0 ∙ w.state) (rw facts.4 low)
          (rw facts.4 quiet) in
      let kept = finish_reading_keeps at (step_cycle fed at p (unchanged r)) in
      rw (on_reading_cycle r at reading p w.class powered)
        (ground (arith, step, kept, facts, feed_low_count r at reading, w.count))

  -- From a cycle device in finished_recently with no low reading counted, two readings below both
  -- thresholds leave it in finished_recently, and a third one takes it to idle with the count
  -- cleared.
  pub finished_recently_decays :
      (r : Runtime) (t₁ t₂ t₃ : Time) (reading₁ reading₂ reading₃ : Reading)
      → IsWaning r 0
      → IsLow r reading₁
      → IsLow r reading₂
      → IsLow r reading₃
      → let two : List (Time × Reading) = (t₂, reading₂) ∷ (t₁, reading₁) ∷ [] in
        ((run r two).activity ≡ DeviceActivityState.finished_recently)
        × ((run r ((t₃, reading₃) ∷ two)).activity ≡ DeviceActivityState.idle)
        × ((run r ((t₃, reading₃) ∷ two)).finished_low_count ≡ 0)
  unfolding run
  finished_recently_decays r t₁ t₂ t₃ reading₁ reading₂ reading₃ w l₁ l₂ l₃ =
      let r₁ = (on_reading r t₁ reading₁).0 in
      let s₁ = on_reading_low r 0 t₁ reading₁ w l₁ in
      let w₁ : IsWaning r₁ 1 = record {
        class = ap (λ q. q.class) s₁.2 ∙ w.class;
        state = s₁.0;
        count = s₁.1;
      } in
      let s₂ = on_reading_low r₁ 1 t₂ reading₂ w₁ (rw s₁.3 l₂) in
      let r₂ = (on_reading r₁ t₂ reading₂).0 in
      let w₂ : IsWaning r₂ 2 = record {
        class = ap (λ q. q.class) s₂.2 ∙ w₁.class;
        state = s₂.0;
        count = s₂.1;
      } in
      let s₃ = on_reading_low r₂ 2 t₃ reading₃ w₂ (rw (s₂.3, s₁.3) l₃) in (s₂.0, s₃.0, s₃.1)

  -- A tick takes a cycle device in finished_recently to idle, with the count cleared, if the
  -- finish lies at least 30 minutes back, and leaves its activity and count as they are otherwise;
  -- it reports the change, and it keeps the cycle.
  pub tick_decays :
      (r : Runtime) (k : ℕ) (at t : Time)
      → IsWaning r k
      → finish_time r.cycle ≡ some t
      → let expired = leb_ℤ finished_recently_ttl (elapsed at t) in
        let (r', out) = tick r at in
        (r'.activity
          ≡ (if expired then DeviceActivityState.idle else DeviceActivityState.finished_recently))
        × (r'.finished_low_count ≡ (if expired then 0 else k))
        × (out.prev_activity ≡ DeviceActivityState.finished_recently)
        × (out.new_activity ≡ r'.activity)
        × (r'.cycle ≡ r.cycle)
  unfolding tick same_state
  tick_decays r k at t w e = ground arith
