-- ===== src/Device/Transitions.antt =====
-- What one reading may do to a device: the outcome of OnReading against the runtimes before and
-- after it (internal/device/statemachine.go).
pub mod Readings
use statehouse.Prelude.{
  Float64, Num, Option, some, none, Bool, true, false, not, ◌&&◌, ◌≡◌, refl, ap, ◌∙◌, arith, Str,
  Bool-cases, if◌then◌else◌, inl, inr,
}
use statehouse.Time.{Time}
use statehouse.Device.Class.{Class, is_passive_sensor}
use statehouse.Device.Runtime.{
  Runtime, Outcome, is_active, start_cycle, finish_cycle, refresh_cycle_energy,
}
use statehouse.Device.Hysteresis.{is_busy, maybe_begin, maybe_end}
use statehouse.Device.Steps.{
  Step, began, ended, step_short_burst, step_media, step_cycle, step_continuous, step_binary,
  step_power, feed, decay, finish_reading, step_state, step_power?, report, is_binary, on_reading,
}
use statehouse.Device.Invariant.{
  IsConsistent, feed-IsConsistent, maybe_begin_facts, maybe_end_facts,
}
use statehouse.Model.Activity.{DeviceActivityState, same_state, same_state→eq}
use statehouse.Model.Device.{Cycle}
use statehouse.Model.Reading.{Reading}

busy_running : is_busy DeviceActivityState.running ≡ true
unfolding is_busy
busy_running = refl

calm_finished : is_busy DeviceActivityState.finished_recently ≡ false
unfolding is_busy
calm_finished = refl

calm_unknown : is_busy DeviceActivityState.unknown ≡ false
unfolding is_busy
calm_unknown = refl

calm_idle : is_busy DeviceActivityState.idle ≡ false
unfolding is_busy
calm_idle = refl

module _ ⦃fl : Float64⦄ where
  -- When a cycle started and finished.
  abbrev pub stamps : Option Cycle → Option (Time × Option Time)
  stamps none = none
  stamps (some c) = some (c.started_at, c.finished_at)

  abbrev pub finish_stamp : Time → Option (Time × Option Time) → Option (Time × Option Time)
  finish_stamp at none = none
  finish_stamp at (some (started, _)) = some (started, some at)

  -- How the runtime `r` and an outcome relate to the runtime `before`, after a step at `at`.
  pub record Transition (before : Runtime) (at : Time) (r : Runtime) (out : Outcome) : Type 0 where
    pub prev : out.prev_activity ≡ before.activity
    pub started_iff : out.cycle_started ≡ (not (is_busy before.activity) && is_busy r.activity)
    pub finished_iff : out.cycle_finished ≡ (is_busy before.activity && not (is_busy r.activity))
    pub cycle_stamps : stamps r.cycle ≡ (
        if out.cycle_started
        then some (at, none)
        else if out.cycle_finished
        then finish_stamp at (stamps before.cycle)
        else stamps before.cycle)
    pub same_profile : r.profile ≡ before.profile

  -- An outcome that nothing has been written to.
  pub record IsFresh (r : Runtime) (out : Outcome) : Type 0 where
    pub prev : out.prev_activity ≡ r.activity
    pub not_started : out.cycle_started ≡ false
    pub not_finished : out.cycle_finished ≡ false

  step_short_burst-Transition :
      (r : Runtime) (at : Time) (p : Num) (out : Outcome)
      → r.profile.class ≡ Class.short_burst
      → IsConsistent r
      → IsFresh r out
      → let (r', out') = step_short_burst r at p out in Transition r at r' out'
  unfolding step_short_burst maybe_begin maybe_end is_busy same_state start_cycle finish_cycle
  step_short_burst-Transition r at p out e v f = ground arith

  step_media-Transition :
      (r : Runtime) (at : Time) (p : Num) (out : Outcome)
      → r.profile.class ≡ Class.media
      → IsConsistent r
      → IsFresh r out
      → let (r', out') = step_media r at p out in Transition r at r' out'
  unfolding step_media maybe_begin maybe_end is_busy same_state start_cycle finish_cycle
  step_media-Transition r at p out e v f = ground arith

  started-Transition :
      (before r : Runtime) (at : Time) (a : DeviceActivityState) (out : Outcome)
      → is_busy a ≡ true
      → is_busy before.activity ≡ false
      → r.profile ≡ before.profile
      → IsFresh before out
      → let (r', out') = began a r at out in Transition before at r' out'
  unfolding start_cycle
  started-Transition before r at a out h b e f = ground arith

  finished-Transition :
      (before r : Runtime) (at : Time) (a : DeviceActivityState) (out : Outcome)
      → is_busy a ≡ false
      → is_busy before.activity ≡ true
      → r.profile ≡ before.profile
      → r.cycle ≡ before.cycle
      → IsFresh before out
      → let (r', out') = ended a r at out in Transition before at r' out'
  unfolding finish_cycle
  finished-Transition before r at a out h b e c f = ground arith

  quiet-Transition :
      (before r : Runtime) (at : Time) (out out' : Outcome)
      → is_busy r.activity ≡ is_busy before.activity
      → r.profile ≡ before.profile
      → r.cycle ≡ before.cycle
      → IsFresh before out
      → out'.prev_activity ≡ out.prev_activity
      → out'.cycle_started ≡ out.cycle_started
      → out'.cycle_finished ≡ out.cycle_finished
      → Transition before at r out'
  quiet-Transition before r at out out' a p c f x y z = ground arith

  decay_facts :
      (r : Runtime) (p : Num) (out : Outcome)
      → r.activity ≡ DeviceActivityState.finished_recently
      → let (r', out') = decay r p out in
        (is_busy r'.activity ≡ is_busy r.activity)
        × (r'.profile ≡ r.profile)
        × (r'.cycle ≡ r.cycle)
        × (out'.prev_activity ≡ out.prev_activity)
        × (out'.cycle_started ≡ out.cycle_started)
        × (out'.cycle_finished ≡ out.cycle_finished)
  unfolding decay is_busy
  decay_facts r p out e = ground arith

  step_cycle-Transition :
      (r : Runtime) (at : Time) (p : Num) (out : Outcome)
      → r.profile.class ≡ Class.cycle_power
      → IsConsistent r
      → IsFresh r out
      → let (r', out') = step_cycle r at p out in Transition r at r' out'
  unfolding step_cycle
  step_cycle-Transition r at p out e v f =
      let r₁ = (maybe_begin r at p).0 in
      let r₂ = (maybe_end r₁ at p).0 in
      let fb = maybe_begin_facts r at p in
      let fe = maybe_end_facts r₁ at p in
      elim (Bool-cases (maybe_begin r at p).1) [
        | inl b ↦ rw b (
            started-Transition r r₁ at DeviceActivityState.running out busy_running (fb.3 b) fb.1 f)
        | inr nb ↦ elim (Bool-cases (maybe_end r₁ at p).1) [
          | inl b ↦
              rw (nb, b)
                (finished-Transition r r₂ at DeviceActivityState.finished_recently out calm_finished
                  (rw (← fb.0) (fe.3 b)) (fe.1 ∙ fb.1) (fe.2 ∙ fb.2) f)
          | inr ne ↦
              rw (nb, ne)
                (elim (Bool-cases (same_state r₂.activity DeviceActivityState.finished_recently)) [
                  | inl same ↦ rw same (
                      let d = decay_facts r₂ p out (same_state→eq _ _ same) in
                      quiet-Transition r (decay r₂ p out).0 at out (decay r₂ p out).1
                        (d.0 ∙ ap is_busy (fe.0 ∙ fb.0)) (d.1 ∙ fe.1 ∙ fb.1) (d.2 ∙ fe.2 ∙ fb.2) f
                        d.3 d.4 d.5)
                  | inr other ↦ rw other (
                      ground (
                        arith,
                        fe,
                        fb,
                        f,
                        calm_unknown,
                        calm_idle,
                        same_state→eq r₂.activity DeviceActivityState.unknown,
                      ))
                ])
        ]
      ]

  step_continuous-Transition :
      (r : Runtime) (at : Time) (p : Num) (out : Outcome)
      → r.profile.class ≡ Class.continuous
      → IsConsistent r
      → IsFresh r out
      → let (r', out') = step_continuous r at p out in Transition r at r' out'
  unfolding step_continuous is_busy same_state start_cycle finish_cycle
  step_continuous-Transition r at p out e v f = ground arith

  step_binary-Transition :
      (r : Runtime) (at : Time) (s : Str) (out : Outcome)
      → r.profile.class ≡ Class.binary_state
      → IsConsistent r
      → IsFresh r out
      → let (r', out') = step_binary r at s out in Transition r at r' out'
  unfolding step_binary is_busy same_state start_cycle finish_cycle
  step_binary-Transition r at s out e v f = ground arith

  idle-Transition :
      (r : Runtime) (at : Time) (out : Outcome) → IsFresh r out → Transition r at r out
  unfolding is_busy
  idle-Transition r at out f = ground arith

  step_power-Transition :
      (c : Class) (r : Runtime) (at : Time) (p : Num) (out : Outcome)
      → r.profile.class ≡ c
      → IsConsistent r
      → IsFresh r out
      → let (r', out') = step_power c r at p out in Transition r at r' out'
  unfolding step_power
  step_power-Transition Class.short_burst r at p out = step_short_burst-Transition r at p out
  step_power-Transition Class.cycle_power r at p out = step_cycle-Transition r at p out
  step_power-Transition Class.continuous r at p out = step_continuous-Transition r at p out
  step_power-Transition Class.media r at p out = step_media-Transition r at p out
  step_power-Transition _ r at p out = λ e v f. idle-Transition r at out f

  pub step_power?-Transition :
      (o : Option Num) (r : Runtime) (at : Time) (out : Outcome)
      → IsConsistent r
      → IsFresh r out
      → let (r', out') = step_power? o r at out in Transition r at r' out'
  unfolding step_power?
  step_power?-Transition none r at out v f = idle-Transition r at out f
  step_power?-Transition (some p) r at out v f =
      step_power-Transition r.profile.class r at p out refl v f

  pub step_state-Transition :
      (o : Option Str) (r : Runtime) (at : Time) (out : Outcome)
      → is_binary r.profile.class ≡ true
      → IsConsistent r
      → IsFresh r out
      → let (r', out') = step_state o r at out in Transition r at r' out'
  unfolding step_state is_binary
  step_state-Transition none r at out e v f = idle-Transition r at out f
  step_state-Transition (some s) r at out e v f =
      step_binary-Transition r at s out (ground arith) v f
