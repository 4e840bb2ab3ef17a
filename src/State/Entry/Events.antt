-- ===== src/State/Entry/Events.antt =====
-- The derived events that a reading leads to, in the order in which the sinks get them
-- (IngestReading, emitActivityChange, emitCycleStarted and emitCycleFinished in
-- internal/state/engine.go). An event is its type: the other fields are the device's id and class,
-- the reading's timestamp, a random id and a text.
use statehouse.Prelude.{
  Float64, Num, Bool, true, false, not, ◌&&◌, ◌||◌, ◌≡◌, arith, pos, leb_ℤ, List, [], ◌∷◌, ◌++◌,
  is_some, if◌then◌else◌, ◌<f◌, ◌==f◌, constant,
}
use statehouse.Time.{Time}
use statehouse.Device.Class.{Class}
use statehouse.Device.Runtime.{Runtime, Outcome, mark_divergence}
use statehouse.Device.Hysteresis.{is_busy}
use statehouse.Device.Transitions.{Transition}
use statehouse.Model.Activity.{DeviceActivityState, same_state}
use statehouse.State.Entry.{
  DeviceEntry, Ingested, check_divergence, check_stale_counter, duration_of, energy_of, is_counter,
}

pub data DerivedEventType : Type 0 where
  device_discovered device_availability_changed device_activity_changed : DerivedEventType
  device_activity_started device_activity_finished short_burst_detected : DerivedEventType
  cycle_started cycle_finished cycle_energy_recorded : DerivedEventType
  continuous_cycle_started continuous_cycle_finished : DerivedEventType
  media_active media_inactive : DerivedEventType
  energy_divergence_warning energy_stale_counter_warning house_state_changed : DerivedEventType
  intercom_ringing intercom_answered intercom_hungup : DerivedEventType
  signal_asserted signal_cleared : DerivedEventType

-- Everything that is emitted, oldest first.
abbrev pub Events : Type 0
Events = List DerivedEventType

abbrev pub only_if : Bool → Events → Events
only_if b es = if b then es else []

module _ ⦃fl : Float64⦄ where
  unfoldable pub activity_change_events : Class → Outcome → Events
  activity_change_events Class.media out =
      device_activity_changed
      ∷ (only_if (same_state out.new_activity DeviceActivityState.active) (media_active ∷ [])
          ++ only_if (same_state out.new_activity DeviceActivityState.standby)
              (media_inactive ∷ []))
  activity_change_events _ out = device_activity_changed ∷ []

  unfoldable pub cycle_started_events : Class → Events
  cycle_started_events Class.cycle_power = cycle_started ∷ []
  cycle_started_events Class.continuous = continuous_cycle_started ∷ []
  cycle_started_events Class.binary_state = cycle_started ∷ []
  cycle_started_events _ = device_activity_started ∷ []

  -- A cycle of a cycle device has its energy recorded; a short burst of at most 300 seconds gets a
  -- marker of its own.
  unfoldable pub cycle_finished_events : Class → Outcome → Events
  cycle_finished_events Class.cycle_power out =
      cycle_finished ∷ only_if (is_some out.cycle) (cycle_energy_recorded ∷ [])
  cycle_finished_events Class.continuous out = continuous_cycle_finished ∷ []
  cycle_finished_events Class.binary_state out = cycle_finished ∷ []
  cycle_finished_events Class.short_burst out =
      device_activity_finished
      ∷ only_if (is_some out.cycle && leb_ℤ (duration_of out.cycle) (pos 300))
          (short_burst_detected ∷ [])
  cycle_finished_events _ out = device_activity_finished ∷ []

  -- The events between the entry's update and the recompute of the house.
  unfoldable pub ingest_events : Class → Ingested → Events
  ingest_events class i =
      let out = i.outcome in
      only_if (not (same_state out.prev_activity out.new_activity))
        (activity_change_events class out)
      ++ (only_if out.cycle_started (cycle_started_events class)
          ++ (only_if out.cycle_finished (cycle_finished_events class out)
              ++ (only_if (is_some i.divergence_hit) (energy_divergence_warning ∷ [])
                  ++ only_if i.stale_counter_hit (energy_stale_counter_warning ∷ []))))

  -- Whether the house is derived anew.
  unfoldable pub recomputes_house : Outcome → Bool
  recomputes_house out =
      not (same_state out.prev_activity out.new_activity) || out.cycle_started || out.cycle_finished

  -- Where the runtimes and the outcome are related as by a reading, and the outcome reports the
  -- new activity: the house is derived anew exactly on a change of activity, although the source
  -- also tests for the start and the finish of a cycle, and these two never come together.
  pub cycle_events_with_change :
      (before r : Runtime) (at : Time) (out : Outcome)
      → Transition before at r out
      → out.new_activity ≡ r.activity
      → (recomputes_house out ≡ not (same_state out.prev_activity out.new_activity))
        × ((out.cycle_started && out.cycle_finished) ≡ false)
  unfolding recomputes_house is_busy same_state
  cycle_events_with_change before r at out t n = ground arith

  divergence_facts :
      (w : Num) (e : DeviceEntry) (out : Outcome)
      → e.device.cycle ≡ e.runtime.cycle
      → let i = check_divergence w e out in
        (i.stale_counter_hit ≡ false)
        × (i.outcome.cycle_finished ≡ out.cycle_finished)
        × (i.entry.runtime.profile ≡ e.runtime.profile)
        × (is_some i.divergence_hit ≡ true
            → (out.cycle_finished ≡ true)
              × (is_counter e.runtime.profile.strategy ≡ true)
              × ((constant 0 1 <f (energy_of i.entry.device.cycle).reported_kwh_delta) ≡ true))
  unfolding check_divergence mark_divergence
  divergence_facts w e out m = ground arith

  stale_facts :
      (i : Ingested)
      → i.stale_counter_hit ≡ false
      → let j = check_stale_counter i in
        (j.divergence_hit ≡ i.divergence_hit)
        × (j.stale_counter_hit ≡ true
            → (i.outcome.cycle_finished ≡ true)
              × (is_counter i.entry.runtime.profile.strategy ≡ true)
              × (((energy_of i.entry.device.cycle).reported_kwh_delta ==f constant 0 1) ≡ true))
  unfolding check_stale_counter
  stale_facts i h = ground arith

  -- Where the record's cycle is the runtime's, and no positive float equals 0: the divergence
  -- warning and the stale counter warning exclude one another, and either needs a finished cycle
  -- of a device whose strategy is the counter.
  pub warnings_exclusive :
      (w : Num) (e : DeviceEntry) (out : Outcome)
      → ((x : Num) → (constant 0 1 <f x) ≡ true → (x ==f constant 0 1) ≡ false)
      → e.device.cycle ≡ e.runtime.cycle
      → let i = check_stale_counter (check_divergence w e out) in
        ((is_some i.divergence_hit && i.stale_counter_hit) ≡ false)
        × ((is_some i.divergence_hit || i.stale_counter_hit) ≡ true
            → (out.cycle_finished ≡ true) × (is_counter e.runtime.profile.strategy ≡ true))
  warnings_exclusive w e out positive m =
      let i = check_divergence w e out in
      let d = divergence_facts w e out m in
      let s = stale_facts i d.0 in
      ground (
        arith,
        d.1,
        d.2,
        d.3,
        s.0,
        s.1,
        positive (energy_of i.entry.device.cycle).reported_kwh_delta,
      )
