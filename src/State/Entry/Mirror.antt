-- ===== src/State/Entry/Mirror.antt =====
-- The public record of a device against its runtime (IngestReading and EnsureDiscovered in
-- internal/state/engine.go).
use statehouse.Prelude.{
  Float64, Num, Option, some, none, true, false, ◌≡◌, refl, sym, ap, ◌∙◌, arith, ◌⊎◌, inr, is_some,
}
use statehouse.Time.{Time}
use statehouse.Device.Class.{is_passive_sensor}
use statehouse.Device.Runtime.{Runtime, Outcome, seed_counter, mark_divergence, mark_stale_counter}
use statehouse.Device.Steps.{on_reading}
use statehouse.Device.Invariant.{IsConsistent, seed_counter-IsConsistent}
use statehouse.Device.Transitions.{Transition}
use statehouse.Device.Transitions.Readings.{on_reading-Transition, on_reading_reports}
use statehouse.Model.Activity.{
  Availability, DeviceActivityState, same_state→eq, same_state_refl, same_availability,
}
use statehouse.Model.Reading.{Reading}
use statehouse.State.Availability.{seen}
use statehouse.State.Entry.{
  DeviceEntry, Ingested, recorded, seeded, check_divergence, check_stale_counter, ingest_entry,
  activity_after, reset_phantom,
}

module _ ⦃fl : Float64⦄ where
  -- The record shows the runtime's state, or none yet.
  abbrev pub Shows : DeviceEntry → Type 0
  Shows e =
      (e.device.activity.state ≡ e.runtime.activity)
      ⊎ (e.device.activity.state ≡ DeviceActivityState.unknown)

  check_divergence_keeps :
      (w : Num) (e : DeviceEntry) (out : Outcome)
      → let e' = (check_divergence w e out).entry in
        (e'.device.activity ≡ e.device.activity)
        × (e'.device.availability ≡ e.device.availability)
        × (e'.availability_offline_at ≡ e.availability_offline_at)
        × (e'.runtime.activity ≡ e.runtime.activity)
        × (e.device.cycle ≡ e.runtime.cycle → e'.device.cycle ≡ e'.runtime.cycle)
  unfolding check_divergence mark_divergence
  check_divergence_keeps w e out = ground arith

  check_stale_counter_keeps :
      (i : Ingested)
      → let e' = (check_stale_counter i).entry in
        (e'.device.activity ≡ i.entry.device.activity)
        × (e'.device.availability ≡ i.entry.device.availability)
        × (e'.availability_offline_at ≡ i.entry.availability_offline_at)
        × (e'.runtime.activity ≡ i.entry.runtime.activity)
        × (i.entry.device.cycle ≡ i.entry.runtime.cycle → e'.device.cycle ≡ e'.runtime.cycle)
  unfolding check_stale_counter mark_stale_counter
  check_stale_counter_keeps i = ground arith

  seeded_facts :
      (r : Runtime) (o : Option Num)
      → IsConsistent r
      → IsConsistent (seeded r o)
        × ((seeded r o).activity ≡ r.activity)
        × ((seeded r o).cycle ≡ r.cycle)
        × ((seeded r o).profile ≡ r.profile)
  unfolding seeded seed_counter
  seeded_facts r none v = (v, refl, refl, refl)
  seeded_facts r (some x) v =
      (seed_counter-IsConsistent r x v, ground arith, ground arith, ground arith)

  activity_after-mirrors :
      (e : DeviceEntry) (rt : Runtime) (out : Outcome) (t : Time)
      → Shows e
      → out.prev_activity ≡ e.runtime.activity
      → out.new_activity ≡ rt.activity
      → (activity_after e.device.activity out t).state ≡ rt.activity
  unfolding activity_after
  activity_after-mirrors e rt out t s p n = ground (
    arith,
    same_state→eq out.new_activity out.prev_activity,
    same_state→eq out.new_activity DeviceActivityState.unknown,
    same_state_refl DeviceActivityState.unknown,
  )

  -- The parts of the outcome of the reading that the entry copies.
  abbrev fed : DeviceEntry → Reading → Runtime
  fed e reading = seeded e.runtime reading.energy_kwh

  stamps_some :
      (before after : Runtime) (t : Time) (out : Outcome)
      → Transition before t after out
      → is_some before.cycle ≡ true
      → is_some after.cycle ≡ true
  stamps_some before after t out tr h = ground arith

  -- The cycle that the record gets is the runtime's, where the outcome reports it.
  recorded_mirrors :
      (e : DeviceEntry) (rt : Runtime) (out : Outcome) (reading : Reading)
      → out.cycle ≡ rt.cycle
      → is_some rt.cycle ≡ true
      → (recorded e rt out reading).device.cycle ≡ (recorded e rt out reading).runtime.cycle
  unfolding recorded
  recorded_mirrors e rt out reading c s = ground arith

  recorded_facts :
      (e : DeviceEntry) (rt : Runtime) (out : Outcome) (reading : Reading)
      → let e' = recorded e rt out reading in
        (e'.device.availability ≡ Availability.online)
        × (e'.runtime ≡ rt)
        × (e'.device.activity ≡ activity_after e.device.activity out reading.timestamp)
  unfolding recorded seen same_availability
  recorded_facts e rt out reading = ground arith

  -- Where the runtime is consistent and the record shows the runtime's activity or unknown: after
  -- a reading the record shows the new runtime's activity, the device is online, and for any but a
  -- passive sensor whose runtime had a cycle the record's cycle is the new runtime's, marks
  -- included.
  pub ingest_entry-mirrors :
      (w : Num) (e : DeviceEntry) (reading : Reading)
      → IsConsistent e.runtime
      → Shows e
      → let e' = (ingest_entry w e reading).entry in
        (e'.device.activity.state ≡ e'.runtime.activity)
        × (e'.device.availability ≡ Availability.online)
        × (is_passive_sensor e.runtime.profile.class ≡ false
            → is_some e.runtime.cycle ≡ true
            → e'.device.cycle ≡ e'.runtime.cycle)
  unfolding ingest_entry
  ingest_entry-mirrors w e reading v s =
      let f = seeded_facts e.runtime reading.energy_kwh v in
      let r = seeded e.runtime reading.energy_kwh in
      let t = reading.timestamp in
      let (rt, out) = on_reading r t reading in
      let tr = on_reading-Transition r t reading f.0 in
      let reports = on_reading_reports r t reading in
      let copied = recorded e rt out reading in
      let facts = recorded_facts e rt out reading in
      let divergence = check_divergence w copied out in
      let kept = check_divergence_keeps w copied out in
      let kept' = check_stale_counter_keeps divergence in
      let shown = activity_after-mirrors e rt out t s (tr.prev ∙ f.1) reports.0 in
      (
        ap (λ a. a.state) (kept'.0 ∙ kept.0 ∙ facts.2)
            ∙ shown
            ∙ sym (kept'.3 ∙ kept.3 ∙ ap (λ x. x.activity) facts.1),
        kept'.1 ∙ kept.1 ∙ facts.0,
        λ np hc. kept'.4 (
            kept.4 (
              recorded_mirrors e rt out reading (reports.1 ∙ ground (arith, np, f.3))
                (stamps_some r rt t out tr (rw f.2 hc)))),
      )

  -- The checks see an entry through its runtime and the record's cycle.
  checks_runtime :
      (w : Num) (e f : DeviceEntry) (out : Outcome)
      → e.runtime ≡ f.runtime
      → e.device.cycle ≡ f.device.cycle
      → (check_stale_counter (check_divergence w e out)).entry.runtime
        ≡ (check_stale_counter (check_divergence w f out)).entry.runtime
  unfolding check_stale_counter check_divergence
  checks_runtime w e f out r c = ground arith

  recorded_cycle :
      (e : DeviceEntry) (rt : Runtime) (out : Outcome) (reading : Reading)
      → is_some out.cycle ≡ true
      → ((recorded (reset_phantom e) rt out reading).device.cycle
          ≡ (recorded e rt out reading).device.cycle)
        × ((recorded (reset_phantom e) rt out reading).runtime
            ≡ (recorded e rt out reading).runtime)
  unfolding recorded
  recorded_cycle e rt out reading h = ground arith

  -- The reset of a phantom does not last. Where the runtime is consistent, had a cycle and is no
  -- passive sensor's, the next reading after the reset puts the new runtime's activity and cycle
  -- into the record, and that runtime is the one the reading would have led to without the reset.
  pub reset_phantom_undone :
      (w : Num) (e : DeviceEntry) (reading : Reading)
      → IsConsistent e.runtime
      → is_passive_sensor e.runtime.profile.class ≡ false
      → is_some e.runtime.cycle ≡ true
      → let e' = (ingest_entry w (reset_phantom e) reading).entry in
        (e'.device.activity.state ≡ e'.runtime.activity)
        × (e'.device.cycle ≡ e'.runtime.cycle)
        × (e'.runtime ≡ (ingest_entry w e reading).entry.runtime)
  unfolding ingest_entry reset_phantom
  reset_phantom_undone w e reading v np hc =
      let mirrors = ingest_entry-mirrors w (reset_phantom e) reading v (inr refl) in
      let f = seeded_facts e.runtime reading.energy_kwh v in
      let r = seeded e.runtime reading.energy_kwh in
      let t = reading.timestamp in
      let (rt, out) = on_reading r t reading in
      let tr = on_reading-Transition r t reading f.0 in
      let reports = on_reading_reports r t reading in
      let has : is_some out.cycle ≡ true =
        ground (arith, reports.1, np, f.3, stamps_some r rt t out tr (rw f.2 hc)) in
      let same = recorded_cycle e rt out reading has in
      (mirrors.0, mirrors.2 np hc, checks_runtime w _ _ out same.1 same.0)
