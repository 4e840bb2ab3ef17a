-- ===== src/State/Electricity/Session.antt =====
-- The summary and the three integrators over a sequence of recomputes
-- (recomputeElectricity in internal/state/engine_electricity.go).
use statehouse.Prelude.{
  Float64, Num, Option, none, Bool, true, false, ◌≡◌, refl, arith, ℤ, ◌≤◌, ◌<◌, List, [], ◌∷◌,
  if◌then◌else◌, is_some, ◌⊎◌, inl, inr, Bool-cases, All,
}
use statehouse.Time.{Time, is_zero}
use statehouse.Energy.Integration.{Integrator}
use statehouse.Energy.Integration
use statehouse.Device.Class.{Class}
use statehouse.Model.Reading.{Reading}
use statehouse.Model.Device.{Device}
use statehouse.State.Electricity.{
  Aggregate, Electricity, HouseEvent, emit_electricity_canonical, aggregate_electricity, advance,
  summarise, recompute_electricity, is_stale,
}

module _ ⦃fl : Float64⦄ where
  -- An integrator has seen its last sample at the instant, or none if that is the zero time.
  abbrev pub SeenAt : Time → Integrator → Type 0
  SeenAt t i =
      (is_zero t ≡ true → i.last_watts ≡ none)
      × (is_zero t ≡ false → (i.last_at ≡ t) × (is_some i.last_watts ≡ true))

  -- The three integrators are at the last recompute, and so is the summary.
  pub record IsSynced (e : Electricity) : Type 0 where
    pub gross : SeenAt e.last_elec_at e.gross_integrator
    pub monitored : SeenAt e.last_elec_at e.monitored_integrator
    pub unmonitored : SeenAt e.last_elec_at e.unmonitored_integrator
    pub gaps_gross : e.gross_integrator.gaps ≡ e.monitored_integrator.gaps
    pub gaps_monitored : e.monitored_integrator.gaps ≡ e.unmonitored_integrator.gaps
    pub limit_gross : e.gross_integrator.max_gap ≡ e.monitored_integrator.max_gap
    pub limit_monitored : e.monitored_integrator.max_gap ≡ e.unmonitored_integrator.max_gap
    pub computed : is_zero e.last_elec_at ≡ false → e.summary.computed_at ≡ e.last_elec_at

  update-SeenAt :
      (i : Integrator) (now : Time) (w : Num)
      → is_zero now ≡ false
      → SeenAt now (Integration.update i now w)
  unfolding Integration.update
  update-SeenAt i now w h = ground arith

  -- Integrators at one instant and under one limit count the same gaps.
  update_gaps :
      (i j : Integrator) (t now : Time) (v w : Num)
      → SeenAt t i
      → SeenAt t j
      → i.gaps ≡ j.gaps
      → i.max_gap ≡ j.max_gap
      → let i' = Integration.update i now v in
        let j' = Integration.update j now w in (i'.gaps ≡ j'.gaps) × (i'.max_gap ≡ j'.max_gap)
  unfolding Integration.update
  update_gaps i j t now v w p q g m = ground arith

  advance-IsSynced :
      (e : Electricity) (agg : Aggregate) (now : Time) (b : Bool) (reading : Reading)
      → is_zero now ≡ false
      → IsSynced e
      → IsSynced (advance e agg now b reading)
  unfolding advance summarise
  advance-IsSynced e agg now b reading h v =
      let t = e.last_elec_at in
      let g = e.gross_integrator in
      let m = e.monitored_integrator in
      let u = e.unmonitored_integrator in
      let gm =
        update_gaps g m t now agg.gross_w agg.monitored_w v.gross v.monitored v.gaps_gross
          v.limit_gross in
      let mu =
        update_gaps m u t now agg.monitored_w agg.unmonitored_w v.monitored v.unmonitored
          v.gaps_monitored v.limit_monitored in
      record {
        gross = update-SeenAt g now agg.gross_w h;
        monitored = update-SeenAt m now agg.monitored_w h;
        unmonitored = update-SeenAt u now agg.unmonitored_w h;
        gaps_gross = gm.0;
        gaps_monitored = mu.0;
        limit_gross = gm.1;
        limit_monitored = mu.1;
        computed = λ _. refl;
      }

  -- One call of recomputeElectricity.
  pub record Call : Type 0 where
    pub devices : List Device
    pub staleness_for : Class → Option ℤ
    pub now : Time
    pub triggered_by_meter : Bool
    pub reading : Reading

  abbrev pub call : Electricity → Call → Electricity × List HouseEvent
  call e c = recompute_electricity e c.devices c.staleness_for c.now c.triggered_by_meter c.reading

  -- A recompute at a set timestamp, where the summary and the integrators are in step, does
  -- nothing and emits nothing, or it takes the last instant and the summary to the timestamp. In
  -- the second case a set last instant lay before the timestamp and was that of all three
  -- integrators, and the canonical events of the new summary go out exactly for the meter.
  pub recompute_electricity_forward :
      (e : Electricity) (c : Call)
      → IsSynced e
      → is_zero c.now ≡ false
      → let (e', events) = call e c in
        ((e' ≡ e) × (events ≡ []))
        ⊎ ((e'.last_elec_at ≡ c.now)
            × (e'.summary.computed_at ≡ c.now)
            × (is_zero e.last_elec_at ≡ false
                → (e.last_elec_at < c.now)
                  × (e.gross_integrator.last_at ≡ e.last_elec_at)
                  × (e.monitored_integrator.last_at ≡ e.last_elec_at)
                  × (e.unmonitored_integrator.last_at ≡ e.last_elec_at))
            × (events
                ≡ (if c.triggered_by_meter then emit_electricity_canonical e'.summary else [])))
  unfolding recompute_electricity
  recompute_electricity_forward e c v h =
      let agg = aggregate_electricity c.now c.devices c.staleness_for in
      let e' = advance e agg c.now c.triggered_by_meter c.reading in
      elim (Bool-cases agg.gross_seen) [
        | inr unseen ↦ simp unseen (inl (refl, refl))
        | inl seen ↦ elim (Bool-cases (is_stale e c.now)) [
          | inl stale ↦ simp (seen, stale) (inl (refl, refl))
          | inr fresh ↦
              simp (seen, fresh)
                (inr (
                  advanced_at e agg c.now c.triggered_by_meter c.reading,
                  computed_at e agg c.now c.triggered_by_meter c.reading,
                  λ known. (
                    ground arith,
                    (v.gross.1 known).0,
                    (v.monitored.1 known).0,
                    (v.unmonitored.1 known).0,
                  ),
                  refl,
                ))
        ]
      ]
    where
      advanced_at :
          (e : Electricity) (agg : Aggregate) (now : Time) (b : Bool) (reading : Reading)
          → (advance e agg now b reading).last_elec_at ≡ now
      advanced_at e agg now b reading = unfold advance in refl

      computed_at :
          (e : Electricity) (agg : Aggregate) (now : Time) (b : Bool) (reading : Reading)
          → (advance e agg now b reading).summary.computed_at ≡ now
      computed_at e agg now b reading = unfold advance summarise in refl

  call-IsSynced :
      (e : Electricity) (c : Call) → is_zero c.now ≡ false → IsSynced e → IsSynced (call e c).0
  unfolding recompute_electricity
  call-IsSynced e c h v =
      let agg = aggregate_electricity c.now c.devices c.staleness_for in
      elim (Bool-cases agg.gross_seen) [
        | inr unseen ↦ simp unseen v
        | inl seen ↦ elim (Bool-cases (is_stale e c.now)) [
          | inl stale ↦ simp (seen, stale) v
          | inr fresh ↦
              simp (seen, fresh) (advance-IsSynced e agg c.now c.triggered_by_meter c.reading h v)
        ]
      ]

  -- The calls in the order in which they take the lock.
  abbrev pub call_all : Electricity → List Call → Electricity
  call_all e [] = e
  call_all e (c ∷ cs) = call_all (call e c).0 cs

  call-le : (e : Electricity) (c : Call) → e.last_elec_at ≤ (call e c).0.last_elec_at
  unfolding recompute_electricity advance
  call-le e c = ground arith

  -- Whatever sequence of recomputes at set timestamps follows a state in which the summary and the
  -- integrators are in step, they are in step after it, with equal gap counts, and the last
  -- instant has not gone back.
  pub call_all-IsSynced :
      (e : Electricity) (cs : List Call)
      → All (λ c. is_zero c.now ≡ false) cs
      → IsSynced e
      → IsSynced (call_all e cs) × (e.last_elec_at ≤ (call_all e cs).last_elec_at)
  call_all-IsSynced e [] h v = (v, omega arith)
  call_all-IsSynced e (c ∷ cs) h v =
      let r = call_all-IsSynced (call e c).0 cs h.1 (call-IsSynced e c h.0 v) in
      (r.0, omega (arith, call-le e c, r.1))
