-- ===== src/State/Presence.antt =====
-- What the engine does with signals and activity records, and how the house is set anew
-- (IngestSignal, ClearSignal, RecordActivity, UpdateActivity and RecomputeHouse in
-- internal/state/engine.go, setHouse in internal/state/store.go). Each call of a store is a step
-- under its lock; the steps of one operation follow each other here.
pub mod Changes
use statehouse.Prelude.{
  ℕ, Float64, Bool, true, false, not, ◌||◌, List, [], ◌∷◌, ◌++◌, ◌==◌, if◌then◌else◌, Str,
}
use statehouse.Time.{Time, is_zero}
use statehouse.Model.Device.{Device}
use statehouse.Model.House.{
  OccupancyState, HouseActivityState, ModeState, OccupancyDimension, HouseActivityDimension,
  ModeDimension, ElectricitySummary, House,
}
use statehouse.Model.Signal.{ActivitySignal}
use statehouse.Model.ActivityRecord.{ActivityRecord}
use statehouse.State.ActivityLog.{ActivityLog, append, update}
use statehouse.State.House.{TimeZones, HouseConfig, HouseState, derive_house_state}
use statehouse.State.SignalStore.{SignalStore, upsert, clear_at, active}
use statehouse.State.Entry.Events.{
  DerivedEventType, Events, signal_asserted, signal_cleared, house_state_changed,
}

-- A number for each state, by which two of them are compared.
abbrev occupancy_ordinal : OccupancyState → ℕ
occupancy_ordinal OccupancyState.unknown = 0
occupancy_ordinal OccupancyState.empty = 1
occupancy_ordinal OccupancyState.occupied = 2

abbrev activity_ordinal : HouseActivityState → ℕ
activity_ordinal HouseActivityState.unknown = 0
activity_ordinal HouseActivityState.idle = 1
activity_ordinal HouseActivityState.quiet = 2
activity_ordinal HouseActivityState.active = 3
activity_ordinal HouseActivityState.busy = 4

abbrev mode_ordinal : ModeState → ℕ
mode_ordinal ModeState.unknown = 0
mode_ordinal ModeState.day = 1
mode_ordinal ModeState.night = 2
mode_ordinal ModeState.away = 3
mode_ordinal ModeState.sleeping = 4

unfoldable pub same_occupancy : OccupancyState → OccupancyState → Bool
same_occupancy a b = occupancy_ordinal a == occupancy_ordinal b

unfoldable pub same_activity : HouseActivityState → HouseActivityState → Bool
same_activity a b = activity_ordinal a == activity_ordinal b

unfoldable pub same_mode : ModeState → ModeState → Bool
same_mode a b = mode_ordinal a == mode_ordinal b

module _ ⦃fl : Float64⦄ where
  -- The time of the last change of a dimension: the old one unless the state differs.
  abbrev pub changed_at : Bool → Time → Time → Time
  changed_at same wall old = if same then old else wall

  -- `setHouse`, at the wall clock: the house, and whether a dimension changed.
  unfoldable pub set_house : Time → HouseState → House → House × Bool
  unfolding same_occupancy same_activity same_mode
  set_house wall h old =
      let o = same_occupancy old.occupancy.state h.occupancy.state in
      let a = same_activity old.activity.state h.activity.state in
      let m = same_mode old.mode.state h.mode.state in
      (
        record {
          occupancy = record (h.occupancy) {
            last_changed = changed_at o wall old.occupancy.last_changed;
          };
          activity = record (h.activity) {
            last_changed = changed_at a wall old.activity.last_changed;
          };
          mode = record (h.mode) { last_changed = changed_at m wall old.mode.last_changed };
          active_devices = h.active_devices;
          electricity = old.electricity;
        },
        not o || not a || not m,
      )

  unfoldable pub set_house_electricity : ElectricitySummary → House → House
  set_house_electricity e h = record h { electricity = e }

  -- The parts of the store that signals touch, and the types of the derived events so far.
  pub record Presence : Type 0 where
    pub signals : SignalStore
    pub activity : ActivityLog
    pub house : House
    pub events : Events

  -- What an operation finds: the time zones, the settings of the house, the devices in the order of
  -- a visit, the engine's clock and the wall clock.
  pub record Surroundings : Type 1 where
    pub tz : TimeZones
    pub cfg : HouseConfig
    pub devices : List Device
    pub now : Time
    pub wall : Time

  abbrev pub emit_change : House × Bool → Presence → Presence
  emit_change (h, changed) p = record p {
    house = h;
    events = if changed then p.events ++ (house_state_changed ∷ []) else p.events;
  }

  unfoldable pub recompute_house : Surroundings → Presence → Presence
  unfolding set_house active
  recompute_house s p =
      emit_change
        (set_house s.wall
          (derive_house_state s.tz s.now s.cfg s.devices (active p.signals s.now) p.signals.last_at)
          p.house)
        p

  -- A time that is not set is another one.
  abbrev pub or_time : Time → Time → Time
  or_time t other = if is_zero t then other else t

  unfoldable pub stamped : Time → ActivitySignal → ActivitySignal
  stamped now sig =
      let t = or_time sig.timestamp now in record sig { timestamp = t; since = or_time sig.since t }

  unfoldable pub ingest_signal : Surroundings → ActivitySignal → Presence → Presence
  unfolding stamped upsert recompute_house
  ingest_signal s sig p = recompute_house s (record p {
    signals = upsert p.signals (stamped s.now sig);
    events = p.events ++ (signal_asserted ∷ []);
  })

  unfoldable pub clear_signal : Surroundings → Str → Time → Presence → Presence
  unfolding clear_at recompute_house
  clear_signal s id ts p = recompute_house s (record p {
    signals = clear_at p.signals id (or_time ts s.now);
    events = p.events ++ (signal_cleared ∷ []);
  })

  unfoldable pub record_activity : ActivityRecord → Presence → Presence
  record_activity r p = record p { activity = append p.activity r }

  unfoldable pub update_activity : Str → (ActivityRecord → ActivityRecord) → Presence → Presence
  update_activity id fn p = record p { activity = update p.activity id fn }
