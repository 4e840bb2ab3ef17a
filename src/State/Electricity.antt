-- ===== src/State/Electricity.antt =====
-- Whole-house electricity (internal/state/electricity.go, engine_electricity.go). The device map
-- is a list in the order of a visit. `recompute_electricity` reads the devices before it takes
-- elecMu, so they are an argument, and it is one step from there; the canonical events that it
-- hands to the sinks are a list.
pub mod Meter
pub mod Session
use statehouse.Prelude.{
  Float64, Num, ◌+f◌, ◌-f◌, ◌/f◌, ◌≤f◌, ◌==f◌, constant, of_int, seconds, Option, some, none, Bool,
  true, false, not, ◌&&◌, ◌||◌, ℤ, pos, List, [], ◌∷◌, ◌++◌, length, foldl, if◌then◌else◌, Str, str,
  str_eq, str_lt, sort_strings, is_some,
}
use statehouse.Time.{Time, Duration, is_zero, after, elapsed}
use statehouse.Energy.Integration.{Integrator, new_integrator}
use statehouse.Energy.Integration
use statehouse.Device.Class.{Class, staleness_seconds_for_class}
use statehouse.Model.Activity.{Availability, same_availability}
use statehouse.Model.Identity.{is_empty}
use statehouse.Model.Reading.{Reading}
use statehouse.Model.Device.{Device}
use statehouse.Model.House.{ElectricitySummary, SessionEnergy}

abbrev pub meter_scheme : Str
meter_scheme = str "meter"

unfoldable pub is_energy_meter : Class → Bool
is_energy_meter Class.energy_meter = true
is_energy_meter _ = false

unfoldable pub is_power_monitored : Class → Bool
is_power_monitored Class.short_burst = true
is_power_monitored Class.cycle_power = true
is_power_monitored Class.continuous = true
is_power_monitored Class.media = true
is_power_monitored Class.ups_sensor = true
is_power_monitored _ = false

module _ ⦃fl : Float64⦄ where
  unfoldable pub is_meter_device : Device → Bool
  unfolding is_energy_meter
  is_meter_device d =
      if not (is_some d.latest.power_w)
      then false
      else if is_energy_meter d.class
      then true
      else str_eq d.identity.scheme meter_scheme

  unfoldable pub is_fresh_device : Device → Time → (Class → Option ℤ) → Bool
  is_fresh_device d now staleness_for =
      if same_availability d.availability Availability.offline
      then false
      else if is_zero d.latest.last_seen
      then false
      else seconds (elapsed now d.latest.last_seen)
        ≤f of_int (staleness_seconds_for_class d.class (staleness_for d.class))

  pub record Aggregate : Type 0 where
    pub gross_w : Num
    pub monitored_w : Num
    pub unmonitored_w : Num
    pub gross_seen : Bool
    pub stale_ids : List Str

  abbrev pub nothing_seen : Aggregate
  nothing_seen = record {
    gross_w = constant 0 1;
    monitored_w = constant 0 1;
    unmonitored_w = constant 0 1;
    gross_seen = false;
    stale_ids = [];
  }

  -- The aggregate so far and the id of the meter chosen so far, "" for none.
  abbrev pub Scan : Type 0
  Scan = Aggregate × Str

  -- The part of the loop's body behind the test for power: `p` is the device's power.
  scan_powered : Time → (Class → Option ℤ) → Scan → Device → Num → Scan
  unfolding is_power_monitored
  scan_powered now staleness_for (agg, meter_id) d p =
      if is_meter_device d
      then (if is_empty meter_id || str_lt d.id meter_id
          then (record agg { gross_w = p; gross_seen = true }, d.id)
          else (agg, meter_id))
      else if not (is_power_monitored d.class)
      then (agg, meter_id)
      else if not (is_fresh_device d now staleness_for)
      then (record agg { stale_ids = d.id ∷ agg.stale_ids }, meter_id)
      else (record agg { monitored_w = agg.monitored_w +f p }, meter_id)

  -- A device without power is no meter and is not monitored.
  scan_power : Time → (Class → Option ℤ) → Scan → Device → Option Num → Scan
  unfolding scan_powered
  scan_power now staleness_for s d none = s
  scan_power now staleness_for s d (some p) = scan_powered now staleness_for s d p

  unfoldable pub scan_device : Time → (Class → Option ℤ) → Scan → Device → Scan
  unfolding scan_power
  scan_device now staleness_for s d = scan_power now staleness_for s d d.latest.power_w

  unfoldable pub aggregate_electricity : Time → List Device → (Class → Option ℤ) → Aggregate
  aggregate_electricity now devices staleness_for =
      let agg = (foldl (scan_device now staleness_for) (nothing_seen, []) devices).0 in
      record agg {
        unmonitored_w =
            if agg.gross_seen then agg.gross_w -f agg.monitored_w else agg.unmonitored_w;
        stale_ids = sort_strings agg.stale_ids;
      }

  -- The fields of Engine behind elecMu, and the summary in the store.
  pub record Electricity : Type 0 where
    pub gross_integrator : Integrator
    pub monitored_integrator : Integrator
    pub unmonitored_integrator : Integrator
    pub last_elec_at : Time
    pub started_at : Time
    pub meter_today_kwh : Option Num
    pub meter_week_kwh : Option Num
    pub meter_month_kwh : Option Num
    pub summary : ElectricitySummary

  abbrev or_keep : Bool → Option Num → Option Num → Option Num
  or_keep false new old = old
  or_keep true none old = old
  or_keep true (some v) old = some v

  unfoldable pub summarise : Electricity → Aggregate → Time → ElectricitySummary
  summarise e agg now = record {
    gross_w = agg.gross_w;
    monitored_w = agg.monitored_w;
    unmonitored_w = agg.unmonitored_w;
    coverage =
        if not (agg.gross_w ==f constant 0 1) then agg.monitored_w /f agg.gross_w else constant 0 1;
    stale_device_count = length agg.stale_ids;
    stale_devices = agg.stale_ids;
    today_kwh = e.meter_today_kwh;
    week_kwh = e.meter_week_kwh;
    month_kwh = e.meter_month_kwh;
    session = record {
      since = e.started_at;
      gross_kwh = e.gross_integrator.total;
      monitored_kwh = e.monitored_integrator.total;
      unmonitored_kwh = e.unmonitored_integrator.total;
    };
    computed_at = now;
  }

  -- The writes of a recompute that passes the guards.
  unfoldable pub advance : Electricity → Aggregate → Time → Bool → Reading → Electricity
  advance e agg now triggered_by_meter reading =
      let e' = record e {
        last_elec_at = now;
        gross_integrator = Integration.update e.gross_integrator now agg.gross_w;
        monitored_integrator = Integration.update e.monitored_integrator now agg.monitored_w;
        unmonitored_integrator = Integration.update e.unmonitored_integrator now agg.unmonitored_w;
        meter_today_kwh = or_keep triggered_by_meter reading.meter_today_kwh e.meter_today_kwh;
        meter_week_kwh = or_keep triggered_by_meter reading.meter_week_kwh e.meter_week_kwh;
        meter_month_kwh = or_keep triggered_by_meter reading.meter_month_kwh e.meter_month_kwh;
      } in
      record e' { summary = summarise e' agg now }

  -- One canonical event of the house: its attribute, value and unit. The other fields are the same
  -- for all: the house's identity, the meter's topic and the instant.
  pub record HouseEvent : Type 0 where
    pub attribute : Str
    pub value : Num
    pub unit : Str

  abbrev event : Str → Num → Str → HouseEvent
  event a v u = record { attribute = a; value = v; unit = u }

  optional_event : Str → Option Num → List HouseEvent
  optional_event a none = []
  optional_event a (some v) = event a v (str "kWh") ∷ []

  unfoldable pub emit_electricity_canonical : ElectricitySummary → List HouseEvent
  unfolding optional_event
  emit_electricity_canonical s =
      event (str "gross_w") s.gross_w (str "W")
      ∷ event (str "monitored_w") s.monitored_w (str "W")
      ∷ event (str "unmonitored_w") s.unmonitored_w (str "W")
      ∷ event (str "coverage") s.coverage []
      ∷ (optional_event (str "today_kwh") s.today_kwh
          ++ (optional_event (str "week_kwh") s.week_kwh
              ++ (optional_event (str "month_kwh") s.month_kwh
                  ++ (event (str "session_gross_kwh") s.session.gross_kwh (str "kWh")
                      ∷ event (str "session_monitored_kwh") s.session.monitored_kwh (str "kWh")
                      ∷ event (str "session_unmonitored_kwh") s.session.unmonitored_kwh (str "kWh")
                      ∷ event (str "stale_device_count") (of_int (pos s.stale_device_count)) []
                      ∷ []))))

  -- A timestamp that is not after the last one applied is discarded.
  abbrev pub is_stale : Electricity → Time → Bool
  is_stale e now = not (is_zero e.last_elec_at) && not (after now e.last_elec_at)

  unfoldable pub recompute_electricity :
      Electricity
      → List Device
      → (Class → Option ℤ)
      → Time
      → Bool
      → Reading
      → Electricity × List HouseEvent
  recompute_electricity e devices staleness_for now triggered_by_meter reading =
      let agg = aggregate_electricity now devices staleness_for in
      let e' = advance e agg now triggered_by_meter reading in
      if not agg.gross_seen
      then (e, [])
      else if is_stale e now
      then (e, [])
      else (e', if triggered_by_meter then emit_electricity_canonical e'.summary else [])
