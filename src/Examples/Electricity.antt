-- ===== src/Examples/Electricity.antt =====
-- The theorems on electricity, at a house with one meter and a kettle.
use statehouse.Prelude.{
  ◌≡◌, refl, true, false, ◌*◌, ◌-f◌, ◌<◌, ◌≤◌, ◌⊎◌, ℕ, Option, some, none, pos, List, [], ◌∷◌, str,
  ℤ, All,
}
use statehouse.Time.{is_zero}
use statehouse.Examples.{milli, second, device, no_reading, no_latest}
use statehouse.Energy.Integration.{new_integrator}
use statehouse.Device.Class.{Class}
use statehouse.Model.Device.{Device}
use statehouse.Model.House.{ElectricitySummary}
use statehouse.State.Electricity.{Electricity, is_meter_device, aggregate_electricity}
use statehouse.State.Electricity.Meter.{One, Supplies, gross_of_lowest_meter}
use statehouse.State.Electricity.Session.{
  IsSynced, Call, call, call_all, recompute_electricity_forward, call_all-IsSynced,
}

abbrev pub default_staleness : Class → Option ℤ
default_staleness _ = none

abbrev with_power : Device → ℕ → Device
with_power d w = record d {
  latest = record no_latest { power_w = some (w * 1000); last_seen = 100 * second };
}

abbrev home : List Device
home =
    with_power (device Class.short_burst) 2000
    ∷ with_power (record (device Class.energy_meter) { id = str "meter" }) 2500
    ∷ []

gross_of_lowest_meter_example :
    let agg = aggregate_electricity (110 * second) home default_staleness in
    ((agg.gross_seen ≡ true)
      × One (Supplies home agg.gross_w) home
      × (agg.unmonitored_w ≡ agg.gross_w -f agg.monitored_w))
    ⊎ ((agg.gross_seen ≡ false) × All (λ d. is_meter_device d ≡ false) home)
gross_of_lowest_meter_example =
    gross_of_lowest_meter (110 * second) default_staleness home (refl, (refl, tt))

abbrev pub no_summary : ElectricitySummary
no_summary = record {
  gross_w = 0;
  monitored_w = 0;
  unmonitored_w = 0;
  coverage = 0;
  stale_device_count = 0;
  stale_devices = [];
  today_kwh = none;
  week_kwh = none;
  month_kwh = none;
  session = record { since = 0; gross_kwh = 0; monitored_kwh = 0; unmonitored_kwh = 0 };
  computed_at = 0;
}

-- The engine at its start.
abbrev at_start : Electricity
at_start =
    let i = new_integrator (pos (300 * second)) in
    record {
      gross_integrator = i;
      monitored_integrator = i;
      unmonitored_integrator = i;
      last_elec_at = 0;
      started_at = 50 * second;
      meter_today_kwh = none;
      meter_week_kwh = none;
      meter_month_kwh = none;
      summary = no_summary;
    }

at_start-IsSynced : IsSynced at_start
unfolding new_integrator
at_start-IsSynced = record {
  gross = (λ _. refl, λ e. cc);
  monitored = (λ _. refl, λ e. cc);
  unmonitored = (λ _. refl, λ e. cc);
  gaps_gross = refl;
  gaps_monitored = refl;
  limit_gross = refl;
  limit_monitored = refl;
  computed = λ e. cc;
}

abbrev metered : Call
metered = record {
  devices = home;
  staleness_for = default_staleness;
  now = 110 * second;
  triggered_by_meter = true;
  reading = record no_reading { meter_today_kwh = some 3000 };
}

-- An older timestamp.
abbrev older : Call
older = record metered { now = 105 * second; triggered_by_meter = false }

recompute_electricity_forward_example :
    let e = (call at_start metered).0 in
    let (e', events) = call e older in
    ((e' ≡ e) × (events ≡ []))
    ⊎ ((e'.last_elec_at ≡ 105 * second)
        × (e'.summary.computed_at ≡ 105 * second)
        × (is_zero e.last_elec_at ≡ false
            → (e.last_elec_at < 105 * second)
              × (e.gross_integrator.last_at ≡ e.last_elec_at)
              × (e.monitored_integrator.last_at ≡ e.last_elec_at)
              × (e.unmonitored_integrator.last_at ≡ e.last_elec_at))
        × (events ≡ []))
recompute_electricity_forward_example =
    recompute_electricity_forward (call at_start metered).0 older
      (call_all-IsSynced at_start (metered ∷ []) (refl, tt) at_start-IsSynced).0 refl

call_all-IsSynced_example :
    IsSynced (call_all at_start (metered ∷ older ∷ []))
    × (0 ≤ (call_all at_start (metered ∷ older ∷ [])).last_elec_at)
call_all-IsSynced_example =
    call_all-IsSynced at_start (metered ∷ older ∷ []) (refl, (refl, tt)) at_start-IsSynced
