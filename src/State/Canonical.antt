-- ===== src/State/Canonical.antt =====
-- The canonical events of a reading (emitCanonicalForReading in internal/state/engine.go).
use statehouse.Prelude.{
  Float64, Num, Bool, true, false, ◌||◌, ◌≡◌, refl, Option, some, none, ℤ, List, [], ◌∷◌, ◌++◌, Str,
  str, is_some,
}
use statehouse.Time.{Time}
use statehouse.Model.Identity.{DeviceIdentity}
use statehouse.Model.Reading.{Reading}

module _ ⦃fl : Float64⦄ where
  pub data Value : Type 0 where
    number : Num → Value
    flag : Bool → Value
    text : Str → Value
    whole : ℤ → Value

  -- The quality is the link quality, if the reading has one.
  pub record CanonicalEvent : Type 0 where
    pub timestamp : Time
    pub source : Str
    pub source_topic : Str
    pub device_id : Str
    pub identity : DeviceIdentity
    pub capability : Str
    pub attribute : Str
    pub value : Value
    pub unit : Str
    pub quality : Option ℤ

  -- One of some tests holds.
  abbrev any_of : List Bool → Bool
  any_of [] = false
  any_of (b ∷ bs) = b || any_of bs

  unfoldable pub has_any_measurement : Reading → Bool
  has_any_measurement r = any_of (
      is_some r.power_w
      ∷ is_some r.voltage_v
      ∷ is_some r.current_a
      ∷ is_some r.energy_kwh
      ∷ is_some r.state
      ∷ is_some r.temperature_c
      ∷ is_some r.humidity_pct
      ∷ is_some r.pressure_hpa
      ∷ is_some r.wind_speed_ms
      ∷ is_some r.wind_dir_deg
      ∷ is_some r.rainfall_mm
      ∷ is_some r.illuminance_lux
      ∷ is_some r.uv_index
      ∷ is_some r.battery_runtime_mins
      ∷ is_some r.on_battery
      ∷ is_some r.low_battery
      ∷ is_some r.smoke
      ∷ is_some r.tamper
      ∷ [])

  module _ (id : Str) (identity : DeviceIdentity) (source_topic : Str) (r : Reading) where
    event : Str → Str → Value → Str → CanonicalEvent
    event capability attribute value unit = record {
      timestamp = r.timestamp;
      source = identity.scheme;
      source_topic = source_topic;
      device_id = id;
      identity = identity;
      capability = capability;
      attribute = attribute;
      value = value;
      unit = unit;
      quality = r.link_quality;
    }

    unfoldable pub emit :
        {A : Type 0} → Option A → (A → Value) → Str → Str → Str → List CanonicalEvent
    unfolding event
    emit none kind capability attribute unit = []
    emit (some a) kind capability attribute unit = event capability attribute (kind a) unit ∷ []

    -- What each sink gets, in this order.
    unfoldable pub emit_canonical_for_reading : List CanonicalEvent
    unfolding emit
    emit_canonical_for_reading =
        emit r.power_w number (str "power") (str "power_w") (str "W")
        ++ (emit r.voltage_v number (str "power") (str "voltage_v") (str "V")
            ++ (emit r.current_a number (str "power") (str "current_a") (str "A")
                ++ (emit r.energy_kwh number (str "energy") (str "energy_kwh") (str "kWh")
                    ++ (emit r.state text (str "switch") (str "state") (str "")
                        ++ (emit r.temperature_c number (str "temperature") (str "temperature_c")
                              (str "C")
                            ++ (emit r.humidity_pct number (str "humidity") (str "humidity_pct")
                                  (str "%")
                                ++ (emit r.battery number (str "battery") (str "battery_pct")
                                      (str "%")
                                    ++ (emit r.pressure_hpa number (str "environment")
                                          (str "pressure_hpa") (str "hPa")
                                        ++ (emit r.wind_speed_ms number (str "environment")
                                              (str "wind_speed_ms") (str "m/s")
                                            ++ (emit r.wind_dir_deg number (str "environment")
                                                  (str "wind_dir_deg") (str "deg")
                                                ++ (emit r.rainfall_mm number (str "environment")
                                                      (str "rainfall_mm") (str "mm")
                                                    ++ (emit r.illuminance_lux number
                                                          (str "environment")
                                                          (str "illuminance_lux") (str "lux")
                                                        ++ (emit r.uv_index number
                                                            (str "environment") (str "uv_index")
                                                            (str "")
                                                            ++ (emit r.battery_runtime_mins number
                                                            (str "ups") (str "battery_runtime_mins")
                                                            (str "min")
                                                            ++ (emit r.on_battery flag (str "ups")
                                                            (str "on_battery") (str "")
                                                            ++ (emit r.low_battery flag (str "ups")
                                                            (str "low_battery") (str "")
                                                            ++ (emit r.smoke flag (str "alarm")
                                                            (str "smoke") (str "")
                                                            ++ (emit r.tamper flag (str "alarm")
                                                            (str "tamper") (str "")
                                                            ++ (emit r.rssi whole (str "radio")
                                                            (str "rssi_dbm")
                                                            (str "dBm"))))))))))))))))))))

    abbrev is_silent : List CanonicalEvent → Bool
    is_silent [] = true
    is_silent (e ∷ es) = false

    step :
        {A : Type 0} (o : Option A) (kind : A → Value) (c a u : Str) (b : Bool)
        (rest : List CanonicalEvent)
        → (b ≡ true → is_silent rest ≡ false)
        → (is_some o || b) ≡ true
        → is_silent (emit o kind c a u ++ rest) ≡ false
    unfolding emit
    step none kind c a u b rest k h = k h
    step (some x) kind c a u b rest k h = refl

    pass :
        {A : Type 0} (o : Option A) (kind : A → Value) (c a u : Str) (b : Bool)
        (rest : List CanonicalEvent)
        → (b ≡ true → is_silent rest ≡ false)
        → b ≡ true
        → is_silent (emit o kind c a u ++ rest) ≡ false
    unfolding emit
    pass none kind c a u b rest k h = k h
    pass (some x) kind c a u b rest k h = refl

    -- A reading with a measurement is announced by at least one canonical event.
    pub measurement_announced :
        has_any_measurement r ≡ true → is_silent emit_canonical_for_reading ≡ false
    unfolding has_any_measurement emit_canonical_for_reading
    measurement_announced = step r.power_w number (str "power") (str "power_w") (str "W") _ _ (
        step r.voltage_v number (str "power") (str "voltage_v") (str "V") _ _ (
          step r.current_a number (str "power") (str "current_a") (str "A") _ _ (
            step r.energy_kwh number (str "energy") (str "energy_kwh") (str "kWh") _ _ (
              step r.state text (str "switch") (str "state") (str "") _ _ (
                step r.temperature_c number (str "temperature") (str "temperature_c") (str "C") _ _
                  (step r.humidity_pct number (str "humidity") (str "humidity_pct") (str "%") _ _ (
                    pass r.battery number (str "battery") (str "battery_pct") (str "%") _ _ (
                      step r.pressure_hpa number (str "environment") (str "pressure_hpa")
                        (str "hPa") _ _
                        (step r.wind_speed_ms number (str "environment") (str "wind_speed_ms")
                          (str "m/s") _ _
                          (step r.wind_dir_deg number (str "environment") (str "wind_dir_deg")
                            (str "deg") _ _
                            (step r.rainfall_mm number (str "environment") (str "rainfall_mm")
                              (str "mm") _ _
                              (step r.illuminance_lux number (str "environment")
                                (str "illuminance_lux") (str "lux") _ _
                                (step r.uv_index number (str "environment") (str "uv_index")
                                  (str "") _ _
                                  (step r.battery_runtime_mins number (str "ups")
                                    (str "battery_runtime_mins") (str "min") _ _
                                    (step r.on_battery flag (str "ups") (str "on_battery") (str "")
                                      _ _
                                      (step r.low_battery flag (str "ups") (str "low_battery")
                                        (str "") _ _
                                        (step r.smoke flag (str "alarm") (str "smoke") (str "") _ _
                                          (step r.tamper flag (str "alarm") (str "tamper") (str "")
                                            _ _ (λ h. cc)))))))))))))))))))
