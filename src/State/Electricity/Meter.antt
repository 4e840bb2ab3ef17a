-- ===== src/State/Electricity/Meter.antt =====
-- Which device supplies the gross reading (AggregateElectricity in internal/state/electricity.go).
use statehouse.Prelude.{
  Float64, Num, ◌-f◌, Option, some, none, true, false, ◌&&◌, ◌≡◌, refl, sym, subst, arith, ℤ, List,
  [], ◌∷◌, foldl, if◌then◌else◌, str_lt, str_lt_irrefl, str_lt_trans, str_lt-total, All, ◌⊎◌, inl,
  inr,
}
use statehouse.Time.{Time}
use statehouse.Device.Class.{Class}
use statehouse.Model.Identity.{is_empty}
use statehouse.Model.Device.{Device}
use statehouse.State.Electricity.{
  Scan, nothing_seen, is_meter_device, scan_device, aggregate_electricity,
}

module _ ⦃fl : Float64⦄ where
  -- The predicate holds of one of the devices.
  abbrev pub One : (Device → Type 0) → List Device → Type 0
  One P [] = ⊥
  One P (d ∷ ds) = P d ⊎ One P ds

  -- The meter of the lower id.
  better : Option Device → Device → Option Device
  better none d = if is_meter_device d then some d else none
  better (some c) d = if is_meter_device d && str_lt d.id c.id then some d else some c

  lowest : Option Device → List Device → Option Device
  lowest o [] = o
  lowest o (d ∷ ds) = lowest (better o d) ds

  -- No meter has a lower id.
  abbrev pub Lowest : List Device → Device → Type 0
  Lowest ds c = All (λ d. is_meter_device d ≡ true → str_lt d.id c.id ≡ false) ds

  lowest-none :
      (o : Option Device) (ds : List Device)
      → lowest o ds ≡ none
      → (o ≡ none) × All (λ d. is_meter_device d ≡ false) ds
  unfolding lowest better
  lowest-none none [] e = (refl, tt)
  lowest-none (some c) [] e = cc
  lowest-none none (d ∷ ds) e = ground (arith, lowest-none (better none d) ds)
  lowest-none (some c) (d ∷ ds) e = ground (arith, lowest-none (better (some c) d) ds)

  abbrev NotAbove : Option Device → Device → Type 0
  NotAbove none c = Unit
  NotAbove (some b) c = str_lt b.id c.id ≡ false

  better-NotAbove :
      (o : Option Device) (d c : Device)
      → NotAbove (better o d) c
      → NotAbove o c × (is_meter_device d ≡ true → str_lt d.id c.id ≡ false)
  unfolding better
  better-NotAbove none d c h = (tt, λ m. ground arith)
  better-NotAbove (some b) d c h =
      ground
        (arith, str_lt_trans d.id b.id c.id, str_lt_trans d.id c.id b.id, str_lt-total b.id c.id)

  lowest-Lowest :
      (o : Option Device) (ds : List Device) (c : Device)
      → lowest o ds ≡ some c
      → NotAbove o c × Lowest ds c
  unfolding lowest
  lowest-Lowest none [] c e = cc
  lowest-Lowest (some b) [] c e = (ground (arith, str_lt_irrefl c.id), tt)
  lowest-Lowest o (d ∷ ds) c e =
      let h = lowest-Lowest (better o d) ds c e in
      let k = better-NotAbove o d c h.0 in (k.0, (k.1, h.1))

  -- The chosen device is the one at the start, or one of the list.
  lowest-One :
      (P : Device → Type 0) (o : Option Device) (ds : List Device) (c : Device)
      → lowest o ds ≡ some c
      → is_meter_device c ≡ true
      → P c
      → (o ≡ some c) ⊎ One P ds
  unfolding lowest better
  lowest-One P o [] c e m p = inl e
  lowest-One P o (d ∷ ds) c e m p = split (lowest-One P (better o d) ds c e m p)
    where
      origin : (o : Option Device) → better o d ≡ some c → (o ≡ some c) ⊎ (d ≡ c)
      origin none h = ground arith
      origin (some b) h = ground arith

      place : (o ≡ some c) ⊎ (d ≡ c) → (o ≡ some c) ⊎ One P (d ∷ ds)
      place (inl h) = inl h
      place (inr h) = inr (inl (subst P (sym h) p))

      split : (better o d ≡ some c) ⊎ One P ds → (o ≡ some c) ⊎ One P (d ∷ ds)
      split (inl h) = place (origin o h)
      split (inr q) = inr (inr q)

  -- What a scan says of the meter chosen so far.
  abbrev Represents : Scan → Option Device → Type 0
  Represents (agg, id) none = (agg.gross_seen ≡ false) × (id ≡ [])
  Represents (agg, id) (some c) =
      (agg.gross_seen ≡ true)
      × (id ≡ c.id)
      × (is_empty c.id ≡ false)
      × (is_meter_device c ≡ true)
      × (c.latest.power_w ≡ some agg.gross_w)

  scan_device-Represents :
      (now : Time) (staleness_for : Class → Option ℤ) (s : Scan) (o : Option Device) (d : Device)
      → is_empty d.id ≡ false
      → Represents s o
      → Represents (scan_device now staleness_for s d) (better o d)
  unfolding scan_device better is_meter_device
  scan_device-Represents now staleness_for (agg, id) none d n r = ground arith
  scan_device-Represents now staleness_for (agg, id) (some c) d n r = ground arith

  foldl-Represents :
      (now : Time) (staleness_for : Class → Option ℤ) (s : Scan) (o : Option Device)
      (ds : List Device)
      → All (λ d. is_empty d.id ≡ false) ds
      → Represents s o
      → Represents (foldl (scan_device now staleness_for) s ds) (lowest o ds)
  unfolding lowest
  foldl-Represents now staleness_for s o [] n r = r
  foldl-Represents now staleness_for s o (d ∷ ds) n r =
      foldl-Represents now staleness_for (scan_device now staleness_for s d) (better o d) ds n.1
        (scan_device-Represents now staleness_for s o d n.0 r)

  -- The device whose power is the gross reading.
  abbrev pub Supplies : List Device → Num → Device → Type 0
  Supplies ds gross c = (is_meter_device c ≡ true) × (c.latest.power_w ≡ some gross) × Lowest ds c

  -- Where no device's id is empty: if a gross reading is seen, it is the power of a meter among
  -- the devices of which no meter has a lower id, and the unmonitored power is the gross reading
  -- less the monitored sum; if none is seen, no device is a meter.
  pub gross_of_lowest_meter :
      (now : Time) (staleness_for : Class → Option ℤ) (ds : List Device)
      → All (λ d. is_empty d.id ≡ false) ds
      → let agg = aggregate_electricity now ds staleness_for in
        ((agg.gross_seen ≡ true)
          × One (Supplies ds agg.gross_w) ds
          × (agg.unmonitored_w ≡ agg.gross_w -f agg.monitored_w))
        ⊎ ((agg.gross_seen ≡ false) × All (λ d. is_meter_device d ≡ false) ds)
  unfolding aggregate_electricity
  gross_of_lowest_meter now staleness_for ds n =
      conclude (lowest none ds) refl
        (foldl-Represents now staleness_for (nothing_seen, []) none ds n (refl, refl))
    where
      scanned : Scan
      scanned = foldl (scan_device now staleness_for) (nothing_seen, []) ds

      conclude :
          (o : Option Device)
          → lowest none ds ≡ o
          → Represents scanned o
          → ((scanned.0.gross_seen ≡ true)
              × One (Supplies ds scanned.0.gross_w) ds
              × ((if scanned.0.gross_seen
                    then scanned.0.gross_w -f scanned.0.monitored_w
                    else scanned.0.unmonitored_w)
                  ≡ scanned.0.gross_w -f scanned.0.monitored_w))
            ⊎ ((scanned.0.gross_seen ≡ false) × All (λ d. is_meter_device d ≡ false) ds)
      conclude none e r = inr (r.0, (lowest-none none ds e).1)
      conclude (some c) e r = inl (
        r.0,
        found (
            lowest-One (Supplies ds scanned.0.gross_w) none ds c e r.3
              (r.3, r.4, (lowest-Lowest none ds c e).1)),
        rw r.0,
      )
        where
          found :
              (none ≡ some c) ⊎ One (Supplies ds scanned.0.gross_w) ds
              → One (Supplies ds scanned.0.gross_w) ds
          found (inl h) = cc
          found (inr q) = q
