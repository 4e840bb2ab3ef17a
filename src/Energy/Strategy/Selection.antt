-- ===== src/Energy/Strategy/Selection.antt =====
-- The choice between the two energy paths (internal/energy/strategy.go).
use statehouse.Prelude.{Float64, Num, ◌<f◌, constant, true, false, ◌≡◌, arith, ◌||◌}
use statehouse.Energy.Strategy.{
  counter, integration, Source, by_counter, by_integration, select_kwh,
}

module _ ⦃fl : Float64⦄ where
  -- The value that a source stands for.
  abbrev pub path_of : Source → Num → Num → Num
  path_of by_integration counter_kwh integrated_kwh = integrated_kwh
  path_of _ counter_kwh integrated_kwh = counter_kwh

  -- Under a known strategy: if either path is positive, the selected total is positive and is that
  -- of the source named, the strategy's own path if that one is positive; if neither is, it is 0
  -- under the strategy's own name.
  pub select_kwh_lem :
      (c i : Num)
      → let zero_kwh = constant 0 1 in
        let (by_c, source_c) = select_kwh counter c i in
        let (by_i, source_i) = select_kwh integration c i in
        ((zero_kwh <f c || zero_kwh <f i) ≡ true
          → ((zero_kwh <f by_c) ≡ true)
            × ((zero_kwh <f by_i) ≡ true)
            × (by_c ≡ path_of source_c c i)
            × (by_i ≡ path_of source_i c i))
        × ((zero_kwh <f c) ≡ true → source_c ≡ by_counter)
        × ((zero_kwh <f i) ≡ true → source_i ≡ by_integration)
        × ((zero_kwh <f c || zero_kwh <f i) ≡ false
            → (select_kwh counter c i ≡ (zero_kwh, by_counter))
              × (select_kwh integration c i ≡ (zero_kwh, by_integration)))
  unfolding select_kwh
  select_kwh_lem c i = ground arith
