-- ===== src/Energy/Counter.antt =====
-- internal/energy/counter.go. A method that writes through `*Counter` returns the new counter.
pub mod Delta
use statehouse.Prelude.{Float64, Num, ◌<f◌, ◌-f◌, constant, Option, some, none, if◌then◌else◌, ℕ}

module _ ⦃fl : Float64⦄ where
  pub record Counter : Type 0 where
    pub baseline : Option Num
    pub latest : Option Num

  unfoldable pub fresh : Counter
  fresh = record { baseline = none; latest = none }

  unfoldable pub set_baseline : Counter → Num → Counter
  set_baseline c v = record { baseline = some v; latest = some v }

  -- The baseline after a reading: the first one sets it, a lower one rolls it forward.
  unfoldable pub rolled : Option Num → Num → Num
  rolled none v = v
  rolled (some b) v = if v <f b then v else b

  unfoldable pub update : Counter → Num → Counter
  unfolding rolled
  update c v = record { baseline = some (rolled c.baseline v); latest = some v }

  difference : Option Num → Option Num → Num
  difference none l = constant 0 1
  difference (some b) none = constant 0 1
  difference (some b) (some l) = let d = l -f b in if d <f constant 0 1 then constant 0 1 else d

  unfoldable pub delta : Counter → Num
  unfolding difference
  delta c = difference c.baseline c.latest

  rebaseline : Option Num → Counter → Counter
  rebaseline none c = c
  rebaseline (some v) c = record c { baseline = some v }

  unfoldable pub rebaseline_at_latest : Counter → Counter
  unfolding rebaseline
  rebaseline_at_latest c = rebaseline c.latest c
