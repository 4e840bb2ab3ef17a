-- ===== src/Energy/Counter/Delta.antt =====
-- What a counter's delta means over a session (internal/energy/counter.go).
use statehouse.Prelude.{
  Float64, Num, ◌<f◌, ◌-f◌, constant, Option, some, none, true, false, ◌≡◌, refl, ◌⊎◌, inl, inr,
  arith, List, [], ◌∷◌, All, if◌then◌else◌,
}
use statehouse.Energy.Counter.{Counter, set_baseline, update, delta, rebaseline_at_latest}

module _ ⦃fl : Float64⦄ where
  -- The readings of a session, in order.
  abbrev pub update_all : Counter → List Num → Counter
  update_all c [] = c
  update_all c (v ∷ vs) = update_all (update c v) vs

  abbrev pub last_or : Num → List Num → Num
  last_or v [] = v
  last_or v (w ∷ ws) = last_or w ws

  abbrev clamped : Num → Num
  clamped d = if d <f constant 0 1 then constant 0 1 else d

  update_all_above :
      (c : Counter) (b l : Num) (vs : List Num)
      → c.baseline ≡ some b
      → c.latest ≡ some l
      → All (λ v. (v <f b) ≡ false) vs
      → (update_all c vs).baseline ≡ some b × ((update_all c vs).latest ≡ some (last_or l vs))
  unfolding update
  update_all_above c b l [] e f h = (e, f)
  update_all_above c b l (v ∷ vs) e f h =
      update_all_above (update c v) b v vs (ground arith) refl h.1

  -- A session whose readings never fall below its first value, even where one falls below the one
  -- before it, yields the last reading less the first, and 0 where that difference is negative.
  pub delta-update_all :
      (c : Counter) (v : Num) (vs : List Num)
      → All (λ w. (w <f v) ≡ false) vs
      → delta (update_all (set_baseline c v) vs)
        ≡ (let d = last_or v vs -f v in if d <f constant 0 1 then constant 0 1 else d)
  unfolding delta set_baseline
  delta-update_all c v vs h = ground (arith, update_all_above (set_baseline c v) v v vs refl refl h)

  -- A reading below the baseline starts the session anew, and so does the start of a cycle.
  pub delta_reset :
      (c : Counter) (b v : Num)
      → c.baseline ≡ some b
      → (v <f b) ≡ true
      → (delta (update c v) ≡ clamped (v -f v)) × (rebaseline_at_latest (update c v) ≡ update c v)
  unfolding update delta rebaseline_at_latest
  delta_reset c b v e h = ground arith

  -- A delta is never negative, in any state, given that 0 is not below itself.
  pub delta_not_negative :
      (c : Counter) → (constant 0 1 <f constant 0 1) ≡ false → (delta c <f constant 0 1) ≡ false
  unfolding delta
  delta_not_negative c z = ground (arith, branches c.baseline c.latest)
    where
      branches :
          (b l : Option Num)
          → (b ≡ none) ⊎ ((l ≡ none) ⊎ ((x : Num) × (y : Num) × (b ≡ some x) × (l ≡ some y)))
      branches none l = inl refl
      branches (some x) none = inr (inl refl)
      branches (some x) (some y) = inr (inr (x, y, refl, refl))
