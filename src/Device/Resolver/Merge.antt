-- ===== src/Device/Resolver/Merge.antt =====
-- How overrides of thresholds combine (mergeThresholds in internal/device/profiles.go).
use statehouse.Prelude.{Float64, ◌≡◌, refl, Option, some, none}
use statehouse.Device.Profile.{Thresholds}
use statehouse.Device.Resolver.{or_base, merge_thresholds, no_thresholds}

or_base_assoc : {A : Type 0} (a b c : Option A) → or_base c (or_base b a) ≡ or_base (or_base c b) a
or_base_assoc a b none = refl
or_base_assoc a b (some c) = refl

or_base-none : {A : Type 0} (a : Option A) → or_base a none ≡ a
or_base-none none = refl
or_base-none (some a) = refl

module _ ⦃fl : Float64⦄ where
  -- Overrides combine: two of them in turn do what the merge of both does, and one without a value
  -- leaves the base as it is.
  pub merge_thresholds_lem :
      (a b c : Thresholds)
      → (merge_thresholds (merge_thresholds a b) c ≡ merge_thresholds a (merge_thresholds b c))
        × (merge_thresholds a no_thresholds ≡ a)
        × (merge_thresholds no_thresholds a ≡ a)
  unfolding merge_thresholds
  merge_thresholds_lem a b c = (
    rw
        (
          or_base_assoc a.idle_below_w b.idle_below_w c.idle_below_w,
          or_base_assoc a.active_above_w b.active_above_w c.active_above_w,
          or_base_assoc a.active_sustained_for b.active_sustained_for c.active_sustained_for,
          or_base_assoc a.inactive_sustained_for b.inactive_sustained_for c.inactive_sustained_for,
          or_base_assoc a.compressor_above_w b.compressor_above_w c.compressor_above_w,
        )
        refl,
    refl,
    rw
        (
          or_base-none a.idle_below_w,
          or_base-none a.active_above_w,
          or_base-none a.active_sustained_for,
          or_base-none a.inactive_sustained_for,
          or_base-none a.compressor_above_w,
        )
        refl,
  )
