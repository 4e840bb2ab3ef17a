-- ===== src/State/Entry/Record.antt =====
-- The all-time maximum in the record of a device (ObserveMax in
-- internal/model/state.go).
use statehouse.Prelude.{
  Float64, Num, ◌<f◌, is_nan, is_inf, Option, some, Bool, true, false, not, ◌||◌, ◌≡◌, refl, arith,
  List, [], ◌∷◌, All, if◌then◌else◌, ◌&&◌,
}
use statehouse.Time.{Time}
use statehouse.Model.Device.{Extremum, observe_max}

module _ ⦃fl : Float64⦄ where
  abbrev pub is_finite : Num → Bool
  is_finite v = not (is_nan v || is_inf v)

  -- What IEEE 754 says of `<` on finite floats: it is asymmetric, and not-less is transitive.
  pub record FiniteOrder : Type 0 where
    pub asym : (x y : Num) → (x <f y) ≡ true → (y <f x) ≡ false
    pub not_lt_trans :
        (x y z : Num)
        → is_finite x ≡ true
        → is_finite y ≡ true
        → is_finite z ≡ true
        → (x <f y) ≡ false
        → (y <f z) ≡ false
        → (x <f z) ≡ false

  abbrev pub Observation : Type 0
  Observation = Num × Time

  abbrev pub max_over : Option Extremum → List Observation → Option Extremum
  max_over e [] = e
  max_over e ((v, t) ∷ os) = max_over (observe_max e v t) os

  -- An extremum that no finite value of a list exceeds.
  abbrev pub Tops : Extremum → List Observation → Type 0
  Tops e os = All (λ o. is_finite o.0 ≡ true → (e.value <f o.0) ≡ false) os

  raise : Extremum → Num → Time → Extremum
  raise e v t = if is_finite v && e.value <f v then record { value = v; at = t } else e

  observe_max-raise :
      (e : Extremum) (v : Num) (t : Time) → observe_max (some e) v t ≡ some (raise e v t)
  unfolding observe_max raise
  observe_max-raise e v t = ground arith

  raise_facts :
      (order : FiniteOrder) (e : Extremum) (v : Num) (t : Time)
      → is_finite e.value ≡ true
      → (is_finite (raise e v t).value ≡ true)
        × (((raise e v t).value <f e.value) ≡ false)
        × (is_finite v ≡ true → ((raise e v t).value <f v) ≡ false)
  unfolding raise
  raise_facts order e v t f =
      ground (arith, order.asym e.value v, order.asym e.value e.value, order.asym v v)

  -- Where `<` orders the finite floats as IEEE 754 says and there is a finite recorded maximum:
  -- after any observations there is one that is finite, not below the old one, and exceeded by no
  -- finite value observed.
  pub max_over-Tops :
      (order : FiniteOrder) (e : Extremum) (os : List Observation)
      → is_finite e.value ≡ true
      → (m : Extremum) × (max_over (some e) os ≡ some m)
        × (is_finite m.value ≡ true)
        × ((m.value <f e.value) ≡ false)
        × Tops m os
  max_over-Tops order e [] f = (e, refl, f, irreflexive, tt)
    where
      irreflexive : (e.value <f e.value) ≡ false
      irreflexive = ground (arith, order.asym e.value e.value)
  max_over-Tops order e ((v, t) ∷ os) f =
      let raised = raise_facts order e v t f in
      let (m, same, finite, above, tops) = max_over-Tops order (raise e v t) os raised.0 in
      (
        m,
        rw (observe_max-raise e v t) same,
        finite,
        order.not_lt_trans _ _ _ finite raised.0 f above raised.1,
        ((λ fv. order.not_lt_trans _ _ _ finite raised.0 fv above (raised.2 fv)), tops),
      )
