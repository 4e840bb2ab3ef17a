-- ===== src/Prelude/Float.antt =====
-- Go's float64: a type with the operations of the language, of `math` and of `time.Duration`
-- that the program calls. Results of arithmetic are rounded, so no algebraic law is assumed.
use Prim.Native.Nat.{ℕ}
use mathlib.Core.Bool.{Bool}
use statehouse.Prelude.Int.{ℤ}

pub record Float64 : Type 1 where
  pub Carrier : Type 0
  pub add : Carrier → Carrier → Carrier
  pub sub : Carrier → Carrier → Carrier
  pub mul : Carrier → Carrier → Carrier
  pub div : Carrier → Carrier → Carrier
  pub lt : Carrier → Carrier → Bool
  pub le : Carrier → Carrier → Bool
  pub eq : Carrier → Carrier → Bool
  -- The constant n / d.
  pub constant : ℕ → ℕ → Carrier
  -- `math.Abs`, `math.Max`, `math.IsNaN`, `math.IsInf(v, 0)`
  pub abs : Carrier → Carrier
  pub max : Carrier → Carrier → Carrier
  pub is_nan : Carrier → Bool
  pub is_inf : Carrier → Bool
  -- `float64(n)` and `int64(f)`
  pub of_int : ℤ → Carrier
  pub to_int : Carrier → ℤ
  -- `Duration.Hours` and `Duration.Seconds`, of nanoseconds
  pub hours : ℤ → Carrier
  pub seconds : ℤ → Carrier

abbrev pub Num : ⦃fl : Float64⦄ → Type 0
Num ⦃fl⦄ = fl.Carrier

infixl 65 ◌+f◌ ◌-f◌
infixl 70 ◌*f◌ ◌/f◌
infix 50 ◌<f◌ ◌≤f◌ ◌==f◌
abbrev pub ◌+f◌ : ⦃fl : Float64⦄ → Num → Num → Num
◌+f◌ ⦃fl⦄ = fl.add

abbrev pub ◌-f◌ : ⦃fl : Float64⦄ → Num → Num → Num
◌-f◌ ⦃fl⦄ = fl.sub

abbrev pub ◌*f◌ : ⦃fl : Float64⦄ → Num → Num → Num
◌*f◌ ⦃fl⦄ = fl.mul

abbrev pub ◌/f◌ : ⦃fl : Float64⦄ → Num → Num → Num
◌/f◌ ⦃fl⦄ = fl.div

abbrev pub ◌<f◌ : ⦃fl : Float64⦄ → Num → Num → Bool
◌<f◌ ⦃fl⦄ = fl.lt

abbrev pub ◌≤f◌ : ⦃fl : Float64⦄ → Num → Num → Bool
◌≤f◌ ⦃fl⦄ = fl.le

abbrev pub ◌==f◌ : ⦃fl : Float64⦄ → Num → Num → Bool
◌==f◌ ⦃fl⦄ = fl.eq

abbrev pub constant : ⦃fl : Float64⦄ → ℕ → ℕ → Num
constant ⦃fl⦄ = fl.constant

abbrev pub abs : ⦃fl : Float64⦄ → Num → Num
abs ⦃fl⦄ = fl.abs

abbrev pub max_f : ⦃fl : Float64⦄ → Num → Num → Num
max_f ⦃fl⦄ = fl.max

abbrev pub is_nan : ⦃fl : Float64⦄ → Num → Bool
is_nan ⦃fl⦄ = fl.is_nan

abbrev pub is_inf : ⦃fl : Float64⦄ → Num → Bool
is_inf ⦃fl⦄ = fl.is_inf

abbrev pub of_int : ⦃fl : Float64⦄ → ℤ → Num
of_int ⦃fl⦄ = fl.of_int

abbrev pub to_int : ⦃fl : Float64⦄ → Num → ℤ
to_int ⦃fl⦄ = fl.to_int

abbrev pub hours : ⦃fl : Float64⦄ → ℤ → Num
hours ⦃fl⦄ = fl.hours

abbrev pub seconds : ⦃fl : Float64⦄ → ℤ → Num
seconds ⦃fl⦄ = fl.seconds
