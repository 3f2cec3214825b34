-- ===== src/Money.antt =====
-- The money path of app/gateway/budget_guard.py: USD floats to integer micro-units through
-- `decimal.Decimal`, in the default context (28 significant digits, ties to even).
pub mod Bounds
use ai_runtime_platform.Base.{
  ℕ, zero, suc, ◌+◌, ◌-◌, ◌*◌, ◌/◌, ◌%◌, ◌^◌, max, Bool, true, false, ◌&&◌, ◌||◌, Option, none,
  some, ltb, leb, ◌==◌, if◌then◌else◌,
}
use ai_runtime_platform.Int.{ℤ, pos, neg}

-- The decimal `coefficient / 10 ^ scale`. A positive exponent is written out in the coefficient.
pub record Decimal : Type 0 where
  pub coefficient : ℕ
  pub scale : ℕ

-- A Python float, as `str` prints it.
pub data Float : Type 0 where
  finite : Bool → Decimal → Float  -- the sign (true for a minus) and the size
  infinite nan : Float

-- `ROUND_CEILING`, `ROUND_FLOOR`, `ROUND_HALF_EVEN`
pub data Rounding : Type 0 where
  ceiling floor half_even : Rounding

abbrev pub div_ceil : ℕ → ℕ → ℕ
div_ceil c p = (c + p - 1) / p

abbrev pub div_half_even : ℕ → ℕ → ℕ
div_half_even c p =
    let q = c / p in
    let twice = c % p + c % p in if ltb p twice || (twice == p && q % 2 == 1) then q + 1 else q

abbrev pub context_limit : ℕ
context_limit = 10 ^ 28

-- How many digits a result has beyond the context's 28. The first argument is fuel.
unfoldable pub excess_digits : ℕ → ℕ → ℕ → ℕ
excess_digits zero d c = d
excess_digits (suc f) d c =
    let rest = excess_digits f (d + 1) c in if ltb (c / 10 ^ d) context_limit then d else rest

-- A result of arithmetic, rounded to the context's precision.
unfoldable pub in_context : Decimal → Decimal
unfolding excess_digits
in_context x =
    let d = excess_digits x.coefficient 0 x.coefficient in
    let q = div_half_even x.coefficient (10 ^ d) in
    if ltb x.coefficient context_limit
    then x
    else record { coefficient = q * 10 ^ (d - x.scale); scale = x.scale - d }

unfoldable pub mul : Decimal → Decimal → Decimal
unfolding in_context
mul x y =
    in_context (record { coefficient = x.coefficient * y.coefficient; scale = x.scale + y.scale })

unfoldable pub add : Decimal → Decimal → Decimal
unfolding in_context
add x y =
    let s = max x.scale y.scale in
    in_context (record {
      coefficient = x.coefficient * 10 ^ (s - x.scale) + y.coefficient * 10 ^ (s - y.scale);
      scale = s;
    })

abbrev pub of_ℕ : ℕ → Decimal
of_ℕ n = record { coefficient = n; scale = 0 }

-- `to_integral_value`, of the size and of the signed value
unfoldable pub round_size : Rounding → Decimal → ℕ
round_size ceiling x = div_ceil x.coefficient (10 ^ x.scale)
round_size floor x = x.coefficient / 10 ^ x.scale
round_size half_even x = div_half_even x.coefficient (10 ^ x.scale)

abbrev pub mirrored : Rounding → Rounding
mirrored ceiling = floor
mirrored floor = ceiling
mirrored half_even = half_even

unfoldable pub to_integral_value : Rounding → Bool → Decimal → ℤ
unfolding round_size
to_integral_value r false x = pos (round_size r x)
to_integral_value r true x = neg (round_size (mirrored r) x)

abbrev pub micros_per_usd : ℕ
micros_per_usd = 1_000_000

-- `usd_to_micros`; `none` is the ValueError of a non-finite amount
unfoldable pub usd_to_micros : Rounding → Float → Option ℤ
unfolding to_integral_value mul
usd_to_micros r (finite minus x) = some (to_integral_value r minus (mul x (of_ℕ micros_per_usd)))
usd_to_micros r infinite = none
usd_to_micros r nan = none

unfoldable pub charge_to_micros : Float → Option ℤ
unfolding usd_to_micros
charge_to_micros = usd_to_micros ceiling

unfoldable pub budget_to_micros : Float → Option ℤ
unfolding usd_to_micros
budget_to_micros = usd_to_micros floor
