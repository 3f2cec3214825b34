-- ===== src/Money/Bounds.antt =====
-- About the rounding of app/gateway/budget_guard.py.
use native.Mathlib.Nat.{pow-suc, add-zero}
use native.Mathlib.Numerals.{towards_suc}
use ai_runtime_platform.Base.{
  max, ◌-◌, ℕ, zero, suc, ◌+◌, ◌*◌, ◌/◌, ◌^◌, ◌≤◌, ◌<◌, ◌≡◌, refl, false, some, arith, ltb, ltb→lt,
  lt→ltb, Bool-cases, inl, inr, ◌∙◌,
}
use ai_runtime_platform.Int.{pos}
use ai_runtime_platform.Money.{
  Decimal, finite, context_limit, excess_digits, in_context, mul, add, of_ℕ, div_ceil,
  micros_per_usd, charge_to_micros, budget_to_micros,
}

pub ten_pow_pos : (s : ℕ) → 0 < 10 ^ s
ten_pow_pos zero = omega arith
ten_pow_pos (suc s) = rw pow-suc (omega (arith, ten_pow_pos s))

pub div_ceil_bounds : (c p : ℕ) → 0 < p → (c ≤ div_ceil c p * p) × (div_ceil c p * p < c + p)
div_ceil_bounds c p h = (grind arith, grind arith)

pub div_bounds : (c p : ℕ) → 0 < p → (c / p * p ≤ c) × (c < c / p * p + p)
div_bounds c p h = (grind arith, grind arith)

pow-add_one : (d : ℕ) → 10 ^ (d + 1) ≡ 10 * 10 ^ d
pow-add_one d = simp towards_suc (rw pow-suc (omega arith))

excess_enough : (f d c : ℕ) → c < 10 ^ d + f → c / 10 ^ excess_digits f d c < context_limit
unfolding excess_digits
excess_enough zero d c h = grind (arith, ten_pow_pos d)
excess_enough (suc f) d c h = elim (Bool-cases (ltb (c / 10 ^ d) context_limit)) [
  | inl fits ↦ rw fits (ltb→lt _ _ fits)
  | inr long ↦ rw long (excess_enough f (d + 1) c (omega (arith, pow-add_one d, ten_pow_pos d)))
]

-- The fuel given to `excess_digits` is enough: what is kept has at most 28 digits.
pub in_context_digits : (c : ℕ) → c / 10 ^ excess_digits c 0 c < context_limit
in_context_digits c = excess_enough c 0 c (omega arith)

pub in_context_exact : (x : Decimal) → x.coefficient < context_limit → in_context x ≡ x
unfolding in_context
in_context_exact x h = rw (lt→ltb _ _ h)

pub mul_exact :
    (x y : Decimal)
    → x.coefficient * y.coefficient < context_limit
    → mul x y ≡ record { coefficient = x.coefficient * y.coefficient; scale = x.scale + y.scale }
unfolding mul
mul_exact x y h = in_context_exact _ h

micros_exact :
    (x : Decimal)
    → x.coefficient * micros_per_usd < context_limit
    → mul x (of_ℕ micros_per_usd)
      ≡ record { coefficient = x.coefficient * micros_per_usd; scale = x.scale }
micros_exact x h = mul_exact x (of_ℕ micros_per_usd) h ∙ rw add-zero

-- The micro-units of an amount whose product with 10^6 has at most 28 digits. A charge is the
-- least whole number of micro-units at or above the amount, a budget the greatest at or below it.
pub charge_and_budget_bounds :
    (x : Decimal)
    → x.coefficient * micros_per_usd < context_limit
    → (m n : ℕ) × (charge_to_micros (finite false x) ≡ some (pos m))
      × (budget_to_micros (finite false x) ≡ some (pos n))
      × (x.coefficient * micros_per_usd ≤ m * 10 ^ x.scale)
      × (m * 10 ^ x.scale < x.coefficient * micros_per_usd + 10 ^ x.scale)
      × (n * 10 ^ x.scale ≤ x.coefficient * micros_per_usd)
      × (x.coefficient * micros_per_usd < n * 10 ^ x.scale + 10 ^ x.scale)
unfolding charge_to_micros budget_to_micros
charge_and_budget_bounds x h =
    let c = x.coefficient * micros_per_usd in
    let p = 10 ^ x.scale in
    let up = div_ceil_bounds c p (ten_pow_pos x.scale) in
    let down = div_bounds c p (ten_pow_pos x.scale) in
    (div_ceil c p, c / p, rw (micros_exact x h), rw (micros_exact x h), up.0, up.1, down.0, down.1)

-- Whatever the precision lost, the cap of an amount is at most its charge.
pub budget-le-charge :
    (x : Decimal)
    → (m n : ℕ) × (charge_to_micros (finite false x) ≡ some (pos m))
      × (budget_to_micros (finite false x) ≡ some (pos n))
      × (n ≤ m)
unfolding charge_to_micros budget_to_micros
budget-le-charge x =
    let y = mul x (of_ℕ micros_per_usd) in
    let p = 10 ^ y.scale in
    (div_ceil y.coefficient p, y.coefficient / p, refl, refl, grind (arith, ten_pow_pos y.scale))

pub add_exact :
    (x y : Decimal)
    → let s = max x.scale y.scale in
      let c = x.coefficient * 10 ^ (s - x.scale) + y.coefficient * 10 ^ (s - y.scale) in
      c < context_limit → add x y ≡ record { coefficient = c; scale = s }
unfolding add
add_exact x y h = in_context_exact _ h
