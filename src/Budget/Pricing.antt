-- ===== src/Budget/Pricing.antt =====
-- About `price_for` and `estimate_cost_micros` of app/gateway/budget_policy.py.
use native.Mathlib.Nat.{zero-add}
use ai_runtime_platform.Base.{
  ℕ, ◌+◌, ◌*◌, ◌-◌, ◌^◌, ◌≤◌, ◌<◌, max, String, ◌≡◌, true, false, ◌∙◌, some, arith, ok, inl, inr,
  Option-cases,
}
use ai_runtime_platform.Int.{pos}
use ai_runtime_platform.Dict.{lookup}
use ai_runtime_platform.Money.{Decimal, finite, mul, of_ℕ, context_limit, div_ceil, round_size}
use ai_runtime_platform.Money.Bounds.{mul_exact, div_ceil_bounds, ten_pow_pos, add_exact}
use ai_runtime_platform.Budget.Policy.{
  InferenceBudgetPolicy, ModelPrice, require_default_price, price_for, estimate_cost_micros,
  decimal_of,
}

-- A policy that passed its validator has a price for every model.
pub price_for_total :
    (policy : InferenceBudgetPolicy) (model : String)
    → require_default_price policy.prices ≡ true
    → (p : ModelPrice) × (price_for policy model ≡ some p)
unfolding require_default_price price_for
price_for_total policy model valid = elim (Option-cases (lookup model policy.prices)) [
  | inr (p, e) ↦ (p, ground (arith, e))
  | inl missing ↦ elim (Option-cases (lookup "*" policy.prices)) [
    | inr (p, e) ↦ (p, ground (arith, e, missing))
    | inl no_star ↦ elim (Option-cases (lookup "default" policy.prices)) [
      | inr (p, e) ↦ (p, ground (arith, e, missing, no_star))
      | inl no_default ↦ absurd (ground (arith, valid, no_star, no_default))
    ]
  ]
]

tokens_times :
    (n : ℕ) (p : Decimal)
    → n * p.coefficient < context_limit
    → mul (of_ℕ n) p ≡ record { coefficient = n * p.coefficient; scale = p.scale }
tokens_times n p h = mul_exact (of_ℕ n) p h ∙ rw zero-add

module _ (policy : InferenceBudgetPolicy) (model : String) (input output : ℕ)
    (ip op : Decimal) where
  abbrev scale : ℕ
  scale = max ip.scale op.scale

  -- the exact cost, times 10 ^ scale
  abbrev cost : ℕ
  cost =
      input * ip.coefficient * 10 ^ (scale - ip.scale)
      + output * op.coefficient * 10 ^ (scale - op.scale)

  -- For the prices in force, and numbers of at most 28 digits, the estimate is the least whole
  -- number of micros at or above tokens times price: it never under-reserves.
  pub estimate_covers :
      price_for policy model
        ≡ some
            (record { input_per_million = finite false ip; output_per_million = finite false op })
      → input * ip.coefficient < context_limit
      → output * op.coefficient < context_limit
      → cost < context_limit
      → (m : ℕ) × (estimate_cost_micros policy model (pos input) (pos output) ≡ ok m)
        × (cost ≤ m * 10 ^ scale)
        × (m * 10 ^ scale < cost + 10 ^ scale)
  unfolding estimate_cost_micros round_size decimal_of
  estimate_covers priced fits_in fits_out fits =
      let x : Decimal = record { coefficient = input * ip.coefficient; scale = ip.scale } in
      let y : Decimal = record { coefficient = output * op.coefficient; scale = op.scale } in
      let bounds = div_ceil_bounds cost (10 ^ scale) (ten_pow_pos scale) in
      (
        div_ceil cost (10 ^ scale),
        rw (
          priced,
          tokens_times input ip fits_in,
          tokens_times output op fits_out,
          add_exact x y fits,
        ),
        bounds.0,
        bounds.1,
      )
