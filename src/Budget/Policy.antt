-- ===== src/Budget/Policy.antt =====
-- app/gateway/budget_policy.py: the policy document, scopes, prices and the estimate.
-- A float of the document is kept as a `Float`; of `reservation_ttl_seconds` only
-- `int(reservation_ttl_seconds * 1000)` is read, which is the field `reservation_ttl_ms`.
use Prim.Native.String.{slice}
use ai_runtime_platform.Base.{
  ℕ, String, append, Bool, ◌||◌, Option, none, some, str_eq, if◌then◌else◌, Result, ok, err, ◌>>=◌,
  or_raise,
}
use ai_runtime_platform.Dict.{Dict, lookup, contains}
use ai_runtime_platform.Int.{ℤ, max_zero}
use ai_runtime_platform.Money.{
  Decimal, Float, finite, infinite, nan, mul, add, of_ℕ, ceiling, round_size,
}

-- The exceptions that the guard tells apart: a timeout, a TypeError, ValueError or
-- ArithmeticError, and any other.
pub data Fault : Type 0 where
  timeout bad_value unavailable : Fault

pub record ModelPrice : Type 0 where
  pub input_per_million : Float
  pub output_per_million : Float

pub record ScopeBudget : Type 0 where
  pub budget_usd : Float
  pub window_seconds : ℕ
  pub soft_warning_ratio : Float
  pub reservation_ttl_ms : ℕ

pub record TenantBudgetPolicy : Type 0 where
  pub base : ScopeBudget
  pub open base use *
  pub api_keys : Dict ScopeBudget

pub record InferenceBudgetPolicy : Type 0 where
  pub version : String
  pub enabled : Bool
  pub default : ScopeBudget
  pub tenants : Dict TenantBudgetPolicy
  pub prices : Dict ModelPrice
  pub require_store : Bool

-- `_require_default_price`, the validator of `prices`
unfoldable pub require_default_price : Dict ModelPrice → Bool
require_default_price prices = contains "*" prices || contains "default" prices

-- `hashlib.sha256(...).hexdigest()`
module _ (sha256_hex : String → String) where
  unfoldable pub api_key_fingerprint : String → String
  api_key_fingerprint api_key = slice (sha256_hex api_key) 0 16

  unfoldable pub tenant_scope : String → String
  tenant_scope tenant_id = append "tenant:" tenant_id

  unfoldable pub key_scope : String → String → String
  unfolding api_key_fingerprint
  key_scope tenant_id api_key =
      append "key:" (append tenant_id (append ":" (api_key_fingerprint api_key)))

  -- the last two returns of `scope_for`, for a tenant that the policy names
  unfoldable pub scope_of_tenant :
      String → Option String → TenantBudgetPolicy → String × ScopeBudget
  unfolding tenant_scope key_scope
  scope_of_tenant tenant_id none tenant = (tenant_scope tenant_id, tenant.base)
  scope_of_tenant tenant_id (some api_key) tenant = elim (lookup api_key tenant.api_keys) [
    | none ↦ (tenant_scope tenant_id, tenant.base)
    | some scoped ↦
        if str_eq api_key ""
        then (tenant_scope tenant_id, tenant.base)
        else (key_scope tenant_id api_key, scoped)
  ]

  unfoldable pub scope_for : InferenceBudgetPolicy → String → Option String → String × ScopeBudget
  unfolding scope_of_tenant
  scope_for policy tenant_id api_key = elim (lookup tenant_id policy.tenants) [
    | none ↦ (tenant_scope tenant_id, policy.default)
    | some tenant ↦ scope_of_tenant tenant_id api_key tenant
  ]

abbrev first_of_two {ℓ} : {A : Type ℓ} → Option A → Option A → Option A
first_of_two (some a) o = some a
first_of_two none o = o

-- `none` is the KeyError of `self.prices["default"]`
unfoldable pub price_for : InferenceBudgetPolicy → String → Option ModelPrice
price_for policy model =
    first_of_two (lookup model policy.prices)
      (first_of_two (lookup "*" policy.prices) (lookup "default" policy.prices))

-- `Decimal(str(price))`: arithmetic with an infinity ends in an ArithmeticError. The validators
-- admit no negative price, so the sign is that of zero.
unfoldable pub decimal_of : Float → Result Fault Decimal
decimal_of (finite minus x) = ok x
decimal_of infinite = err bad_value
decimal_of nan = err bad_value

unfoldable pub estimate_cost_micros : InferenceBudgetPolicy → String → ℤ → ℤ → Result Fault ℕ
unfolding price_for decimal_of
estimate_cost_micros policy model input_tokens output_tokens = do
  price ← or_raise (price_for policy model) unavailable
  input_price ← decimal_of price.input_per_million
  output_price ← decimal_of price.output_per_million
  let micros =
      add (mul (of_ℕ (max_zero input_tokens)) input_price)
        (mul (of_ℕ (max_zero output_tokens)) output_price)
  ok (round_size ceiling micros)
