-- ===== src/Tenancy/Policy.antt =====
-- app/gateway/tenant_policy.py: the policy of a tenant, and the bundle of all. Reading the bundle
-- from the environment is left out, but for the default policy for an unavailable Redis.
use ai_runtime_platform.Base.{
  ℕ, String, Bool, true, Option, none, some, List, [], ◌∷◌, elem, if◌then◌else◌,
}
use ai_runtime_platform.Dict.{Dict, get_or}

pub data RedisUnavailablePolicy : Type 0 where
  fail_closed degraded fail_open : RedisUnavailablePolicy

-- `_default_redis_unavailable_policy` of the text, stripped and in small letters
unfoldable pub default_redis_unavailable_policy : String → RedisUnavailablePolicy
default_redis_unavailable_policy raw =
    if elem raw ("fail_closed" ∷ "fail-closed" ∷ "closed" ∷ [])
    then fail_closed
    else if elem raw ("degraded" ∷ "local" ∷ "fallback" ∷ [])
    then degraded
    else if elem raw ("fail_open" ∷ "fail-open" ∷ "open" ∷ [])
    then fail_open
    else fail_closed

pub record TenantRuntimePolicy : Type 0 where
  pub allowed_models : List String
  pub allowed_routes : List String
  pub max_concurrent_requests : ℕ
  pub max_queued_requests : ℕ
  pub redis_unavailable_policy : RedisUnavailablePolicy

pub record TenantPolicyBundle : Type 0 where
  pub tenants : Dict TenantRuntimePolicy
  pub default : TenantRuntimePolicy
  pub auditor_groups : List String

abbrev pub for_tenant : String → TenantPolicyBundle → TenantRuntimePolicy
for_tenant tenant_id b = get_or tenant_id b.default b.tenants

-- `if not allowed: return True; return name in allowed`
abbrev pub in_allowlist : String → List String → Bool
in_allowlist name [] = true
in_allowlist name (a ∷ allowed) = elem name (a ∷ allowed)

-- `str(model or "")`
abbrev pub or_empty : Option String → String
or_empty none = ""
or_empty (some name) = name

unfoldable pub model_allowed : String → Option String → TenantPolicyBundle → Bool
model_allowed tenant_id model b =
    in_allowlist (or_empty model) (for_tenant tenant_id b).allowed_models

unfoldable pub route_allowed : String → Option String → TenantPolicyBundle → Bool
route_allowed tenant_id none b = true
route_allowed tenant_id (some route) b = in_allowlist route (for_tenant tenant_id b).allowed_routes
