-- ===== src/Routing.antt =====
-- app/gateway/services/routing.py and the routes of app/gateway/config.py: which backend serves a
-- request. The digest of the request id is an argument.
pub mod Weights
pub mod Health
mod Witnesses
use ai_runtime_platform.Base.{
  ℕ, ◌+◌, ◌%◌, String, append, Bool, true, false, not, ◌&&◌, ◌||◌, Option, none, some, List, [],
  ◌∷◌, map, str_eq, elem, ltb, leb, ◌==◌, if◌then◌else◌, Result, ok, err,
}

pub record RouteTarget : Type 0 where
  pub model : String
  pub weight : ℕ

-- Of the routing policy of a cost-aware route only its presence is read here.
pub record ModelRoute : Type 0 where
  pub targets : List RouteTarget
  pub primary : Option String
  pub fallback : Option String
  pub min_health_score : Option ℕ
  pub unhealthy_action : String
  pub has_routing_policy : Bool
  pub shadow : Option String

abbrev pub is_some {ℓ} : {A : Type ℓ} → Option A → Bool
is_some none = false
is_some (some a) = true

abbrev pub is_empty {ℓ} : {A : Type ℓ} → List A → Bool
is_empty [] = true
is_empty (x ∷ xs) = false

abbrev pub same_name : Option String → Option String → Bool
same_name none none = true
same_name (some a) (some b) = str_eq a b
same_name _ _ = false

abbrev pub total_weight : List RouteTarget → ℕ
total_weight [] = 0
total_weight (t ∷ ts) = t.weight + total_weight ts

-- `model_names`; a failover route has a fallback, so the missing one is not met.
abbrev pub names_of : Option String → Option String → List RouteTarget → List String
names_of (some primary) (some fallback) targets = primary ∷ fallback ∷ []
names_of (some primary) none targets = primary ∷ []
names_of none fallback targets = map (λ (t : RouteTarget). t.model) targets

unfoldable pub model_names : ModelRoute → List String
model_names r = names_of r.primary r.fallback r.targets

abbrev pub same_flag : Bool → Bool → Bool
same_flag true b = b
same_flag false b = not b

abbrev pub names_shadow : Option String → List String → Bool
names_shadow none names = true
names_shadow (some shadow) names = elem shadow names

-- `has_valid_policy`: whether the validator accepts the route
unfoldable pub has_valid_policy : ModelRoute → Bool
unfolding model_names
has_valid_policy r =
    let is_canary = not (is_empty r.targets) in
    let is_failover = is_some r.primary in
    not (same_flag is_canary is_failover)
    && not (is_canary && not (total_weight r.targets == 100))
    && not (is_canary && is_some r.fallback)
    && not (is_failover && not (is_some r.fallback))
    && not (is_failover && same_name r.primary r.fallback)
    && not (is_some r.min_health_score && not is_failover)
    && not (is_some r.min_health_score && not (str_eq r.unhealthy_action "skip"))
    && not (r.has_routing_policy && not is_failover)
    && names_shadow r.shadow (model_names r)

-- The two exceptions of `select_route_target`.
pub data RouteError : Type 0 where
  no_targets no_target_selected : RouteError

-- the loop of `select_route_target`
unfoldable pub pick : ℕ → List RouteTarget → ℕ → Option String
pick upper_bound [] bucket = none
pick upper_bound (t ∷ ts) bucket =
    let rest = pick (upper_bound + t.weight) ts bucket in
    if ltb bucket (upper_bound + t.weight) then some t.model else rest

abbrev pub picked : Option String → Result RouteError String
picked none = err no_target_selected
picked (some model) = ok model

-- `int(hashlib.sha256(...).hexdigest(), 16)` is the argument `digest`.
module _ (digest : String → ℕ) where
  unfoldable pub bucket_of : String → String → ℕ
  bucket_of request_id route_name = digest (append route_name (append ":" request_id)) % 100

  unfoldable pub select_route_target : ModelRoute → String → String → Result RouteError String
  select_route_target route request_id route_name =
      if is_empty route.targets
      then err no_targets
      else picked (pick 0 route.targets (bucket_of request_id route_name))

  abbrev pub alone : Result RouteError String → Result RouteError (String × Option String)
  alone (ok model) = ok (model, none)
  alone (err e) = err e

  unfoldable pub resolve_route :
      Option ModelRoute → String → String → Result RouteError (String × Option String)
  resolve_route none request_id route_name = ok (route_name, none)
  resolve_route (some route) request_id route_name = elim route.primary [
    | some primary ↦ ok (primary, route.fallback)
    | none ↦ alone (select_route_target route request_id route_name)
  ]

abbrev shadow_unless : Option String → String → Option String
shadow_unless none selected_model = none
shadow_unless (some shadow) selected_model =
    if str_eq shadow selected_model then none else some shadow

unfoldable pub resolve_shadow_backend : Option ModelRoute → String → Option String
resolve_shadow_backend none selected_model = none
resolve_shadow_backend (some route) selected_model = shadow_unless route.shadow selected_model
