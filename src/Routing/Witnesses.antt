-- ===== src/Routing/Witnesses.antt =====
-- Concrete routes and what is selected for them.
use ai_runtime_platform.Base.{
  ℕ, ◌<◌, String, ◌≡◌, refl, true, false, Bool, none, some, Option, [], ◌∷◌, ok, elem, leb,
  if◌then◌else◌,
}
use ai_runtime_platform.Routing.{
  ModelRoute, bucket_of, has_valid_policy, model_names, pick, picked, resolve_route,
  select_route_target,
}
use ai_runtime_platform.Routing.Weights.{canary_shares, chosen, share, valid_route_resolves}

abbrev canary : ModelRoute
canary = record {
  targets =
      record { model = "llama-stable"; weight = 90 }
      ∷ record { model = "llama-canary"; weight = 10 }
      ∷ [];
  primary = none;
  fallback = none;
  min_health_score = none;
  unhealthy_action = "skip";
  has_routing_policy = false;
  shadow = some "llama-canary";
}

abbrev digest : String → ℕ
digest s = 1097

canary-valid : has_valid_policy canary ≡ true
unfolding has_valid_policy model_names
canary-valid = refl

canary_shares_example :
    (chosen "llama-canary" 0 canary.targets 0 100 ≡ share "llama-canary" canary.targets)
    × (bucket_of digest "r1" "chat" < 100)
    × (select_route_target digest canary "r1" "chat"
        ≡ picked (pick 0 canary.targets (bucket_of digest "r1" "chat")))
canary_shares_example = canary_shares digest canary "llama-canary" "r1" "chat" canary-valid refl

canary_share : share "llama-canary" canary.targets ≡ 10
unfolding share
canary_share = refl

valid_route_resolves_example :
    (model : String) × (fallback : Option String) × (resolve_route digest (some canary) "r1" "chat"
      ≡ ok (model, fallback))
    × (elem model (model_names canary) ≡ true)
valid_route_resolves_example = valid_route_resolves digest canary "r1" "chat" canary-valid

abbrev failover : ModelRoute
failover = record canary {
  targets = [];
  primary = some "llama-a";
  fallback = some "llama-b";
  min_health_score = some 60;
  shadow = none;
}

-- "llama-a" has a score of 40, every other model one of 90.
abbrev meets : String → ℕ → Bool
meets m threshold = leb threshold (if elem m ("llama-a" ∷ []) then 40 else 90)

abbrev spare : String
spare = "llama-b"
