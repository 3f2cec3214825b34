-- ===== src/Decisions/Witnesses.antt =====
-- A store of two records.
use ai_runtime_platform.Base.{◌≤◌, ◌≡◌, refl, false, none, some, List, [], ◌∷◌, arith, length}
use ai_runtime_platform.Dict.{Distinct}
use ai_runtime_platform.Money.{Float, finite}
use ai_runtime_platform.Decisions.{
  DecisionRecord, InMemoryDecisionStore, evict, first_with_id, get, new_store, patch_shadow, put,
  storage_key,
}
use ai_runtime_platform.Decisions.Retention.{
  Call, keys, latest_is_found, patches, puts, run, store_is_bounded,
}

abbrev two_ms : Float
two_ms = finite false (record { coefficient = 2; scale = 0 })

abbrev decision : DecisionRecord
decision = record {
  request_id = "r1";
  requested_model = "chat";
  selected_backend = "llama-a";
  routing_reason = "primary";
  fallback_used = false;
  health_score = some 100;
  duration_ms = two_ms;
  shadow_backend = none;
  shadow_duration_ms = none;
  shadow_outcome = none;
  estimated_cost = none;
  stream_outcome = none;
  stream_ttft_ms = none;
  control_plane_decision_id = none;
  approval_id = none;
  policy_bundle_id = none;
  policy_digest = none;
  request_digest = none;
  control_plane_version = none;
  runtime_version = none;
  enforcement_outcome = some "executed";
  tenant_id = some "finance";
  recorded_at = 0;
}

abbrev other : DecisionRecord
other = record decision { tenant_id = some "research" }

abbrev calls : List Call
calls =
    puts 5 decision
    ∷ puts 6 other
    ∷ patches "r1" "success" two_ms
    ∷ puts 7 (record decision { request_id = "r2" })
    ∷ []

store_is_bounded_example :
    (length (run calls (new_store 2)).entries ≤ 2)
    × ((run calls (new_store 2)).order ≡ keys (run calls (new_store 2)).entries)
    × Distinct (run calls (new_store 2)).entries
store_is_bounded_example = store_is_bounded 2 calls

latest_is_found_example :
    get "r1" (some "research") false (put 9 other (run calls (new_store 2)))
    ≡ some (record other { recorded_at = 9 })
latest_is_found_example = latest_is_found 2 9 calls other (omega arith)

abbrev store : InMemoryDecisionStore
store = run (puts 5 decision ∷ puts 6 other ∷ []) (new_store 10)

-- The outcome of a shadow request of "research" is written to the record of "finance", which has
-- the same request id and came first.
patch_hits_first_tenant : patch_shadow "r1" "success" two_ms store ≡ record store {
  entries =
      (
        "finance:r1",
        record decision {
          recorded_at = 5;
          shadow_outcome = some "success";
          shadow_duration_ms = some two_ms;
        },
      )
      ∷ ("research:r1", record other { recorded_at = 6 })
      ∷ [];
}
unfolding run put evict patch_shadow first_with_id storage_key
patch_hits_first_tenant = refl
