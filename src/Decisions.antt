-- ===== src/Decisions.antt =====
-- app/gateway/decisions.py: the records of routing decisions and the in-process store that keeps
-- the latest of them; and the endpoint of app/gateway/routers/decisions.py that reads it.
pub mod Retention
pub mod Isolation
mod Witnesses
use ai_runtime_platform.Base.{
  ℕ, ◌+◌, String, append, Bool, true, false, not, ◌&&◌, Option, none, some, List, [], ◌∷◌, ◌++◌,
  length, str_eq, ltb, if◌then◌else◌, Result, ok, err,
}
use ai_runtime_platform.Dict.{Dict, lookup, contains, insert, erase}
use ai_runtime_platform.Http.{HttpError}
use ai_runtime_platform.Money.{Float}

-- `recorded_at` is in ticks of the wall clock.
pub record DecisionRecord : Type 0 where
  pub request_id : String
  pub requested_model : String
  pub selected_backend : String
  pub routing_reason : String
  pub fallback_used : Bool
  pub health_score : Option ℕ
  pub duration_ms : Float
  pub shadow_backend : Option String
  pub shadow_duration_ms : Option Float
  pub shadow_outcome : Option String
  pub estimated_cost : Option Float
  pub stream_outcome : Option String
  pub stream_ttft_ms : Option Float
  pub control_plane_decision_id : Option String
  pub approval_id : Option String
  pub policy_bundle_id : Option String
  pub policy_digest : Option String
  pub request_digest : Option String
  pub control_plane_version : Option String
  pub runtime_version : Option String
  pub enforcement_outcome : Option String
  pub tenant_id : Option String
  pub recorded_at : ℕ

pub record InMemoryDecisionStore : Type 0 where
  pub entries : Dict DecisionRecord
  pub order : List String
  pub max_entries : ℕ

abbrev pub new_store : ℕ → InMemoryDecisionStore
new_store max_entries = record { entries = []; order = []; max_entries = max_entries }

-- `tenant_id or "platform"`
abbrev pub tenant_or_platform : Option String → String
tenant_or_platform none = "platform"
tenant_or_platform (some tenant) = if str_eq tenant "" then "platform" else tenant

abbrev pub scoped_key : Option String → String → String
scoped_key tenant request_id = append (tenant_or_platform tenant) (append ":" request_id)

-- `_storage_key`
unfoldable pub storage_key : DecisionRecord → String
storage_key r = scoped_key r.tenant_id r.request_id

-- the `while` of `put`
unfoldable pub evict : ℕ → List String → Dict DecisionRecord → List String × Dict DecisionRecord
evict max_entries [] entries = ([], entries)
evict max_entries (oldest ∷ order) entries =
    let rest = evict max_entries order (erase oldest entries) in
    if ltb max_entries (length (oldest ∷ order)) then rest else (oldest ∷ order, entries)

unfoldable pub put : ℕ → DecisionRecord → InMemoryDecisionStore → InMemoryDecisionStore
put now r s =
    let stamped = record r { recorded_at = now } in
    let key = storage_key stamped in
    let order = if contains key s.entries then s.order else s.order ++ (key ∷ []) in
    let (kept, entries) = evict s.max_entries order (insert key stamped s.entries) in
    record s { entries = entries; order = kept }

-- The first entry with the request id, of whatever tenant.
unfoldable pub first_with_id : String → Dict DecisionRecord → Option (String × DecisionRecord)
first_with_id request_id [] = none
first_with_id request_id ((key, r) ∷ d) =
    let rest = first_with_id request_id d in
    if str_eq r.request_id request_id then some (key, r) else rest

abbrev pub record_of : Option (String × DecisionRecord) → Option DecisionRecord
record_of none = none
record_of (some (key, r)) = some r

unfoldable pub get : String → Option String → Bool → InMemoryDecisionStore → Option DecisionRecord
get request_id tenant_id any_tenant s =
    if any_tenant
    then record_of (first_with_id request_id s.entries)
    else (elim (lookup (scoped_key tenant_id request_id) s.entries) [
      | some r ↦ some r
      | none ↦ lookup request_id s.entries
    ])

unfoldable pub patch_shadow :
    String → String → Float → InMemoryDecisionStore → InMemoryDecisionStore
patch_shadow request_id outcome duration_ms s = elim (first_with_id request_id s.entries) [
  | none ↦ s
  | some (key, r) ↦ record s {
    entries =
        insert key
          (record r { shadow_outcome = some outcome; shadow_duration_ms = some duration_ms })
          s.entries;
  }
]

abbrev pub decision_not_found : HttpError
decision_not_found = record { status_code = 404; code = "decision_not_found"; retry_after = none }

-- `record.tenant_id and record.tenant_id != tenant_id`
abbrev pub is_foreign : Option String → String → Bool
is_foreign none tenant = false
is_foreign (some owner) tenant = not (str_eq owner "") && not (str_eq owner tenant)

-- the endpoint `get_decision`, for the tenant and the role that the request's claims give
unfoldable pub get_decision :
    String → Bool → String → InMemoryDecisionStore → Result HttpError DecisionRecord
get_decision tenant auditor request_id s = elim (get request_id (some tenant) auditor s) [
  | none ↦ err decision_not_found
  | some r ↦ if is_foreign r.tenant_id tenant && not auditor then err decision_not_found else ok r
]
