-- ===== src/Decisions/Isolation.antt =====
-- About `get_decision` of app/gateway/routers/decisions.py.
use ai_runtime_platform.Base.{
  String, ◌≡◌, ◌⊎◌, inl, inr, false, none, some, arith, eq_iff, ok, Option-cases,
}
use ai_runtime_platform.Decisions.{DecisionRecord, InMemoryDecisionStore, get, get_decision}

-- A reader who is no auditor gets a record only when the store finds it for his tenant, and then
-- the record is of his own tenant or names none.
pub no_foreign_record :
    (tenant request_id : String) (s : InMemoryDecisionStore) (r : DecisionRecord)
    → get_decision tenant false request_id s ≡ ok r
    → (get request_id (some tenant) false s ≡ some r)
      × ((r.tenant_id ≡ none) ⊎ ((r.tenant_id ≡ some "") ⊎ (r.tenant_id ≡ some tenant)))
unfolding get_decision
no_foreign_record tenant request_id s r h =
    elim (Option-cases (get request_id (some tenant) false s)) [
      | inl missing ↦ ground (arith, missing, h)
      | inr (q, found) ↦ elim (Option-cases q.tenant_id) [
        | inl open_to_all ↦ ground (arith, found, open_to_all, h)
        | inr (owner, owned) ↦ ground (arith, found, owned, h, eq_iff owner "", eq_iff owner tenant)
      ]
    ]
