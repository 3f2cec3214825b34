-- ===== src/Tenancy/Scripts/Agreement.antt =====
-- The quota scripts of app/gateway/tenant.py and its in-process store, side by side for one team.
use ai_runtime_platform.Base.{ℕ, ◌≤◌, String, ◌≡◌, Option, none, some, List, [], ◌∷◌}
use ai_runtime_platform.Dict.{get_or}
use ai_runtime_platform.Int.{ℤ, pos}
use ai_runtime_platform.Tenancy.Commands.{Redis, IsRedis}
use ai_runtime_platform.Tenancy.Scripts
use ai_runtime_platform.Tenancy.Scripts.Effects.{Shows}
use ai_runtime_platform.Tenancy.Quota.{
  Actual, Ask, Clock, QuotaReservation, TenantAttributionStore, new_usage,
}
use ai_runtime_platform.Tenancy.Quota
use ai_runtime_platform.Tenancy.Quota.Ledger.{usage_on}

-- A call of a store, for the team in hand. `reads` is both snapshots.
pub data Call : Type 0 where
  reserves : Ask → String → Call
  refunds : QuotaReservation → Call
  reconciles : QuotaReservation → Actual → Call
  reads : Call

-- The tokens of today, as an answer says them. Each store computes the spend in floats of its own.
pub data Answer : Type 0 where
  counted : ℤ → Answer
  done : Answer

unfoldable pub in_process :
    String → Clock → Call → TenantAttributionStore → TenantAttributionStore × Answer
in_process team at (reserves a uuid) m =
    let (q, m') = Quota.reserve_request (record a { team = team }) uuid at m in
    (m', counted (pos q.tokens_today))
in_process team at (refunds q) m = (Quota.refund_reservation (record q { team = team }) at m, done)
in_process team at (reconciles q a) m =
    let ((t, _), m') = Quota.reconcile_usage (record q { team = team }) a at m in
    (m', counted (pos t))
in_process team at reads m =
    let ((_, t), m1) = Quota.usage_snapshot team at m in
    let (_, m2) = Quota.spend_snapshot team at m1 in (m2, counted (pos t))

module _ {S : Type 0} (r : Redis S) where
  unfoldable pub by_script : Clock → Call → S → S × Answer
  by_script at (reserves a uuid) s =
      let (s', _, counts) = Scripts.reserve_request r a uuid at s in
      (s', counted counts.tokens_today)
  by_script at (refunds q) s = (Scripts.refund_reservation r q at s, done)
  by_script at (reconciles q a) s =
      let (s', counts) = Scripts.reconcile_usage r q a at s in (s', counted counts.tokens_today)
  by_script at reads s = let (s', _, t) = Scripts.usage_snapshot r at s in (s', counted t)

  unfoldable pub scripts_answer : List (Clock × Call) → S → List Answer
  scripts_answer [] s = []
  scripts_answer ((at, c) ∷ cs) s =
      let (s', answer) = by_script at c s in answer ∷ scripts_answer cs s'

unfoldable pub process_answers : String → List (Clock × Call) → TenantAttributionStore → List Answer
process_answers team [] m = []
process_answers team ((at, c) ∷ cs) m =
    let (m', answer) = in_process team at c m in answer ∷ process_answers team cs m'

-- The days do not go back.
abbrev pub DaysInOrder : ℕ → List (Clock × Call) → Type 0
DaysInOrder today [] = Unit {0}
DaysInOrder today ((at, c) ∷ cs) = (today ≤ at.today) × DaysInOrder at.today cs

abbrev pub NotAfter : Option ℕ → ℕ → Type 0
NotAfter none today = Unit {0}
NotAfter (some day) today = day ≤ today

-- Both stores count the same tokens for the team on a day, and neither is ahead of it.
pub record Agrees {S : Type 0} (r : Redis S) (team : String) (today : ℕ) (s : S)
    (m : TenantAttributionStore) : Type 0 where
  pub shown : Shows r today (usage_on today team m).tokens_today s
  pub day_of_hash : NotAfter (r.hget_day s) today
  pub day_of_usage : NotAfter (get_or team new_usage m.usage).tokens_day today

module _ {S : Type 0} (r : Redis S) (laws : IsRedis r) (team : String) where
  -- A step: agreement, and the same answer.
  abbrev Same : ℕ → S × Answer → TenantAttributionStore × Answer → Type 0
  Same today x y = Agrees r team today x.0 y.0 × (x.1 ≡ y.1)
