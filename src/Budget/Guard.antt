-- ===== src/Budget/Guard.antt =====
-- `InferenceBudgetGuard` of app/gateway/budget_guard.py: reserve, settle, purge and snapshot on
-- the in-process store or on Redis. What Redis answers to a script is an argument.
use ai_runtime_platform.Base.{
  ℕ, ◌*◌, max, String, Bool, true, false, Option, none, some, [], ◌∷◌, ◌==◌, if◌then◌else◌, Result,
  ok, err, ◌>>=◌, or_raise,
}
use ai_runtime_platform.Dict.{Dict, lookup, insert, get_or}
use ai_runtime_platform.Int.{ℤ, pos, negsuc}
use ai_runtime_platform.Money.{Float, charge_to_micros}
use ai_runtime_platform.Budget.Policy.{
  Fault, timeout, bad_value, unavailable, ScopeBudget, InferenceBudgetPolicy, scope_for,
  estimate_cost_micros,
}
use ai_runtime_platform.Budget.Window.{
  MemoryWindow, new_window, ReserveReply, reserve_in, settle_in, expire_memory,
}
use ai_runtime_platform.Budget.Decision.{
  BudgetReservation, Subject, Answer, Payload, sequence, number, corrupt, disabled, deny_fault,
  interpret_reserve_result,
}

-- `last_error` keeps the kind of the exception, and not its text.
pub record Guard : Type 0 where
  pub policy : Option InferenceBudgetPolicy
  pub redis_configured : Bool
  pub memory : Dict MemoryWindow
  pub redis_ok : Bool
  pub last_error : Option Fault
  pub force_unavailable : Bool
  pub force_timeout : Bool
  pub force_corrupt : Bool

-- How the exchange with Redis ended: a payload, or an exception (the time limit included).
pub data Exchange : Type 0 where
  replied : Payload → Exchange
  raised : Fault → Exchange

-- What a call takes from outside: a new uuid, the clock, and the exchange with Redis.
pub record World : Type 0 where
  pub new_id : String
  pub now_ms : ℕ
  pub exchange : Exchange

pub record Request : Type 0 where
  pub tenant_id : String
  pub model : String
  pub input_tokens : ℤ
  pub output_tokens : ℤ
  pub api_key : Option String
  pub estimated_usd : Option Float

-- `_eval`, after its test hooks
unfoldable pub run_script : Exchange → Guard → Guard × Result Fault Payload
run_script (replied p) g = (record g { redis_ok = true; last_error = none }, ok p)
run_script (raised f) g = (record g { redis_ok = false; last_error = some f }, err f)

-- `_eval`
unfoldable pub eval_script : Exchange → Guard → Guard × Result Fault Payload
unfolding run_script
eval_script x g =
    if g.force_unavailable
    then (g, err unavailable)
    else if g.force_timeout
    then (g, err timeout)
    else if g.force_corrupt
    then (g, ok corrupt)
    else run_script x g

unfoldable pub reserve_redis : World → Subject → ℕ → Guard → Guard × Result Fault Answer
reserve_redis world s estimate g =
    let (g', r) = eval_script world.exchange g in
    (g', (r >>= λ p. interpret_reserve_result p s estimate world.new_id))

abbrev pub payload_of : ReserveReply → Payload
payload_of r =
    sequence (number (pos r.code) ∷ number (pos r.committed) ∷ number (pos r.reserved) ∷ [])

abbrev pub window_ms_of : ScopeBudget → ℕ
window_ms_of b = b.window_seconds * 1000

abbrev pub ttl_ms_of : ScopeBudget → ℕ
ttl_ms_of b = max 1 b.reservation_ttl_ms

-- `self._memory.setdefault(scope, _MemoryWindow())`
abbrev pub window_of : String → Guard → MemoryWindow
window_of scope g = get_or scope new_window g.memory

-- `_reserve_memory`, after its test hooks
unfoldable pub reserve_locked : World → Subject → ℕ → Guard → Guard × Result Fault Answer
reserve_locked world s estimate g =
    let (r, w) =
      reserve_in world.now_ms (window_ms_of s.budget) (ttl_ms_of s.budget) s.budget.budget_usd
        estimate world.new_id (window_of s.scope g) in
    (
      record g { memory = insert s.scope w g.memory },
      (r >>= λ reply. interpret_reserve_result (payload_of reply) s estimate world.new_id),
    )

unfoldable pub reserve_memory : World → Subject → ℕ → Guard → Guard × Result Fault Answer
reserve_memory world s estimate g =
    if g.force_unavailable
    then (g, err unavailable)
    else if g.force_timeout
    then (g, err timeout)
    else if g.force_corrupt
    then (g, interpret_reserve_result corrupt s estimate "")
    else reserve_locked world s estimate g

-- The `except` clauses of `reserve`; a timeout leaves `last_error` to `_eval`.
unfoldable pub note_fault : Fault → Guard → Guard
note_fault timeout g = g
note_fault f g = record g { last_error = some f }

abbrev pub conclude : Subject → Guard × Result Fault Answer → Guard × Answer
conclude s (g, ok answer) = (g, answer)
conclude s (g, err f) = (note_fault f g, deny_fault f s)

-- the body of the `try` of `reserve`, once the estimate is a whole number of micros
unfoldable pub reserve_estimate : World → Subject → ℤ → Guard → Guard × Answer
unfolding note_fault
reserve_estimate world s (negsuc n) g = conclude s (g, err bad_value)
reserve_estimate world s (pos estimate) g = conclude s (
    if g.redis_configured
    then reserve_redis world s estimate g
    else reserve_memory world s estimate g)

module _ (sha256_hex : String → String) where
  unfoldable pub estimate_of : InferenceBudgetPolicy → Request → Result Fault ℤ
  estimate_of policy q = elim q.estimated_usd [
    | none ↦
        (estimate_cost_micros policy q.model q.input_tokens q.output_tokens >>= λ n. ok (pos n))
    | some usd ↦ or_raise (charge_to_micros usd) bad_value
  ]

  abbrev pub subject_of : InferenceBudgetPolicy → Request → ℤ → Subject
  subject_of policy q estimate =
      let (scope, budget) = scope_for sha256_hex policy q.tenant_id q.api_key in
      record { scope = scope; budget = budget; version = policy.version; estimate = estimate }

  unfoldable pub reserve_under : InferenceBudgetPolicy → Request → World → Guard → Guard × Answer
  unfolding estimate_of reserve_estimate
  reserve_under policy q world g = elim (estimate_of policy q) [
    | err f ↦ conclude (subject_of policy q (pos 0)) (g, err f)
    | ok estimate ↦ reserve_estimate world (subject_of policy q estimate) estimate g
  ]

  -- `reserve`, less its metrics
  unfoldable pub reserve : Request → World → Guard → Guard × Answer
  unfolding reserve_under
  reserve q world g = elim g.policy [
    | none ↦ (g, (disabled, none))
    | some policy ↦ reserve_under policy q world g
  ]

-- a settlement on Redis: a fault is only noted, and the result is not read
unfoldable pub settle_redis : Exchange → Guard → Guard
unfolding eval_script
settle_redis x g =
    let (g', r) = eval_script x g in
    elim r [ ok p ↦ g' | err f ↦ record g' { last_error = some f; redis_ok = false } ]

-- a settlement on the in-process store
unfoldable pub settle_memory : BudgetReservation → ℕ → ℕ → World → Guard → Guard
settle_memory r actual_micros window_ms world g = elim (lookup r.scope g.memory) [
  | none ↦ g
  | some w ↦ record g {
    memory =
        insert r.scope (settle_in world.now_ms window_ms actual_micros r.reservation_id w) g.memory;
  }
]

-- `_settle`
unfoldable pub settle_micros : BudgetReservation → ℕ → World → Guard → Guard
settle_micros r actual_micros world g =
    let window_ms = if r.window_ms == 0 then 3_600_000 else r.window_ms in
    if g.redis_configured
    then settle_redis world.exchange g
    else settle_memory r actual_micros window_ms world g

-- `purge_expired` on the in-process store, with the count that it returns
unfoldable pub purge_expired : String → ℕ → Guard → Guard × ℕ
purge_expired scope now_ms g = elim (lookup scope g.memory) [
  | none ↦ (g, 0)
  | some w ↦
      let (w', count) = expire_memory now_ms (4 * 3_600_000) w in
      (record g { memory = insert scope w' g.memory }, count)
]

-- `snapshot_micros` on the in-process store: the committed and the reserved total
unfoldable pub snapshot_micros : String → ℕ → Guard → Guard × ℕ × ℕ
snapshot_micros scope now_ms g = elim (lookup scope g.memory) [
  | none ↦ (g, 0, 0)
  | some w ↦
      let w' = (expire_memory now_ms (4 * 3_600_000) w).0 in
      (record g { memory = insert scope w' g.memory }, w'.committed_micros, w'.reserved_micros)
]
