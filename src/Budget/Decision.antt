-- ===== src/Budget/Decision.antt =====
-- Decisions and reservations of app/gateway/budget_guard.py, and how they are built. The USD
-- figures of a decision are `micros / 1_000_000` and are kept as micros; the digest of the policy
-- (`policy_sha256`) is left out.
use ai_runtime_platform.Base.{
  ℕ, ◌+◌, ◌*◌, ◌^◌, String, Bool, true, false, Option, none, some, List, [], ◌∷◌, leb, ◌==◌,
  if◌then◌else◌, Result, ok, ◌>>=◌, or_raise,
}
use ai_runtime_platform.Int.{ℤ, pos, negsuc}
use ai_runtime_platform.Money.{Decimal, Float, mul, of_ℕ, budget_to_micros}
use ai_runtime_platform.Budget.Policy.{
  Fault, timeout, bad_value, unavailable, ScopeBudget, decimal_of,
}

pub data Verdict : Type 0 where
  allow deny : Verdict

-- The reasons that the code gives; `decision_to_http_exception` knows the last two as well.
pub data Reason : Type 0 where
  guard_disabled within_budget soft_warned : Reason
  budget_exceeded store_timeout store_corrupt store_unavailable : Reason
  malformed_policy guard_disabled_misconfigured : Reason

pub record BudgetDecision : Type 0 where
  pub decision : Verdict
  pub reason : Reason
  pub scope : String
  pub estimated_micros : ℤ
  pub reserved_micros : ℕ
  pub committed_micros : ℕ
  pub budget_usd : Option Float
  pub soft_warning : Bool
  pub reservation_id : Option String
  pub policy_version : String
  pub status_code : ℕ

pub record BudgetReservation : Type 0 where
  pub scope : String
  pub reservation_id : String
  pub reserved_micros : ℕ
  pub soft_warning : Bool
  pub policy_version : String
  pub window_ms : ℕ
  pub executed : Bool
  pub settled : Bool

-- What a decision is about: the scope, its budget, the policy's version and the estimate.
pub record Subject : Type 0 where
  pub scope : String
  pub budget : ScopeBudget
  pub version : String
  pub estimate : ℤ

-- `_deny_for`
unfoldable pub deny_for : Reason → ℕ → Subject → ℕ → ℕ → BudgetDecision
deny_for reason status_code s reserved committed = record {
  decision = deny;
  reason = reason;
  scope = s.scope;
  estimated_micros = s.estimate;
  reserved_micros = reserved;
  committed_micros = committed;
  budget_usd = some s.budget.budget_usd;
  soft_warning = false;
  reservation_id = none;
  policy_version = s.version;
  status_code = status_code;
}

-- the no-op answer of `reserve` when no policy is configured
abbrev pub disabled : BudgetDecision
disabled = record {
  decision = allow;
  reason = guard_disabled;
  scope = "";
  estimated_micros = pos 0;
  reserved_micros = 0;
  committed_micros = 0;
  budget_usd = none;
  soft_warning = false;
  reservation_id = none;
  policy_version = "";
  status_code = 200;
}

abbrev pub Answer : Type 0
Answer = BudgetDecision × Option BudgetReservation

unfoldable pub refuse : Reason → ℕ → Subject → Answer
unfolding deny_for
refuse reason status_code s = (deny_for reason status_code s 0 0, none)

-- the three `except` clauses of `reserve`
unfoldable pub deny_fault : Fault → Subject → Answer
unfolding refuse
deny_fault timeout s = refuse store_timeout 503 s
deny_fault bad_value s = refuse store_corrupt 503 s
deny_fault unavailable s = refuse store_unavailable 503 s

-- What a store returns: a sequence whose items `int` accepts or not, or no sequence.
pub data Item : Type 0 where
  number : ℤ → Item
  junk : Item

pub data Payload : Type 0 where
  sequence : List Item → Payload
  no_sequence : Payload

abbrev pub corrupt : Payload
corrupt = sequence (junk ∷ [])

-- `int(result[0])`, `int(result[1])`, `int(result[2])`
abbrev pub three_numbers : Payload → Option (ℤ × ℤ × ℤ)
three_numbers (sequence (number a ∷ number b ∷ number c ∷ rest)) = some (a, b, c)
three_numbers _ = none

-- `Decimal(used) >= Decimal(budget_micros) * Decimal(str(soft_warning_ratio))`
unfoldable pub reaches : ℕ → ℤ → Decimal → Bool
reaches used (negsuc budget) ratio = true
reaches used (pos budget) ratio =
    let threshold = mul (of_ℕ budget) ratio in
    leb threshold.coefficient (used * 10 ^ threshold.scale)

-- Validation admits ratios in (0, 1] alone, so the fault of a ratio that is not finite is not met.
unfoldable pub soft_test : ScopeBudget → ℕ → Result Fault Bool
unfolding reaches decimal_of
soft_test budget used = do
  cap ← or_raise (budget_to_micros budget.budget_usd) bad_value
  ratio ← decimal_of budget.soft_warning_ratio
  ok (reaches used cap ratio)

unfoldable pub granted : Subject → ℕ → String → ℕ → ℕ → Bool → Answer
granted s estimate res_id committed reserved soft = (
  record {
    decision = allow;
    reason = if soft then soft_warned else within_budget;
    scope = s.scope;
    estimated_micros = s.estimate;
    reserved_micros = reserved;
    committed_micros = committed;
    budget_usd = some s.budget.budget_usd;
    soft_warning = soft;
    reservation_id = some res_id;
    policy_version = s.version;
    status_code = 200;
  },
  some (record {
    scope = s.scope;
    reservation_id = res_id;
    reserved_micros = estimate;
    soft_warning = soft;
    policy_version = s.version;
    window_ms = s.budget.window_seconds * 1000;
    executed = false;
    settled = false;
  }),
)

-- The rest of `_interpret_reserve_result`, for a code and totals that are not negative.
unfoldable pub read_code : ℕ → ℕ → ℕ → Subject → ℕ → String → Result Fault Answer
unfolding refuse deny_for granted
read_code code committed reserved s estimate res_id =
    if code == 0
    then ok (deny_for budget_exceeded 429 s reserved committed, none)
    else if code == 1
    then (soft_test s.budget (committed + reserved) >>= λ soft.
        ok (granted s estimate res_id committed reserved soft))
    else ok (refuse store_corrupt 503 s)

abbrev pub read_numbers : Option (ℤ × ℤ × ℤ) → Subject → ℕ → String → Result Fault Answer
read_numbers (some (pos code, pos committed, pos reserved)) s estimate res_id =
    read_code code committed reserved s estimate res_id
read_numbers _ s estimate res_id = ok (refuse store_corrupt 503 s)

-- `_interpret_reserve_result`
unfoldable pub interpret_reserve_result : Payload → Subject → ℕ → String → Result Fault Answer
interpret_reserve_result result s estimate res_id =
    read_numbers (three_numbers result) s estimate res_id
