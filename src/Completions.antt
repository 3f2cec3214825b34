-- ===== src/Completions.antt =====
-- `post_completion_with_fallback` and `routing_reason` of app/gateway/services/completions.py. How
-- the upstream answers is part of an attempt.
pub mod Outcomes
pub mod Probes
mod Witnesses
use ai_runtime_platform.Base.{
  ℕ, String, Bool, true, false, ◌||◌, Option, none, some, List, [], ◌∷◌, ◌++◌, ltb, if◌then◌else◌,
  Result, ok, err,
}
use ai_runtime_platform.Resilience.Breaker.{CircuitBreaker, record_success, record_failure}
use ai_runtime_platform.Resilience.Retry.{RetryBudget, consume}
use ai_runtime_platform.Routing.Health.{circuit_allows}

-- How `client.post` and `raise_for_status` end: a response, an HTTPStatusError, or a RequestError.
pub data Outcome : Type 0 where
  answered : Outcome
  status : ℕ → Outcome
  unreachable : Outcome

-- One element of `attempts`, with what the upstream will answer, and the times at which the
-- breaker is asked and told.
pub record Attempt : Type 0 where
  pub model : String
  pub fallback_used : Bool
  pub outcome : Outcome
  pub asked_at : ℕ
  pub ended_at : ℕ

pub data PostError : Type 0 where
  circuit_open : String → PostError
  retry_budget_exhausted : PostError
  status_error : ℕ → PostError
  request_error : PostError
  no_attempt : PostError

-- The parts that the calls share, and the models that were sent a request, in order.
pub record Shared : Type 0 where
  pub breaker : Option CircuitBreaker
  pub retry_budget : Option RetryBudget
  pub sent : List String

pub record Completion : Type 0 where
  pub model : String
  pub fallback_used : Bool
  pub failed_models : List String

abbrev pub Posted : Type 0
Posted = Shared × Result PostError Completion

unfoldable pub tell_success : String → Shared → Shared
tell_success model s = elim s.breaker [
  | none ↦ s
  | some b ↦ record s { breaker = some (record_success model b) }
]

unfoldable pub tell_failure : String → ℕ → Shared → Shared
tell_failure model now s = elim s.breaker [
  | none ↦ s
  | some b ↦ record s { breaker = some (record_failure model now b) }
]

abbrev pub is_last : List Attempt → Bool
is_last [] = true
is_last (a ∷ rest) = false

-- the guard of a fallback attempt
unfoldable pub take_retry : Attempt → Shared → Shared × Bool
take_retry a s =
    if a.fallback_used
    then (elim s.retry_budget [
      | none ↦ (s, true)
      | some r ↦
          let (r', granted) = consume a.asked_at r in (record s { retry_budget = some r' }, granted)
    ])
    else (s, true)

unfoldable pub ask_circuit : Attempt → Shared → Shared × Bool
ask_circuit a s =
    let (b', allowed) = circuit_allows a.asked_at a.model s.breaker in
    (record s { breaker = b' }, allowed)

-- One round of the loop: it leaves the loop, or goes on to the next attempt.
pub data Round : Type 0 where
  leaves : Result PostError Completion → Round
  goes_on : Round

-- the `try` of a round, once the request was sent
unfoldable pub hear : Attempt → Bool → List String → Shared → Shared × Round
hear a last failed s = elim a.outcome [
  | answered ↦ (
    tell_success a.model s,
    leaves
        (ok (record { model = a.model; fallback_used = a.fallback_used; failed_models = failed })),
  )
  | status n ↦ (
    tell_failure a.model a.ended_at s,
    if ltb n 500 || last then leaves (err (status_error n)) else goes_on,
  )
  | unreachable ↦
      (tell_failure a.model a.ended_at s, if last then leaves (err request_error) else goes_on)
]

unfoldable pub send : Attempt → Bool → List String → Shared → Shared × Round
send a last failed s =
    let (s', granted) = take_retry a s in
    if granted
    then hear a last failed (record s' { sent = s'.sent ++ (a.model ∷ []) })
    else (s', leaves (err retry_budget_exhausted))

unfoldable pub round : Attempt → Bool → List String → Shared → Shared × Round
round a last failed s =
    let (s', allowed) = ask_circuit a s in
    if allowed
    then send a last failed s'
    else (s', if last then leaves (err (circuit_open a.model)) else goes_on)

-- The loop over `attempts`.
unfoldable pub run_attempts : List Attempt → List String → Shared → Posted
run_attempts [] failed s = (s, err no_attempt)
run_attempts (a ∷ rest) failed s =
    let (s', r) = round a (is_last rest) failed s in
    elim r [
      | leaves result ↦ (s', result)
      | goes_on ↦ run_attempts rest (failed ++ (a.model ∷ [])) s'
    ]

-- The attempts: the primary, then the fallback when there is one with a target.
abbrev pub attempts_of : Attempt → Option Attempt → List Attempt
attempts_of primary none = primary ∷ []
attempts_of primary (some fallback) = primary ∷ fallback ∷ []

unfoldable pub post_completion_with_fallback : Attempt → Option Attempt → Shared → Posted
unfolding run_attempts
post_completion_with_fallback primary fallback s = run_attempts (attempts_of primary fallback) [] s

pub data Reason : Type 0 where
  cost_aware health_score fallback primary : Reason

unfoldable pub routing_reason : Bool → Bool → Bool → Reason
routing_reason cost_rerouted health_rerouted fallback_used =
    if cost_rerouted
    then cost_aware
    else if health_rerouted
    then health_score
    else if fallback_used
    then fallback
    else primary
