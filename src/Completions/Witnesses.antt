-- ===== src/Completions/Witnesses.antt =====
-- Concrete attempts against an upstream, a breaker and a retry budget.
use ai_runtime_platform.Base.{
  ℕ, ◌≤◌, String, ◌≡◌, refl, true, false, Bool, none, some, List, [], ◌∷◌, ok, err, arith, length,
}
use ai_runtime_platform.Resilience.Breaker.{
  CircuitBreaker, allow, opened, record_failure, record_success, state_of,
}
use ai_runtime_platform.Resilience.Breaker.View.{Event, asks, events_of, view}
use ai_runtime_platform.Resilience.Breaker.Probes.{AsksBefore, admitted}
use ai_runtime_platform.Resilience.Retry.{RetryBudget, consume, renew, take_one}
use ai_runtime_platform.Routing.Health.{circuit_allows, select_health_aware_backend}
use ai_runtime_platform.Completions.{
  Attempt, Completion, Shared, answered, attempts_of, circuit_open, post_completion_with_fallback,
  round, run_attempts, send, hear, status, take_retry, tell_failure, tell_success, unreachable,
  ask_circuit,
}
use ai_runtime_platform.Completions.Outcomes.{IsOffered, completion_is_answered}
use ai_runtime_platform.Completions.Probes.{asked_twice, probe_is_lost}

abbrev breaker : CircuitBreaker
breaker = record {
  failure_threshold = 5;
  recovery = 30;
  half_open_max_probes = 1;
  failures = [];
  opened_at = [];
  states = [];
  half_open_probes = [];
}

abbrev shared : Shared
shared = record {
  breaker = some breaker;
  retry_budget = some (record { max_retries_per_minute = 1; window_start = 0; used = 0 });
  sent = [];
}

abbrev down : Attempt
down = record {
  model = "llama-a";
  fallback_used = false;
  outcome = unreachable;
  asked_at = 10;
  ended_at = 12;
}

abbrev up : Attempt
up = record {
  model = "llama-b";
  fallback_used = true;
  outcome = answered;
  asked_at = 13;
  ended_at = 15;
}

abbrev served : Completion
served = record { model = "llama-b"; fallback_used = true; failed_models = "llama-a" ∷ [] }

served_by_fallback : (post_completion_with_fallback down (some up) shared).1 ≡ ok served
unfolding post_completion_with_fallback run_attempts round send hear ask_circuit take_retry
    circuit_allows tell_failure tell_success allow record_failure state_of consume renew take_one
served_by_fallback = refl

completion_is_answered_example :
    let (s', r) = post_completion_with_fallback down (some up) shared in
    (length s'.sent ≤ 2) × IsOffered (attempts_of down (some up)) r
completion_is_answered_example = completion_is_answered down (some up) shared

abbrev closed_again : CircuitBreaker
closed_again = record_success "llama-b" breaker

abbrev refused : Attempt
refused = record down { outcome = status 404 }

abbrev spent : RetryBudget
spent = record { max_retries_per_minute = 1; window_start = 0; used = 1 }

abbrev broken : CircuitBreaker
broken = record breaker { opened_at = ("llama-a", 10) ∷ []; states = ("llama-a", opened) ∷ [] }

abbrev later_asks : List (String × Event)
later_asks = ("llama-a", asks 1000) ∷ []

abbrev any_health : String → ℕ → Bool
any_health m threshold = true

abbrev retried : Attempt
retried = record down { outcome = answered; asked_at = 51 }

probe_is_lost_example :
    (select_health_aware_backend any_health none 50 "llama-a" none (some broken)
      ≡ (some (allow "llama-a" 50 broken).0, ok ("llama-a", false)))
    × (post_completion_with_fallback retried none
          (record shared { breaker = some (allow "llama-a" 50 broken).0 })
        ≡ (
          record shared { breaker = some (asked_twice "llama-a" 50 51 broken) },
          err (circuit_open "llama-a"),
        ))
    × (admitted "llama-a" later_asks (asked_twice "llama-a" 50 51 broken) ≡ 0)
unfolding view events_of AsksBefore
probe_is_lost_example =
    probe_is_lost any_health none 50 10 2000 retried shared broken later_asks refl refl
      (omega arith) (omega arith) refl (omega arith, record {})
