-- ===== src/Completions/Outcomes.antt =====
-- About `post_completion_with_fallback` of app/gateway/services/completions.py.
use ai_runtime_platform.Base.{
  ℕ, ◌+◌, ◌≤◌, ◌<◌, String, ◌≡◌, ◌⊎◌, inl, inr, Bool, true, false, Option, none, some, List, [],
  Result, Result-cases, ◌∷◌, ◌++◌, arith, length, length-append, ok, err, Option-cases, ◌≢◌,
}
use ai_runtime_platform.Resilience.Breaker.{CircuitBreaker, allow, record_success}
use ai_runtime_platform.Resilience.Breaker.Circuit.{healthy}
use ai_runtime_platform.Resilience.Breaker.View.{view, record_success_refines}
use ai_runtime_platform.Resilience.Retry.{RetryBudget, consume}
use ai_runtime_platform.Routing.Health.{circuit_allows}
use ai_runtime_platform.Completions.{
  PostError, Attempt, answered, status, Completion, Shared, run_attempts,
  post_completion_with_fallback, attempts_of, ask_circuit, take_retry, tell_success, tell_failure,
  status_error, is_last, round, send, hear, leaves,
}

-- Which of the attempts a completion stands for.
unfoldable pub Offers : List Attempt → Completion → Type 0
Offers [] c = 1 ≤ 0
Offers (a ∷ rest) c =
    ((a.outcome ≡ answered) × (c.model ≡ a.model) × (c.fallback_used ≡ a.fallback_used))
    ⊎ Offers rest c

-- A round that leaves with a completion was answered.
round_answered :
    (a : Attempt) (last : Bool) (failed : List String) (s : Shared) (c : Completion)
    → (round a last failed s).1 ≡ leaves (ok c)
    → (a.outcome ≡ answered) × (c.model ≡ a.model) × (c.fallback_used ≡ a.fallback_used)
unfolding round send hear
round_answered a last failed s c h = ground (arith, h)

run_answered :
    (attempts : List Attempt) (failed : List String) (s : Shared) (c : Completion)
    → (run_attempts attempts failed s).1 ≡ ok c
    → Offers attempts c
unfolding run_attempts Offers
run_answered [] failed s c h = ground (arith, h)
run_answered (a ∷ rest) failed s c h = ground (
  arith,
  h,
  round_answered a (is_last rest) failed s c,
  run_answered rest (failed ++ (a.model ∷ [])) (round a (is_last rest) failed s).0 c,
)

length-round :
    (a : Attempt) (last : Bool) (failed : List String) (s : Shared)
    → length (round a last failed s).0.sent ≤ length s.sent + 1
unfolding round send hear ask_circuit take_retry tell_success tell_failure
length-round a last failed s = ground (arith, length-append s.sent (a.model ∷ []))

length-run :
    (attempts : List Attempt) (failed : List String) (s : Shared)
    → length (run_attempts attempts failed s).0.sent ≤ length s.sent + length attempts
unfolding run_attempts
length-run [] failed s = omega arith
length-run (a ∷ rest) failed s = ground (
  arith,
  length-round a (is_last rest) failed s,
  length-run rest (failed ++ (a.model ∷ [])) (round a (is_last rest) failed s).0,
)

-- What an answer says of the attempts: a completion stands for one of them.
abbrev pub IsOffered : List Attempt → Result PostError Completion → Type 0
IsOffered attempts (ok c) = Offers attempts c
IsOffered attempts (err e) = Unit {0}

-- Whatever the result, and whatever the breaker and the retry budget do, at most as many requests
-- are sent as there are attempts, the primary's and the fallback's; when the result is a
-- completion, it is that of an attempt which the upstream answered, and it says which.
pub completion_is_answered :
    (primary : Attempt) (fallback : Option Attempt) (s : Shared)
    → let (s', r) = post_completion_with_fallback primary fallback s in
      (length s'.sent ≤ length s.sent + length (attempts_of primary fallback))
      × IsOffered (attempts_of primary fallback) r
unfolding post_completion_with_fallback
completion_is_answered primary fallback s =
    let attempts = attempts_of primary fallback in
    (
      length-run attempts [] s,
      elim (Result-cases (run_attempts attempts [] s).1) [
        | inl (c, done) ↦ rw done (run_answered attempts [] s c done)
        | inr (e, failed) ↦ rw failed tt
      ],
    )

-- When the upstream refuses the primary's request with a status below 500, that status is the
-- result: the fallback is not tried.
pub client_error_is_final :
    (primary : Attempt) (fallback : Option Attempt) (s : Shared) (n : ℕ)
    → primary.fallback_used ≡ false
    → (circuit_allows primary.asked_at primary.model s.breaker).1 ≡ true
    → primary.outcome ≡ status n
    → n < 500
    → ((post_completion_with_fallback primary fallback s).1 ≡ err (status_error n))
      × ((post_completion_with_fallback primary fallback s).0.sent ≡ s.sent ++ (primary.model ∷ []))
unfolding post_completion_with_fallback run_attempts round send hear ask_circuit take_retry
    tell_failure
client_error_is_final primary fallback s n first allowed refused low =
    ground (arith, first, allowed, refused, low)

round_told :
    (a : Attempt) (last : Bool) (failed : List String) (s : Shared) (b : CircuitBreaker)
    (c : Completion)
    → s.breaker ≡ some b
    → (round a last failed s).1 ≡ leaves (ok c)
    → (round a last failed s).0.breaker
      ≡ some (record_success c.model (allow a.model a.asked_at b).0)
unfolding round send hear ask_circuit take_retry tell_success circuit_allows
round_told a last failed s b c e h = ground (arith, e, h)

-- With the retry budget used up the fallback is never sent a request.
pub no_budget_no_fallback :
    (primary fallback : Attempt) (s : Shared) (r : RetryBudget)
    → primary.fallback_used ≡ false
    → fallback.fallback_used ≡ true
    → s.retry_budget ≡ some r
    → (consume fallback.asked_at r).1 ≡ false
    → ((post_completion_with_fallback primary (some fallback) s).0.sent ≡ s.sent)
      ⊎ ((post_completion_with_fallback primary (some fallback) s).0.sent
          ≡ s.sent ++ (primary.model ∷ []))
unfolding post_completion_with_fallback run_attempts round send hear ask_circuit take_retry
    tell_failure tell_success
no_budget_no_fallback primary fallback s r first second budget spent =
    ground (arith, first, second, budget, spent)

round_keeps :
    (a : Attempt) (last : Bool) (failed : List String) (s : Shared) (b : CircuitBreaker)
    → s.breaker ≡ some b
    → (round a last failed s).0.breaker ≢ none
unfolding round send hear ask_circuit take_retry tell_success tell_failure circuit_allows
round_keeps a last failed s b e = ground (arith, e)

run_told :
    (attempts : List Attempt) (failed : List String) (s : Shared) (b b' : CircuitBreaker)
    (c : Completion)
    → s.breaker ≡ some b
    → (run_attempts attempts failed s).1 ≡ ok c
    → (run_attempts attempts failed s).0.breaker ≡ some b'
    → view c.model b' ≡ healthy
unfolding run_attempts
run_told [] failed s b b' c e h after = ground (arith, h)
run_told (a ∷ rest) failed s b b' c e h after =
    elim (Option-cases (round a (is_last rest) failed s).0.breaker) [
      | inl gone ↦ absurd (round_keeps a (is_last rest) failed s b e gone)
      | inr (b1, kept) ↦ ground (
        arith,
        h,
        after,
        kept,
        round_told a (is_last rest) failed s b c e,
        record_success_refines c.model (allow a.model a.asked_at b).0,
        run_told rest (failed ++ (a.model ∷ [])) (round a (is_last rest) failed s).0 b1 b' c kept,
      )
    ]

-- A completion closes the circuit of the backend that served it, with no failure counted.
pub success_closes_circuit :
    (primary : Attempt) (fallback : Option Attempt) (s : Shared) (b b' : CircuitBreaker)
    (c : Completion)
    → s.breaker ≡ some b
    → (post_completion_with_fallback primary fallback s).1 ≡ ok c
    → (post_completion_with_fallback primary fallback s).0.breaker ≡ some b'
    → view c.model b' ≡ healthy
unfolding post_completion_with_fallback
success_closes_circuit primary fallback s b b' c e h after =
    run_told (attempts_of primary fallback) [] s b b' c e h after
