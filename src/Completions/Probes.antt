-- ===== src/Completions/Probes.antt =====
-- `select_health_aware_backend` of app/gateway/services/routing.py followed by
-- `post_completion_with_fallback` of app/gateway/services/completions.py: both ask the breaker.
use ai_runtime_platform.Base.{
  ℕ, ◌+◌, ◌≤◌, String, ◌≡◌, refl, ap, ◌∙◌, Bool, true, false, Option, none, some, List, arith, ok,
  err,
}
use ai_runtime_platform.Resilience.Breaker.{CircuitBreaker, opened, half_open, allow}
use ai_runtime_platform.Resilience.Breaker.Circuit.{Circuit, Settings, ask}
use ai_runtime_platform.Resilience.Breaker.View.{
  settings, view, allow_refines, settings-allow, Event, events_of,
}
use ai_runtime_platform.Resilience.Breaker.Probes.{AsksBefore, admitted, probes_left}
use ai_runtime_platform.Routing.{ModelRoute}
use ai_runtime_platform.Routing.Health.{
  circuit_allows, passes, threshold_of, select_health_aware_backend, try_backend,
}
use ai_runtime_platform.Completions.{
  Attempt, Shared, post_completion_with_fallback, run_attempts, round, ask_circuit, circuit_open,
}

-- The breaker after both calls for a backend: the selection's and the attempt's.
abbrev pub asked_twice : String → ℕ → ℕ → CircuitBreaker → CircuitBreaker
asked_twice k now later b = (allow k later (allow k now b).0).0

first_ask :
    (c : Settings) (now t : ℕ) (v : Circuit)
    → v.state ≡ opened
    → v.opened_time ≡ some t
    → t + c.recovery ≤ now
    → ((ask c now v).1 ≡ true) × ((ask c now v).0.state ≡ half_open) × ((ask c now v).0.probes ≡ 1)
unfolding ask
first_ask c now t v o s late = ground (arith, o, s, late)

second_ask :
    (c : Settings) (now : ℕ) (v : Circuit)
    → v.state ≡ half_open
    → v.probes ≡ 1
    → c.max_probes ≤ 1
    → ((ask c now v).1 ≡ false) × ((ask c now v).0 ≡ v)
unfolding ask
second_ask c now v h one few = ground (arith, h, one, few)

-- The first answer is yes, the second is no, and the circuit is left half-open with its probe
-- used up.
allow_twice :
    (k : String) (now later t : ℕ) (b : CircuitBreaker)
    → (view k b).state ≡ opened
    → (view k b).opened_time ≡ some t
    → t + b.recovery ≤ now
    → b.half_open_max_probes ≤ 1
    → ((allow k now b).1 ≡ true)
      × ((allow k later (allow k now b).0).1 ≡ false)
      × ((view k (asked_twice k now later b)).state ≡ half_open)
      × ((view k (asked_twice k now later b)).probes ≡ 1)
allow_twice k now later t b o s late few =
    let b1 = (allow k now b).0 in
    let one = allow_refines k now b in
    let two = allow_refines k later b1 in
    let first = first_ask (settings b) now t (view k b) o s late in
    let same : settings b1 ≡ settings b = settings-allow k now b in
    let second = second_ask (settings b) later (view k b1) in
    ground (
      arith,
      one,
      first,
      same,
      few,
      two,
      second,
      ap (λ (v : Circuit). v.state) one.1,
      ap (λ (v : Circuit). v.probes) one.1,
      ap (λ (v : Circuit). v.state) two.1,
      ap (λ (v : Circuit). v.probes) two.1,
    )

post_refused :
    (a : Attempt) (s : Shared) (b : CircuitBreaker)
    → (allow a.model a.asked_at b).1 ≡ false
    → post_completion_with_fallback a none (record s { breaker = some b })
      ≡ (record s { breaker = some (allow a.model a.asked_at b).0 }, err (circuit_open a.model))
unfolding post_completion_with_fallback run_attempts round ask_circuit circuit_allows
post_refused a s b refused = ground (arith, refused)

select_allowed :
    (meets : String → ℕ → Bool) (route : Option ModelRoute) (now : ℕ) (k : String)
    (b : CircuitBreaker)
    → (allow k now b).1 ≡ true
    → passes meets (threshold_of route) k ≡ true
    → select_health_aware_backend meets route now k none (some b)
      ≡ (some (allow k now b).0, ok (k, false))
unfolding select_health_aware_backend try_backend circuit_allows
select_allowed meets route now k b allowed good = rw (allowed, good) refl

-- A backend whose circuit is open and whose recovery time has passed, with good health, at most
-- one probe at a time and no fallback: the selection picks it and thereby uses the probe, so that
-- the call that follows is refused by the breaker, nothing is sent and no outcome is recorded; and
-- from then on the breaker admits nothing to the backend, whatever is asked before some outcome is
-- recorded.
pub probe_is_lost :
    (meets : String → ℕ → Bool) (route : Option ModelRoute) (now t end : ℕ) (a : Attempt)
    (s : Shared) (b : CircuitBreaker) (es : List (String × Event))
    → (view a.model b).state ≡ opened
    → (view a.model b).opened_time ≡ some t
    → t + b.recovery ≤ now
    → b.half_open_max_probes ≤ 1
    → passes meets (threshold_of route) a.model ≡ true
    → AsksBefore end (events_of a.model es)
    → (select_health_aware_backend meets route now a.model none (some b)
        ≡ (some (allow a.model now b).0, ok (a.model, false)))
      × (post_completion_with_fallback a none (record s { breaker = some (allow a.model now b).0 })
          ≡ (
            record s { breaker = some (asked_twice a.model now a.asked_at b) },
            err (circuit_open a.model),
          ))
      × (admitted a.model es (asked_twice a.model now a.asked_at b) ≡ 0)
probe_is_lost meets route now t end a s b es o opened_t late few good asks =
    let (admits, refuses, half, one) = allow_twice a.model now a.asked_at t b o opened_t late few in
    let b1 = (allow a.model now b).0 in
    let b2 = asked_twice a.model now a.asked_at b in
    let kept =
      ap (λ (c : Settings). c.max_probes)
        (settings-allow a.model a.asked_at b1 ∙ settings-allow a.model now b) in
    (
      select_allowed meets route now a.model b admits good,
      post_refused a s b1 refuses,
      omega (arith, probes_left a.model end es b2 half asks, kept, one, few),
    )
