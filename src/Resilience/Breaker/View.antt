-- ===== src/Resilience/Breaker/View.antt =====
-- What `CircuitBreaker` of app/gateway/resilience.py keeps of one backend, and the machine of one
-- circuit.
use ai_runtime_platform.Base.{
  ℕ, ◌+◌, String, ◌≡◌, refl, ap, ◌∙◌, false, str_eq, eq_iff, eq_refl, arith, if◌then◌else◌,
  Bool-cases, List, [], ◌∷◌, inl, inr,
}
use ai_runtime_platform.Dict.{
  lookup, get_or, lookup-insert, lookup-erase, get_or-insert, get_or-erase,
}
use ai_runtime_platform.Resilience.Breaker.Circuit.{Circuit, Settings, ask, healthy, fail}
use ai_runtime_platform.Resilience.Breaker.{
  CircuitState, closed, opened, half_open, CircuitBreaker, state_of, allow, allow_in, allow_opened,
  allow_half_open, record_success, open_circuit, count_failure, fail_in, record_failure,
}

unfoldable pub view : String → CircuitBreaker → Circuit
view k b = record {
  state = get_or k closed b.states;
  failures = get_or k 0 b.failures;
  opened_time = lookup k b.opened_at;
  probes = get_or k 0 b.half_open_probes;
}

abbrev pub settings : CircuitBreaker → Settings
settings b = record {
  threshold = b.failure_threshold;
  recovery = b.recovery;
  max_probes = b.half_open_max_probes;
}

-- `allow` runs the machine of its backend, and answers as it does.
allow_in_refines :
    (s : CircuitState) (k : String) (now : ℕ) (b : CircuitBreaker)
    → state_of k b ≡ s
    → ((allow_in s k now b).1 ≡ (ask (settings b) now (view k b)).1)
      × (view k (allow_in s k now b).0 ≡ (ask (settings b) now (view k b)).0)
unfolding state_of allow_opened allow_half_open view ask
allow_in_refines closed k now b e = rw e (refl, refl)
allow_in_refines opened k now b e = ground (
  arith,
  e,
  get_or-insert k k closed half_open b.states,
  get_or-insert k k 0 1 b.half_open_probes,
  eq_refl k,
)
allow_in_refines half_open k now b e = ground (
  arith,
  e,
  get_or-insert k k 0 (get_or k 0 b.half_open_probes + 1) b.half_open_probes,
  eq_refl k,
)

pub allow_refines :
    (k : String) (now : ℕ) (b : CircuitBreaker)
    → ((allow k now b).1 ≡ (ask (settings b) now (view k b)).1)
      × (view k (allow k now b).0 ≡ (ask (settings b) now (view k b)).0)
unfolding allow
allow_refines k now b = allow_in_refines (state_of k b) k now b refl

pub record_success_refines :
    (k : String) (b : CircuitBreaker) → view k (record_success k b) ≡ healthy
unfolding record_success view
record_success_refines k b = ground (
  arith,
  get_or-insert k k closed closed b.states,
  get_or-insert k k 0 0 b.failures,
  get_or-erase k k 0 b.half_open_probes,
  lookup-erase k k b.opened_at,
  eq_refl k,
)

fail_in_refines :
    (s : CircuitState) (k : String) (now : ℕ) (b : CircuitBreaker)
    → state_of k b ≡ s
    → view k (fail_in s k now b) ≡ fail (settings b) now (view k b)
unfolding state_of count_failure open_circuit view fail
fail_in_refines s k now b e = ground (
  arith,
  e,
  get_or-insert k k closed opened b.states,
  get_or-insert k k 0 b.failure_threshold b.failures,
  get_or-insert k k 0 (get_or k 0 b.failures + 1) b.failures,
  get_or-insert k k 0 0 b.half_open_probes,
  lookup-insert k k now b.opened_at,
  eq_refl k,
)

pub record_failure_refines :
    (k : String) (now : ℕ) (b : CircuitBreaker)
    → view k (record_failure k now b) ≡ fail (settings b) now (view k b)
unfolding record_failure
record_failure_refines k now b = fail_in_refines (state_of k b) k now b refl

-- A method called for one backend leaves the circuit of every other as it was.
pub allow_other :
    (k j : String) (now : ℕ) (b : CircuitBreaker)
    → str_eq k j ≡ false
    → view j (allow k now b).0 ≡ view j b
unfolding allow allow_opened allow_half_open view
allow_other k j now b apart = ground (
  arith,
  get_or-insert k j closed half_open b.states,
  get_or-insert k j 0 1 b.half_open_probes,
  get_or-insert k j 0 (get_or k 0 b.half_open_probes + 1) b.half_open_probes,
  apart,
)

record_success_other :
    (k j : String) (b : CircuitBreaker)
    → str_eq k j ≡ false
    → view j (record_success k b) ≡ view j b
unfolding record_success view
record_success_other k j b apart = ground (
  arith,
  get_or-insert k j closed closed b.states,
  get_or-insert k j 0 0 b.failures,
  get_or-erase k j 0 b.half_open_probes,
  lookup-erase k j b.opened_at,
  apart,
)

record_failure_other :
    (k j : String) (now : ℕ) (b : CircuitBreaker)
    → str_eq k j ≡ false
    → view j (record_failure k now b) ≡ view j b
unfolding record_failure count_failure open_circuit view
record_failure_other k j now b apart = ground (
  arith,
  get_or-insert k j closed opened b.states,
  get_or-insert k j 0 b.failure_threshold b.failures,
  get_or-insert k j 0 (get_or k 0 b.failures + 1) b.failures,
  get_or-insert k j 0 0 b.half_open_probes,
  lookup-insert k j now b.opened_at,
  apart,
)

pub settings-allow :
    (k : String) (now : ℕ) (b : CircuitBreaker) → settings (allow k now b).0 ≡ settings b
unfolding allow allow_opened allow_half_open
settings-allow k now b = ground arith

pub settings-record_failure :
    (k : String) (now : ℕ) (b : CircuitBreaker) → settings (record_failure k now b) ≡ settings b
unfolding record_failure count_failure open_circuit
settings-record_failure k now b = ground arith

pub settings-record_success :
    (k : String) (b : CircuitBreaker) → settings (record_success k b) ≡ settings b
unfolding record_success
settings-record_success k b = refl

pub state_of-view : (k : String) (b : CircuitBreaker) → state_of k b ≡ (view k b).state
unfolding state_of view
state_of-view k b = refl

-- A call of the breaker, less the backend.
pub data Event : Type 0 where
  asks : ℕ → Event
  succeeds : Event
  fails : ℕ → Event

unfoldable pub call : String → Event → CircuitBreaker → CircuitBreaker
call k (asks now) b = (allow k now b).0
call k succeeds b = record_success k b
call k (fails now) b = record_failure k now b

unfoldable pub step : Settings → Event → Circuit → Circuit
step c (asks now) v = (ask c now v).0
step c succeeds v = healthy
step c (fails now) v = fail c now v

unfoldable pub run_calls : List (String × Event) → CircuitBreaker → CircuitBreaker
run_calls [] b = b
run_calls ((k, e) ∷ es) b = run_calls es (call k e b)

unfoldable pub run_steps : Settings → List Event → Circuit → Circuit
run_steps c [] v = v
run_steps c (e ∷ es) v = run_steps c es (step c e v)

unfoldable pub events_of : String → List (String × Event) → List Event
events_of j [] = []
events_of j ((k, e) ∷ es) = let rest = events_of j es in if str_eq k j then e ∷ rest else rest

pub call_self :
    (k : String) (e : Event) (b : CircuitBreaker)
    → view k (call k e b) ≡ step (settings b) e (view k b)
unfolding call step
call_self k (asks now) b = (allow_refines k now b).1
call_self k succeeds b = record_success_refines k b
call_self k (fails now) b = record_failure_refines k now b

pub call_other :
    (k j : String) (e : Event) (b : CircuitBreaker)
    → str_eq k j ≡ false
    → view j (call k e b) ≡ view j b
unfolding call
call_other k j (asks now) b = allow_other k j now b
call_other k j succeeds b = record_success_other k j b
call_other k j (fails now) b = record_failure_other k j now b

pub settings-call :
    (k : String) (e : Event) (b : CircuitBreaker) → settings (call k e b) ≡ settings b
unfolding call
settings-call k (asks now) b = settings-allow k now b
settings-call k succeeds b = settings-record_success k b
settings-call k (fails now) b = settings-record_failure k now b

-- Whatever calls are made for whatever backends, in any order: what the breaker keeps of one
-- backend is the machine of one circuit, run on the calls for that backend alone.
pub view-run_calls :
    (j : String) (es : List (String × Event)) (b : CircuitBreaker)
    → view j (run_calls es b) ≡ run_steps (settings b) (events_of j es) (view j b)
unfolding run_calls run_steps events_of
view-run_calls j [] b = refl
view-run_calls j ((k, e) ∷ es) b = elim (Bool-cases (str_eq k j)) [
  | inl same ↦
      let k_is_j : k ≡ j = (eq_iff k j).0 same in
      rw same (
        view-run_calls j es (call k e b)
        ∙ rw (settings-call k e b)
            (ap (run_steps (settings b) (events_of j es)) (rw k_is_j (call_self j e b))))
  | inr apart ↦ rw apart (
      view-run_calls j es (call k e b)
      ∙ rw (settings-call k e b)
          (ap (run_steps (settings b) (events_of j es)) (call_other k j e b apart)))
]
