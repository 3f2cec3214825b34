-- ===== src/Resilience/Breaker.antt =====
-- `CircuitBreaker` of app/gateway/resilience.py. Each method runs under the breaker's lock. Times
-- are ticks of the monotonic clock; `now - opened < recovery` is written as a sum. The gauge is
-- left out.
pub mod Circuit
pub mod View
pub mod Probes
pub mod Opening
use ai_runtime_platform.Base.{
  ℕ, ◌+◌, String, Bool, true, false, Option, none, some, ltb, leb, if◌then◌else◌,
}
use ai_runtime_platform.Dict.{Dict, lookup, get_or, insert, erase}

pub data CircuitState : Type 0 where
  closed opened half_open : CircuitState

pub record CircuitBreaker : Type 0 where
  pub failure_threshold : ℕ
  pub recovery : ℕ
  pub half_open_max_probes : ℕ
  pub failures : Dict ℕ
  pub opened_at : Dict ℕ
  pub states : Dict CircuitState
  pub half_open_probes : Dict ℕ

-- `state`, and the first line of the other methods
unfoldable pub state_of : String → CircuitBreaker → CircuitState
state_of backend b = get_or backend closed b.states

-- the rest of `allow` for a breaker that was opened at a known time
unfoldable pub allow_opened : String → ℕ → Option ℕ → CircuitBreaker → CircuitBreaker × Bool
allow_opened backend now none b = (b, true)
allow_opened backend now (some opened_time) b =
    if ltb now (opened_time + b.recovery) then (b, false) else (
      record b {
        states = insert backend half_open b.states;
        half_open_probes = insert backend 1 b.half_open_probes;
      },
      true,
    )

unfoldable pub allow_half_open : String → ℕ → CircuitBreaker → CircuitBreaker × Bool
allow_half_open backend used b =
    if leb b.half_open_max_probes used
    then (b, false)
    else (record b { half_open_probes = insert backend (used + 1) b.half_open_probes }, true)

abbrev pub allow_in : CircuitState → String → ℕ → CircuitBreaker → CircuitBreaker × Bool
allow_in closed backend now b = (b, true)
allow_in opened backend now b = allow_opened backend now (lookup backend b.opened_at) b
allow_in half_open backend now b = allow_half_open backend (get_or backend 0 b.half_open_probes) b

-- `allow`
unfoldable pub allow : String → ℕ → CircuitBreaker → CircuitBreaker × Bool
unfolding state_of allow_opened allow_half_open
allow backend now b = allow_in (state_of backend b) backend now b

-- `record_success`
unfoldable pub record_success : String → CircuitBreaker → CircuitBreaker
record_success backend b = record b {
  failures = insert backend 0 b.failures;
  opened_at = erase backend b.opened_at;
  half_open_probes = erase backend b.half_open_probes;
  states = insert backend closed b.states;
}

-- The three writes that open a circuit.
unfoldable pub open_circuit : String → ℕ → CircuitBreaker → CircuitBreaker
open_circuit backend now b = record b {
  opened_at = insert backend now b.opened_at;
  half_open_probes = insert backend 0 b.half_open_probes;
  states = insert backend opened b.states;
}

-- One more failure of a circuit that is not half-open.
unfoldable pub count_failure : String → ℕ → CircuitBreaker → CircuitBreaker
unfolding open_circuit
count_failure backend now b =
    let count = get_or backend 0 b.failures + 1 in
    let b' = record b { failures = insert backend count b.failures } in
    if leb b.failure_threshold count then open_circuit backend now b' else b'

abbrev pub fail_in : CircuitState → String → ℕ → CircuitBreaker → CircuitBreaker
fail_in half_open backend now b =
    open_circuit backend now (record b { failures = insert backend b.failure_threshold b.failures })
fail_in closed backend now b = count_failure backend now b
fail_in opened backend now b = count_failure backend now b

-- `record_failure`
unfoldable pub record_failure : String → ℕ → CircuitBreaker → CircuitBreaker
unfolding state_of count_failure
record_failure backend now b = fail_in (state_of backend b) backend now b
