-- ===== src/Resilience/Breaker/Circuit.antt =====
-- The machine of one circuit, as `allow`, `record_success` and `record_failure` of `CircuitBreaker` in
-- app/gateway/resilience.py run it for one backend.
use ai_runtime_platform.Base.{
  ℕ, ◌+◌, Bool, true, false, Option, none, some, ltb, leb, if◌then◌else◌,
}
use ai_runtime_platform.Resilience.Breaker.{CircuitState, closed, opened, half_open}

pub record Circuit : Type 0 where
  pub state : CircuitState
  pub failures : ℕ
  pub opened_time : Option ℕ
  pub probes : ℕ

-- the settings of a breaker
pub record Settings : Type 0 where
  pub threshold : ℕ
  pub recovery : ℕ
  pub max_probes : ℕ

-- The machine of one circuit: asked for admission, told of a success, told of a failure.
unfoldable pub ask : Settings → ℕ → Circuit → Circuit × Bool
ask c now v = elim v.state [
  | closed ↦ (v, true)
  | opened ↦ elim v.opened_time [
    | none ↦ (v, true)
    | some t ↦
        if ltb now (t + c.recovery)
        then (v, false)
        else (record v { state = half_open; probes = 1 }, true)
  ]
  | half_open ↦
      if leb c.max_probes v.probes then (v, false) else (record v { probes = v.probes + 1 }, true)
]

abbrev pub healthy : Circuit
healthy = record { state = closed; failures = 0; opened_time = none; probes = 0 }

abbrev pub tripped : ℕ → ℕ → Circuit
tripped now failures = record {
  state = opened;
  failures = failures;
  opened_time = some now;
  probes = 0;
}

abbrev pub after_count : Settings → ℕ → Circuit → Circuit
after_count c now v =
    if leb c.threshold (v.failures + 1)
    then tripped now (v.failures + 1)
    else record v { failures = v.failures + 1 }

unfoldable pub fail : Settings → ℕ → Circuit → Circuit
fail c now v = elim v.state [
  | half_open ↦ tripped now c.threshold
  | closed ↦ after_count c now v
  | opened ↦ after_count c now v
]
