-- ===== src/Resilience/Breaker/Opening.antt =====
-- When `record_failure` of the circuit breaker opens a circuit.
use ai_runtime_platform.Base.{
  ℕ, ◌+◌, String, ◌≡◌, Bool, ◌&&◌, List, [], ◌∷◌, arith, ltb, leb, if◌then◌else◌, length, ap, ◌∙◌,
}
use ai_runtime_platform.Resilience.Breaker.{
  closed, opened, CircuitBreaker, record_failure, record_success, state_of,
}
use ai_runtime_platform.Resilience.Breaker.Circuit.{Circuit, Settings, fail}
use ai_runtime_platform.Resilience.Breaker.View.{
  view, settings, settings-record_failure, record_failure_refines, record_success_refines,
  settings-record_success, state_of-view,
}

-- A run of failures of one backend, at the given times.
unfoldable pub fail_all : String → List ℕ → CircuitBreaker → CircuitBreaker
fail_all k [] b = b
fail_all k (t ∷ ts) b = fail_all k ts (record_failure k t b)

abbrev pub trips : ℕ → ℕ → Bool
trips threshold n = leb threshold n && ltb 0 n

-- The state of a circuit that has counted its failures since the last success.
abbrev IsCounted : Settings → Circuit → Type 0
IsCounted c v = v.state ≡ (if trips c.threshold v.failures then opened else closed)

fail-IsCounted :
    (c : Settings) (t : ℕ) (v : Circuit)
    → IsCounted c v
    → IsCounted c (fail c t v) × ((fail c t v).failures ≡ v.failures + 1)
unfolding fail
fail-IsCounted c t v h = ground arith

fail_all-IsCounted :
    (k : String) (ts : List ℕ) (b : CircuitBreaker)
    → IsCounted (settings b) (view k b)
    → (view k (fail_all k ts b)).state
      ≡ (if trips b.failure_threshold ((view k b).failures + length ts) then opened else closed)
unfolding fail_all
fail_all-IsCounted k [] b h = ground (arith, h)
fail_all-IsCounted k (t ∷ ts) b h =
    let b' = record_failure k t b in
    let one = fail-IsCounted (settings b) t (view k b) h in
    ground (
      arith,
      ap (λ (c : Settings). c.threshold) (settings-record_failure k t b),
      ap (λ (v : Circuit). v.state) (record_failure_refines k t b),
      ap (λ (v : Circuit). v.failures) (record_failure_refines k t b),
      one,
      fail_all-IsCounted k ts b',
    )

-- After a success, a run of failures of a backend opens its circuit exactly when it is at least as
-- long as the threshold (and not empty).
pub opens_at_threshold :
    (k : String) (ts : List ℕ) (b : CircuitBreaker)
    → state_of k (fail_all k ts (record_success k b))
      ≡ (if trips b.failure_threshold (length ts) then opened else closed)
opens_at_threshold k ts b =
    let b' = record_success k b in
    let start = record_success_refines k b in
    state_of-view k (fail_all k ts b')
    ∙ ground (
      arith,
      settings-record_success k b,
      ap (λ (v : Circuit). v.state) start,
      ap (λ (v : Circuit). v.failures) start,
      fail_all-IsCounted k ts b',
    )
