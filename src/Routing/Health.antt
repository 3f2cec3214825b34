-- ===== src/Routing/Health.antt =====
-- `select_health_aware_backend` of app/gateway/services/routing.py: a backend is skipped before a
-- request is sent to it. `meets` says what the health store answers to `meets_score`.
use ai_runtime_platform.Base.{
  ℕ, String, ◌≡◌, ◌⊎◌, inl, inr, Bool, true, false, ◌&&◌, Option, none, some, arith, if◌then◌else◌,
  Result, ok, err,
}
use ai_runtime_platform.Resilience.Breaker.{CircuitBreaker, allow}
use ai_runtime_platform.Routing.{ModelRoute}

-- `circuit_allows`
unfoldable pub circuit_allows : ℕ → String → Option CircuitBreaker → Option CircuitBreaker × Bool
circuit_allows now model none = (none, true)
circuit_allows now model (some b) = let (b', allowed) = allow model now b in (some b', allowed)

abbrev pub threshold_of : Option ModelRoute → Option ℕ
threshold_of none = none
threshold_of (some route) = route.min_health_score

pub data NoHealthyBackend : Type 0 where
  no_healthy_backend : NoHealthyBackend

module _ (meets : String → ℕ → Bool) where
  -- whether the health of a model is good enough for the route
  abbrev pub passes : Option ℕ → String → Bool
  passes none model = true
  passes (some threshold) model = meets model threshold

  -- One `and` chain: the breaker is asked first.
  unfoldable pub try_backend :
      Option ℕ → ℕ → String → Option CircuitBreaker → Option CircuitBreaker × Bool
  try_backend threshold now model b =
      let (b', allowed) = circuit_allows now model b in (b', allowed && passes threshold model)

  unfoldable pub select_fallback :
      Option ℕ
      → ℕ
      → Option String
      → Option CircuitBreaker
      → Option CircuitBreaker × Result NoHealthyBackend (String × Bool)
  select_fallback threshold now none b = (b, err no_healthy_backend)
  select_fallback threshold now (some fallback) b =
      let (b', eligible) = try_backend threshold now fallback b in
      (b', if eligible then ok (fallback, true) else err no_healthy_backend)

  unfoldable pub select_health_aware_backend :
      Option ModelRoute
      → ℕ
      → String
      → Option String
      → Option CircuitBreaker
      → Option CircuitBreaker × Result NoHealthyBackend (String × Bool)
  select_health_aware_backend route now primary fallback b =
      let (b', eligible) = try_backend (threshold_of route) now primary b in
      if eligible
      then (b', ok (primary, false))
      else select_fallback (threshold_of route) now fallback b'

  -- The backend that is selected is the primary, or the fallback with the mark that it was
  -- rerouted, and its health is good enough for the route.
  pub selected_is_eligible :
      (route : Option ModelRoute) (now : ℕ) (primary : String) (fallback : Option String)
      (b : Option CircuitBreaker) (m : String) (rerouted : Bool)
      → (select_health_aware_backend route now primary fallback b).1 ≡ ok (m, rerouted)
      → (passes (threshold_of route) m ≡ true)
        × (((m ≡ primary) × (rerouted ≡ false)) ⊎ ((fallback ≡ some m) × (rerouted ≡ true)))
  unfolding select_health_aware_backend select_fallback try_backend
  selected_is_eligible route now primary none b m rerouted h = ground (arith, h)
  selected_is_eligible route now primary (some fallback) b m rerouted h = ground (arith, h)

  -- With no breaker, a backend is refused only when neither the primary nor the fallback is
  -- healthy enough: a healthy one is always found.
  pub healthy_is_found :
      (route : Option ModelRoute) (now : ℕ) (primary : String) (fallback : Option String)
      (m : String)
      → (select_health_aware_backend route now primary fallback none).1 ≡ err no_healthy_backend
      → (m ≡ primary) ⊎ (fallback ≡ some m)
      → passes (threshold_of route) m ≡ false
  unfolding select_health_aware_backend select_fallback try_backend circuit_allows
  healthy_is_found route now primary fallback m h (inl e) = rw e (ground (arith, h))
  healthy_is_found route now primary none m h (inr e) = ground (arith, h, e)
  healthy_is_found route now primary (some f) m h (inr e) = ground (arith, h, e)
