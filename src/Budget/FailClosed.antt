-- ===== src/Budget/FailClosed.antt =====
-- The answers of `reserve` in app/gateway/budget_guard.py.
use ai_runtime_platform.Base.{
  ℕ, ◌+◌, String, ◌≡◌, ◌≢◌, ◌⊎◌, inl, inr, refl, ap, Bool, false, Option, none, some, arith, ◌==◌,
  Result, ok, err, ◌>>=◌, Bool-cases, if_both, Result-cases,
}
use ai_runtime_platform.Int.{ℤ, pos, negsuc}
use ai_runtime_platform.Budget.Window.{reserve_in}
use ai_runtime_platform.Budget.Policy.{InferenceBudgetPolicy, Fault, timeout, bad_value}
use ai_runtime_platform.Budget.Decision.{
  allow, deny, Reason, budget_exceeded, Subject, Answer, Payload, disabled, deny_fault, read_code,
  granted, refuse, interpret_reserve_result, three_numbers, soft_test, read_numbers, store_corrupt,
  corrupt,
}
use ai_runtime_platform.Budget.ByStore.{
  Says, IsByStore, deny_fault-IsByStore, reserve_estimate-IsByStore,
}
use ai_runtime_platform.Budget.Guard.{
  Guard, World, Request, reserve_redis, reserve_memory, reserve_locked, reserve_estimate,
  reserve_under, reserve, conclude, eval_script, window_of, window_ms_of, ttl_ms_of, payload_of,
  estimate_of, subject_of,
}

-- An answer is consistent if it is an ALLOW (200) with a reservation of the same id, scope and
-- soft warning, or a DENY without one, by 429 for an exceeded budget and by 503 for all else.
abbrev pub IsConsistent : Answer → Type 0
IsConsistent (d, some r) =
    (d.decision ≡ allow)
    × (d.status_code ≡ 200)
    × (d.estimated_micros ≡ pos r.reserved_micros)
    × (d.reservation_id ≡ some r.reservation_id)
    × (d.scope ≡ r.scope)
    × (r.settled ≡ false)
IsConsistent (d, none) =
    (d.decision ≡ deny)
    × ((d.status_code ≡ 429) × (d.reason ≡ budget_exceeded)
        ⊎ (d.status_code ≡ 503) × (d.reason ≢ budget_exceeded))

deny_fault-IsConsistent : (f : Fault) (s : Subject) → IsConsistent (deny_fault f s)
unfolding deny_fault
deny_fault-IsConsistent timeout s = ground arith
deny_fault-IsConsistent f s = ground arith

abbrev Consistent : Result Fault Answer → Type 0
Consistent (ok a) = IsConsistent a
Consistent (err f) = Unit

module _ (s : Subject) (estimate : ℕ) (id : String) (same : s.estimate ≡ pos estimate) where
  granted-Consistent :
      (committed reserved : ℕ) (soft : Result Fault Bool)
      → Consistent (soft >>= λ b. ok (granted s estimate id committed reserved b))
  unfolding granted
  granted-Consistent committed reserved (ok b) = ground (arith, same)
  granted-Consistent committed reserved (err f) = tt

  refuse-IsConsistent : (r : Reason) → r ≢ budget_exceeded → IsConsistent (refuse r 503 s)
  unfolding refuse
  refuse-IsConsistent r other = (refl, inr (refl, other))

  read_code-Consistent :
      (code committed reserved : ℕ) → Consistent (read_code code committed reserved s estimate id)
  unfolding read_code
  read_code-Consistent code committed reserved = elim (Bool-cases (code == 0)) [
    | inl over ↦ rw over (ground arith)
    | inr more ↦ elim (Bool-cases (code == 1)) [
      | inl grant ↦
          rw (more, grant)
            (granted-Consistent committed reserved (soft_test s.budget (committed + reserved)))
      | inr unknown ↦ rw (more, unknown) (ground arith)
    ]
  ]

  read_numbers-Consistent : (o : Option (ℤ × ℤ × ℤ)) → Consistent (read_numbers o s estimate id)
  read_numbers-Consistent (some (pos a, pos b, pos c)) = read_code-Consistent a b c
  read_numbers-Consistent _ = refuse-IsConsistent store_corrupt (λ e. cc)

  interpret-Consistent : (p : Payload) → Consistent (interpret_reserve_result p s estimate id)
  unfolding interpret_reserve_result
  interpret-Consistent p = read_numbers-Consistent (three_numbers p)

  bind-Consistent :
      {A : Type 0} (r : Result Fault A) (f : A → Payload)
      → Consistent (r >>= λ a. interpret_reserve_result (f a) s estimate id)
  bind-Consistent (ok a) f = interpret-Consistent (f a)
  bind-Consistent (err e) f = tt

conclude-IsConsistent :
    (s : Subject) (g : Guard) (r : Result Fault Answer)
    → Consistent r
    → IsConsistent (conclude s (g, r)).1
conclude-IsConsistent s g (ok a) h = h
conclude-IsConsistent s g (err f) h = deny_fault-IsConsistent f s

module _ (world : World) (s : Subject) (estimate : ℕ) (same : s.estimate ≡ pos estimate) where
  reserve_redis-Consistent : (g : Guard) → Consistent (reserve_redis world s estimate g).1
  unfolding reserve_redis
  reserve_redis-Consistent g =
      bind-Consistent s estimate world.new_id same (eval_script world.exchange g).1 (λ p. p)

  reserve_memory-Consistent : (g : Guard) → Consistent (reserve_memory world s estimate g).1
  unfolding reserve_memory reserve_locked
  reserve_memory-Consistent g =
      let C = λ (m : Guard × Result Fault Answer). Consistent m.1 in
      let w = window_of s.scope g in
      let reply =
        (reserve_in world.now_ms (window_ms_of s.budget) (ttl_ms_of s.budget) s.budget.budget_usd
          estimate world.new_id w).0 in
      if_both C g.force_unavailable tt (
        if_both C g.force_timeout tt (
          if_both C g.force_corrupt (interpret-Consistent s estimate "" same corrupt)
            (bind-Consistent s estimate world.new_id same reply payload_of)))

reserve_estimate-IsConsistent :
    (world : World) (s : Subject) (estimate : ℤ) (g : Guard)
    → s.estimate ≡ estimate
    → IsConsistent (reserve_estimate world s estimate g).1
unfolding reserve_estimate
reserve_estimate-IsConsistent world s (negsuc n) g same = deny_fault-IsConsistent bad_value s
reserve_estimate-IsConsistent world s (pos n) g same =
    let shared = reserve_redis world s n g in
    let local = reserve_memory world s n g in
    if_both (λ m. IsConsistent (conclude s m).1) g.redis_configured
      (conclude-IsConsistent s shared.0 shared.1 (reserve_redis-Consistent world s n same g))
      (conclude-IsConsistent s local.0 local.1 (reserve_memory-Consistent world s n same g))

module _ (sha256_hex : String → String) where
  -- What the store said of the estimate of a request, under a policy.
  abbrev pub StoreSays : InferenceBudgetPolicy → Request → World → Guard → ℕ → Type 0
  StoreSays policy q world g code =
      (estimate : ℕ) × (estimate_of sha256_hex policy q ≡ ok (pos estimate))
      × Says world g (subject_of sha256_hex policy q (pos estimate)) estimate code

  weaken :
      (Codes Others : ℕ → Type 0) (a : Answer)
      → ((code : ℕ) → Codes code → Others code)
      → IsByStore Codes a
      → IsByStore Others a
  weaken Codes Others (d, some r) more h = more 1 h
  weaken Codes Others (d, none) more (inl (status, h)) = inl (status, more 0 h)
  weaken Codes Others (d, none) more (inr status) = inr status

  under-IsByStore :
      (q : Request) (world : World) (g : Guard) (policy : InferenceBudgetPolicy)
      (r : Result Fault ℤ)
      → estimate_of sha256_hex policy q ≡ r
      → IsByStore (StoreSays policy q world g) (reserve_under sha256_hex policy q world g).1
  unfolding reserve_under reserve_estimate
  under-IsByStore q world g policy (err f) e =
      rw (e, reserve_under)
        (deny_fault-IsByStore (StoreSays policy q world g) f
          (subject_of sha256_hex policy q (pos 0)))
  under-IsByStore q world g policy (ok (negsuc n)) e =
      rw (e, reserve_under)
        (deny_fault-IsByStore (StoreSays policy q world g) bad_value
          (subject_of sha256_hex policy q (negsuc n)))
  under-IsByStore q world g policy (ok (pos n)) e =
      let s = subject_of sha256_hex policy q (pos n) in
      let here =
        weaken (Says world g s n) (StoreSays policy q world g)
          (reserve_estimate world s (pos n) g).1 (λ code says. (n, e, says))
          (reserve_estimate-IsByStore world s n g) in
      rw (e, reserve_under) here

  under-IsConsistent :
      (q : Request) (world : World) (g : Guard) (policy : InferenceBudgetPolicy)
      → IsConsistent (reserve_under sha256_hex policy q world g).1
  unfolding reserve_under
  under-IsConsistent q world g policy = elim (Result-cases (estimate_of sha256_hex policy q)) [
    | inl (estimate, e) ↦
        rw (e, reserve_under)
          (reserve_estimate-IsConsistent world (subject_of sha256_hex policy q estimate) estimate g
            refl)
    | inr (f, e) ↦
        rw (e, reserve_under) (deny_fault-IsConsistent f (subject_of sha256_hex policy q (pos 0)))
  ]

  reserve_configured :
      (q : Request) (world : World) (g : Guard) (policy : InferenceBudgetPolicy)
      → g.policy ≡ some policy
      → reserve sha256_hex q world g ≡ reserve_under sha256_hex policy q world g
  unfolding reserve
  reserve_configured q world g policy configured =
      ap
        (λ (o : Option InferenceBudgetPolicy). elim o [
          | none ↦ (g, (disabled, none))
          | some p ↦ reserve_under sha256_hex p q world g
        ])
        configured

  -- With a policy configured, `reserve` is fail-closed, whatever the store, the estimate and the
  -- test hooks do. An ALLOW (200) comes with an unsettled reservation of the same id, scope and
  -- estimate, and stands on a grant: the configured store, Redis or the one in the process,
  -- answered this call with the code 1, and no test hook is set. All else is a DENY without a
  -- reservation: by 429 for an exceeded budget, when the store answered with the code 0, and by 503
  -- for every fault, such as a timeout or a payload that is not three numbers.
  pub reserve-IsConsistent :
      (q : Request) (world : World) (g : Guard) {policy : InferenceBudgetPolicy}
      → g.policy ≡ some policy
      → let a = (reserve sha256_hex q world g).1 in
        IsConsistent a × IsByStore (StoreSays policy q world g) a
  reserve-IsConsistent q world g {policy} configured =
      let consistent = under-IsConsistent q world g policy in
      let by_store = under-IsByStore q world g policy (estimate_of sha256_hex policy q) refl in
      rw (reserve_configured q world g policy configured) (consistent, by_store)
