-- ===== src/Budget/ByStore.antt =====
-- What stands behind an answer of `reserve` in app/gateway/budget_guard.py: what its store said.
use ai_runtime_platform.Base.{
  ℕ, ◌+◌, String, ◌≡◌, ◌⊎◌, inl, inr, refl, Bool, true, false, Option, none, some, arith, ◌==◌,
  Result, ok, err, ◌>>=◌, Bool-cases, if◌then◌else◌,
}
use ai_runtime_platform.Int.{ℤ, pos}
use ai_runtime_platform.Budget.Window.{ReserveReply, reserve_in}
use ai_runtime_platform.Budget.Policy.{Fault, timeout, bad_value, unavailable}
use ai_runtime_platform.Budget.Decision.{
  Subject, Answer, Payload, deny_fault, read_code, granted, refuse, deny_for,
  interpret_reserve_result, three_numbers, soft_test, read_numbers, corrupt,
}
use ai_runtime_platform.Budget.Guard.{
  Guard, World, Exchange, replied, raised, reserve_redis, reserve_memory, reserve_locked,
  reserve_estimate, conclude, eval_script, run_script, window_of, window_ms_of, ttl_ms_of,
  payload_of,
}

if_either {ℓ κ} :
    {A : Type ℓ} (P : A → Type κ) (b : Bool) {x y : A}
    → (b ≡ true → P x)
    → (b ≡ false → P y)
    → P (if b then x else y)
if_either P true held failed = held refl
if_either P false held failed = failed refl

-- The store that is configured answered the call with the code, 1 for a grant and 0 for a refusal:
-- Redis with a payload of three numbers, or the in-process store; and no test hook is set.
pub record Says (world : World) (g : Guard) (s : Subject) (estimate code : ℕ) : Type 0 where
  pub available : g.force_unavailable ≡ false
  pub in_time : g.force_timeout ≡ false
  pub intact : g.force_corrupt ≡ false
  pub answered :
      ((g.redis_configured ≡ true)
        × ((p : Payload) × (committed : ℕ) × (reserved : ℕ) × (world.exchange ≡ replied p)
            × (three_numbers p ≡ some (pos code, pos committed, pos reserved))))
      ⊎ ((g.redis_configured ≡ false)
          × ((reply : ReserveReply) × ((reserve_in world.now_ms
                  (window_ms_of s.budget)
                  (ttl_ms_of s.budget)
                  s.budget.budget_usd
                  estimate
                  world.new_id
                  (window_of s.scope g)).0
                ≡ ok reply)
              × (reply.code ≡ code)))

-- A reservation stands on a code of 1, and a 429 on one of 0; all else is a 503.
abbrev pub IsByStore : (ℕ → Type 0) → Answer → Type 0
IsByStore Codes (d, some r) = Codes 1
IsByStore Codes (d, none) = ((d.status_code ≡ 429) × Codes 0) ⊎ (d.status_code ≡ 503)

abbrev ByStore : (ℕ → Type 0) → Result Fault Answer → Type 0
ByStore Codes (ok a) = IsByStore Codes a
ByStore Codes (err f) = Unit {0}

pub deny_fault-IsByStore :
    (Codes : ℕ → Type 0) (f : Fault) (s : Subject) → IsByStore Codes (deny_fault f s)
unfolding deny_fault refuse deny_for
deny_fault-IsByStore Codes timeout s = inr refl
deny_fault-IsByStore Codes bad_value s = inr refl
deny_fault-IsByStore Codes unavailable s = inr refl

conclude-IsByStore :
    (Codes : ℕ → Type 0) (s : Subject) (g : Guard) (r : Result Fault Answer)
    → ByStore Codes r
    → IsByStore Codes (conclude s (g, r)).1
conclude-IsByStore Codes s g (ok a) h = h
conclude-IsByStore Codes s g (err f) h = deny_fault-IsByStore Codes f s

module _ (Codes : ℕ → Type 0) (s : Subject) (estimate : ℕ) (id : String) where
  granted-ByStore :
      (committed reserved : ℕ) (soft : Result Fault Bool)
      → Codes 1
      → ByStore Codes (soft >>= λ b. ok (granted s estimate id committed reserved b))
  unfolding granted
  granted-ByStore committed reserved (ok b) one = one
  granted-ByStore committed reserved (err f) one = tt

  read_code-ByStore :
      (code committed reserved : ℕ)
      → Codes code
      → ByStore Codes (read_code code committed reserved s estimate id)
  unfolding read_code refuse deny_for
  read_code-ByStore code committed reserved says = elim (Bool-cases (code == 0)) [
    | inl over ↦
        let zero : code ≡ 0 = ground (arith, over) in
        let refused : Codes 0 = rw zero at says in rw over (inl (refl, refused))
    | inr more ↦ elim (Bool-cases (code == 1)) [
      | inl grant ↦
          let one : code ≡ 1 = ground (arith, grant) in
          let allowed : Codes 1 = rw one at says in
          rw (more, grant)
            (granted-ByStore committed reserved (soft_test s.budget (committed + reserved)) allowed)
      | inr unknown ↦ rw (more, unknown) (inr refl)
    ]
  ]

  read_numbers-ByStore :
      (o : Option (ℤ × ℤ × ℤ))
      → ((code committed reserved : ℕ)
          → o ≡ some (pos code, pos committed, pos reserved)
          → Codes code)
      → ByStore Codes (read_numbers o s estimate id)
  unfolding refuse deny_for
  read_numbers-ByStore (some (pos a, pos b, pos c)) says = read_code-ByStore a b c (says a b c refl)
  read_numbers-ByStore _ says = inr refl

  interpret-ByStore :
      (p : Payload)
      → ((code committed reserved : ℕ)
          → three_numbers p ≡ some (pos code, pos committed, pos reserved)
          → Codes code)
      → ByStore Codes (interpret_reserve_result p s estimate id)
  unfolding interpret_reserve_result
  interpret-ByStore p says = read_numbers-ByStore (three_numbers p) says

  corrupt-ByStore : ByStore Codes (interpret_reserve_result corrupt s estimate id)
  corrupt-ByStore = interpret-ByStore corrupt (λ code committed reserved e. ground (arith, e))

  replied-ByStore :
      (reply : Result Fault ReserveReply)
      → ((r : ReserveReply) → reply ≡ ok r → Codes r.code)
      → ByStore Codes (reply >>= λ r. interpret_reserve_result (payload_of r) s estimate id)
  unfolding interpret_reserve_result
  replied-ByStore (ok r) says = read_code-ByStore r.code r.committed r.reserved (says r refl)
  replied-ByStore (err f) says = tt

module _ (world : World) (s : Subject) (estimate : ℕ) (g : Guard) where
  heard-ByStore :
      (x : Exchange)
      → g.force_unavailable ≡ false
      → g.force_timeout ≡ false
      → g.force_corrupt ≡ false
      → g.redis_configured ≡ true
      → world.exchange ≡ x
      → ByStore
          (Says world g s estimate)
          ((run_script x g).1 >>= λ p. interpret_reserve_result p s estimate world.new_id)
  unfolding run_script
  heard-ByStore (raised f) available in_time intact redis heard = tt
  heard-ByStore (replied p) available in_time intact redis heard =
      interpret-ByStore (Says world g s estimate) s estimate world.new_id p
        (λ code committed reserved e. record {
          available = available;
          in_time = in_time;
          intact = intact;
          answered = inl (redis, (p, committed, reserved, heard, e));
        })

  reserve_redis-ByStore :
      g.redis_configured ≡ true
      → ByStore (Says world g s estimate) (reserve_redis world s estimate g).1
  unfolding reserve_redis eval_script
  reserve_redis-ByStore redis =
      let Codes = Says world g s estimate in
      let P = λ (m : Guard × Result Fault Payload).
        ByStore Codes (m.1 >>= λ p. interpret_reserve_result p s estimate world.new_id) in
      if_either P g.force_unavailable (λ off. tt)
        (λ on.
          if_either P g.force_timeout (λ late. tt)
            (λ early.
              if_either P g.force_corrupt (λ broken. corrupt-ByStore Codes s estimate world.new_id)
                (λ whole. heard-ByStore world.exchange on early whole redis refl)))

  reserve_memory-ByStore :
      g.redis_configured ≡ false
      → ByStore (Says world g s estimate) (reserve_memory world s estimate g).1
  unfolding reserve_memory reserve_locked
  reserve_memory-ByStore local =
      let Codes = Says world g s estimate in
      let P = λ (m : Guard × Result Fault Answer). ByStore Codes m.1 in
      if_either P g.force_unavailable (λ off. tt)
        (λ on.
          if_either P g.force_timeout (λ late. tt)
            (λ early.
              if_either P g.force_corrupt (λ broken. corrupt-ByStore Codes s estimate "")
                (λ whole.
                  replied-ByStore Codes s estimate world.new_id
                    (reserve_in world.now_ms (window_ms_of s.budget) (ttl_ms_of s.budget)
                      s.budget.budget_usd estimate world.new_id (window_of s.scope g)).0
                    (λ r e. record {
                      available = on;
                      in_time = early;
                      intact = whole;
                      answered = inr (local, (r, e, refl));
                    }))))

  pub reserve_estimate-IsByStore :
      IsByStore (Says world g s estimate) (reserve_estimate world s (pos estimate) g).1
  unfolding reserve_estimate
  reserve_estimate-IsByStore =
      let Codes = Says world g s estimate in
      let shared = reserve_redis world s estimate g in
      let local = reserve_memory world s estimate g in
      if_either (λ m. IsByStore Codes (conclude s m).1) g.redis_configured
        (λ redis. conclude-IsByStore Codes s shared.0 shared.1 (reserve_redis-ByStore redis))
        (λ here. conclude-IsByStore Codes s local.0 local.1 (reserve_memory-ByStore here))
