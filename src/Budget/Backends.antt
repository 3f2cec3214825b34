-- ===== src/Budget/Backends.antt =====
-- Grants of `_reserve_memory` and `_reserve_redis` in app/gateway/budget_guard.py, and scopes.
use native.Mathlib.Decide.{dec_le}
use ai_runtime_platform.Base.{
  ℕ, ◌+◌, String, ◌≡◌, ◌≢◌, ◌⊎◌, inl, inr, refl, ap, Option, none, some, arith, eq_iff, ◌==◌,
  if◌then◌else◌, Result, ok, err, ◌>>=◌, if_both, Option-cases, ◌≤◌,
}
use ai_runtime_platform.Int.{ℤ, pos}
use ai_runtime_platform.Money.{budget_to_micros}
use ai_runtime_platform.Dict.{lookup, lookup-insert, get_or-insert_self}
use ai_runtime_platform.Budget.Window.{new_window, ReserveReply, reserve_in, settle_in, refresh}
use ai_runtime_platform.Budget.Policy.{Fault}
use ai_runtime_platform.Budget.Admission.{reserve_grants, reserve_refuses}
use ai_runtime_platform.Budget.Decision.{
  BudgetReservation, Subject, Answer, Payload, read_code, refuse, interpret_reserve_result,
  three_numbers, read_numbers, corrupt,
}
use ai_runtime_platform.Budget.Guard.{
  Guard, World, Exchange, replied, raised, eval_script, run_script, reserve_redis, reserve_memory,
  reserve_locked, settle_micros, settle_memory, settle_redis, window_of, window_ms_of, ttl_ms_of,
  payload_of,
}
use ai_runtime_platform.Budget.Trace.{spent}

-- The answer grants a reservation of `estimate` under `id`.
abbrev pub Grants : String → ℕ → Result Fault Answer → Type 0
Grants id estimate (ok (d, some r)) = (r.reservation_id ≡ id) × (r.reserved_micros ≡ estimate)
Grants id estimate (ok (d, none)) = ⊥
Grants id estimate (err f) = ⊥

module _ (s : Subject) (estimate : ℕ) (id j : String) where
  read_code-Grants :
      (code committed reserved : ℕ)
      → Grants j estimate (read_code code committed reserved s estimate id)
      → code ≡ 1
  unfolding read_code
  read_code-Grants code committed reserved h = ground arith

  read_numbers-Grants :
      (o : Option (ℤ × ℤ × ℤ))
      → Grants j estimate (read_numbers o s estimate id)
      → (committed reserved : ℕ) × (o ≡ some (pos 1, pos committed, pos reserved))
  unfolding refuse
  read_numbers-Grants (some (pos a, pos b, pos c)) h =
      (b, c, ground (arith, read_code-Grants a b c h))
  read_numbers-Grants _ h = absurd h

  -- Only the code 1 with two totals that are not negative grants a reservation.
  pub interpret-Grants :
      (p : Payload)
      → Grants j estimate (interpret_reserve_result p s estimate id)
      → (committed reserved : ℕ) × (three_numbers p ≡ some (pos 1, pos committed, pos reserved))
  unfolding interpret_reserve_result
  interpret-Grants p h = read_numbers-Grants (three_numbers p) h

  script-Grants :
      (r : Result Fault Payload)
      → Grants j estimate (r >>= λ p. interpret_reserve_result p s estimate id)
      → (p : Payload) × (committed reserved : ℕ) × (r ≡ ok p)
        × (three_numbers p ≡ some (pos 1, pos committed, pos reserved))
  script-Grants (ok p) h =
      let (committed, reserved, e) = interpret-Grants p h in (p, committed, reserved, refl, e)
  script-Grants (err f) h = absurd h

reply-Grants :
    (s : Subject) (estimate : ℕ) (id j : String) (r : Result Fault ReserveReply)
    → Grants j estimate (r >>= λ reply. interpret_reserve_result (payload_of reply) s estimate id)
    → (reply : ReserveReply) × (r ≡ ok reply) × (reply.code ≡ 1)
reply-Grants s estimate id j (ok reply) h =
    let (committed, reserved, e) = interpret-Grants s estimate id j (payload_of reply) h in
    (reply, refl, ground (arith, e))
reply-Grants s estimate id j (err f) h = absurd h

eval_script_ok :
    (x : Exchange) (g : Guard) (p : Payload)
    → (eval_script x g).1 ≡ ok p
    → (p ≡ corrupt) ⊎ (x ≡ replied p)
unfolding eval_script run_script
eval_script_ok (replied p') g p e = ground arith
eval_script_ok (raised f) g p e = ground arith

-- With the hooks of the tests, only a reply of Redis has three numbers.
eval_script_replied :
    (x : Exchange) (g : Guard) (p : Payload) {t : ℤ × ℤ × ℤ}
    → (eval_script x g).1 ≡ ok p
    → three_numbers p ≡ some t
    → x ≡ replied p
eval_script_replied x g p e n = elim (eval_script_ok x g p e) [ inl fake ↦ cc n | inr real ↦ real ]

module _ (world : World) (s : Subject) (estimate : ℕ) (g : Guard) (j : String) where
  -- On Redis a reservation is granted only when the script was run and replied with the code 1
  -- and two totals that are not negative: no exception, no corrupt reply and no other code grants.
  pub redis_grant :
      Grants j estimate (reserve_redis world s estimate g).1
      → (p : Payload) × (committed reserved : ℕ) × (world.exchange ≡ replied p)
        × (three_numbers p ≡ some (pos 1, pos committed, pos reserved))
  unfolding reserve_redis
  redis_grant h =
      let (p, committed, reserved, e, n) =
        script-Grants s estimate world.new_id j (eval_script world.exchange g).1 h in
      (p, committed, reserved, eval_script_replied world.exchange g p e n, n)

module _ (world : World) (s : Subject) (estimate : ℕ) (g : Guard) (j : String) {cap : ℕ}
    (in_micros : budget_to_micros s.budget.budget_usd ≡ some (pos cap)) where
  locked_grant :
      Grants j estimate (reserve_locked world s estimate g).1
      → let w = window_of s.scope (reserve_locked world s estimate g).0 in
        (spent w ≤ cap)
        × (lookup world.new_id w.reservations ≡ some (world.now_ms + ttl_ms_of s.budget, estimate))
  unfolding reserve_locked
  locked_grant h =
      let w = window_of s.scope g in
      let now = world.now_ms in
      let id = world.new_id in
      let window = window_ms_of s.budget in
      let ttl = ttl_ms_of s.budget in
      let budget = s.budget.budget_usd in
      let r = refresh now window ttl w in
      let after = reserve_in now window ttl budget estimate id w in
      rw (get_or-insert_self s.scope new_window after.1 g.memory)
        (elim (dec_le (r.committed_micros + r.reserved_micros + estimate) cap) [
          | yes fits ↦
              let granted = reserve_grants now window ttl budget estimate id w in_micros fits in
              (granted.2, granted.3)
          | no over ↦
              let refused =
                reserve_refuses now window ttl budget estimate id w in_micros (omega arith) in
              let (reply, replied_ok, one) = reply-Grants s estimate id j after.0 h in
              absurd (ground (arith, refused.0, replied_ok, one))
        ])

  -- On the in-process store a grant is backed by the window: the id holds the estimate until
  -- its expiry, and what is committed and reserved is within the cap.
  pub memory_grant :
      Grants j estimate (reserve_memory world s estimate g).1
      → let w = window_of s.scope (reserve_memory world s estimate g).0 in
        (spent w ≤ cap)
        × (lookup world.new_id w.reservations ≡ some (world.now_ms + ttl_ms_of s.budget, estimate))
  unfolding reserve_memory
  memory_grant h =
      let P = λ (m : Guard × Result Fault Answer).
        Grants j estimate m.1
        → (spent (window_of s.scope m.0) ≤ cap)
          × (lookup world.new_id (window_of s.scope m.0).reservations
              ≡ some (world.now_ms + ttl_ms_of s.budget, estimate)) in
      if_both P g.force_unavailable (λ k. absurd k)
        (if_both P g.force_timeout (λ k. absurd k)
          (if_both P g.force_corrupt
            (λ k. let (c, m, e) = interpret-Grants s estimate "" j corrupt k in cc e) locked_grant))
        h

-- The windows of two scopes are apart: reserving under one leaves the other as it was.
reserve_other :
    (world : World) (s : Subject) (estimate : ℕ) (g : Guard) (scope : String)
    → scope ≢ s.scope
    → lookup scope (reserve_memory world s estimate g).0.memory ≡ lookup scope g.memory
unfolding reserve_memory reserve_locked
reserve_other world s estimate g scope other =
    let after =
      (reserve_in world.now_ms (window_ms_of s.budget) (ttl_ms_of s.budget) s.budget.budget_usd
        estimate world.new_id (window_of s.scope g)).1 in
    ground (arith, lookup-insert s.scope scope after g.memory, eq_iff s.scope scope, other)

memory-settle_redis : (x : Exchange) (g : Guard) → (settle_redis x g).memory ≡ g.memory
unfolding settle_redis eval_script run_script
memory-settle_redis (replied p) g = ground arith
memory-settle_redis (raised f) g = ground arith

settle_memory_other :
    (r : BudgetReservation) (actual window : ℕ) (world : World) (g : Guard) (scope : String)
    → scope ≢ r.scope
    → lookup scope (settle_memory r actual window world g).memory ≡ lookup scope g.memory
unfolding settle_memory
settle_memory_other r actual window world g scope other =
    elim (Option-cases (lookup r.scope g.memory)) [
      | inl missing ↦ rw (missing, settle_memory)
      | inr (w, found) ↦
          rw (found, settle_memory)
            (let w' = settle_in world.now_ms window actual r.reservation_id w in
              ground (arith, lookup-insert r.scope scope w' g.memory, eq_iff r.scope scope, other))
    ]

settle_other :
    (r : BudgetReservation) (actual : ℕ) (world : World) (g : Guard) (scope : String)
    → scope ≢ r.scope
    → lookup scope (settle_micros r actual world g).memory ≡ lookup scope g.memory
unfolding settle_micros
settle_other r actual world g scope other =
    let window = if r.window_ms == 0 then 3_600_000 else r.window_ms in
    if_both (λ (g' : Guard). lookup scope g'.memory ≡ lookup scope g.memory) g.redis_configured
      (ap (lookup scope) (memory-settle_redis world.exchange g))
      (settle_memory_other r actual window world g scope other)

-- The windows of two scopes are apart: neither a reservation nor a settlement under one scope
-- changes the window of another.
pub scopes_apart :
    (world : World) (s : Subject) (estimate : ℕ) (r : BudgetReservation) (actual : ℕ) (g : Guard)
    (scope : String)
    → scope ≢ s.scope
    → scope ≢ r.scope
    → (lookup scope (reserve_memory world s estimate g).0.memory ≡ lookup scope g.memory)
      × (lookup scope (settle_micros r actual world g).memory ≡ lookup scope g.memory)
scopes_apart world s estimate r actual g scope ne_s ne_r =
    (reserve_other world s estimate g scope ne_s, settle_other r actual world g scope ne_r)
