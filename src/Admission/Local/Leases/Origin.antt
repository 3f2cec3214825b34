-- ===== src/Admission/Local/Leases/Origin.antt =====
-- Where a lease comes from when `TenantAdmissionController` of app/gateway/admission.py has a Redis.
use ai_runtime_platform.Base.{
  ℕ, String, ◌≡◌, refl, true, Option, some, none, arith, Result, ok, err, List, [], ◌∷◌, ◌⊎◌, inl,
  inr, ◌==◌, Bool-cases,
}
use ai_runtime_platform.Tenancy.Policy.{fail_closed, for_tenant}
use ai_runtime_platform.Admission.{AcquireReply, denied, granted}
use ai_runtime_platform.Admission.Local.{
  on_redis, TenantAdmissionController, enqueue_redis, queue_limit_of, Exchange, replied, raised,
  Failure, refused, broken, try_redis,
}
use ai_runtime_platform.Admission.Local.Leases.{
  AdmissionLease, Outcome, leased, failed, waits, poll_redis, end_polling, enter_polling,
  acquire_redis, acquire_unavailable, settle_redis, start_renewal, model_key, acquire_lease,
}

-- One of the answers grants the lease.
abbrev pub Granted : ℕ → String → List (Exchange AcquireReply × String) → Type 0
Granted token lease_id [] = ⊥
Granted token lease_id ((raised, id) ∷ rest) = Granted token lease_id rest
Granted token lease_id ((replied (denied inflight expired), id) ∷ rest) =
    Granted token lease_id rest
Granted token lease_id ((replied (granted t inflight expired), id) ∷ rest) =
    ((t ≡ token) × (id ≡ lease_id)) ⊎ Granted token lease_id rest

poll_redis-Granted :
    (max_queued token : ℕ) (lease_id : String) (answers : List (Exchange AcquireReply × String))
    → poll_redis max_queued answers ≡ some (ok (token, lease_id))
    → Granted token lease_id answers
unfolding poll_redis try_redis
poll_redis-Granted mq token lease_id [] e = cc
poll_redis-Granted mq token lease_id ((raised, id) ∷ rest) e = ground (arith, e)
poll_redis-Granted mq token lease_id ((replied (denied n k), id) ∷ rest) e =
    elim (Bool-cases (mq == 0)) [
      | inl none_wait ↦ ground (arith, e, none_wait)
      | inr wait ↦ poll_redis-Granted mq token lease_id rest (ground (arith, e, wait))
    ]
poll_redis-Granted mq token lease_id ((replied (granted t n k), id) ∷ rest) e =
    inl (ground (arith, e), ground (arith, e))

-- What a lease over Redis says of its grant.
abbrev pub IsGrant : List (Exchange AcquireReply × String) → AdmissionLease → Type 0
IsGrant answers l =
    (token : ℕ) × (lease_id : String) × Granted token lease_id answers
    × (l.mode ≡ on_redis)
    × (l.lease_id ≡ some lease_id)
    × (l.fencing_token ≡ some token)
    × (l.renewing ≡ true)

abbrev FromGrant : List (Exchange AcquireReply × String) → Outcome → Type 0
FromGrant answers (leased l) = IsGrant answers (start_renewal l)
FromGrant answers (failed why) = Unit {0}
FromGrant answers waits = Unit {0}

end_polling-FromGrant :
    (tenant_id model : String) (mq : ℕ) (answers : List (Exchange AcquireReply × String))
    (polled : Option (Result Failure (ℕ × String))) (c : TenantAdmissionController)
    → poll_redis mq answers ≡ polled
    → FromGrant answers (end_polling tenant_id model polled c).1
unfolding end_polling
end_polling-FromGrant tenant_id model mq answers none c e = tt
end_polling-FromGrant tenant_id model mq answers (some (err why)) c e = tt
end_polling-FromGrant tenant_id model mq answers (some (ok (token, lease_id))) c e =
    (token, lease_id, poll_redis-Granted mq token lease_id answers e, refl, refl, refl, refl)

enter_polling-FromGrant :
    (tenant_id model : String) (mq : ℕ) (answers : List (Exchange AcquireReply × String))
    (entered : TenantAdmissionController × Result Failure (Unit {0}))
    → FromGrant answers (enter_polling tenant_id model (poll_redis mq answers) entered).1
unfolding enter_polling
enter_polling-FromGrant tenant_id model mq answers (c, err why) = tt
enter_polling-FromGrant tenant_id model mq answers (c, ok _) =
    end_polling-FromGrant tenant_id model mq answers (poll_redis mq answers) c refl

settle_redis-IsGrant :
    (tenant_id model : String) (answers : List (Exchange AcquireReply × String))
    (x : TenantAdmissionController × Outcome) (c1 : TenantAdmissionController) (l : AdmissionLease)
    → FromGrant answers x.1
    → settle_redis fail_closed tenant_id model x ≡ (c1, leased l)
    → IsGrant answers l
unfolding settle_redis acquire_unavailable
settle_redis-IsGrant tenant_id model answers (c, leased l') c1 l from e =
    let same : l ≡ start_renewal l' = ground (arith, e) in rw same from
settle_redis-IsGrant tenant_id model answers (c, failed (refused why)) c1 l from e =
    ground (arith, e)
settle_redis-IsGrant tenant_id model answers (c, failed broken) c1 l from e = ground (arith, e)
settle_redis-IsGrant tenant_id model answers (c, waits) c1 l from e = ground (arith, e)

-- A tenant that fails closed runs on Redis alone: every lease that it gets with a Redis configured
-- is one that Redis granted in this acquisition, with the lease id and the fencing token of the
-- grant, and it is renewed. Whatever exchange with Redis raises, none is made up.
pub fail_closed_comes_from_redis :
    (tenant_id : String) (model : Option String) (probe : Exchange ℕ)
    (answers : List (Exchange AcquireReply × String)) (c c1 : TenantAdmissionController)
    (l : AdmissionLease)
    → c.redis ≡ true
    → (for_tenant tenant_id c.bundle).redis_unavailable_policy ≡ fail_closed
    → acquire_lease tenant_id model probe answers c ≡ (c1, leased l)
    → IsGrant answers l
unfolding acquire_lease acquire_redis
fail_closed_comes_from_redis tenant_id model probe answers c c1 l on policy e =
    settle_redis-IsGrant tenant_id (model_key model) answers
      (acquire_redis tenant_id (model_key model) probe answers c) c1 l
      (enter_polling-FromGrant tenant_id (model_key model) (queue_limit_of tenant_id c) answers
        (enqueue_redis tenant_id (model_key model) probe c))
      (simp (on, policy) at e)
