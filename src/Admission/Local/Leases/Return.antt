-- ===== src/Admission/Local/Leases/Return.antt =====
-- A lease that `TenantAdmissionController` of app/gateway/admission.py gave is taken back.
use ai_runtime_platform.Base.{
  ℕ, ◌+◌, ◌-◌, ◌≤◌, String, ◌≡◌, refl, ◌∙◌, Bool, true, false, Option, some, none, arith, Result,
  ok, err, inl, inr, List, ◌⊎◌, Option-cases, Bool-cases, subst, if_both,
}
use ai_runtime_platform.Http.{HttpError}
use ai_runtime_platform.Tenancy.Policy.{
  TenantPolicyBundle, RedisUnavailablePolicy, fail_closed, degraded, fail_open, for_tenant,
}
use ai_runtime_platform.Admission.{AcquireReply}
use ai_runtime_platform.Admission.Local.{
  AdmissionMode, on_local, on_redis, on_fail_open, on_degraded, TenantAdmissionController,
  scope_key, enqueue_local, take_local, dequeue, give_back, uncount, Exchange, replied, raised,
  Failure, refused, broken, enqueue_redis, queue_limit_of, take_ticket,
}
use ai_runtime_platform.Admission.Local.Sections.{
  Counts, dequeue_true-Counts, dequeue_false-Counts, uncount-Counts, take_local-Counts,
}
use ai_runtime_platform.Admission.Local.Accounts.{
  scope, limit, recount, enqueue_local-Counts, enqueue_redis-Counts, give_back-Counts, status_only,
  turned_away-Counts,
}
use ai_runtime_platform.Admission.Local.Leases.{
  AdmissionLease, Outcome, leased, failed, waits, take_queued, enter_queue, enter_polling,
  acquire_local, poll_redis, end_polling, acquire_redis, acquire_unavailable, settle_redis,
  model_key, acquire_lease, inflight_count, is_some, renewing_by, release_redis, release_by,
  release,
}

dequeue-redis :
    (acquired : Bool) (key : String) (c : TenantAdmissionController)
    → (dequeue acquired key c).redis ≡ c.redis
unfolding dequeue
dequeue-redis acquired key c = ground arith

enqueue_redis_err :
    (tenant_id model : String) (probe : Exchange ℕ) (c c1 : TenantAdmissionController)
    (why : Failure)
    → enqueue_redis tenant_id model probe c ≡ (c1, err why)
    → c1 ≡ c
unfolding enqueue_redis
enqueue_redis_err tenant_id model raised c c1 why e = ground (arith, e)
enqueue_redis_err tenant_id model (replied n) c c1 why e = ground (arith, e)

enqueue_redis-redis :
    (tenant_id model : String) (probe : Exchange ℕ) (c c1 : TenantAdmissionController)
    → enqueue_redis tenant_id model probe c ≡ (c1, ok tt)
    → c1.redis ≡ c.redis
unfolding enqueue_redis take_ticket
enqueue_redis-redis tenant_id model raised c c1 e = ground (arith, e)
enqueue_redis-redis tenant_id model (replied n) c c1 e = ground (arith, e)

module _ (bundle : TenantPolicyBundle) (tenant_id model : String) (f q i : ℕ) where
  abbrev Holds : ℕ → ℕ → ℕ → TenantAdmissionController → Type 0
  Holds = Counts bundle (scope bundle tenant_id model) (limit bundle tenant_id model)

  -- What a lease takes, by its mode: a slot and a request at work, a request at work, or nothing.
  abbrev Takes : AdmissionMode → Option String → Option ℕ → TenantAdmissionController → Type 0
  Takes on_local lease_id token c = (1 ≤ f) × Holds (f - 1) q (i + 1) c
  Takes on_degraded lease_id token c = (1 ≤ f) × Holds (f - 1) q (i + 1) c
  Takes on_fail_open lease_id token c = Holds f q i c
  Takes on_redis lease_id token c =
      Holds f q (i + 1) c × (c.redis ≡ true) × (is_some lease_id ≡ true) × (is_some token ≡ true)

  -- What an acquisition leaves behind, by its outcome: one that failed nothing, and one that waits
  -- its place in the queue.
  abbrev pub Balanced : TenantAdmissionController × Outcome → Type 0
  Balanced (c, failed why) = Holds f q i c
  Balanced (c, waits) = Holds f (q + 1) i c
  Balanced (c, leased l) =
      (l.tenant_id ≡ tenant_id)
      × (l.model ≡ model)
      × (l.released ≡ false)
      × Takes l.mode l.lease_id l.fencing_token c

  abbrev IsLocal : AdmissionMode → Type 0
  IsLocal mode = (mode ≡ on_local) ⊎ (mode ≡ on_degraded)

  take_queued-Balanced :
      (mode : AdmissionMode) (c : TenantAdmissionController)
      → IsLocal mode
      → Holds f (q + 1) i c
      → Balanced (take_queued mode tenant_id model c)
  unfolding take_queued
  take_queued-Balanced mode c local h =
      elim (Option-cases (take_local (scope_key tenant_id model) c)) [
        | inl none_free ↦ rw (none_free, take_queued) h
        | inr (c1, taken) ↦
            let (counts, some_free) = take_local-Counts bundle _ _ f (q + 1) i c c1 taken h in
            let after =
              recount bundle tenant_id model _ (omega arith) refl
                (dequeue_true-Counts bundle _ _ (f - 1) (q + 1) i c1 counts) in
            rw (taken, take_queued)
              (elim local [
                | inl e ↦ rw e (refl, refl, refl, (some_free, after))
                | inr e ↦ rw e (refl, refl, refl, (some_free, after))
              ])
      ]

  enter_queue-Balanced :
      (mode : AdmissionMode) (c : TenantAdmissionController)
      (entered : TenantAdmissionController × Result HttpError (Unit {0}))
      → IsLocal mode
      → enqueue_local tenant_id model c ≡ entered
      → Holds f q i c
      → Balanced (enter_queue mode tenant_id model entered)
  unfolding enter_queue
  enter_queue-Balanced mode c (c1, err why) local e h =
      turned_away-Counts bundle tenant_id model f q i c h c1 why e
  enter_queue-Balanced mode c (c1, ok _) local e h =
      take_queued-Balanced mode c1 local
        (enqueue_local-Counts bundle tenant_id model f q i c h c1 e)

  acquire_local-Balanced :
      (mode : AdmissionMode) (c : TenantAdmissionController)
      → IsLocal mode
      → Holds f q i c
      → Balanced (acquire_local mode tenant_id model c)
  unfolding acquire_local
  acquire_local-Balanced mode c local h =
      enter_queue-Balanced mode c (enqueue_local tenant_id model c) local refl h

  end_polling-Balanced :
      (polled : Option (Result Failure (ℕ × String))) (c : TenantAdmissionController)
      → c.redis ≡ true
      → Holds f (q + 1) i c
      → Balanced (end_polling tenant_id model polled c)
  unfolding end_polling
  end_polling-Balanced none c on h = h
  end_polling-Balanced (some (err why)) c on h =
      recount bundle tenant_id model _ (omega arith) refl
        (dequeue_false-Counts bundle _ _ f (q + 1) i c h)
  end_polling-Balanced (some (ok (token, lease_id))) c on h =
      let ready = record c { redis_ok = true } in
      (
        refl,
        refl,
        refl,
        (
          recount bundle tenant_id model _ (omega arith) refl (
              dequeue_true-Counts bundle _ _ f (q + 1) i ready
                (status_only bundle tenant_id model f (q + 1) i true c h)),
          dequeue-redis true _ ready ∙ on,
          refl,
          refl,
        ),
      )

  enter_polling-Balanced :
      (polled : Option (Result Failure (ℕ × String))) (probe : Exchange ℕ)
      (c : TenantAdmissionController)
      (entered : TenantAdmissionController × Result Failure (Unit {0}))
      → c.redis ≡ true
      → enqueue_redis tenant_id model probe c ≡ entered
      → Holds f q i c
      → Balanced (enter_polling tenant_id model polled entered)
  unfolding enter_polling
  enter_polling-Balanced polled probe c (c1, err why) on e h =
      let same = enqueue_redis_err tenant_id model probe c c1 why e in rw same h
  enter_polling-Balanced polled probe c (c1, ok _) on e h =
      end_polling-Balanced polled c1 (enqueue_redis-redis tenant_id model probe c c1 e ∙ on)
        (enqueue_redis-Counts bundle tenant_id model f q i c h probe c1 e)

  renewing_by-Balanced :
      (mode : AdmissionMode) (l : AdmissionLease) (c : TenantAdmissionController)
      → Balanced (c, leased l)
      → Balanced (c, leased (renewing_by mode l))
  renewing_by-Balanced on_redis l c h = h
  renewing_by-Balanced on_local l c h = h
  renewing_by-Balanced on_degraded l c h = h
  renewing_by-Balanced on_fail_open l c h = h

  settle_redis-Balanced :
      (policy : RedisUnavailablePolicy) (x : TenantAdmissionController × Outcome)
      → Balanced x
      → Balanced (settle_redis policy tenant_id model x)
  unfolding settle_redis acquire_unavailable
  settle_redis-Balanced policy (c, waits) h = h
  settle_redis-Balanced policy (c, failed (refused e)) h = h
  settle_redis-Balanced fail_closed (c, failed broken) h =
      status_only bundle tenant_id model f q i false c h
  settle_redis-Balanced fail_open (c, failed broken) h =
      (refl, refl, refl, status_only bundle tenant_id model f q i false c h)
  settle_redis-Balanced degraded (c, failed broken) h =
      acquire_local-Balanced on_degraded (record c { redis_ok = false }) (inr refl)
        (status_only bundle tenant_id model f q i false c h)
  settle_redis-Balanced policy (c, leased l) h = renewing_by-Balanced l.mode l c h

  give_local :
      (c : TenantAdmissionController)
      → (1 ≤ f) × Holds (f - 1) q (i + 1) c
      → Holds f q i (uncount (scope_key tenant_id model) (give_back tenant_id model c))
  give_local c (some_free, h) =
      let key = scope_key tenant_id model in
      let c1 = give_back tenant_id model c in
      let given = give_back-Counts bundle tenant_id model (f - 1) q (i + 1) c h in
      let all : (f - 1) + 1 ≡ f = omega (arith, some_free) in
      recount bundle tenant_id model (uncount key c1) refl (omega arith) (
        uncount-Counts bundle key (limit bundle tenant_id model) f q (i + 1) c1
          (subst (λ n. Holds n q (i + 1) c1) all given))

  inflight_count-Counts :
      (answer : Exchange ℕ) (c : TenantAdmissionController)
      → Holds f q i c
      → Holds f q i (inflight_count tenant_id model answer c).0
  unfolding inflight_count
  inflight_count-Counts (replied n) c h =
      if_both (λ (x : TenantAdmissionController × ℕ). Holds f q i x.0) _ h h
  inflight_count-Counts raised c h =
      if_both (λ (x : TenantAdmissionController × ℕ). Holds f q i x.0) _
        (status_only bundle tenant_id model f q i false c h) h

  release_redis-Counts :
      (purged : Exchange ℕ) (c : TenantAdmissionController)
      → Holds f q (i + 1) c
      → Holds f q i (release_redis tenant_id model (replied tt) purged c)
  unfolding release_redis
  release_redis-Counts purged c h =
      let key = scope_key tenant_id model in
      inflight_count-Counts purged (uncount key c) (
        recount bundle tenant_id model (uncount key c) refl (omega arith)
          (uncount-Counts bundle key (limit bundle tenant_id model) f q (i + 1) c h))

  release_by-Counts :
      (mode : AdmissionMode) (l : AdmissionLease) (purged : Exchange ℕ)
      (c : TenantAdmissionController)
      → l.tenant_id ≡ tenant_id
      → l.model ≡ model
      → Takes mode l.lease_id l.fencing_token c
      → Holds f q i (release_by mode l (replied tt) purged c)
  unfolding release_by
  release_by-Counts on_local l purged c e d h = rw (e, d) (give_local c h)
  release_by-Counts on_degraded l purged c e d h = rw (e, d) (give_local c h)
  release_by-Counts on_fail_open l purged c e d h = h
  release_by-Counts on_redis l purged c e d (h, on, id, token) =
      simp (on, id, token) (rw (e, d) (release_redis-Counts purged c h))

  acquire_redis-Balanced :
      (probe : Exchange ℕ) (answers : List (Exchange AcquireReply × String))
      (c : TenantAdmissionController)
      → c.redis ≡ true
      → Holds f q i c
      → Balanced (acquire_redis tenant_id model probe answers c)
  unfolding acquire_redis
  acquire_redis-Balanced probe answers c on h =
      enter_polling-Balanced (poll_redis (queue_limit_of tenant_id c) answers) probe c
        (enqueue_redis tenant_id model probe c) on refl h

-- Whatever Redis answers or fails to answer, and whatever the tenant's policy for that: an
-- acquisition that fails leaves the counters of its scope as they were, one that still waits has
-- one place in the queue, and a lease takes what its mode says: a slot of the process and a place
-- among the working (local, degraded), that place alone (over Redis), or nothing (fail-open).
pub acquire_lease-Balanced :
    (bundle : TenantPolicyBundle) (tenant_id : String) (model : Option String) (f q i : ℕ)
    (probe : Exchange ℕ) (answers : List (Exchange AcquireReply × String))
    (c : TenantAdmissionController)
    → Counts bundle
        (scope_key tenant_id (model_key model))
        (for_tenant tenant_id bundle).max_concurrent_requests
        f
        q
        i
        c
    → Balanced bundle tenant_id
        (model_key model)
        f
        q
        i
        (acquire_lease tenant_id model probe answers c)
unfolding acquire_lease
acquire_lease-Balanced bundle tenant_id model f q i probe answers c h =
    let name = model_key model in
    elim (Bool-cases c.redis) [
      | inl on ↦ simp on (
          settle_redis-Balanced bundle tenant_id name f q i
            (for_tenant tenant_id c.bundle).redis_unavailable_policy
            (acquire_redis tenant_id name probe answers c)
            (acquire_redis-Balanced bundle tenant_id name f q i probe answers c on h))
      | inr off ↦
          simp off (acquire_local-Balanced bundle tenant_id name f q i on_local c (inl refl) h)
    ]

release_live :
    (l : AdmissionLease) (answer : Exchange (Unit {0})) (purged : Exchange ℕ)
    (c : TenantAdmissionController)
    → l.released ≡ false
    → release l answer purged c
      ≡ (record l { released = true; renewing = false }, release_by l.mode l answer purged c)
unfolding release
release_live l answer purged c live = simp live

release_released :
    (l : AdmissionLease) (answer : Exchange (Unit {0})) (purged : Exchange ℕ)
    (c : TenantAdmissionController)
    → l.released ≡ true
    → release l answer purged c ≡ (l, c)
unfolding release
release_released l answer purged c over = simp over

-- A lease is given back in full: with no other task between, acquiring a lease, whatever its mode
-- turns out to be, and releasing it with Redis answering leaves the free slots, the queue and the
-- number at work of its scope as they were; and releasing it again changes nothing at all.
pub lease_is_returned :
    (bundle : TenantPolicyBundle) (tenant_id : String) (model : Option String) (f q i : ℕ)
    (probe : Exchange ℕ) (answers : List (Exchange AcquireReply × String)) (purged : Exchange ℕ)
    (c c1 : TenantAdmissionController) (l : AdmissionLease)
    → Counts bundle
        (scope_key tenant_id (model_key model))
        (for_tenant tenant_id bundle).max_concurrent_requests
        f
        q
        i
        c
    → acquire_lease tenant_id model probe answers c ≡ (c1, leased l)
    → let (l', c2) = release l (replied tt) purged c1 in
      Counts bundle
        (scope_key tenant_id (model_key model))
        (for_tenant tenant_id bundle).max_concurrent_requests
        f
        q
        i
        c2
      × ((answer : Exchange (Unit {0})) (again : Exchange ℕ)
          → release l' answer again c2 ≡ (l', c2))
lease_is_returned bundle tenant_id model f q i probe answers purged c c1 l h e =
    let (same_tenant, same_model, live, taken) =
      rw e at (acquire_lease-Balanced bundle tenant_id model f q i probe answers c h) in
    rw (release_live l (replied tt) purged c1 live) (
      release_by-Counts bundle tenant_id (model_key model) f q i l.mode l purged c1 same_tenant
          same_model taken,
      λ answer again.
          release_released (record l { released = true; renewing = false }) answer again
            (release_by l.mode l (replied tt) purged c1) refl,
    )
