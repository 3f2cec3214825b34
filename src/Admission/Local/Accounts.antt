-- ===== src/Admission/Local/Accounts.antt =====
-- What `TenantAdmissionController` of app/gateway/admission.py keeps for its tasks.
use ai_runtime_platform.Base.{
  ℕ, ◌+◌, ◌-◌, ◌≤◌, String, ◌≡◌, refl, ap, Bool, true, false, arith, ok, err,
}
use ai_runtime_platform.Dict.{get_or}
use ai_runtime_platform.Http.{HttpError}
use ai_runtime_platform.Tenancy.Policy.{TenantPolicyBundle, for_tenant}
use ai_runtime_platform.Admission.Local.{
  TenantAdmissionController, scope_key, limit_of, queue_limit_of, Exchange, concurrency_exceeded,
  make_semaphore, local_semaphore, enqueue_local, give_back, enqueue_redis, enqueue_at,
  enqueue_over,
}
use ai_runtime_platform.Admission.Local.Sections.{
  Counts, make_semaphore-Counts, take_ticket-Counts, dequeue_true-Counts, dequeue_false-Counts,
  uncount-Counts, take_local-Counts, give_back_at-Counts, enqueue_at_ok, enqueue_at_err,
  enqueue_over_ok, enqueue_at_full, make_semaphore-apart, dequeue-apart, uncount-apart,
  give_back_at-apart, take_local-apart, enqueue_at-apart, enqueue_over-apart,
}
use ai_runtime_platform.Admission.Local.Slots.{
  Tasks, Elsewhere, enqueues, takes, dequeues, gives_back, uncounts, polls, Step, arrive, turn_away,
  cancel, pass, enter, give_up, finish, leave, poll, lease, stop_polling, release, fail_release,
  other, Reachable, start, after,
}

module _ (bundle : TenantPolicyBundle) (tenant_id model : String) where
  abbrev pub scope : String
  scope = scope_key tenant_id model

  abbrev pub limit : ℕ
  limit = (for_tenant tenant_id bundle).max_concurrent_requests

  -- The counters of the scope, for these tasks: `free` slots are left.
  record IsAccounted (c : TenantAdmissionController) (t : Tasks) : Type 0 where
    free : ℕ
    counts :
        Counts bundle scope limit free
          (t.waiting + t.passing + t.cancelled + t.polling)
          (t.holding + t.leaving + t.leased + t.unreleased)
          c
    slots : free + t.passing + t.holding ≡ limit

  pub recount :
      {f q q' i i' : ℕ} (c : TenantAdmissionController)
      → q ≡ q'
      → i ≡ i'
      → Counts bundle scope limit f q i c
      → Counts bundle scope limit f q' i' c
  recount {f} {q} {q'} {i} {i'} c e d h = record {
    same_bundle = h.same_bundle;
    free_is = h.free_is;
    queued_is = ground (arith, h.queued_is, e);
    inflight_is = ground (arith, h.inflight_is, d);
  }

  abbrev queue_limit : ℕ
  queue_limit = (for_tenant tenant_id bundle).max_queued_requests

  local_semaphore-make_semaphore :
      (c : TenantAdmissionController)
      → c.bundle ≡ bundle
      → local_semaphore tenant_id model c ≡ make_semaphore scope limit c
  unfolding local_semaphore
  local_semaphore-make_semaphore c h =
      ap (λ b. make_semaphore scope (for_tenant tenant_id b).max_concurrent_requests c) h

  enqueue_local-enqueue_at :
      (c : TenantAdmissionController)
      → c.bundle ≡ bundle
      → enqueue_local tenant_id model c
        ≡ enqueue_at scope limit queue_limit (make_semaphore scope limit c)
  unfolding enqueue_local
  enqueue_local-enqueue_at c h =
      ap
        (λ b.
          enqueue_at scope (for_tenant tenant_id b).max_concurrent_requests
            (for_tenant tenant_id b).max_queued_requests
            (make_semaphore scope (for_tenant tenant_id b).max_concurrent_requests c))
        h

  enqueue_redis-enqueue_over :
      (answer : Exchange ℕ) (c : TenantAdmissionController)
      → c.bundle ≡ bundle
      → enqueue_redis tenant_id model answer c ≡ enqueue_over scope limit queue_limit answer c
  unfolding enqueue_redis
  enqueue_redis-enqueue_over answer c h =
      ap
        (λ b.
          enqueue_over scope (for_tenant tenant_id b).max_concurrent_requests
            (for_tenant tenant_id b).max_queued_requests answer c)
        h

  module _ (f q i : ℕ) (c : TenantAdmissionController) (h : Counts bundle scope limit f q i c) where
    pub local_semaphore-Counts : Counts bundle scope limit f q i (local_semaphore tenant_id model c)
    local_semaphore-Counts =
        rw (local_semaphore-make_semaphore c h.same_bundle)
          (make_semaphore-Counts bundle scope limit f q i c h).0

    pub enqueue_local-Counts :
        (c' : TenantAdmissionController)
        → enqueue_local tenant_id model c ≡ (c', ok tt)
        → Counts bundle scope limit f (q + 1) i c'
    enqueue_local-Counts c' e =
        let made = make_semaphore scope limit c in
        rw
          (enqueue_at_ok bundle scope limit f q i queue_limit made c'
            (rw (enqueue_local-enqueue_at c h.same_bundle) at e))
          (take_ticket-Counts bundle scope limit f q i made
            (make_semaphore-Counts bundle scope limit f q i c h).0)

    pub turned_away-Counts :
        (c' : TenantAdmissionController) (why : HttpError)
        → enqueue_local tenant_id model c ≡ (c', err why)
        → Counts bundle scope limit f q i c'
    turned_away-Counts c' why e =
        let made = make_semaphore scope limit c in
        rw
          (enqueue_at_err bundle scope limit f q i queue_limit made c' why
            (rw (enqueue_local-enqueue_at c h.same_bundle) at e))
          (make_semaphore-Counts bundle scope limit f q i c h).0

    pub enqueue_redis-Counts :
        (answer : Exchange ℕ) (c' : TenantAdmissionController)
        → enqueue_redis tenant_id model answer c ≡ (c', ok tt)
        → Counts bundle scope limit f (q + 1) i c'
    enqueue_redis-Counts answer c' e =
        rw
          (enqueue_over_ok bundle scope limit f q i queue_limit answer c c'
            (rw (enqueue_redis-enqueue_over answer c h.same_bundle) at e))
          (take_ticket-Counts bundle scope limit f q i c h)

    pub give_back-Counts : Counts bundle scope limit (f + 1) q i (give_back tenant_id model c)
    unfolding give_back
    give_back-Counts =
        let (made, there) = make_semaphore-Counts bundle scope limit f q i c h in
        rw (local_semaphore-make_semaphore c h.same_bundle)
          (give_back_at-Counts bundle scope limit f q i (make_semaphore scope limit c) there made)

  module _ (f q i : ℕ) where
    Elsewhere-Counts :
        {c c' : TenantAdmissionController}
        → Elsewhere scope c c'
        → Counts bundle scope limit f q i c
        → Counts bundle scope limit f q i c'
    unfolding enqueue_local local_semaphore give_back enqueue_redis
    Elsewhere-Counts {c} (enqueues t m apart) h =
        let k = scope_key t m in
        enqueue_at-apart bundle scope limit f q i k apart (limit_of t c) (queue_limit_of t c)
          (make_semaphore k (limit_of t c) c)
          (make_semaphore-apart bundle scope limit f q i k apart (limit_of t c) c h)
    Elsewhere-Counts {c} {c'} (takes t m apart taken) h =
        take_local-apart bundle scope limit f q i (scope_key t m) apart c c' taken h
    Elsewhere-Counts {c} (dequeues t m acquired apart) h =
        dequeue-apart bundle scope limit f q i (scope_key t m) apart acquired c h
    Elsewhere-Counts {c} (gives_back t m apart) h =
        let k = scope_key t m in
        give_back_at-apart bundle scope limit f q i k apart (make_semaphore k (limit_of t c) c)
          (make_semaphore-apart bundle scope limit f q i k apart (limit_of t c) c h)
    Elsewhere-Counts {c} (uncounts t m apart) h =
        uncount-apart bundle scope limit f q i (scope_key t m) apart c h
    Elsewhere-Counts {c} (polls t m answer apart) h =
        enqueue_over-apart bundle scope limit f q i (scope_key t m) apart (limit_of t c)
          (queue_limit_of t c) answer c h

  pub status_only :
      (f q i : ℕ) (answers : Bool) (c : TenantAdmissionController)
      → Counts bundle scope limit f q i c
      → Counts bundle scope limit f q i (record c { redis_ok = answers })
  status_only f q i answers c h = record {
    same_bundle = h.same_bundle;
    free_is = h.free_is;
    queued_is = h.queued_is;
    inflight_is = h.inflight_is;
  }

  -- How many tasks are in the queue, and how many are counted as at work.
  abbrev in_queue : Tasks → ℕ
  in_queue t = t.waiting + t.passing + t.cancelled + t.polling

  abbrev at_work : Tasks → ℕ
  at_work t = t.holding + t.leaving + t.leased + t.unreleased

  Step-IsAccounted :
      (c c' : TenantAdmissionController) (t t' : Tasks)
      → Step tenant_id model c t c' t'
      → IsAccounted c t
      → IsAccounted c' t'
  Step-IsAccounted c c' t t' (arrive e) a = record {
    free = a.free;
    counts =
        recount c' (omega arith) refl
          (enqueue_local-Counts a.free (in_queue t) (at_work t) c a.counts c' e);
    slots = a.slots;
  }
  Step-IsAccounted c c' t t' (turn_away {e = why} e) a = record {
    free = a.free;
    counts = turned_away-Counts a.free (in_queue t) (at_work t) c a.counts c' why e;
    slots = a.slots;
  }
  Step-IsAccounted c c' t t' (cancel one) a = record {
    free = a.free;
    counts = recount c (omega (arith, one)) refl a.counts;
    slots = a.slots;
  }
  Step-IsAccounted c c' t t' (pass one taken) a =
      let (counts, some_free) =
        take_local-Counts bundle scope limit a.free (in_queue t) (at_work t) c c' taken a.counts in
      record {
        free = a.free - 1;
        counts = recount c' (omega (arith, one)) refl counts;
        slots = omega (arith, one, some_free, a.slots);
      }
  Step-IsAccounted c c' t t' (enter one) a = record {
    free = a.free;
    counts =
        recount c' (omega (arith, one)) (omega (arith, one))
          (dequeue_true-Counts bundle scope limit a.free (in_queue t) (at_work t) c a.counts);
    slots = omega (arith, one, a.slots);
  }
  Step-IsAccounted c c' t t' (give_up one) a = record {
    free = a.free;
    counts =
        recount c' (omega (arith, one)) refl
          (dequeue_false-Counts bundle scope limit a.free (in_queue t) (at_work t) c a.counts);
    slots = a.slots;
  }
  Step-IsAccounted c c' t t' (finish one) a = record {
    free = a.free + 1;
    counts =
        recount c' refl (omega (arith, one))
          (give_back-Counts a.free (in_queue t) (at_work t) c a.counts);
    slots = omega (arith, one, a.slots);
  }
  Step-IsAccounted c c' t t' (leave one) a = record {
    free = a.free;
    counts =
        recount c' refl (omega (arith, one))
          (uncount-Counts bundle scope limit a.free (in_queue t) (at_work t) c a.counts);
    slots = a.slots;
  }
  Step-IsAccounted c c' t t' (poll answer e) a = record {
    free = a.free;
    counts =
        recount c' (omega arith) refl
          (enqueue_redis-Counts a.free (in_queue t) (at_work t) c a.counts answer c' e);
    slots = a.slots;
  }
  Step-IsAccounted c c' t t' (lease one) a =
      let ready = record c { redis_ok = true } in
      record {
        free = a.free;
        counts = recount c' (omega (arith, one)) (omega (arith, one)) (
            dequeue_true-Counts bundle scope limit a.free (in_queue t) (at_work t) ready
              (status_only a.free (in_queue t) (at_work t) true c a.counts));
        slots = a.slots;
      }
  Step-IsAccounted c c' t t' (stop_polling one) a = record {
    free = a.free;
    counts =
        recount c' (omega (arith, one)) refl
          (dequeue_false-Counts bundle scope limit a.free (in_queue t) (at_work t) c a.counts);
    slots = a.slots;
  }
  Step-IsAccounted c c' t t' (release one) a = record {
    free = a.free;
    counts =
        recount c' refl (omega (arith, one))
          (uncount-Counts bundle scope limit a.free (in_queue t) (at_work t) c a.counts);
    slots = a.slots;
  }
  Step-IsAccounted c c' t t' (fail_release one) a = record {
    free = a.free;
    counts =
        recount c' refl (omega (arith, one))
          (status_only a.free (in_queue t) (at_work t) false c a.counts);
    slots = a.slots;
  }
  Step-IsAccounted c c' t t' (other apart) a = record {
    free = a.free;
    counts = Elsewhere-Counts a.free (in_queue t) (at_work t) apart a.counts;
    slots = a.slots;
  }

  Reachable-IsAccounted :
      (redis : Bool) (c : TenantAdmissionController) (t : Tasks)
      → Reachable bundle redis tenant_id model c t
      → IsAccounted c t
  Reachable-IsAccounted redis c t start = record {
    free = limit;
    counts = record { same_bundle = refl; free_is = refl; queued_is = refl; inflight_is = refl };
    slots = omega arith;
  }
  Reachable-IsAccounted redis c t (after {c = b} {t = s} before step) =
      Step-IsAccounted b c s t step (Reachable-IsAccounted redis b s before)

-- However requests of a tenant and model arrive, are turned away or cancelled, work and leave, over
-- Redis or in the process, and whatever requests with another scope key (`_scope_key`) do: each
-- slot of the tenant's limit is either free or taken by one local request of this tenant and model,
-- so that no more than the limit work at a time, and when all have left every slot is free again.
-- Another tenant and model that spell the same scope key share the semaphore, and are left out.
pub every_slot_accounted :
    (bundle : TenantPolicyBundle) (redis : Bool) (tenant_id model : String)
    (c : TenantAdmissionController) (t : Tasks)
    → Reachable bundle redis tenant_id model c t
    → get_or (scope_key tenant_id model) (limit_of tenant_id c) c.semaphores + t.passing + t.holding
      ≡ (for_tenant tenant_id bundle).max_concurrent_requests
every_slot_accounted bundle redis tenant_id model c t run =
    let a = Reachable-IsAccounted bundle tenant_id model redis c t run in
    let same = ap (λ b. (for_tenant tenant_id b).max_concurrent_requests) a.counts.same_bundle in
    rw (same, a.counts.free_is) a.slots

-- A release that does not reach Redis is counted as work for good: once as many releases of a
-- tenant and model were lost as the limit allows requests, while the other requests that come have
-- other scope keys, a tenant with no queue is refused every local request, be nobody at work at all.
pub lost_releases_block :
    (bundle : TenantPolicyBundle) (redis : Bool) (tenant_id model : String)
    (c : TenantAdmissionController) (t : Tasks)
    → Reachable bundle redis tenant_id model c t
    → (for_tenant tenant_id bundle).max_concurrent_requests ≤ t.unreleased
    → (for_tenant tenant_id bundle).max_queued_requests ≡ 0
    → (enqueue_local tenant_id model c).1 ≡ err concurrency_exceeded
lost_releases_block bundle redis tenant_id model c t run lost no_queue =
    let a = Reachable-IsAccounted bundle tenant_id model redis c t run in
    let k = scope_key tenant_id model in
    let limit = (for_tenant tenant_id bundle).max_concurrent_requests in
    let q = t.waiting + t.passing + t.cancelled + t.polling in
    let i = t.holding + t.leaving + t.leased + t.unreleased in
    rw
      (
        enqueue_local-enqueue_at bundle tenant_id model c a.counts.same_bundle,
        no_queue,
        enqueue_at_full bundle k limit a.free q i (make_semaphore k limit c)
            (make_semaphore-Counts bundle k limit a.free q i c a.counts).0 (omega (arith, lost)),
      )
      refl
