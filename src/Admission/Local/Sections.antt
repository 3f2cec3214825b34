-- ===== src/Admission/Local/Sections.antt =====
-- What each section of `TenantAdmissionController` of app/gateway/admission.py does to the counters
-- of one scope, its own or another's.
use ai_runtime_platform.Base.{
  ℕ, ◌+◌, ◌-◌, ◌≤◌, String, ◌≡◌, Bool, true, false, some, arith, str_eq, eq_refl, Result, ok, err,
  inl, inr, if_both, Option-cases,
}
use ai_runtime_platform.Dict.{
  Dict, get_or, lookup, contains, get_or-insert, get_or-insert_self, lookup-insert,
}
use ai_runtime_platform.Http.{HttpError}
use ai_runtime_platform.Tenancy.Policy.{TenantPolicyBundle}
use ai_runtime_platform.Admission.Local.{
  TenantAdmissionController, Exchange, raised, replied, Failure, concurrency_exceeded,
  make_semaphore, take_ticket, enqueue_at, take_local, dequeue, give_back_at, uncount, enqueue_over,
}

-- The free slots, the queue and the work of a scope; a semaphore that is not made yet has all its
-- slots.
pub record Counts (bundle : TenantPolicyBundle) (scope : String) (limit free queued inflight : ℕ)
    (c : TenantAdmissionController) : Type 0 where
  pub same_bundle : c.bundle ≡ bundle
  pub free_is : get_or scope limit c.semaphores ≡ free
  pub queued_is : get_or scope 0 c.queued ≡ queued
  pub inflight_is : get_or scope 0 c.inflight ≡ inflight

get_or_present :
    (k : String) (n m : ℕ) (d : Dict ℕ) → contains k d ≡ true → get_or k n d ≡ get_or k m d
get_or_present k n m d h = ground arith

get_or_absent : (k : String) (n : ℕ) (d : Dict ℕ) → contains k d ≡ false → get_or k n d ≡ n
get_or_absent k n d h = ground arith

-- `max(0, d.get(k, 1) - 1)` is the same with any default up to 1.
get_or_less_one : (k : String) (d : Dict ℕ) → get_or k 1 d - 1 ≡ get_or k 0 d - 1
get_or_less_one k d = ground arith

module _ (bundle : TenantPolicyBundle) (scope : String) (limit f q i : ℕ) where
  pub make_semaphore-Counts :
      (c : TenantAdmissionController)
      → Counts bundle scope limit f q i c
      → Counts bundle scope limit f q i (make_semaphore scope limit c)
        × (contains scope (make_semaphore scope limit c).semaphores ≡ true)
  unfolding make_semaphore
  make_semaphore-Counts c h = ground (
    arith,
    h.same_bundle,
    h.free_is,
    h.queued_is,
    h.inflight_is,
    lookup-insert scope scope limit c.semaphores,
    eq_refl scope,
    get_or_absent scope limit c.semaphores,
  )

  pub take_ticket-Counts :
      (c : TenantAdmissionController)
      → Counts bundle scope limit f q i c
      → Counts bundle scope limit f (q + 1) i (take_ticket scope c)
  unfolding take_ticket
  take_ticket-Counts c h = ground (
    arith,
    h.same_bundle,
    h.free_is,
    h.queued_is,
    h.inflight_is,
    get_or-insert_self scope 0 (get_or scope 0 c.queued + 1) c.queued,
  )

  pub dequeue_true-Counts :
      (c : TenantAdmissionController)
      → Counts bundle scope limit f q i c
      → Counts bundle scope limit f (q - 1) (i + 1) (dequeue true scope c)
  unfolding dequeue
  dequeue_true-Counts c h = ground (
    arith,
    h.same_bundle,
    h.free_is,
    h.queued_is,
    h.inflight_is,
    get_or_less_one scope c.queued,
    get_or-insert_self scope 0 (get_or scope 1 c.queued - 1) c.queued,
    get_or-insert_self scope 0 (get_or scope 0 c.inflight + 1) c.inflight,
  )

  pub dequeue_false-Counts :
      (c : TenantAdmissionController)
      → Counts bundle scope limit f q i c
      → Counts bundle scope limit f (q - 1) i (dequeue false scope c)
  unfolding dequeue
  dequeue_false-Counts c h = ground (
    arith,
    h.same_bundle,
    h.free_is,
    h.queued_is,
    h.inflight_is,
    get_or_less_one scope c.queued,
    get_or-insert_self scope 0 (get_or scope 1 c.queued - 1) c.queued,
  )

  pub uncount-Counts :
      (c : TenantAdmissionController)
      → Counts bundle scope limit f q i c
      → Counts bundle scope limit f q (i - 1) (uncount scope c)
  unfolding uncount
  uncount-Counts c h = ground (
    arith,
    h.same_bundle,
    h.free_is,
    h.queued_is,
    h.inflight_is,
    get_or_less_one scope c.inflight,
    get_or-insert_self scope 0 (get_or scope 1 c.inflight - 1) c.inflight,
  )

  pub take_local-Counts :
      (c c' : TenantAdmissionController)
      → take_local scope c ≡ some c'
      → Counts bundle scope limit f q i c
      → Counts bundle scope limit (f - 1) q i c' × (1 ≤ f)
  unfolding take_local
  take_local-Counts c c' taken h = elim (Option-cases (lookup scope c.semaphores)) [
    | inl missing ↦ ground (arith, taken, missing)
    | inr (free, there) ↦ ground (
      arith,
      taken,
      there,
      h.same_bundle,
      h.free_is,
      h.queued_is,
      h.inflight_is,
      get_or-insert_self scope limit (free - 1) c.semaphores,
    )
  ]

  pub give_back_at-Counts :
      (c : TenantAdmissionController)
      → contains scope c.semaphores ≡ true
      → Counts bundle scope limit f q i c
      → Counts bundle scope limit (f + 1) q i (give_back_at scope c)
  unfolding give_back_at
  give_back_at-Counts c there h = ground (
    arith,
    h.same_bundle,
    h.free_is,
    h.queued_is,
    h.inflight_is,
    get_or_present scope 0 limit c.semaphores there,
    get_or-insert_self scope limit (get_or scope 0 c.semaphores + 1) c.semaphores,
  )

  pub enqueue_at_ok :
      (queue_limit : ℕ) (c c' : TenantAdmissionController)
      → enqueue_at scope limit queue_limit c ≡ (c', ok tt)
      → c' ≡ take_ticket scope c
  unfolding enqueue_at
  enqueue_at_ok queue_limit c c' h = ground (arith, h)

  pub enqueue_at_err :
      (queue_limit : ℕ) (c c' : TenantAdmissionController) (e : HttpError)
      → enqueue_at scope limit queue_limit c ≡ (c', err e)
      → c' ≡ c
  unfolding enqueue_at
  enqueue_at_err queue_limit c c' e h = ground (arith, h)

  pub enqueue_over_ok :
      (queue_limit : ℕ) (answer : Exchange ℕ) (c c' : TenantAdmissionController)
      → enqueue_over scope limit queue_limit answer c ≡ (c', ok tt)
      → c' ≡ take_ticket scope c
  unfolding enqueue_over
  enqueue_over_ok queue_limit raised c c' h = ground (arith, h)
  enqueue_over_ok queue_limit (replied n) c c' h = ground (arith, h)

  -- With as many at work as the limit says and no queue, a request is refused.
  pub enqueue_at_full :
      (c : TenantAdmissionController)
      → Counts bundle scope limit f q i c
      → limit ≤ i
      → enqueue_at scope limit 0 c ≡ (c, err concurrency_exceeded)
  unfolding enqueue_at
  enqueue_at_full c h full = ground (arith, h.inflight_is, full)

  -- The same of a section of another scope `j`, whatever its limits are.
  module _ (j : String) (other : str_eq j scope ≡ false) where
    pub make_semaphore-apart :
        (l : ℕ) (c : TenantAdmissionController)
        → Counts bundle scope limit f q i c
        → Counts bundle scope limit f q i (make_semaphore j l c)
    unfolding make_semaphore
    make_semaphore-apart l c h = ground (
      arith,
      other,
      h.same_bundle,
      h.free_is,
      h.queued_is,
      h.inflight_is,
      get_or-insert j scope limit l c.semaphores,
    )

    pub take_ticket-apart :
        (c : TenantAdmissionController)
        → Counts bundle scope limit f q i c
        → Counts bundle scope limit f q i (take_ticket j c)
    unfolding take_ticket
    take_ticket-apart c h = ground (
      arith,
      other,
      h.same_bundle,
      h.free_is,
      h.queued_is,
      h.inflight_is,
      get_or-insert j scope 0 (get_or j 0 c.queued + 1) c.queued,
    )

    pub dequeue-apart :
        (acquired : Bool) (c : TenantAdmissionController)
        → Counts bundle scope limit f q i c
        → Counts bundle scope limit f q i (dequeue acquired j c)
    unfolding dequeue
    dequeue-apart acquired c h = ground (
      arith,
      other,
      h.same_bundle,
      h.free_is,
      h.queued_is,
      h.inflight_is,
      get_or-insert j scope 0 (get_or j 1 c.queued - 1) c.queued,
      get_or-insert j scope 0 (get_or j 0 c.inflight + 1) c.inflight,
    )

    pub uncount-apart :
        (c : TenantAdmissionController)
        → Counts bundle scope limit f q i c
        → Counts bundle scope limit f q i (uncount j c)
    unfolding uncount
    uncount-apart c h = ground (
      arith,
      other,
      h.same_bundle,
      h.free_is,
      h.queued_is,
      h.inflight_is,
      get_or-insert j scope 0 (get_or j 1 c.inflight - 1) c.inflight,
    )

    pub give_back_at-apart :
        (c : TenantAdmissionController)
        → Counts bundle scope limit f q i c
        → Counts bundle scope limit f q i (give_back_at j c)
    unfolding give_back_at
    give_back_at-apart c h = ground (
      arith,
      other,
      h.same_bundle,
      h.free_is,
      h.queued_is,
      h.inflight_is,
      get_or-insert j scope limit (get_or j 0 c.semaphores + 1) c.semaphores,
    )

    pub take_local-apart :
        (c c' : TenantAdmissionController)
        → take_local j c ≡ some c'
        → Counts bundle scope limit f q i c
        → Counts bundle scope limit f q i c'
    unfolding take_local
    take_local-apart c c' taken h = elim (Option-cases (lookup j c.semaphores)) [
      | inl missing ↦ ground (arith, taken, missing)
      | inr (free, there) ↦ ground (
        arith,
        other,
        taken,
        there,
        h.same_bundle,
        h.free_is,
        h.queued_is,
        h.inflight_is,
        get_or-insert j scope limit (free - 1) c.semaphores,
      )
    ]

    pub enqueue_at-apart :
        (l ql : ℕ) (c : TenantAdmissionController)
        → Counts bundle scope limit f q i c
        → Counts bundle scope limit f q i (enqueue_at j l ql c).0
    unfolding enqueue_at
    enqueue_at-apart l ql c h =
        if_both
          (λ (x : TenantAdmissionController × Result HttpError (Unit {0})).
            Counts bundle scope limit f q i x.0)
          _ h (take_ticket-apart c h)

    pub enqueue_over-apart :
        (l ql : ℕ) (answer : Exchange ℕ) (c : TenantAdmissionController)
        → Counts bundle scope limit f q i c
        → Counts bundle scope limit f q i (enqueue_over j l ql answer c).0
    unfolding enqueue_over
    enqueue_over-apart l ql raised c h = h
    enqueue_over-apart l ql (replied n) c h =
        if_both
          (λ (x : TenantAdmissionController × Result Failure (Unit {0})).
            Counts bundle scope limit f q i x.0)
          _ h (take_ticket-apart c h)
