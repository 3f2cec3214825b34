-- ===== src/Admission/Local/Witnesses.antt =====
-- Concrete runs of the admission of one process (app/gateway/admission.py).
use ai_runtime_platform.Base.{◌+◌, String, ◌≡◌, refl, true, false, some, List, [], ◌∷◌, arith, err}
use ai_runtime_platform.Dict.{get_or}
use ai_runtime_platform.Tenancy.Policy.{
  TenantPolicyBundle, RedisUnavailablePolicy, fail_closed, degraded,
}
use ai_runtime_platform.Admission.{AcquireReply, granted}
use ai_runtime_platform.Admission.Local.{
  TenantAdmissionController, new_controller, scope_key, limit_of, concurrency_exceeded, Exchange,
  replied, raised, enqueue_local, take_local, dequeue, enqueue_redis, take_ticket, try_redis,
}
use ai_runtime_platform.Admission.Local.Sections.{Counts}
use ai_runtime_platform.Admission.Local.Slots.{
  nobody, Reachable, start, after, arrive, pass, poll, lease, fail_release,
}
use ai_runtime_platform.Admission.Local.Accounts.{every_slot_accounted, lost_releases_block}
use ai_runtime_platform.Admission.Local.Leases.{
  AdmissionLease, leased, acquire_lease, release, redis_lease, start_renewal, renew_loop,
}
use ai_runtime_platform.Admission.Local.Leases.Origin.{IsGrant, fail_closed_comes_from_redis}
use ai_runtime_platform.Admission.Local.Leases.Return.{
  Balanced, acquire_lease-Balanced, lease_is_returned,
}

abbrev one_at_a_time : RedisUnavailablePolicy → TenantPolicyBundle
one_at_a_time policy = record {
  tenants = [];
  default = record {
    allowed_models = [];
    allowed_routes = [];
    max_concurrent_requests = 1;
    max_queued_requests = 0;
    redis_unavailable_policy = policy;
  };
  auditor_groups = "ai-auditors" ∷ [];
}

abbrev fresh : RedisUnavailablePolicy → TenantAdmissionController
fresh policy = new_controller (one_at_a_time policy) true

abbrev queued_one : TenantAdmissionController
queued_one = (enqueue_local "finance" "m" (fresh degraded)).0

abbrev polling_one : TenantAdmissionController
polling_one = (enqueue_redis "finance" "m" (replied 0) (fresh degraded)).0

one_waits :
    Reachable (one_at_a_time degraded) true "finance" "m" queued_one (record nobody { waiting = 1 })
unfolding enqueue_local
one_waits = after start (arrive {c' = queued_one} refl)

abbrev holding_one : TenantAdmissionController
holding_one = record queued_one { semaphores = ("finance:m", 0) ∷ [] }

one_passes :
    Reachable
      (one_at_a_time degraded)
      true
      "finance"
      "m"
      holding_one
      (record nobody { passing = 1 })
unfolding enqueue_local take_local
one_passes = after one_waits (pass {c' = holding_one} {n = 0} refl refl)

every_slot_accounted_example :
    get_or (scope_key "finance" "m") (limit_of "finance" holding_one) holding_one.semaphores + 1 + 0
    ≡ 1
every_slot_accounted_example =
    every_slot_accounted (one_at_a_time degraded) true "finance" "m" holding_one
      (record nobody { passing = 1 }) one_passes

abbrev leased_one : TenantAdmissionController
leased_one = dequeue true (scope_key "finance" "m") (record polling_one { redis_ok = true })

one_lost :
    Reachable
      (one_at_a_time degraded)
      true
      "finance"
      "m"
      (record leased_one { redis_ok = false })
      (record nobody { unreleased = 1 })
unfolding enqueue_redis
one_lost =
    after (after (after start (poll {c' = polling_one} (replied 0) refl)) (lease {n = 0} refl))
      (fail_release {n = 0} refl)

lost_releases_block_example :
    (enqueue_local "finance" "m" (record leased_one { redis_ok = false })).1
    ≡ err concurrency_exceeded
lost_releases_block_example =
    lost_releases_block (one_at_a_time degraded) true "finance" "m"
      (record leased_one { redis_ok = false }) (record nobody { unreleased = 1 }) one_lost
      (omega arith) refl

fresh-Counts :
    (policy : RedisUnavailablePolicy)
    → Counts (one_at_a_time policy) (scope_key "finance" "m") 1 1 0 0 (fresh policy)
fresh-Counts policy = record {
  same_bundle = refl;
  free_is = refl;
  queued_is = refl;
  inflight_is = refl;
}

abbrev grants : List (Exchange AcquireReply × String)
grants = (replied (granted 7 1 0), "lease-1") ∷ []

abbrev granted_lease : AdmissionLease
granted_lease = start_renewal (redis_lease "finance" "m" "lease-1" 7)

acquired :
    (policy : RedisUnavailablePolicy)
    → acquire_lease "finance" (some "m") (replied 0) grants (fresh policy) ≡ (
      dequeue true
          (scope_key "finance" "m")
          (record (take_ticket (scope_key "finance" "m") (fresh policy)) { redis_ok = true }),
      leased granted_lease,
    )
unfolding acquire_lease enqueue_redis take_ticket try_redis dequeue
acquired policy = refl

acquire_lease-Balanced_example :
    Balanced
      (one_at_a_time degraded)
      "finance"
      "m"
      1
      0
      0
      (acquire_lease "finance" (some "m") raised grants (fresh degraded))
acquire_lease-Balanced_example =
    acquire_lease-Balanced (one_at_a_time degraded) "finance" (some "m") 1 0 0 raised grants
      (fresh degraded) (fresh-Counts degraded)

lease_is_returned_example :
    Counts
      (one_at_a_time fail_closed)
      (scope_key "finance" "m")
      1
      1
      0
      0
      (release granted_lease (replied tt) (replied 0) (
        dequeue true
          (scope_key "finance" "m")
          (record (take_ticket (scope_key "finance" "m") (fresh fail_closed)) {
            redis_ok = true;
          }))).1
lease_is_returned_example =
    (lease_is_returned (one_at_a_time fail_closed) "finance" (some "m") 1 0 0 (replied 0) grants
      (replied 0) (fresh fail_closed) _ granted_lease (fresh-Counts fail_closed)
      (acquired fail_closed)).0

fail_closed_comes_from_redis_example : IsGrant grants granted_lease
fail_closed_comes_from_redis_example =
    fail_closed_comes_from_redis "finance" (some "m") (replied 0) grants (fresh fail_closed) _
      granted_lease refl refl (acquired fail_closed)

-- One exchange that raises ends the renewals of a lease, though the next would have succeeded.
renewals_end :
    (renew_loop
      ((record { gone = false; answer = raised })
        ∷ (record { gone = false; answer = replied true })
        ∷ [])
      (fresh degraded)).1
    ≡ 0
unfolding renew_loop
renewals_end = refl

-- Two tenants share a semaphore, where a name holds a colon.
scopes_collide : scope_key "a" "b:c" ≡ scope_key "a:b" "c"
scopes_collide = refl
