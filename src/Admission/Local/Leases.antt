-- ===== src/Admission/Local/Leases.antt =====
-- `AdmissionLease` and the methods of `TenantAdmissionController` (app/gateway/admission.py) that
-- give a lease and take it back, run with no other task between their sections. A method that waits
-- for a slot, or has not heard from Redis yet, has the outcome `waits`.
pub mod Origin
pub mod Return
use ai_runtime_platform.Base.{
  ℕ, ◌+◌, String, Bool, true, false, not, ◌&&◌, Option, none, some, List, [], ◌∷◌, if◌then◌else◌,
  Result, ok, err,
}
use ai_runtime_platform.Dict.{get_or}
use ai_runtime_platform.Http.{HttpError}
use ai_runtime_platform.Tenancy.Policy.{
  RedisUnavailablePolicy, fail_closed, degraded, fail_open, for_tenant, or_empty,
}
use ai_runtime_platform.Admission.{AcquireReply}
use ai_runtime_platform.Admission.Local.{
  AdmissionMode, on_local, on_redis, on_fail_open, on_degraded, TenantAdmissionController,
  scope_key, queue_limit_of, store_unavailable, enqueue_local, take_local, dequeue, give_back,
  uncount, Exchange, replied, raised, Failure, refused, broken, enqueue_redis, Round, got, again,
  gives_up, try_redis,
}

pub record AdmissionLease : Type 0 where
  pub tenant_id : String
  pub model : String
  pub lease_id : Option String
  pub fencing_token : Option ℕ
  pub mode : AdmissionMode
  pub released : Bool
  pub renewing : Bool

pub data Outcome : Type 0 where
  leased : AdmissionLease → Outcome
  failed : Failure → Outcome
  waits : Outcome

-- a lease without a place in Redis
abbrev pub plain_lease : String → String → AdmissionMode → AdmissionLease
plain_lease tenant_id model mode = record {
  tenant_id = tenant_id;
  model = model;
  lease_id = none;
  fencing_token = none;
  mode = mode;
  released = false;
  renewing = false;
}

-- the rest of `_acquire_local` for a request in the queue
unfoldable pub take_queued :
    AdmissionMode
    → String
    → String
    → TenantAdmissionController
    → TenantAdmissionController × Outcome
take_queued mode tenant_id model c = elim (take_local (scope_key tenant_id model) c) [
  | none ↦ (c, waits)
  | some c' ↦
      (dequeue true (scope_key tenant_id model) c', leased (plain_lease tenant_id model mode))
]

-- The rest of `_acquire_local`, for what its locked section made of the request.
unfoldable pub enter_queue :
    AdmissionMode
    → String
    → String
    → TenantAdmissionController × Result HttpError (Unit {0})
    → TenantAdmissionController × Outcome
unfolding take_queued
enter_queue mode tenant_id model (c, err e) = (c, failed (refused e))
enter_queue mode tenant_id model (c, ok _) = take_queued mode tenant_id model c

-- `_acquire_local`, with the mode that the lease gets in the end
unfoldable pub acquire_local :
    AdmissionMode
    → String
    → String
    → TenantAdmissionController
    → TenantAdmissionController × Outcome
unfolding enter_queue
acquire_local mode tenant_id model c =
    enter_queue mode tenant_id model (enqueue_local tenant_id model c)

-- The loop of `_acquire_redis`, over what Redis answers and the lease id of each round.
unfoldable pub poll_redis :
    ℕ → List (Exchange AcquireReply × String) → Option (Result Failure (ℕ × String))
poll_redis max_queued [] = none
poll_redis max_queued ((answer, lease_id) ∷ rest) =
    let later = poll_redis max_queued rest in
    elim (try_redis max_queued answer) [
      | got token ↦ some (ok (token, lease_id))
      | again ↦ later
      | gives_up why ↦ some (err why)
    ]

abbrev pub redis_lease : String → String → String → ℕ → AdmissionLease
redis_lease tenant_id model lease_id token = record {
  tenant_id = tenant_id;
  model = model;
  lease_id = some lease_id;
  fencing_token = some token;
  mode = on_redis;
  released = false;
  renewing = false;
}

-- the `try` of `_acquire_redis`, with its `finally`
unfoldable pub end_polling :
    String
    → String
    → Option (Result Failure (ℕ × String))
    → TenantAdmissionController
    → TenantAdmissionController × Outcome
end_polling tenant_id model none c = (c, waits)
end_polling tenant_id model (some (err why)) c =
    (dequeue false (scope_key tenant_id model) c, failed why)
end_polling tenant_id model (some (ok (token, lease_id))) c = (
  dequeue true (scope_key tenant_id model) (record c { redis_ok = true }),
  leased (redis_lease tenant_id model lease_id token),
)

-- The rest of `_acquire_redis`, for what its locked section made of the request.
unfoldable pub enter_polling :
    String
    → String
    → Option (Result Failure (ℕ × String))
    → TenantAdmissionController × Result Failure (Unit {0})
    → TenantAdmissionController × Outcome
unfolding end_polling
enter_polling tenant_id model polled (c, err why) = (c, failed why)
enter_polling tenant_id model polled (c, ok _) = end_polling tenant_id model polled c

unfoldable pub acquire_redis :
    String
    → String
    → Exchange ℕ
    → List (Exchange AcquireReply × String)
    → TenantAdmissionController
    → TenantAdmissionController × Outcome
unfolding poll_redis enter_polling
acquire_redis tenant_id model probe answers c =
    enter_polling tenant_id model (poll_redis (queue_limit_of tenant_id c) answers)
      (enqueue_redis tenant_id model probe c)

-- `_acquire_unavailable`
unfoldable pub acquire_unavailable :
    RedisUnavailablePolicy
    → String
    → String
    → TenantAdmissionController
    → TenantAdmissionController × Outcome
unfolding acquire_local
acquire_unavailable fail_closed tenant_id model c = (c, failed (refused store_unavailable))
acquire_unavailable fail_open tenant_id model c =
    (c, leased (plain_lease tenant_id model on_fail_open))
acquire_unavailable degraded tenant_id model c = acquire_local on_degraded tenant_id model c

-- `start_renewal`: the loop runs for a lease over Redis.
abbrev pub renewing_by : AdmissionMode → AdmissionLease → AdmissionLease
renewing_by on_redis l = record l { renewing = true }
renewing_by on_local l = l
renewing_by on_degraded l = l
renewing_by on_fail_open l = l

abbrev pub start_renewal : AdmissionLease → AdmissionLease
start_renewal l = renewing_by l.mode l

-- what `acquire_lease` makes of the outcome of `_acquire_redis`
unfoldable pub settle_redis :
    RedisUnavailablePolicy
    → String
    → String
    → TenantAdmissionController × Outcome
    → TenantAdmissionController × Outcome
unfolding acquire_unavailable
settle_redis policy tenant_id model (c, leased l) = (c, leased (start_renewal l))
settle_redis policy tenant_id model (c, failed (refused e)) = (c, failed (refused e))
settle_redis policy tenant_id model (c, failed broken) =
    acquire_unavailable policy tenant_id model (record c { redis_ok = false })
settle_redis policy tenant_id model (c, waits) = (c, waits)

-- `str(model or "*")`
abbrev pub model_key : Option String → String
model_key none = "*"
model_key (some String.[]) = "*"
model_key (some (String.◌∷◌ a name)) = String.◌∷◌ a name

unfoldable pub acquire_lease :
    String
    → Option String
    → Exchange ℕ
    → List (Exchange AcquireReply × String)
    → TenantAdmissionController
    → TenantAdmissionController × Outcome
unfolding acquire_redis settle_redis
acquire_lease tenant_id model probe answers c =
    let name = model_key model in
    let policy = (for_tenant tenant_id c.bundle).redis_unavailable_policy in
    if c.redis
    then settle_redis policy tenant_id name (acquire_redis tenant_id name probe answers c)
    else acquire_local on_local tenant_id name c

-- `inflight_count`, with the number of leases that `_PURGE_LUA` leaves
unfoldable pub inflight_count :
    String → String → Exchange ℕ → TenantAdmissionController → TenantAdmissionController × ℕ
inflight_count tenant_id model answer c =
    let here = get_or (scope_key tenant_id model) 0 c.inflight in
    if c.redis && c.redis_ok
    then (elim answer [
      | replied inflight ↦ (c, inflight)
      | raised ↦ (record c { redis_ok = false }, here)
    ])
    else (c, here)

-- The release of a lease over Redis: whether `_RELEASE_LUA` was answered, and then `_PURGE_LUA`.
unfoldable pub release_redis :
    String
    → String
    → Exchange (Unit {0})
    → Exchange ℕ
    → TenantAdmissionController
    → TenantAdmissionController
release_redis tenant_id model raised purged c = record c { redis_ok = false }
release_redis tenant_id model (replied _) purged c =
    (inflight_count tenant_id model purged (uncount (scope_key tenant_id model) c)).0

abbrev pub is_some {ℓ} : {A : Type ℓ} → Option A → Bool
is_some none = false
is_some (some a) = true

-- `_release`, by the mode of the lease
unfoldable pub release_by :
    AdmissionMode
    → AdmissionLease
    → Exchange (Unit {0})
    → Exchange ℕ
    → TenantAdmissionController
    → TenantAdmissionController
release_by on_local l answer purged c =
    uncount (scope_key l.tenant_id l.model) (give_back l.tenant_id l.model c)
release_by on_degraded l answer purged c =
    uncount (scope_key l.tenant_id l.model) (give_back l.tenant_id l.model c)
release_by on_fail_open l answer purged c = c
release_by on_redis l answer purged c =
    if c.redis && (is_some l.lease_id && is_some l.fencing_token)
    then release_redis l.tenant_id l.model answer purged c
    else c

-- `AdmissionLease.release`
unfoldable pub release :
    AdmissionLease
    → Exchange (Unit {0})
    → Exchange ℕ
    → TenantAdmissionController
    → AdmissionLease × TenantAdmissionController
unfolding release_by
release l answer purged c =
    if l.released
    then (l, c)
    else (record l { released = true; renewing = false }, release_by l.mode l answer purged c)

-- A round of `_renew_loop`: whether the lease was released meanwhile, and whether Redis renewed it.
pub record Renewal : Type 0 where
  pub gone : Bool
  pub answer : Exchange Bool

-- `_renew_loop`, with the number of renewals
unfoldable pub renew_loop : List Renewal → TenantAdmissionController → TenantAdmissionController × ℕ
renew_loop [] c = (c, 0)
renew_loop (r ∷ rs) c =
    let (c', n) = renew_loop rs c in
    if r.gone then (c, 0) else (elim r.answer [
      | raised ↦ (record c { redis_ok = false }, 0)
      | replied renewed ↦ if renewed then (c', n + 1) else (c, 0)
    ])
