-- ===== src/Admission/Local.antt =====
-- `TenantAdmissionController` of app/gateway/admission.py within one process: the semaphores, the
-- queue and the leases. A method that awaits is cut where it does; what runs under the lock is one
-- section. What Redis answered to a script is an argument.
pub mod Sections
pub mod Slots
pub mod Accounts
pub mod Leases
mod Witnesses
use ai_runtime_platform.Base.{
  ℕ, ◌+◌, ◌-◌, String, Bool, true, false, ◌&&◌, Option, none, some, List, [], ◌∷◌, leb, ◌==◌,
  append, if◌then◌else◌, Result, ok, err,
}
use ai_runtime_platform.Dict.{Dict, lookup, get_or, contains, insert}
use ai_runtime_platform.Http.{HttpError}
use ai_runtime_platform.Tenancy.Policy.{
  TenantPolicyBundle, TenantRuntimePolicy, RedisUnavailablePolicy, fail_closed, degraded, fail_open,
  for_tenant,
}
use ai_runtime_platform.Admission.{AcquireReply, denied, granted}

pub data AdmissionMode : Type 0 where
  on_local on_redis on_fail_open on_degraded : AdmissionMode

-- `last_redis_error` is a text for the status page, and left out.
pub record TenantAdmissionController : Type 0 where
  pub bundle : TenantPolicyBundle
  pub redis : Bool
  pub redis_ok : Bool
  pub semaphores : Dict ℕ
  pub queued : Dict ℕ
  pub inflight : Dict ℕ

abbrev pub new_controller : TenantPolicyBundle → Bool → TenantAdmissionController
new_controller bundle redis = record {
  bundle = bundle;
  redis = redis;
  redis_ok = redis;
  semaphores = [];
  queued = [];
  inflight = [];
}

-- `status()["mode"]`
unfoldable pub status_mode : TenantAdmissionController → AdmissionMode
status_mode c = if c.redis then (if c.redis_ok then on_redis else on_degraded) else on_local

abbrev pub scope_key : String → String → String
scope_key tenant_id model = append tenant_id (append ":" model)

abbrev pub limit_of : String → TenantAdmissionController → ℕ
limit_of tenant_id c = (for_tenant tenant_id c.bundle).max_concurrent_requests

abbrev pub queue_limit_of : String → TenantAdmissionController → ℕ
queue_limit_of tenant_id c = (for_tenant tenant_id c.bundle).max_queued_requests

-- the `if` of `_local_semaphore`, for a key and a limit
unfoldable pub make_semaphore : String → ℕ → TenantAdmissionController → TenantAdmissionController
make_semaphore key limit c =
    if contains key c.semaphores then c else record c { semaphores = insert key limit c.semaphores }

-- `_local_semaphore`
unfoldable pub local_semaphore :
    String → String → TenantAdmissionController → TenantAdmissionController
unfolding make_semaphore
local_semaphore tenant_id model c =
    make_semaphore (scope_key tenant_id model) (limit_of tenant_id c) c

abbrev pub concurrency_exceeded : HttpError
concurrency_exceeded = record {
  status_code = 429;
  code = "tenant_concurrency_exceeded";
  retry_after = some 1;
}

abbrev pub store_unavailable : HttpError
store_unavailable = record {
  status_code = 503;
  code = "admission_store_unavailable";
  retry_after = some 1;
}

-- `self._queued[scope] = queued + 1`
unfoldable pub take_ticket : String → TenantAdmissionController → TenantAdmissionController
take_ticket scope c = record c { queued = insert scope (get_or scope 0 c.queued + 1) c.queued }

-- the locked section of `_acquire_local`
unfoldable pub enqueue_at :
    String
    → ℕ
    → ℕ
    → TenantAdmissionController
    → TenantAdmissionController × Result HttpError (Unit {0})
unfolding take_ticket
enqueue_at scope limit queue_limit c =
    if leb limit (get_or scope 0 c.inflight) && leb queue_limit (get_or scope 0 c.queued)
    then (c, err concurrency_exceeded)
    else (take_ticket scope c, ok tt)

-- `_acquire_local` up to its wait
unfoldable pub enqueue_local :
    String
    → String
    → TenantAdmissionController
    → TenantAdmissionController × Result HttpError (Unit {0})
unfolding local_semaphore enqueue_at
enqueue_local tenant_id model c =
    enqueue_at (scope_key tenant_id model) (limit_of tenant_id c) (queue_limit_of tenant_id c)
      (local_semaphore tenant_id model c)

-- `await sem.acquire()`, which does not return while no slot is free
unfoldable pub take_local : String → TenantAdmissionController → Option TenantAdmissionController
take_local scope c = elim (lookup scope c.semaphores) [
  | none ↦ none
  | some free ↦
      if free == 0
      then none
      else some (record c { semaphores = insert scope (free - 1) c.semaphores })
]

-- the `finally` of `_acquire_local` and of `_acquire_redis`
unfoldable pub dequeue : Bool → String → TenantAdmissionController → TenantAdmissionController
dequeue acquired scope c =
    let c1 = record c { queued = insert scope (get_or scope 1 c.queued - 1) c.queued } in
    if acquired
    then record c1 { inflight = insert scope (get_or scope 0 c.inflight + 1) c.inflight }
    else c1

-- The two halves of `_release` for a local lease. The semaphore is looked up, or made, again.
unfoldable pub give_back_at : String → TenantAdmissionController → TenantAdmissionController
give_back_at scope c = record c {
  semaphores = insert scope (get_or scope 0 c.semaphores + 1) c.semaphores;
}

unfoldable pub give_back : String → String → TenantAdmissionController → TenantAdmissionController
unfolding local_semaphore give_back_at
give_back tenant_id model c =
    give_back_at (scope_key tenant_id model) (local_semaphore tenant_id model c)

unfoldable pub uncount : String → TenantAdmissionController → TenantAdmissionController
uncount scope c = record c { inflight = insert scope (get_or scope 1 c.inflight - 1) c.inflight }

-- What came of a script: its reply, or an exception that is no HTTPException.
pub data Exchange (A : Type 0) : Type 0 where
  replied : A → Exchange A
  raised : Exchange A

-- Why an acquisition over Redis ended: refused with an HTTPException, or broken by an exception.
pub data Failure : Type 0 where
  refused : HttpError → Failure
  broken : Failure

-- the locked section of `_acquire_redis`, with the number of leases that `_PURGE_LUA` found
unfoldable pub enqueue_over :
    String
    → ℕ
    → ℕ
    → Exchange ℕ
    → TenantAdmissionController
    → TenantAdmissionController × Result Failure (Unit {0})
unfolding take_ticket
enqueue_over scope limit queue_limit raised c = (c, err broken)
enqueue_over scope limit queue_limit (replied inflight) c =
    if leb limit inflight && leb queue_limit (get_or scope 0 c.queued)
    then (c, err (refused concurrency_exceeded))
    else (take_ticket scope c, ok tt)

unfoldable pub enqueue_redis :
    String
    → String
    → Exchange ℕ
    → TenantAdmissionController
    → TenantAdmissionController × Result Failure (Unit {0})
unfolding enqueue_over
enqueue_redis tenant_id model answer c =
    enqueue_over (scope_key tenant_id model) (limit_of tenant_id c) (queue_limit_of tenant_id c)
      answer c

-- One round of the loop of `_acquire_redis`: the token and whether it goes on.
pub data Round : Type 0 where
  got : ℕ → Round
  again : Round
  gives_up : Failure → Round

unfoldable pub try_redis : ℕ → Exchange AcquireReply → Round
try_redis max_queued raised = gives_up broken
try_redis max_queued (replied (granted token inflight expired)) = got token
try_redis max_queued (replied (denied inflight expired)) =
    if max_queued == 0 then gives_up (refused concurrency_exceeded) else again
