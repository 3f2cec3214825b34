-- ===== src/Resilience/Shedding.antt =====
-- `GlobalAdmissionController` of app/gateway/resilience.py. Its methods await, so they are cut
-- where they do; between two cuts a task runs alone. A task may be cancelled while it waits for
-- the semaphore; a cancellation that hits it on the lock itself is left out.
pub mod Counters
use ai_runtime_platform.Base.{
  ℕ, ◌+◌, ◌-◌, max, Bool, true, false, ◌&&◌, Option, none, some, leb, ◌==◌, if◌then◌else◌, Result,
  ok, err,
}
use ai_runtime_platform.Http.{HttpError}

pub record GlobalAdmissionController : Type 0 where
  pub max_inflight : ℕ
  pub max_queued : ℕ
  pub sem : ℕ
  pub queued : ℕ
  pub inflight : ℕ

-- The dataclass with its `__post_init__`.
abbrev pub new_controller : ℕ → ℕ → GlobalAdmissionController
new_controller max_inflight max_queued = record {
  max_inflight = max_inflight;
  max_queued = max_queued;
  sem = max 1 max_inflight;
  queued = 0;
  inflight = 0;
}

abbrev pub gateway_load_shed : HttpError
gateway_load_shed = record { status_code = 503; code = "gateway_load_shed"; retry_after = some 1 }

-- the first locked section of `acquire`
unfoldable pub enqueue : GlobalAdmissionController → Result HttpError GlobalAdmissionController
enqueue c =
    if leb c.max_inflight c.inflight && leb c.max_queued c.queued
    then err gateway_load_shed
    else ok (record c { queued = c.queued + 1 })

-- `await self._sem.acquire()`, which does not return while no slot is free
unfoldable pub take_slot : GlobalAdmissionController → Option GlobalAdmissionController
take_slot c = if c.sem == 0 then none else some (record c { sem = c.sem - 1 })

-- the `finally` of `acquire`
unfoldable pub dequeue : Bool → GlobalAdmissionController → GlobalAdmissionController
dequeue acquired c =
    let c' = record c { queued = c.queued - 1 } in
    if acquired then record c' { inflight = c.inflight + 1 } else c'

-- the two halves of `release`
unfoldable pub give_back : GlobalAdmissionController → GlobalAdmissionController
give_back c = record c { sem = c.sem + 1 }

unfoldable pub uncount : GlobalAdmissionController → GlobalAdmissionController
uncount c = record c { inflight = c.inflight - 1 }
