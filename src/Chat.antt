-- ===== src/Chat.antt =====
-- `chat_completions` and `_chat_completions_admitted` of app/gateway/routers/chat.py: what a
-- request holds on its way (a global slot, a lease, a budget reservation), and where it gives it
-- back. How the other parts answer is an argument; the budget guard is called as it is. A part that
-- raises is an `err`; the cancellation of the handler is left out.
pub mod Cleanup
pub mod Refund
mod Witnesses
use ai_runtime_platform.Base.{
  ℕ, ◌+◌, ◌-◌, String, Bool, true, false, not, ◌&&◌, Option, none, some, if◌then◌else◌, Result, ok,
  err,
}
use ai_runtime_platform.Http.{HttpError}
use ai_runtime_platform.Money.{Float}
use ai_runtime_platform.Budget.Decision.{
  BudgetDecision, BudgetReservation, Reason, Verdict, allow, deny, budget_exceeded, store_timeout,
  store_corrupt, store_unavailable, malformed_policy, guard_disabled_misconfigured,
}
use ai_runtime_platform.Budget.Guard.{Guard, Request, World, reserve}
use ai_runtime_platform.Budget.Reservation.{Held, abandon, mark_executed, release, settle}

-- What a request holds. `slots` and `leases` count what it took and did not give back.
pub record Flow : Type 0 where
  pub guard : Guard
  pub reservation : Option BudgetReservation
  pub slots : ℕ
  pub leases : ℕ

-- How the call of the model backends ends: an answer, with the cost when it is known; a
-- ConnectError, ConnectTimeout or HTTPStatusError; any other httpx error.
pub data Upstream : Type 0 where
  responded : Option Float → Upstream
  refused : Upstream
  broken : Upstream

-- How the parts answer, in the order of the calls: body, tenant policy and drain; the global slot
-- and the lease, where they are configured; the quota; governance; the choice of a backend; the
-- upstream; what comes before the settlement, and after it; and, for a stream, the part of its end
-- that comes before its settlement.
pub record Parts : Type 0 where
  pub accepted : Result HttpError Unit
  pub slot : Option (Result HttpError Unit)
  pub lease : Option (Result HttpError Unit)
  pub request : Request
  pub reserved_in : World
  pub quota : Result HttpError Unit
  pub governance : Result HttpError Unit
  pub selection : Result HttpError Unit
  pub target_known : Bool
  pub stream : Bool
  pub upstream : Upstream
  pub before_settlement : Result HttpError Unit
  pub after_settlement : Result HttpError Unit
  pub closing : Result HttpError Unit
  pub settled_in : World
  pub closed_in : World

abbrev pub api_error : ℕ → String → Option ℕ → HttpError
api_error status code retry = record { status_code = status; code = code; retry_after = retry }

-- `decision_to_http_exception`
unfoldable pub code_of : Reason → String
code_of budget_exceeded = "inference_budget_exceeded"
code_of store_unavailable = "budget_store_unavailable"
code_of store_timeout = "budget_store_timeout"
code_of store_corrupt = "budget_store_corrupt"
code_of malformed_policy = "budget_policy_invalid"
code_of guard_disabled_misconfigured = "budget_policy_invalid"
code_of _ = "inference_budget_denied"

unfoldable pub decision_to_http_exception : BudgetDecision → HttpError
unfolding code_of
decision_to_http_exception d = api_error d.status_code (code_of d.reason) (some 1)

-- A method of the reservation, when there is one.
unfoldable pub with_reservation : (Held → Held) → Flow → Flow
with_reservation method f = elim f.reservation [
  | none ↦ f
  | some r ↦ let (g, r') = method (f.guard, r) in record f { guard = g; reservation = some r' }
]

unfoldable pub release_lease : Flow → Flow
release_lease f = record f { leases = 0 }

unfoldable pub release_slot : Flow → Flow
release_slot f = record f { slots = f.slots - 1 }

-- `enabled`
unfoldable pub guard_enabled : Guard → Bool
guard_enabled g = elim g.policy [ none ↦ false | some policy ↦ policy.enabled ]

abbrev pub Outcome : Type 0
Outcome = Flow × Result HttpError Unit

abbrev pub take_answer : Flow → BudgetDecision → Option BudgetReservation → Outcome
take_answer f d r = elim d.decision [
  | deny ↦ (f, err (decision_to_http_exception d))
  | allow ↦ (record f { reservation = r }, ok record {})
]

-- the `finally` of `_finalize_stream`, after its `try`
unfoldable pub finalize_stream : Parts → Option Float → Flow → Flow
finalize_stream p cost f =
    let tried : Flow = elim p.closing [
      | ok _ ↦ with_reservation (settle cost p.settled_in) f
      | err error ↦ f
    ] in
    release_slot (release_lease (with_reservation (settle none p.closed_in) tried))

-- The end of the plain path.
unfoldable pub finish : Parts → Option Float → Flow → Outcome
finish p cost f = elim p.before_settlement [
  | err error ↦ (f, err error)
  | ok _ ↦
      let paid = with_reservation (settle cost p.settled_in) f in
      elim p.after_settlement [
        | err error ↦ (paid, err error)
        | ok _ ↦ (release_slot (release_lease paid), ok record {})
      ]
]

-- The call of the upstream and what follows it. A stream is finalized when it ends.
unfoldable pub call_upstream : Parts → Flow → Outcome
call_upstream p f = elim p.upstream [
  | refused ↦
      (with_reservation (release p.settled_in) f, err (api_error 502 "upstream_unavailable" none))
  | broken ↦ (
    with_reservation (settle none p.settled_in) f,
    err (api_error 502 "upstream_unavailable" none),
  )
  | responded cost ↦
      if p.stream
      then (elim p.before_settlement [
        | err error ↦ (f, err error)
        | ok _ ↦ (finalize_stream p cost f, ok record {})
      ])
      else finish p cost f
]

abbrev pub executed : Held → Held
executed (g, r) = (g, mark_executed r)

-- governance, the choice of a backend and its target; each failure refunds
unfoldable pub choose_and_call : Parts → Flow → Outcome
choose_and_call p f = elim p.governance [
  | err error ↦ (with_reservation (release p.settled_in) f, err error)
  | ok _ ↦ elim p.selection [
    | err error ↦ (with_reservation (release p.settled_in) f, err error)
    | ok _ ↦
        if p.target_known
        then call_upstream p (with_reservation executed f)
        else (with_reservation (release p.settled_in) f, err (api_error 404 "model_not_found" none))
  ]
]

module _ (sha256_hex : String → String) where
  -- `_reserve_inference_budget`, for a guard that is configured
  unfoldable pub reserve_inference_budget : Parts → Flow → Outcome
  reserve_inference_budget p f =
      if guard_enabled f.guard
      then (let (g, (d, r)) = reserve sha256_hex p.request p.reserved_in f.guard in
          take_answer (record f { guard = g }) d r)
      else (f, ok record {})

  unfoldable pub chat_completions_admitted : Parts → Flow → Outcome
  chat_completions_admitted p f =
      let (f', reserved) = reserve_inference_budget p f in
      elim reserved [
        | err error ↦ (f', err error)
        | ok _ ↦ elim p.quota [ err error ↦ (f', err error) | ok _ ↦ choose_and_call p f' ]
      ]

  -- the `except` around `_chat_completions_admitted`
  unfoldable pub clean_up : Parts → Outcome → Outcome
  clean_up p (f, ok done) = (f, ok done)
  clean_up p (f, err error) =
      (release_slot (release_lease (with_reservation (abandon p.closed_in) f)), err error)

  abbrev pub with_lease : Parts → Flow → Outcome
  with_lease p f = elim p.lease [
    | none ↦ clean_up p (chat_completions_admitted p f)
    | some (err error) ↦ (release_slot f, err error)
    | some (ok _) ↦ clean_up p (chat_completions_admitted p (record f { leases = f.leases + 1 }))
  ]

  abbrev pub slot_taken : Parts → Flow → Option (Result HttpError Unit) → Outcome
  slot_taken p f none = with_lease p f
  slot_taken p f (some (err error)) = (f, err error)
  slot_taken p f (some (ok _)) = with_lease p (record f { slots = f.slots + 1 })

  unfoldable pub chat_completions : Parts → Flow → Outcome
  chat_completions p f = elim p.accepted [
    | err error ↦ (f, err error)
    | ok _ ↦ slot_taken p f p.slot
  ]
