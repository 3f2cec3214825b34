-- ===== src/Usage/Service.antt =====
-- The life of the emitter of app/gateway/usage_events.py, as a step relation.
use ai_runtime_platform.Base.{ℕ, ◌+◌, ◌≡◌, Bool, true, false, Option, none, some, [], if◌then◌else◌}
use ai_runtime_platform.Int.{ℤ}
use ai_runtime_platform.Usage.{
  UsageEvent, Pending, UsageEventEmitter, new_emitter, emit, next_ready, Delivery, no_client,
  accepted, raised, deliver, start, stop_accepting, finish_close,
}

-- The emitter, the item that the worker has taken out and sends, and how many events were put into
-- the queue for the first time, taken by the webhook, and left by a worker that was cancelled or has
-- no client.
pub record Service : Type 0 where
  pub emitter : UsageEventEmitter
  pub in_flight : Option Pending
  pub queued : ℕ
  pub taken : ℕ
  pub abandoned : ℕ

abbrev pub in_hand : Option Pending → ℕ
in_hand none = 0
in_hand (some item) = 1

abbrev pub enters : Bool → UsageEventEmitter → Bool
enters has_webhook e = if has_webhook then e.accepting else false

abbrev pub if_one : Bool → ℕ
if_one true = 1
if_one false = 0

abbrev pub taken_by : Delivery → ℕ
taken_by no_client = 0
taken_by accepted = 1
taken_by raised = 0

abbrev pub left_by : Delivery → ℕ
left_by no_client = 1
left_by accepted = 0
left_by raised = 0

pub data Step (s : Service) : Service → Type 0 where
  emits :
      (has_webhook : Bool) (now : ℕ) (event : UsageEvent)
      → Step s (record s {
        emitter = emit has_webhook now event s.emitter;
        queued = s.queued + if_one (enters has_webhook s.emitter);
      })
  takes :
      (now : ℕ) (item : Pending) (e : UsageEventEmitter)
      → s.emitter.is_working ≡ true
      → s.in_flight ≡ none
      → next_ready now s.emitter ≡ some (item, e)
      → Step s (record s { emitter = e; in_flight = some item })
  delivers :
      (outcome : Delivery) (now : ℕ) (item : Pending)
      → s.in_flight ≡ some item
      → Step s (record s {
        emitter = deliver outcome now item s.emitter;
        in_flight = none;
        taken = s.taken + taken_by outcome;
        abandoned = s.abandoned + left_by outcome;
      })
  starts : Step s (record s { emitter = start s.emitter })
  begins_close : Step s (record s { emitter = stop_accepting s.emitter })
  drained :
      s.emitter.is_working ≡ true
      → s.emitter.pending ≡ []
      → Step s (record s {
        emitter = finish_close false s.emitter;
        in_flight = none;
        abandoned = s.abandoned + in_hand s.in_flight;
      })
  times_out :
      s.emitter.is_working ≡ true
      → Step s (record s {
        emitter = finish_close true s.emitter;
        in_flight = none;
        abandoned = s.abandoned + in_hand s.in_flight;
      })

pub data Reach (s : Service) : Service → Type 0 where
  here : Reach s s
  next : {t u : Service} → Reach s t → Step t u → Reach s u

abbrev pub new_service : ℤ → ℤ → Service
new_service buffer_max max_attempts = record {
  emitter = new_emitter buffer_max max_attempts;
  in_flight = none;
  queued = 0;
  taken = 0;
  abandoned = 0;
}

-- Queued for the first time, and not there any more.
abbrev pub gone : Service → ℕ
gone s =
    let d = s.emitter.dropped in
    s.taken + s.abandoned + d.buffer_overflow + d.max_attempts + d.shutdown_timeout
