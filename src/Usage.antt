-- ===== src/Usage.antt =====
-- app/gateway/usage_events.py: the queue of usage events and its worker, cut where it awaits. Times
-- are whole milliseconds. Of the Prometheus counters those of the dropped events are kept.
pub mod Accounts
pub mod Service
pub mod Attempts
pub mod Sends
mod Witnesses
use Prim.Native.String.{slice, len}
use text.Mathlib.Text.{starts_with}
use ai_runtime_platform.Base.{
  ℕ, suc, ◌+◌, ◌*◌, ◌^◌, max, min, String, Bool, true, false, not, Option, none, some, List, [],
  ◌∷◌, ◌++◌, str_eq, leb, ◌||◌, if◌then◌else◌, length, append,
}
use ai_runtime_platform.Int.{ℤ, pos, negsuc}
use ai_runtime_platform.Money.{Float}
use ai_runtime_platform.Mcp.{Json, object, Fields, get_field, Python}
use ai_runtime_platform.Mcp.Stream.{object_of}

pub record UsageEvent : Type 0 where
  pub event_id : String
  pub tenant_id : String
  pub request_id : String
  pub decision_id : Option String
  pub model : String
  pub backend : String
  pub input_tokens : ℕ
  pub output_tokens : ℕ
  pub estimated_cost_usd : Option Float
  pub gpu_seconds : Option Float
  pub ttft_ms : Option Float
  pub duration_ms : Float
  pub outcome : String
  pub enqueued_at : ℕ
  pub attempts : ℕ

-- `_Pending`
pub record Pending : Type 0 where
  pub event : UsageEvent
  pub next_attempt_at : ℕ

-- USAGE_EVENTS_DROPPED by its reasons
pub record Dropped : Type 0 where
  pub buffer_overflow : ℕ
  pub not_accepting : ℕ
  pub max_attempts : ℕ
  pub shutdown_timeout : ℕ

-- `is_working` says that there is a worker.
pub record UsageEventEmitter : Type 0 where
  pub pending : List Pending
  pub max_pending : ℕ
  pub max_attempts : ℕ
  pub accepting : Bool
  pub is_working : Bool
  pub dropped : Dropped

-- `max(1, n)` of a setting that was read
abbrev pub at_least_one : ℤ → ℕ
at_least_one (pos n) = max 1 n
at_least_one (negsuc n) = 1

abbrev pub new_emitter : ℤ → ℤ → UsageEventEmitter
new_emitter buffer_max max_attempts = record {
  pending = [];
  max_pending = at_least_one buffer_max;
  max_attempts = at_least_one max_attempts;
  accepting = true;
  is_working = false;
  dropped = record {
    buffer_overflow = 0;
    not_accepting = 0;
    max_attempts = 0;
    shutdown_timeout = 0;
  };
}

-- `popleft`
abbrev pub popleft {ℓ} : {A : Type ℓ} → List A → List A
popleft [] = []
popleft (x ∷ xs) = xs

abbrev pub count_overflow : UsageEventEmitter → UsageEventEmitter
count_overflow e = record e {
  pending = popleft e.pending;
  dropped = record e.dropped { buffer_overflow = e.dropped.buffer_overflow + 1 };
}

-- the locked section of `emit` and of `_deliver`
unfoldable pub push : Pending → UsageEventEmitter → UsageEventEmitter
push item e =
    let e1 = if leb e.max_pending (length e.pending) then count_overflow e else e in
    record e1 { pending = e1.pending ++ item ∷ [] }

-- `emit`. The two readings of the clock are one.
unfoldable pub emit : Bool → ℕ → UsageEvent → UsageEventEmitter → UsageEventEmitter
unfolding push
emit has_webhook now event e =
    if not has_webhook
    then e
    else if not e.accepting
    then record e { dropped = record e.dropped { not_accepting = e.dropped.not_accepting + 1 } }
    else push
        (record { event = record event { enqueued_at = now; attempts = 0 }; next_attempt_at = now })
        e

-- the loop of `_next_ready`
unfoldable pub first_ready : ℕ → List Pending → Option (Pending × List Pending)
first_ready now [] = none
first_ready now (item ∷ items) =
    let rest = first_ready now items in
    if leb item.next_attempt_at now
    then some (item, items)
    else (elim rest [ none ↦ none | some (found, others) ↦ some (found, item ∷ others) ])

-- `_next_ready`
unfoldable pub next_ready : ℕ → UsageEventEmitter → Option (Pending × UsageEventEmitter)
unfolding first_ready
next_ready now e = elim (first_ready now e.pending) [
  | none ↦ none
  | some (item, items) ↦ some (item, record e { pending = items })
]

-- What came of the POST of `_deliver`: there is no client, or the webhook took the event, or
-- something was raised.
pub data Delivery : Type 0 where
  no_client accepted raised : Delivery

-- `min(30.0, 0.25 * (2 ** min(attempts, 6)))`
abbrev pub delay_of : ℕ → ℕ
delay_of attempts = min 30_000 (250 * 2 ^ min attempts 6)

unfoldable pub retry : ℕ → UsageEvent → UsageEventEmitter → UsageEventEmitter
unfolding push
retry now event e =
    let tried = record event { attempts = event.attempts + 1 } in
    if leb e.max_attempts tried.attempts
    then record e { dropped = record e.dropped { max_attempts = e.dropped.max_attempts + 1 } }
    else push (record { event = tried; next_attempt_at = now + delay_of tried.attempts }) e

-- `_deliver`
unfoldable pub deliver : Delivery → ℕ → Pending → UsageEventEmitter → UsageEventEmitter
unfolding retry
deliver no_client now item e = e
deliver accepted now item e = e
deliver raised now item e = retry now item.event e

-- `start`
unfoldable pub start : UsageEventEmitter → UsageEventEmitter
start e = if e.is_working then e else record e { accepting = true; is_working = true }

-- `aclose` up to its wait, and what follows it
unfoldable pub stop_accepting : UsageEventEmitter → UsageEventEmitter
stop_accepting e = record e { accepting = false }

unfoldable pub finish_close : Bool → UsageEventEmitter → UsageEventEmitter
finish_close timed_out e =
    let cleared = record e {
      pending = [];
      dropped = record e.dropped {
        shutdown_timeout = e.dropped.shutdown_timeout + length e.pending;
      };
    } in
    record (if timed_out then cleared else e) { is_working = false }

module _ (sha256_hex : String → String) where
  -- `deterministic_event_id`
  abbrev pub event_id_of : String → String → String → String
  event_id_of request_id outcome backend = append "evt_" (
      slice (sha256_hex (append request_id (append ":" (append outcome (append ":" backend))))) 0
        24)

module _ (py : Python) where
  -- a line of `extract_usage_from_sse`
  abbrev pub usage_of : String → Option Fields
  usage_of line =
      let data_text = py.strip (slice line 5 (len line)) in
      if not (starts_with line "data:") || (str_eq data_text "" || str_eq data_text "[DONE]")
      then none
      else (elim (object_of (py.loads data_text)) [
        | none ↦ none
        | some payload ↦ object_of (get_field "usage" payload)
      ])

  unfoldable pub first_usage : List String → Option Fields
  first_usage [] = none
  first_usage (line ∷ lines) =
      let rest = first_usage lines in elim (usage_of line) [ none ↦ rest | some usage ↦ some usage ]

  -- `extract_usage_from_sse`, of a decoded chunk
  unfoldable pub extract_usage_from_sse : String → Option Fields
  unfolding first_usage
  extract_usage_from_sse chunk = first_usage (py.splitlines chunk)
