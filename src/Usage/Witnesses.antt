-- ===== src/Usage/Witnesses.antt =====
-- A run of the emitter of app/gateway/usage_events.py.
use ai_runtime_platform.Base.{◌+◌, ◌*◌, ◌≤◌, ◌≡◌, refl, true, false, none, some, [], length}
use ai_runtime_platform.Int.{pos}
use ai_runtime_platform.Money.{nan}
use ai_runtime_platform.Usage.{
  UsageEvent, Pending, push, emit, next_ready, first_ready, raised, retry, deliver, start,
  stop_accepting, finish_close,
}
use ai_runtime_platform.Usage.Accounts.{every_event_accounted}
use ai_runtime_platform.Usage.Service.{
  Service, emits, takes, delivers, starts, begins_close, drained, Reach, here, next, new_service,
  in_hand, gone,
}
use ai_runtime_platform.Usage.Sends.{sends, entries, attempts_are_bounded}

abbrev event : UsageEvent
event = record {
  event_id = "evt_1";
  tenant_id = "finance";
  request_id = "r1";
  decision_id = none;
  model = "small";
  backend = "b1";
  input_tokens = 10;
  output_tokens = 20;
  estimated_cost_usd = none;
  gpu_seconds = none;
  ttft_ms = none;
  duration_ms = nan;
  outcome = "completed";
  enqueued_at = 0;
  attempts = 0;
}

abbrev fresh : Service
fresh = new_service (pos 1) (pos 2)

abbrev queued_item : Pending
queued_item = record { event = record event { enqueued_at = 5 }; next_attempt_at = 5 }

abbrev started : Service
started = record fresh { emitter = start fresh.emitter }

abbrev with_event : Service
with_event = record started { emitter = emit true 5 event started.emitter; queued = 1 }

abbrev sending : Service
sending = record with_event {
  emitter = record with_event.emitter { pending = [] };
  in_flight = some queued_item;
}

sending_is_reached : Reach fresh sending
unfolding start emit push next_ready first_ready
sending_is_reached =
    next (next (next here starts) (emits true 5 event))
      (takes 6 queued_item (record with_event.emitter { pending = [] }) refl refl refl)

abbrev retried_item : Pending
retried_item = record {
  event = record event { enqueued_at = 5; attempts = 1 };
  next_attempt_at = 507;
}

abbrev sending_again : Service
sending_again = record sending { in_flight = some retried_item }

abbrev sending_again_is_reached : Reach fresh sending_again
unfolding start emit push next_ready first_ready deliver retry
sending_again_is_reached =
    next
      (next
        (next (next (next here starts) (emits true 5 event))
          (takes 6 queued_item (record with_event.emitter { pending = [] }) refl refl refl))
        (delivers raised 7 queued_item refl))
      (takes 507 retried_item sending.emitter refl refl refl)

-- With a maximum of 2 attempts this run uses both.
sent_twice :
    (sends "evt_1" sending_again_is_reached ≡ 2) × (entries "evt_1" sending_again_is_reached ≡ 1)
unfolding sends entries sending_again_is_reached
sent_twice = (refl, refl)

attempts_are_bounded_example :
    sends "evt_1" sending_again_is_reached ≤ 2 * entries "evt_1" sending_again_is_reached
attempts_are_bounded_example = attempts_are_bounded (pos 1) (pos 2) "evt_1" sending_again_is_reached

every_event_accounted_example :
    (sending.queued ≡ gone sending + length sending.emitter.pending + in_hand sending.in_flight)
    × (length sending.emitter.pending ≤ sending.emitter.max_pending)
every_event_accounted_example = every_event_accounted (pos 1) (pos 2) sending_is_reached

abbrev closed : Service
closed = record sending {
  emitter = finish_close false (stop_accepting sending.emitter);
  in_flight = none;
  abandoned = 1;
}

-- The queue is empty while the last event is sent, so a close that waits for the queue cancels it.
close_abandons : Reach fresh closed
unfolding start emit push next_ready first_ready stop_accepting
close_abandons = next (next sending_is_reached begins_close) (drained refl refl)
