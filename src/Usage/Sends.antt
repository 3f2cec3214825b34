-- ===== src/Usage/Sends.antt =====
-- How often app/gateway/usage_events.py sends an event.
use ai_runtime_platform.Base.{
  ℕ, ◌+◌, ◌*◌, ◌-◌, ◌≤◌, ◌<◌, ◌≡◌, refl, ap, String, Bool, true, false, not, ◌&&◌, Option, none,
  some, List, [], ◌∷◌, ◌++◌, leb, str_eq, arith, length, if◌then◌else◌, Bool-cases, Option-cases,
  inl, inr, ◌∙◌,
}
use ai_runtime_platform.Int.{ℤ}
use ai_runtime_platform.Usage.{
  UsageEvent, Pending, UsageEventEmitter, popleft, push, emit, first_ready, next_ready, Delivery,
  no_client, accepted, raised, retry, deliver, start, stop_accepting, finish_close, delay_of,
  at_least_one,
}
use ai_runtime_platform.Usage.Service.{
  Service, Step, emits, takes, delivers, starts, begins_close, drained, times_out, Reach, here,
  next, new_service, enters, if_one,
}
use ai_runtime_platform.Usage.Attempts.{
  IsPatient, Reach-IsPatient, new_service-IsPatient, limit_kept,
}

-- How often the worker takes an event of an id out of the queue, to send it.
abbrev pub sent_by : String → {s s' : Service} → Step s s' → ℕ
sent_by id (takes now item e working idle ready) = if_one (str_eq item.event.event_id id)
sent_by id (emits has_webhook now event) = 0
sent_by id (delivers outcome now item busy) = 0
sent_by id starts = 0
sent_by id begins_close = 0
sent_by id (drained working empty) = 0
sent_by id (times_out working) = 0

unfoldable pub sends : String → {s s' : Service} → Reach s s' → ℕ
sends id here = 0
sends id (next before step) = sends id before + sent_by id step

-- How often an event of an id is emitted and enters the queue.
abbrev pub entered_by : String → {s s' : Service} → Step s s' → ℕ
entered_by id {s} (emits has_webhook now event) =
    if_one (enters has_webhook s.emitter && str_eq event.event_id id)
entered_by id (takes now item e working idle ready) = 0
entered_by id (delivers outcome now item busy) = 0
entered_by id starts = 0
entered_by id begins_close = 0
entered_by id (drained working empty) = 0
entered_by id (times_out working) = 0

unfoldable pub entries : String → {s s' : Service} → Reach s s' → ℕ
entries id here = 0
entries id (next before step) = entries id before + entered_by id step

-- The attempts that events of the id have left.
abbrev left : ℕ → String → UsageEvent → ℕ → ℕ
left limit id event tried = if str_eq event.event_id id then limit - tried else 0

abbrev queue_left : ℕ → String → List Pending → ℕ
queue_left limit id [] = 0
queue_left limit id (item ∷ items) =
    left limit id item.event item.event.attempts + queue_left limit id items

abbrev hand_left : ℕ → String → Option Pending → ℕ
hand_left limit id none = 0
hand_left limit id (some item) = left limit id item.event (item.event.attempts + 1)

queue_left-append :
    (limit : ℕ) (id : String) (items : List Pending) (item : Pending)
    → queue_left limit id (items ++ item ∷ [])
      ≡ queue_left limit id items + left limit id item.event item.event.attempts
queue_left-append limit id [] item = omega arith
queue_left-append limit id (i ∷ items) item = omega (arith, queue_left-append limit id items item)

queue_left-popleft :
    (limit : ℕ) (id : String) (items : List Pending)
    → queue_left limit id (popleft items) ≤ queue_left limit id items
queue_left-popleft limit id [] = omega arith
queue_left-popleft limit id (i ∷ items) = omega arith

queue_left-push :
    (limit : ℕ) (id : String) (item : Pending) (e : UsageEventEmitter)
    → queue_left limit id (push item e).pending
      ≤ queue_left limit id e.pending + left limit id item.event item.event.attempts
unfolding push
queue_left-push limit id item e = elim (Bool-cases (leb e.max_pending (length e.pending))) [
  | inl full ↦ rw full (
      omega (
        arith,
        queue_left-append limit id (popleft e.pending) item,
        queue_left-popleft limit id e.pending,
      ))
  | inr free ↦ rw free (omega (arith, queue_left-append limit id e.pending item))
]

queue_left-first_ready :
    (limit : ℕ) (id : String) (now : ℕ) (items rest : List Pending) (item : Pending)
    → first_ready now items ≡ some (item, rest)
    → queue_left limit id items
      ≡ left limit id item.event item.event.attempts + queue_left limit id rest
unfolding first_ready
queue_left-first_ready limit id now [] rest item h = ground (arith, h)
queue_left-first_ready limit id now (first ∷ items) rest item h =
    elim (Bool-cases (leb first.next_attempt_at now)) [
      | inl ready ↦
          let found = rw ready at h in
          let same_item : first ≡ item = ap (λ o. elim o [ none ↦ first | some p ↦ p.0 ]) found in
          let same_rest : items ≡ rest = ap (λ o. elim o [ none ↦ items | some p ↦ p.1 ]) found in
          rw (← same_item, ← same_rest) refl
      | inr waits ↦ elim (Option-cases (first_ready now items)) [
        | inl none_ready ↦ let absent = rw (waits, none_ready) at h in ground (arith, absent)
        | inr ((found, others), is_found) ↦
            let same = rw (waits, is_found) at h in
            let same_item : found ≡ item = ap (λ o. elim o [ none ↦ first | some p ↦ p.0 ]) same in
            let same_rest : first ∷ others ≡ rest =
              ap (λ o. elim o [ none ↦ items | some p ↦ p.1 ]) same in
            let tail = queue_left-first_ready limit id now items others found is_found in
            rw (← same_item, ← same_rest) (omega (arith, tail))
      ]
    ]

-- Each entry pays for `limit` attempts: those made, and those that are left.
record IsPaid (limit : ℕ) (id : String) (sent entered : ℕ) (s : Service) : Type 0 where
  paid :
      sent + queue_left limit id s.emitter.pending + hand_left limit id s.in_flight
      ≤ limit * entered

enter-IsPaid :
    (accepting : Bool) (limit sent entered : ℕ) (id : String) (event : UsageEvent) (now : ℕ)
    (s : Service)
    → IsPaid limit id sent entered s
    → IsPaid limit id sent (entered + if_one (accepting && str_eq event.event_id id)) (record s {
      emitter =
          if not accepting
          then record s.emitter {
            dropped = record s.emitter.dropped {
              not_accepting = s.emitter.dropped.not_accepting + 1;
            };
          }
          else push
              (record {
                event = record event { enqueued_at = now; attempts = 0 };
                next_attempt_at = now;
              })
              s.emitter;
    })
enter-IsPaid false limit sent entered id event now s p = record { paid = omega (arith, p.paid) }
enter-IsPaid true limit sent entered id event now s p =
    let item : Pending = record {
      event = record event { enqueued_at = now; attempts = 0 };
      next_attempt_at = now;
    } in
    let grows = queue_left-push limit id item s.emitter in
    elim (Bool-cases (str_eq event.event_id id)) [
      | inl same ↦
          let grown = rw same at grows in rw same (record { paid = grind (arith, p.paid, grown) })
      | inr other ↦
          let grown = rw other at grows in rw other (record { paid = omega (arith, p.paid, grown) })
    ]

left-suc :
    (limit tried : ℕ) (id : String) (event : UsageEvent)
    → tried < limit
    → if_one (str_eq event.event_id id) + left limit id event (tried + 1)
      ≡ left limit id event tried
left-suc limit tried id event few = grind arith

take-IsPaid :
    (limit sent entered : ℕ) (id : String) (now : ℕ) (item : Pending) (e : UsageEventEmitter)
    (s : Service)
    → s.in_flight ≡ none
    → item.event.attempts < limit
    → next_ready now s.emitter ≡ some (item, e)
    → IsPaid limit id sent entered s
    → IsPaid limit id
        (sent + if_one (str_eq item.event.event_id id))
        entered
        (record s { emitter = e; in_flight = some item })
unfolding next_ready
take-IsPaid limit sent entered id now item e s idle few ready p =
    elim (Option-cases (first_ready now s.emitter.pending)) [
      | inl missing ↦ let absent = rw (missing, next_ready) at ready in ground (arith, absent)
      | inr ((found, items), is_found) ↦
          let same = rw (is_found, next_ready) at ready in
          let same_item : found ≡ item = ap (λ o. elim o [ none ↦ found | some q ↦ q.0 ]) same in
          let emitter : record s.emitter { pending = items } ≡ e =
            ap (λ o. elim o [ none ↦ e | some q ↦ q.1 ]) same in
          let split = queue_left-first_ready limit id now s.emitter.pending items found is_found in
          let split' = rw same_item at split in
          let paid = rw idle at p.paid in
          let once = left-suc limit item.event.attempts id item.event few in
          rw (← emitter) (record { paid = omega (arith, paid, split', once) })
    ]

queue_left-retry :
    (limit : ℕ) (id : String) (now : ℕ) (event : UsageEvent) (e : UsageEventEmitter)
    → queue_left limit id (retry now event e).pending
      ≤ queue_left limit id e.pending + left limit id event (event.attempts + 1)
unfolding retry
queue_left-retry limit id now event e =
    elim (Bool-cases (leb e.max_attempts (event.attempts + 1))) [
      | inl given_up ↦ rw given_up (omega arith)
      | inr again ↦ rw again (
          queue_left-push limit id
            (record {
              event = record event { attempts = event.attempts + 1 };
              next_attempt_at = now + delay_of (event.attempts + 1);
            })
            e)
    ]

queue_left-deliver :
    (limit : ℕ) (id : String) (outcome : Delivery) (now : ℕ) (item : Pending)
    (e : UsageEventEmitter)
    → queue_left limit id (deliver outcome now item e).pending
      ≤ queue_left limit id e.pending + hand_left limit id (some item)
unfolding deliver
queue_left-deliver limit id no_client now item e = omega arith
queue_left-deliver limit id accepted now item e = omega arith
queue_left-deliver limit id raised now item e = queue_left-retry limit id now item.event e

few_taken :
    (now : ℕ) (item : Pending) (e : UsageEventEmitter) (s : Service)
    → IsPatient (record s { emitter = e; in_flight = some item })
    → e.max_attempts ≡ s.emitter.max_attempts
    → item.event.attempts < s.emitter.max_attempts
few_taken now item e s p kept = rw (← kept) p.hand

Step-IsPaid :
    {s s' : Service} (limit sent entered : ℕ) (id : String) (step : Step s s')
    → IsPatient s'
    → s.emitter.max_attempts ≡ limit
    → IsPaid limit id sent entered s
    → IsPaid limit id (sent + sent_by id step) (entered + entered_by id step) s'
unfolding emit start stop_accepting finish_close
Step-IsPaid {s} limit sent entered id (emits false now event) patient limited p = record {
  paid = omega (arith, p.paid);
}
Step-IsPaid {s} limit sent entered id (emits true now event) patient limited p = record {
  paid = omega (arith, (enter-IsPaid s.emitter.accepting limit sent entered id event now s p).paid);
}
Step-IsPaid {s} limit sent entered id (takes now item e working idle ready) patient limited p =
    let few =
      few_taken now item e s patient (limit_kept {s = s} (takes now item e working idle ready)) in
    record {
      paid = omega (
        arith,
        (take-IsPaid limit sent entered id now item e s idle (rw limited at few) ready p).paid,
      );
    }
Step-IsPaid {s} limit sent entered id (delivers outcome now item busy) patient limited p =
    let paid = rw busy at p.paid in
    record { paid = omega (arith, paid, queue_left-deliver limit id outcome now item s.emitter) }
Step-IsPaid {s} limit sent entered id starts patient limited p = record {
  paid = ground (arith, p.paid);
}
Step-IsPaid {s} limit sent entered id begins_close patient limited p = record {
  paid = omega (arith, p.paid);
}
Step-IsPaid {s} limit sent entered id (drained working empty) patient limited p = record {
  paid = omega (arith, p.paid);
}
Step-IsPaid {s} limit sent entered id (times_out working) patient limited p = record {
  paid = omega (arith, p.paid);
}

limit_reached :
    (m n : ℤ) {s : Service} → Reach (new_service m n) s → s.emitter.max_attempts ≡ at_least_one n
limit_reached m n here = refl
limit_reached m n (next before step) = limit_kept step ∙ limit_reached m n before

Reach-IsPaid :
    (m n : ℤ) (id : String) {s : Service} (run : Reach (new_service m n) s)
    → IsPaid (at_least_one n) id (sends id run) (entries id run) s
unfolding sends entries
Reach-IsPaid m n id here = record { paid = omega arith }
Reach-IsPaid m n id (next before step) =
    Step-IsPaid (at_least_one n) (sends id before) (entries id before) id step
      (Reach-IsPatient (new_service-IsPatient m n) (next before step)) (limit_reached m n before)
      (Reach-IsPaid m n id before)

-- From a new emitter, whatever events are emitted, taken, refused by the webhook and sent again, and
-- however often the emitter is closed and started: the worker takes the events of an id out of the
-- queue, to send them, at most the maximum of attempts times for each time that an event of this id
-- entered the queue. An event that entered once is sent at most that often.
pub attempts_are_bounded :
    (buffer_max max_attempts : ℤ) (id : String) {s : Service}
    (run : Reach (new_service buffer_max max_attempts) s)
    → sends id run ≤ at_least_one max_attempts * entries id run
attempts_are_bounded buffer_max max_attempts id run =
    let paid = (Reach-IsPaid buffer_max max_attempts id run).paid in omega (arith, paid)
