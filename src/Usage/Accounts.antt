-- ===== src/Usage/Accounts.antt =====
-- What becomes of the events of app/gateway/usage_events.py.
use ai_runtime_platform.Base.{
  ℕ, suc, ◌+◌, ◌≤◌, ◌<◌, ◌≡◌, refl, ap, Bool, true, false, not, none, some, List, [], ◌∷◌, leb,
  arith, if◌then◌else◌, length, length-append, Bool-cases, Option-cases, inl, inr, if_both,
}
use ai_runtime_platform.Int.{ℤ, pos, negsuc}
use ai_runtime_platform.Usage.{
  UsageEvent, Pending, UsageEventEmitter, popleft, push, emit, first_ready, next_ready, Delivery,
  no_client, accepted, raised, delay_of, retry, deliver, start, stop_accepting, finish_close,
}
use ai_runtime_platform.Usage.Service.{
  Reach, Service, Step, begins_close, delivers, drained, emits, enters, gone, here, if_one, in_hand,
  left_by, new_service, next, starts, taken_by, takes, times_out,
}

record IsAccounted (s : Service) : Type 0 where
  balance : s.queued ≡ gone s + length s.emitter.pending + in_hand s.in_flight
  bounded : length s.emitter.pending ≤ s.emitter.max_pending
  room : 0 < s.emitter.max_pending

popleft-length :
    (items : List Pending) → 0 < length items → suc (length (popleft items)) ≡ length items
popleft-length [] h = omega (arith, h)
popleft-length (item ∷ items) h = refl

push_lem :
    (item : Pending) (e : UsageEventEmitter)
    → length e.pending ≤ e.max_pending
    → 0 < e.max_pending
    → let e' = push item e in
      (length e'.pending + e'.dropped.buffer_overflow
        ≡ suc (length e.pending + e.dropped.buffer_overflow))
      × (length e'.pending ≤ e.max_pending)
      × (e'.max_pending ≡ e.max_pending)
      × (e'.dropped.max_attempts ≡ e.dropped.max_attempts)
      × (e'.dropped.shutdown_timeout ≡ e.dropped.shutdown_timeout)
unfolding push
push_lem item e bounded room = elim (Bool-cases (leb e.max_pending (length e.pending))) [
  | inl full ↦
      let some_left : 0 < length e.pending = ground (arith, full, room) in
      let shorter = popleft-length e.pending some_left in
      let longer = length-append (popleft e.pending) (item ∷ []) in
      rw full
        (omega (arith, shorter, longer), omega (arith, shorter, longer, bounded), refl, refl, refl)
  | inr free ↦
      let fits : length e.pending < e.max_pending = ground (arith, free) in
      let longer = length-append e.pending (item ∷ []) in
      rw free (omega (arith, longer), omega (arith, longer, fits), refl, refl, refl)
]

first_ready-length :
    (now : ℕ) (items rest : List Pending) (item : Pending)
    → first_ready now items ≡ some (item, rest)
    → length items ≡ suc (length rest)
unfolding first_ready
first_ready-length now [] rest item h = ground (arith, h)
first_ready-length now (first ∷ items) rest item h =
    elim (Bool-cases (leb first.next_attempt_at now)) [
      | inl ready ↦
          let found = rw ready at h in
          let same : items ≡ rest = ap (λ o. elim o [ none ↦ items | some p ↦ p.1 ]) found in
          rw same refl
      | inr waits ↦ elim (Option-cases (first_ready now items)) [
        | inl none_ready ↦ let absent = rw (waits, none_ready) at h in ground (arith, absent)
        | inr ((found, others), is_found) ↦
            let same = rw (waits, is_found) at h in
            let tail : first ∷ others ≡ rest =
              ap (λ o. elim o [ none ↦ items | some p ↦ p.1 ]) same in
            let shorter = first_ready-length now items others found is_found in
            rw (← tail) (omega (arith, shorter))
      ]
    ]

-- The end of `emit`, where it accepts and where it does not.
enter_when-IsAccounted :
    (accepting : Bool) (item : Pending) (s : Service)
    → IsAccounted s
    → IsAccounted (record s {
      emitter =
          if not accepting
          then record s.emitter {
            dropped = record s.emitter.dropped {
              not_accepting = s.emitter.dropped.not_accepting + 1;
            };
          }
          else push item s.emitter;
      queued = s.queued + if_one accepting;
    })
enter_when-IsAccounted false item s a = record {
  balance = omega (arith, a.balance);
  bounded = a.bounded;
  room = a.room;
}
enter_when-IsAccounted true item s a =
    let (grows, fits, same, tried, lost) = push_lem item s.emitter a.bounded a.room in
    record {
      balance = omega (arith, a.balance, grows, tried, lost);
      bounded = omega (arith, fits, same);
      room = omega (arith, a.room, same);
    }

emit-IsAccounted :
    (has_webhook : Bool) (now : ℕ) (event : UsageEvent) (s : Service)
    → IsAccounted s
    → IsAccounted (record s {
      emitter = emit has_webhook now event s.emitter;
      queued = s.queued + if_one (enters has_webhook s.emitter);
    })
unfolding emit
emit-IsAccounted false now event s a = record {
  balance = omega (arith, a.balance);
  bounded = a.bounded;
  room = a.room;
}
emit-IsAccounted true now event s a =
    enter_when-IsAccounted s.emitter.accepting
      (record { event = record event { enqueued_at = now; attempts = 0 }; next_attempt_at = now }) s
      a

next_ready-IsAccounted :
    (now : ℕ) (item : Pending) (e : UsageEventEmitter) (s : Service)
    → s.in_flight ≡ none
    → next_ready now s.emitter ≡ some (item, e)
    → IsAccounted s
    → IsAccounted (record s { emitter = e; in_flight = some item })
unfolding next_ready
next_ready-IsAccounted now item e s idle ready a =
    elim (Option-cases (first_ready now s.emitter.pending)) [
      | inl missing ↦ let absent = rw (missing, next_ready) at ready in ground (arith, absent)
      | inr ((found, items), is_found) ↦
          let same = rw (is_found, next_ready) at ready in
          let emitter : record s.emitter { pending = items } ≡ e =
            ap (λ o. elim o [ none ↦ e | some p ↦ p.1 ]) same in
          let shorter = first_ready-length now s.emitter.pending items found is_found in
          let balance = rw idle at a.balance in
          rw (← emitter) (record {
            balance = omega (arith, balance, shorter);
            bounded = omega (arith, a.bounded, shorter);
            room = a.room;
          })
    ]

retry_lem :
    (now : ℕ) (event : UsageEvent) (e : UsageEventEmitter)
    → length e.pending ≤ e.max_pending
    → 0 < e.max_pending
    → let e' = retry now event e in
      (length e'.pending + e'.dropped.buffer_overflow + e'.dropped.max_attempts
        ≡ suc (length e.pending + e.dropped.buffer_overflow + e.dropped.max_attempts))
      × (length e'.pending ≤ e.max_pending)
      × (e'.max_pending ≡ e.max_pending)
      × (e'.dropped.shutdown_timeout ≡ e.dropped.shutdown_timeout)
unfolding retry
retry_lem now event e bounded room = elim (Bool-cases (leb e.max_attempts (event.attempts + 1))) [
  | inl given_up ↦ rw given_up (omega arith, bounded, refl, refl)
  | inr again ↦
      let (grows, fits, same, tried, lost) =
        push_lem
          (record {
            event = record event { attempts = event.attempts + 1 };
            next_attempt_at = now + delay_of (event.attempts + 1);
          })
          e bounded room in
      rw again (omega (arith, grows, tried), fits, same, lost)
]

deliver-IsAccounted :
    (outcome : Delivery) (now : ℕ) (item : Pending) (s : Service)
    → s.in_flight ≡ some item
    → IsAccounted s
    → IsAccounted (record s {
      emitter = deliver outcome now item s.emitter;
      in_flight = none;
      taken = s.taken + taken_by outcome;
      abandoned = s.abandoned + left_by outcome;
    })
unfolding deliver
deliver-IsAccounted no_client now item s busy a =
    let balance = rw busy at a.balance in
    record { balance = omega (arith, balance); bounded = a.bounded; room = a.room }
deliver-IsAccounted accepted now item s busy a =
    let balance = rw busy at a.balance in
    record { balance = omega (arith, balance); bounded = a.bounded; room = a.room }
deliver-IsAccounted raised now item s busy a =
    let balance = rw busy at a.balance in
    let (grows, fits, same, lost) = retry_lem now item.event s.emitter a.bounded a.room in
    record {
      balance = omega (arith, balance, grows, lost);
      bounded = omega (arith, fits, same);
      room = omega (arith, a.room, same);
    }

Step-IsAccounted : {s s' : Service} → IsAccounted s → Step s s' → IsAccounted s'
unfolding start stop_accepting finish_close
Step-IsAccounted {s} a (emits has_webhook now event) = emit-IsAccounted has_webhook now event s a
Step-IsAccounted {s} a (takes now item e working idle ready) =
    next_ready-IsAccounted now item e s idle ready a
Step-IsAccounted {s} a (delivers outcome now item busy) =
    deliver-IsAccounted outcome now item s busy a
Step-IsAccounted {s} a starts =
    if_both (λ (e : UsageEventEmitter). IsAccounted (record s { emitter = e })) s.emitter.is_working
      a (record { balance = a.balance; bounded = a.bounded; room = a.room })
Step-IsAccounted {s} a begins_close = record {
  balance = a.balance;
  bounded = a.bounded;
  room = a.room;
}
Step-IsAccounted {s} a (drained working empty) = record {
  balance = omega (arith, a.balance);
  bounded = a.bounded;
  room = a.room;
}
Step-IsAccounted {s} a (times_out working) = record {
  balance = omega (arith, a.balance);
  bounded = omega (arith, a.room);
  room = a.room;
}

Reach-IsAccounted : {s s' : Service} → IsAccounted s → Reach s s' → IsAccounted s'
Reach-IsAccounted a here = a
Reach-IsAccounted a (next before step) = Step-IsAccounted (Reach-IsAccounted a before) step

new_service-IsAccounted : (m n : ℤ) → IsAccounted (new_service m n)
new_service-IsAccounted (pos m) n = record {
  balance = refl;
  bounded = omega arith;
  room = ground arith;
}
new_service-IsAccounted (negsuc m) n = record {
  balance = refl;
  bounded = omega arith;
  room = omega arith;
}

-- From a new emitter, whatever events are emitted, sent, refused by the webhook and sent again, and
-- however often the emitter is closed and started: the queue never holds more than its maximum, and
-- every event that entered it is in the queue or with the worker, or was taken by the webhook, or
-- is counted as dropped, or was with a worker that was cancelled or that had no client.
pub every_event_accounted :
    (buffer_max max_attempts : ℤ) {s : Service}
    → Reach (new_service buffer_max max_attempts) s
    → (s.queued ≡ gone s + length s.emitter.pending + in_hand s.in_flight)
      × (length s.emitter.pending ≤ s.emitter.max_pending)
every_event_accounted buffer_max max_attempts reach =
    let a = Reach-IsAccounted (new_service-IsAccounted buffer_max max_attempts) reach in
    (a.balance, a.bounded)
