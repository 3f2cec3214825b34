-- ===== src/Usage/Attempts.antt =====
-- The attempts of the events in the queue of app/gateway/usage_events.py.
use ai_runtime_platform.Base.{
  ℕ, ◌+◌, ◌<◌, ◌≡◌, refl, sym, ap, Bool, true, false, not, Option, none, some, List, [], ◌∷◌, ◌++◌,
  leb, arith, length, All, Bool-cases, Option-cases, inl, inr, if_both,
}
use ai_runtime_platform.Int.{ℤ, pos, negsuc}
use ai_runtime_platform.Usage.{
  UsageEvent, Pending, UsageEventEmitter, popleft, push, emit, first_ready, next_ready, Delivery,
  no_client, accepted, raised, retry, deliver, start, stop_accepting, finish_close, delay_of,
}
use ai_runtime_platform.Usage.Service.{
  Service, Step, emits, takes, delivers, starts, begins_close, drained, times_out, Reach, here,
  next, new_service,
}

abbrev pub IsFew : ℕ → Pending → Type 0
IsFew limit item = item.event.attempts < limit

append-All :
    (limit : ℕ) (items : List Pending) (item : Pending)
    → All (IsFew limit) items
    → IsFew limit item
    → All (IsFew limit) (items ++ item ∷ [])
append-All limit [] item all few = (few, tt)
append-All limit (i ∷ items) item all few = (all.0, append-All limit items item all.1 few)

popleft-All :
    (limit : ℕ) (items : List Pending) → All (IsFew limit) items → All (IsFew limit) (popleft items)
popleft-All limit [] all = tt
popleft-All limit (i ∷ items) all = all.1

-- The items of the queue, each with an attempt left.
pub record HasFew (e : UsageEventEmitter) : Type 0 where
  all : All (IsFew e.max_attempts) e.pending
  some_attempt : 0 < e.max_attempts

push-HasFew :
    (item : Pending) (e : UsageEventEmitter)
    → HasFew e
    → IsFew e.max_attempts item
    → HasFew (push item e)
unfolding push
push-HasFew item e h few = elim (Bool-cases (leb e.max_pending (length e.pending))) [
  | inl full ↦ rw full (record {
    all =
        append-All e.max_attempts (popleft e.pending) item
          (popleft-All e.max_attempts e.pending h.all) few;
    some_attempt = h.some_attempt;
  })
  | inr free ↦ rw free (record {
    all = append-All e.max_attempts e.pending item h.all few;
    some_attempt = h.some_attempt;
  })
]

emit-HasFew :
    (has_webhook : Bool) (now : ℕ) (event : UsageEvent) (e : UsageEventEmitter)
    → HasFew e
    → HasFew (emit has_webhook now event e)
unfolding emit
emit-HasFew false now event e h = h
emit-HasFew true now event e h =
    if_both HasFew (not e.accepting) (record { all = h.all; some_attempt = h.some_attempt })
      (push-HasFew _ e h h.some_attempt)

first_ready-All :
    (limit now : ℕ) (items rest : List Pending) (item : Pending)
    → All (IsFew limit) items
    → first_ready now items ≡ some (item, rest)
    → IsFew limit item × All (IsFew limit) rest
unfolding first_ready
first_ready-All limit now [] rest item all h = ground (arith, h)
first_ready-All limit now (first ∷ items) rest item all h =
    elim (Bool-cases (leb first.next_attempt_at now)) [
      | inl ready ↦
          let found = rw ready at h in
          let same_item : first ≡ item = ap (λ o. elim o [ none ↦ first | some p ↦ p.0 ]) found in
          let same_rest : items ≡ rest = ap (λ o. elim o [ none ↦ items | some p ↦ p.1 ]) found in
          rw (← same_item, ← same_rest) all
      | inr waits ↦ elim (Option-cases (first_ready now items)) [
        | inl none_ready ↦ let absent = rw (waits, none_ready) at h in ground (arith, absent)
        | inr ((found, others), is_found) ↦
            let same = rw (waits, is_found) at h in
            let same_item : found ≡ item = ap (λ o. elim o [ none ↦ first | some p ↦ p.0 ]) same in
            let same_rest : first ∷ others ≡ rest =
              ap (λ o. elim o [ none ↦ items | some p ↦ p.1 ]) same in
            let (few, others_few) = first_ready-All limit now items others found all.1 is_found in
            rw (← same_item, ← same_rest) (few, (all.0, others_few))
      ]
    ]

retry-HasFew :
    (now : ℕ) (event : UsageEvent) (e : UsageEventEmitter) → HasFew e → HasFew (retry now event e)
unfolding retry
retry-HasFew now event e h = elim (Bool-cases (leb e.max_attempts (event.attempts + 1))) [
  | inl given_up ↦ rw given_up (record { all = h.all; some_attempt = h.some_attempt })
  | inr again ↦
      let few : event.attempts + 1 < e.max_attempts = ground (arith, again) in
      rw again (
        push-HasFew
          (record {
            event = record event { attempts = event.attempts + 1 };
            next_attempt_at = now + delay_of (event.attempts + 1);
          })
          e h few)
]

deliver-HasFew :
    (outcome : Delivery) (now : ℕ) (item : Pending) (e : UsageEventEmitter)
    → HasFew e
    → HasFew (deliver outcome now item e)
unfolding deliver
deliver-HasFew no_client now item e h = h
deliver-HasFew accepted now item e h = h
deliver-HasFew raised now item e h = retry-HasFew now item.event e h

-- What the worker has in hand has an attempt left as well.
abbrev pub FewInHand : ℕ → Option Pending → Type 0
FewInHand limit none = Unit {0}
FewInHand limit (some item) = IsFew limit item

pub record IsPatient (s : Service) : Type 0 where
  pub queue : HasFew s.emitter
  pub hand : FewInHand s.emitter.max_attempts s.in_flight

push_limit : (item : Pending) (e : UsageEventEmitter) → (push item e).max_attempts ≡ e.max_attempts
unfolding push
push_limit item e =
    if_both (λ (e' : UsageEventEmitter). e'.max_attempts ≡ e.max_attempts)
      (leb e.max_pending (length e.pending)) refl refl

emit_limit :
    (has_webhook : Bool) (now : ℕ) (event : UsageEvent) (e : UsageEventEmitter)
    → (emit has_webhook now event e).max_attempts ≡ e.max_attempts
unfolding emit
emit_limit false now event e = refl
emit_limit true now event e =
    if_both (λ (e' : UsageEventEmitter). e'.max_attempts ≡ e.max_attempts) (not e.accepting) refl
      (push_limit
        (record { event = record event { enqueued_at = now; attempts = 0 }; next_attempt_at = now })
        e)

retry_limit :
    (now : ℕ) (event : UsageEvent) (e : UsageEventEmitter)
    → (retry now event e).max_attempts ≡ e.max_attempts
unfolding retry
retry_limit now event e =
    if_both (λ (e' : UsageEventEmitter). e'.max_attempts ≡ e.max_attempts)
      (leb e.max_attempts (event.attempts + 1)) refl
      (push_limit
        (record {
          event = record event { attempts = event.attempts + 1 };
          next_attempt_at = now + delay_of (event.attempts + 1);
        })
        e)

next_ready_limit :
    (now : ℕ) (item : Pending) (e e' : UsageEventEmitter)
    → next_ready now e ≡ some (item, e')
    → e'.max_attempts ≡ e.max_attempts
unfolding next_ready
next_ready_limit now item e e' ready = elim (Option-cases (first_ready now e.pending)) [
  | inl missing ↦ let absent = rw (missing, next_ready) at ready in ground (arith, absent)
  | inr (found, is_found) ↦
      let same = rw (is_found, next_ready) at ready in
      ap (λ o. elim o [ none ↦ e.max_attempts | some q ↦ q.1.max_attempts ]) (sym same)
]

pub limit_kept : {s s' : Service} → Step s s' → s'.emitter.max_attempts ≡ s.emitter.max_attempts
unfolding deliver start stop_accepting finish_close
limit_kept {s} (emits has_webhook now event) = emit_limit has_webhook now event s.emitter
limit_kept {s} (takes now item e working idle ready) = next_ready_limit now item s.emitter e ready
limit_kept {s} (delivers no_client now item busy) = refl
limit_kept {s} (delivers accepted now item busy) = refl
limit_kept {s} (delivers raised now item busy) = retry_limit now item.event s.emitter
limit_kept {s} starts =
    if_both (λ (e : UsageEventEmitter). e.max_attempts ≡ s.emitter.max_attempts)
      s.emitter.is_working refl refl
limit_kept {s} begins_close = refl
limit_kept {s} (drained working empty) = refl
limit_kept {s} (times_out working) = refl

next_ready-IsPatient :
    (now : ℕ) (item : Pending) (e : UsageEventEmitter) (s : Service)
    → next_ready now s.emitter ≡ some (item, e)
    → IsPatient s
    → IsPatient (record s { emitter = e; in_flight = some item })
unfolding next_ready
next_ready-IsPatient now item e s ready p =
    elim (Option-cases (first_ready now s.emitter.pending)) [
      | inl missing ↦ let absent = rw (missing, next_ready) at ready in ground (arith, absent)
      | inr ((found, items), is_found) ↦
          let same = rw (is_found, next_ready) at ready in
          let same_item : found ≡ item = ap (λ o. elim o [ none ↦ found | some q ↦ q.0 ]) same in
          let emitter : record s.emitter { pending = items } ≡ e =
            ap (λ o. elim o [ none ↦ e | some q ↦ q.1 ]) same in
          let (few, rest) =
            first_ready-All s.emitter.max_attempts now s.emitter.pending items found p.queue.all
              is_found in
          rw (← same_item, ← emitter)
            (record {
              queue = record { all = rest; some_attempt = p.queue.some_attempt };
              hand = few;
            })
    ]

Step-IsPatient : {s s' : Service} → IsPatient s → Step s s' → IsPatient s'
unfolding start stop_accepting finish_close
Step-IsPatient {s} p (emits has_webhook now event) = record {
  queue = emit-HasFew has_webhook now event s.emitter p.queue;
  hand = rw (emit_limit has_webhook now event s.emitter) p.hand;
}
Step-IsPatient {s} p (takes now item e working idle ready) =
    next_ready-IsPatient now item e s ready p
Step-IsPatient {s} p (delivers outcome now item busy) = record {
  queue = deliver-HasFew outcome now item s.emitter p.queue;
  hand = tt;
}
Step-IsPatient {s} p starts =
    if_both (λ (e : UsageEventEmitter). IsPatient (record s { emitter = e })) s.emitter.is_working p
      (record {
        queue = record { all = p.queue.all; some_attempt = p.queue.some_attempt };
        hand = p.hand;
      })
Step-IsPatient {s} p begins_close = record {
  queue = record { all = p.queue.all; some_attempt = p.queue.some_attempt };
  hand = p.hand;
}
Step-IsPatient {s} p (drained working empty) = record {
  queue = record { all = p.queue.all; some_attempt = p.queue.some_attempt };
  hand = tt;
}
Step-IsPatient {s} p (times_out working) = record {
  queue = record { all = tt; some_attempt = p.queue.some_attempt };
  hand = tt;
}

pub Reach-IsPatient : {s s' : Service} → IsPatient s → Reach s s' → IsPatient s'
Reach-IsPatient p here = p
Reach-IsPatient p (next before step) = Step-IsPatient (Reach-IsPatient p before) step

pub new_service-IsPatient : (m n : ℤ) → IsPatient (new_service m n)
new_service-IsPatient m (pos n) = record {
  queue = record { all = tt; some_attempt = ground arith };
  hand = tt;
}
new_service-IsPatient m (negsuc n) = record {
  queue = record { all = tt; some_attempt = omega arith };
  hand = tt;
}
