-- ===== src/Chat/Cleanup.antt =====
-- What `chat_completions` of app/gateway/routers/chat.py holds when it is over.
use ai_runtime_platform.Base.{
  ◌+◌, ◌≤◌, String, ◌≡◌, refl, Bool, true, false, Option, none, some, arith, if_both, Result, ok,
  err, Option-cases, Result-cases, inl, inr,
}
use ai_runtime_platform.Http.{HttpError}
use ai_runtime_platform.Money.{Float}
use ai_runtime_platform.Budget.Decision.{BudgetReservation}
use ai_runtime_platform.Budget.Guard.{World}
use ai_runtime_platform.Budget.Reservation.{Held, abandon, release, settle, settle_once_for}
use ai_runtime_platform.Chat.{
  Flow, Outcome, Parts, responded, refused, broken, call_upstream, chat_completions,
  chat_completions_admitted, choose_and_call, clean_up, executed, finalize_stream, finish,
  reserve_inference_budget, release_lease, release_slot, slot_taken, with_lease, with_reservation,
}

abbrev pub settled_of : Option BudgetReservation → Bool
settled_of none = true
settled_of (some r) = r.settled

-- Nothing is held: no slot, no lease, no reservation that was not settled.
pub record IsClean (f : Flow) : Type 0 where
  pub no_slot : f.slots ≡ 0
  pub no_lease : f.leases ≡ 0
  pub settled : settled_of f.reservation ≡ true

abbrev pub is_ok : Result HttpError Unit → Bool
is_ok (ok done) = true
is_ok (err error) = false

-- What the outer handler relies on: one slot at most, and nothing at all after a success.
record IsGood (o : Outcome) : Type 0 where
  one_slot : o.0.slots ≤ 1
  clean_slot : is_ok o.1 ≡ true → o.0.slots ≡ 0
  clean_lease : is_ok o.1 ≡ true → o.0.leases ≡ 0
  clean_budget : is_ok o.1 ≡ true → settled_of o.0.reservation ≡ true

settle-settled : (cost : Option Float) (w : World) (h : Held) → (settle cost w h).1.settled ≡ true
unfolding settle settle_once_for
settle-settled cost w (g, r) = ground arith

settled-with_settle :
    (cost : Option Float) (w : World) (f : Flow)
    → settled_of (with_reservation (settle cost w) f).reservation ≡ true
unfolding with_reservation
settled-with_settle cost w f = elim (Option-cases f.reservation) [
  | inl free ↦ ground (arith, free)
  | inr (r, held) ↦ ground (arith, held, settle-settled cost w (f.guard, r))
]

abandon-settled : (w : World) (h : Held) → (abandon w h).1.settled ≡ true
unfolding abandon settle release settle_once_for
abandon-settled w (g, r) = ground arith

settled-with_abandon :
    (w : World) (f : Flow) → settled_of (with_reservation (abandon w) f).reservation ≡ true
unfolding with_reservation
settled-with_abandon w f = elim (Option-cases f.reservation) [
  | inl free ↦ ground (arith, free)
  | inr (r, held) ↦ ground (arith, held, abandon-settled w (f.guard, r))
]

slots-with_reservation :
    (method : Held → Held) (f : Flow) → (with_reservation method f).slots ≡ f.slots
unfolding with_reservation
slots-with_reservation method f = ground arith

finish-IsGood :
    (p : Parts) (cost : Option Float) (f : Flow) → f.slots ≤ 1 → IsGood (finish p cost f)
unfolding finish release_slot release_lease
finish-IsGood p cost f one =
    let paid = settled-with_settle cost p.settled_in f in
    let same = slots-with_reservation (settle cost p.settled_in) f in
    record {
      one_slot = ground (arith, one, same);
      clean_slot = ground (arith, one, same);
      clean_lease = ground (arith, one, same);
      clean_budget = ground (arith, one, same, paid);
    }

finalize_stream-IsClean :
    (p : Parts) (cost : Option Float) (f : Flow) → f.slots ≤ 1 → IsClean (finalize_stream p cost f)
unfolding finalize_stream release_slot release_lease
finalize_stream-IsClean p cost f one =
    let paid = with_reservation (settle cost p.settled_in) f in
    let same = slots-with_reservation (settle cost p.settled_in) f in
    let same_f = slots-with_reservation (settle none p.closed_in) f in
    let same_paid = slots-with_reservation (settle none p.closed_in) paid in
    record {
      no_slot = ground (arith, one, same, same_f, same_paid);
      no_lease = ground arith;
      settled = ground (
        arith,
        settled-with_settle none p.closed_in f,
        settled-with_settle none p.closed_in paid,
      );
    }

failed-IsGood : (f : Flow) (error : HttpError) → f.slots ≤ 1 → IsGood (f, err error)
failed-IsGood f error one = record {
  one_slot = one;
  clean_slot = λ h. ground (arith, h);
  clean_lease = λ h. ground (arith, h);
  clean_budget = λ h. ground (arith, h);
}

done-IsGood : (f : Flow) (done : Unit) → IsClean f → IsGood (f, ok done)
done-IsGood f done clean = record {
  one_slot = omega (arith, clean.no_slot);
  clean_slot = λ h. clean.no_slot;
  clean_lease = λ h. clean.no_lease;
  clean_budget = λ h. clean.settled;
}

-- A failure after a method of the reservation was called.
told-IsGood :
    (method : Held → Held) (f : Flow) (error : HttpError)
    → f.slots ≤ 1
    → IsGood (with_reservation method f, err error)
told-IsGood method f error one =
    failed-IsGood (with_reservation method f) error
      (omega (arith, one, slots-with_reservation method f))

-- The stream path of `call_upstream`.
stream-IsGood :
    (p : Parts) (cost : Option Float) (f : Flow) (before : Result HttpError Unit)
    → f.slots ≤ 1
    → IsGood (elim before [ err error ↦ (f, err error) | ok _ ↦ (finalize_stream p cost f, ok tt) ])
stream-IsGood p cost f (err error) one = failed-IsGood f error one
stream-IsGood p cost f (ok done) one =
    done-IsGood (finalize_stream p cost f) tt (finalize_stream-IsClean p cost f one)

call_upstream-IsGood : (p : Parts) (f : Flow) → f.slots ≤ 1 → IsGood (call_upstream p f)
unfolding call_upstream
call_upstream-IsGood p f one =
    elim p.upstream as (λ u. p.upstream ≡ u → IsGood (call_upstream p f)) [
      | refused ↦ λ e. rw (e, call_upstream) (told-IsGood (release p.settled_in) f _ one)
      | broken ↦ λ e. rw (e, call_upstream) (told-IsGood (settle none p.settled_in) f _ one)
      | responded cost ↦ λ e.
          rw (e, call_upstream)
            (if_both (λ (o : Outcome). IsGood o) p.stream
              (stream-IsGood p cost f p.before_settlement one) (finish-IsGood p cost f one))
    ]
      refl

choose_and_call-IsGood : (p : Parts) (f : Flow) → f.slots ≤ 1 → IsGood (choose_and_call p f)
unfolding choose_and_call
choose_and_call-IsGood p f one = elim (Result-cases p.governance) [
  | inr (error, raised) ↦
      rw (raised, choose_and_call) (told-IsGood (release p.settled_in) f error one)
  | inl (done, passed) ↦ elim (Result-cases p.selection) [
    | inr (error, raised) ↦
        rw (passed, raised, choose_and_call) (told-IsGood (release p.settled_in) f error one)
    | inl (chosen, found) ↦
        rw (passed, found, choose_and_call)
          (if_both (λ (o : Outcome). IsGood o) p.target_known
            (call_upstream-IsGood p (with_reservation executed f)
              (omega (arith, one, slots-with_reservation executed f)))
            (told-IsGood (release p.settled_in) f _ one))
  ]
]

module _ (sha256_hex : String → String) where
  slots-reserve :
      (p : Parts) (f : Flow) → (reserve_inference_budget sha256_hex p f).0.slots ≡ f.slots
  unfolding reserve_inference_budget
  slots-reserve p f = ground arith

  admitted-IsGood :
      (p : Parts) (f : Flow) → f.slots ≤ 1 → IsGood (chat_completions_admitted sha256_hex p f)
  unfolding chat_completions_admitted
  admitted-IsGood p f one =
      let f' = (reserve_inference_budget sha256_hex p f).0 in
      let one' : f'.slots ≤ 1 = omega (arith, one, slots-reserve p f) in
      elim (Result-cases (reserve_inference_budget sha256_hex p f).1) [
        | inr (error, denied) ↦ rw (denied, chat_completions_admitted) (failed-IsGood f' error one')
        | inl (done, reserved) ↦ elim (Result-cases p.quota) [
          | inr (error, raised) ↦
              rw (reserved, raised, chat_completions_admitted) (failed-IsGood f' error one')
          | inl (counted, passed) ↦
              rw (reserved, passed, chat_completions_admitted) (choose_and_call-IsGood p f' one')
        ]
      ]

  clean_up-IsClean : (p : Parts) (o : Outcome) → IsGood o → IsClean (clean_up sha256_hex p o).0
  unfolding clean_up release_slot release_lease
  clean_up-IsClean p (f, ok done) good = record {
    no_slot = good.clean_slot refl;
    no_lease = good.clean_lease refl;
    settled = good.clean_budget refl;
  }
  clean_up-IsClean p (f, err error) good = record {
    no_slot = omega (arith, good.one_slot, slots-with_reservation (abandon p.closed_in) f);
    no_lease = refl;
    settled = settled-with_abandon p.closed_in f;
  }

  with_lease-IsClean :
      (p : Parts) (f : Flow)
      → f.slots ≤ 1
      → f.leases ≡ 0
      → f.reservation ≡ none
      → IsClean (with_lease sha256_hex p f).0
  unfolding release_slot
  with_lease-IsClean p f one none_leased free =
      elim p.lease as (λ l. p.lease ≡ l → IsClean (with_lease sha256_hex p f).0) [
        | none ↦ λ e.
            rw (e, with_lease)
              (clean_up-IsClean p (chat_completions_admitted sha256_hex p f)
                (admitted-IsGood p f one))
        | some (err error) ↦ λ e.
            rw (e, with_lease)
              (record {
                no_slot = omega (arith, one);
                no_lease = none_leased;
                settled = ground (arith, free);
              })
        | some (ok done) ↦ λ e.
            let f' = record f { leases = f.leases + 1 } in
            rw (e, with_lease)
              (clean_up-IsClean p (chat_completions_admitted sha256_hex p f')
                (admitted-IsGood p f' one))
      ]
        refl

  -- On every path of a request that starts with nothing, plain or streamed, whatever part of it
  -- raises: when it is over it holds no global slot and no lease, and its budget reservation, if
  -- it had one, is settled.
  pub nothing_is_kept :
      (p : Parts) (f : Flow)
      → f.slots ≡ 0
      → f.leases ≡ 0
      → f.reservation ≡ none
      → IsClean (chat_completions sha256_hex p f).0
  unfolding chat_completions
  nothing_is_kept p f no_slot no_lease free = elim (Result-cases p.accepted) [
    | inr (error, raised) ↦
        rw (raised, chat_completions)
          (record { no_slot = no_slot; no_lease = no_lease; settled = ground (arith, free) })
    | inl (done, passed) ↦
        rw (passed, chat_completions)
          (elim p.slot as (λ o. IsClean (slot_taken sha256_hex p f o).0) [
            | none ↦ with_lease-IsClean p f (omega (arith, no_slot)) no_lease free
            | some (err error) ↦ record {
              no_slot = no_slot;
              no_lease = no_lease;
              settled = ground (arith, free);
            }
            | some (ok taken) ↦
                with_lease-IsClean p (record f { slots = f.slots + 1 }) (omega (arith, no_slot))
                  no_lease free
          ])
  ]
