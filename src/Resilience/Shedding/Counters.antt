-- ===== src/Resilience/Shedding/Counters.antt =====
-- The tasks that share `GlobalAdmissionController` of app/gateway/resilience.py, and every
-- interleaving of them.
use ai_runtime_platform.Base.{
  ℕ, ◌+◌, zero, suc, inl, inr, ◌⊎◌, ◌-◌, ◌*◌, ◌≤◌, ◌<◌, max, ◌≡◌, refl, true, false, some, arith,
  ok,
}
use ai_runtime_platform.Resilience.Shedding.{
  GlobalAdmissionController, new_controller, enqueue, take_slot, dequeue, give_back, uncount,
}

-- How many tasks stand where: at the semaphore, with a slot or cancelled before the lock of
-- `acquire`, in their work, and before the lock of `release`.
pub record Tasks : Type 0 where
  pub waiting : ℕ
  pub passing : ℕ
  pub cancelled : ℕ
  pub holding : ℕ
  pub leaving : ℕ

abbrev pub nobody : Tasks
nobody = record { waiting = 0; passing = 0; cancelled = 0; holding = 0; leaving = 0 }

-- What a request does of itself.
pub data Move : GlobalAdmissionController → Tasks → GlobalAdmissionController → Tasks → Type 0 where
  pass :
      {c c' : GlobalAdmissionController} {t : Tasks} {n : ℕ}
      → t.waiting ≡ n + 1
      → take_slot c ≡ some c'
      → Move c t c' (record t { waiting = n; passing = t.passing + 1 })
  enter :
      {c : GlobalAdmissionController} {t : Tasks} {n : ℕ}
      → t.passing ≡ n + 1
      → Move c t (dequeue true c) (record t { passing = n; holding = t.holding + 1 })
  give_up :
      {c : GlobalAdmissionController} {t : Tasks} {n : ℕ}
      → t.cancelled ≡ n + 1
      → Move c t (dequeue false c) (record t { cancelled = n })
  finish :
      {c : GlobalAdmissionController} {t : Tasks} {n : ℕ}
      → t.holding ≡ n + 1
      → Move c t (give_back c) (record t { holding = n; leaving = t.leaving + 1 })
  leave :
      {c : GlobalAdmissionController} {t : Tasks} {n : ℕ}
      → t.leaving ≡ n + 1
      → Move c t (uncount c) (record t { leaving = n })

pub data Step : GlobalAdmissionController → Tasks → GlobalAdmissionController → Tasks → Type 0 where
  arrive :
      {c c' : GlobalAdmissionController} {t : Tasks}
      → enqueue c ≡ ok c'
      → Step c t c' (record t { waiting = t.waiting + 1 })
  cancel :
      {c : GlobalAdmissionController} {t : Tasks} {n : ℕ}
      → t.waiting ≡ n + 1
      → Step c t c (record t { waiting = n; cancelled = t.cancelled + 1 })
  move : {c c' : GlobalAdmissionController} {t t' : Tasks} → Move c t c' t' → Step c t c' t'

pub data Reachable (m q : ℕ) : GlobalAdmissionController → Tasks → Type 0 where
  start : Reachable m q (new_controller m q) nobody
  after :
      {c c' : GlobalAdmissionController} {t t' : Tasks}
      → Reachable m q c t
      → Step c t c' t'
      → Reachable m q c' t'

-- How many moves the requests still have before them.
unfoldable pub to_go : Tasks → ℕ
to_go t = 4 * t.waiting + 3 * t.passing + t.cancelled + 2 * t.holding + t.leaving

pub record IsAccounted (m q : ℕ) (c : GlobalAdmissionController) (t : Tasks) : Type 0 where
  same_limits : (c.max_inflight ≡ m) × (c.max_queued ≡ q)
  slots : c.sem + t.passing + t.holding ≡ max 1 m
  queue : c.queued ≡ t.waiting + t.passing + t.cancelled
  work : c.inflight ≡ t.holding + t.leaving

enqueue_ok :
    (c c' : GlobalAdmissionController) → enqueue c ≡ ok c' → c' ≡ record c { queued = c.queued + 1 }
unfolding enqueue
enqueue_ok c c' h = ground (arith, h)

take_slot-some :
    (c c' : GlobalAdmissionController)
    → take_slot c ≡ some c'
    → (1 ≤ c.sem) × (c' ≡ record c { sem = c.sem - 1 })
unfolding take_slot
take_slot-some c c' h = ground (arith, h)

Move-IsAccounted :
    (m q : ℕ) (c c' : GlobalAdmissionController) (t t' : Tasks)
    → Move c t c' t'
    → IsAccounted m q c t
    → IsAccounted m q c' t'
unfolding dequeue give_back uncount
Move-IsAccounted m q c c' t t' (pass one h) i =
    let (some_slot, taken) = take_slot-some c c' h in
    rw taken (record {
      same_limits = i.same_limits;
      slots = omega (arith, one, some_slot, i.slots);
      queue = omega (arith, one, some_slot, i.queue);
      work = omega (arith, one, some_slot, i.work);
    })
Move-IsAccounted m q c c' t t' (enter one) i = record {
  same_limits = i.same_limits;
  slots = omega (arith, one, i.slots);
  queue = omega (arith, one, i.queue);
  work = omega (arith, one, i.work);
}
Move-IsAccounted m q c c' t t' (give_up one) i = record {
  same_limits = i.same_limits;
  slots = omega (arith, one, i.slots);
  queue = omega (arith, one, i.queue);
  work = omega (arith, one, i.work);
}
Move-IsAccounted m q c c' t t' (finish one) i = record {
  same_limits = i.same_limits;
  slots = omega (arith, one, i.slots);
  queue = omega (arith, one, i.queue);
  work = omega (arith, one, i.work);
}
Move-IsAccounted m q c c' t t' (leave one) i = record {
  same_limits = i.same_limits;
  slots = omega (arith, one, i.slots);
  queue = omega (arith, one, i.queue);
  work = omega (arith, one, i.work);
}

Step-IsAccounted :
    (m q : ℕ) (c c' : GlobalAdmissionController) (t t' : Tasks)
    → Step c t c' t'
    → IsAccounted m q c t
    → IsAccounted m q c' t'
Step-IsAccounted m q c c' t t' (arrive h) i = rw (enqueue_ok c c' h) (record {
  same_limits = i.same_limits;
  slots = omega (arith, i.slots);
  queue = omega (arith, i.queue);
  work = omega (arith, i.work);
})
Step-IsAccounted m q c c' t t' (cancel one) i = record {
  same_limits = i.same_limits;
  slots = omega (arith, one, i.slots);
  queue = omega (arith, one, i.queue);
  work = omega (arith, one, i.work);
}
Step-IsAccounted m q c c' t t' (move moved) i = Move-IsAccounted m q c c' t t' moved i

pub Reachable-IsAccounted :
    (m q : ℕ) (c : GlobalAdmissionController) (t : Tasks) → Reachable m q c t → IsAccounted m q c t
Reachable-IsAccounted m q c t start = record {
  same_limits = (refl, refl);
  slots = omega arith;
  queue = refl;
  work = refl;
}
Reachable-IsAccounted m q c t (after {c = b} {t = s} before step) =
    Step-IsAccounted m q b c s t step (Reachable-IsAccounted m q b s before)

-- However requests arrive, are cancelled, work and leave, no more of them work at a time than the
-- limit says (one, when it says none).
pub slots_bounded :
    (m q : ℕ) (c : GlobalAdmissionController) (t : Tasks)
    → Reachable m q c t
    → t.holding + t.passing ≤ max 1 m
slots_bounded m q c t run = omega (arith, (Reachable-IsAccounted m q c t run).slots)

-- Nothing leaks: when every request has left, one that was cancelled included, the controller is
-- as it was when it was made.
pub nothing_leaks :
    (m q : ℕ) (c : GlobalAdmissionController) → Reachable m q c nobody → c ≡ new_controller m q
nothing_leaks m q c run =
    let i = Reachable-IsAccounted m q c nobody run in
    ground (arith, i.same_limits, i.slots, i.queue, i.work)

take_slot_free :
    (c : GlobalAdmissionController) → 1 ≤ c.sem → take_slot c ≡ some (record c { sem = c.sem - 1 })
unfolding take_slot
take_slot_free c h = ground (arith, h)

-- With nobody at work there is a slot for the first who waits.
first_waits :
    (m q : ℕ) (c : GlobalAdmissionController) (t : Tasks)
    → IsAccounted m q c t
    → t.holding ≡ 0
    → t.passing ≡ 0
    → 1 ≤ t.waiting
    → (c' : GlobalAdmissionController) × (t' : Tasks) × Move c t c' t' × (to_go t' < to_go t)
unfolding to_go
first_waits m q c t i no_holding no_passing some_wait =
    let n = t.waiting - 1 in
    (
      record c { sem = c.sem - 1 },
      record t { waiting = n; passing = t.passing + 1 },
      pass (omega (arith, some_wait))
          (take_slot_free c (omega (arith, i.slots, no_holding, no_passing))),
      omega (arith, some_wait),
    )

ℕ-cases : (n : ℕ) → (n ≡ 0) ⊎ ((k : ℕ) × (n ≡ k + 1))
ℕ-cases zero = inl refl
ℕ-cases (suc n) = inr (n, omega arith)

-- Nobody waits for ever for a slot that is never given back: as long as there are requests, one of
-- them can move without another arriving or being cancelled, and has fewer moves before it then.
pub moves_on :
    (m q : ℕ) (c : GlobalAdmissionController) (t : Tasks)
    → Reachable m q c t
    → 1 ≤ t.waiting + t.passing + t.cancelled + t.holding + t.leaving
    → (c' : GlobalAdmissionController) × (t' : Tasks) × Move c t c' t' × (to_go t' < to_go t)
unfolding to_go
moves_on m q c t run someone = elim (ℕ-cases t.leaving) [
  | inr (n, e) ↦ (uncount c, record t { leaving = n }, leave e, omega (arith, e))
  | inl no_leaving ↦ elim (ℕ-cases t.cancelled) [
    | inr (n, e) ↦ (dequeue false c, record t { cancelled = n }, give_up e, omega (arith, e))
    | inl no_cancelled ↦ elim (ℕ-cases t.holding) [
      | inr (n, e) ↦ (
        give_back c,
        record t { holding = n; leaving = t.leaving + 1 },
        finish e,
        omega (arith, e),
      )
      | inl no_holding ↦ elim (ℕ-cases t.passing) [
        | inr (n, e) ↦ (
          dequeue true c,
          record t { passing = n; holding = t.holding + 1 },
          enter e,
          omega (arith, e),
        )
        | inl no_passing ↦
            first_waits m q c t (Reachable-IsAccounted m q c t run) no_holding no_passing
              (omega (arith, someone, no_leaving, no_cancelled, no_holding, no_passing))
      ]
    ]
  ]
]
