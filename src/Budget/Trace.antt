-- ===== src/Budget/Trace.antt =====
-- The life of one scope's window of app/gateway/budget_guard.py, as a step relation.
use ai_runtime_platform.Base.{ℕ, ◌+◌, ◌*◌, max, String, ◌≡◌, some, arith, ◌≤◌, List, [], ◌∷◌}
use native.Mathlib.Decide.{dec_le}
use ai_runtime_platform.Int.{pos}
use ai_runtime_platform.Money.{Float, budget_to_micros}
use ai_runtime_platform.Dict.{lookup}
use ai_runtime_platform.Budget.Window.{
  MemoryWindow, expire_memory, expire_each, expire_one, forget_stale, due, roll_window, refresh,
  reserve_in, settle_in,
}
use ai_runtime_platform.Budget.Invariant.{
  IsSound, IsFresh, expire_memory-IsSound, reserve_in-IsSound, settle_in-IsSound,
}
use ai_runtime_platform.Budget.Admission.{reserve_grants, reserve_refuses}
use ai_runtime_platform.Budget.Settlement.{settle_charges, settle_fresh}

-- The clock is read before the lock is taken, so the times of the steps come in any order.
-- `Step` leaves out the two settlements that may pass the cap: of more than was reserved, and
-- after the expiry. A settlement of an unknown id is `settle_in` on a fresh one.
pub data Step (budget : Float) (window ttl : ℕ) : MemoryWindow → MemoryWindow → Type 0 where
  reserve :
      (now estimate : ℕ) (id : String) (w : MemoryWindow)
      → IsFresh id w
      → Step budget window ttl w (reserve_in now window ttl budget estimate id w).1
  settle :
      (now actual : ℕ) (id : String) (w : MemoryWindow) (expiry amt : ℕ)
      → lookup id w.reservations ≡ some (expiry, amt)
      → actual ≤ amt
      → Step budget window ttl w (settle_in now window actual id w)
  settle_unknown :
      (now actual : ℕ) (id : String) (w : MemoryWindow)
      → IsFresh id w
      → Step budget window ttl w (settle_in now window actual id w)
  purge :
      (now keys_ttl : ℕ) (w : MemoryWindow)
      → Step budget window ttl w (expire_memory now keys_ttl w).0

pub data Reach (budget : Float) (window ttl : ℕ) (w : MemoryWindow) : MemoryWindow → Type 0 where
  here : Reach budget window ttl w w
  next :
      {v u : MemoryWindow}
      → Reach budget window ttl w v
      → Step budget window ttl v u
      → Reach budget window ttl w u

abbrev pub spent : MemoryWindow → ℕ
spent w = w.committed_micros + w.reserved_micros

expire_one-spent :
    (now ttl : ℕ) (id : String) (w : MemoryWindow) → spent (expire_one now ttl id w) ≤ spent w
unfolding expire_one
expire_one-spent now ttl id w = ground arith

expire_each-spent :
    (now ttl : ℕ) (ids : List String) (w : MemoryWindow)
    → spent (expire_each now ttl ids w) ≤ spent w
unfolding expire_each
expire_each-spent now ttl [] w = omega arith
expire_each-spent now ttl (id ∷ ids) w =
    omega (
      arith,
      expire_each-spent now ttl ids (expire_one now ttl id w),
      expire_one-spent now ttl id w,
    )

expire_memory-spent : (now ttl : ℕ) (w : MemoryWindow) → spent (expire_memory now ttl w).0 ≤ spent w
unfolding expire_memory forget_stale
expire_memory-spent now ttl w = expire_each-spent now ttl (due now w.reservations) w

roll_window-spent :
    (now window : ℕ) (w : MemoryWindow)
    → ((roll_window now window w).committed_micros ≤ w.committed_micros)
      × ((roll_window now window w).reserved_micros ≡ w.reserved_micros)
unfolding roll_window
roll_window-spent now window w = ground arith

refresh-spent : (now window ttl : ℕ) (w : MemoryWindow) → spent (refresh now window ttl w) ≤ spent w
unfolding refresh
refresh-spent now window ttl w =
    let w' = (expire_memory now (max window ttl * 4) w).0 in
    omega (arith, expire_memory-spent now (max window ttl * 4) w, roll_window-spent now window w')

module _ (budget : Float) (window ttl : ℕ) {cap : ℕ} where
  reserve-spent :
      budget_to_micros budget ≡ some (pos cap)
      → (now estimate : ℕ) (id : String) (w : MemoryWindow) → spent w ≤ cap
      → spent (reserve_in now window ttl budget estimate id w).1 ≤ cap
  reserve-spent in_micros now estimate id w within =
      elim (dec_le (spent (refresh now window ttl w) + estimate) cap) [
        | yes fits ↦ (reserve_grants now window ttl budget estimate id w in_micros fits).2
        | no over ↦
            let refused =
              reserve_refuses now window ttl budget estimate id w in_micros (omega arith) in
            rw refused.1 (omega (arith, refresh-spent now window ttl w))
      ]

  settle-spent :
      (now actual : ℕ) (id : String) (w : MemoryWindow) (expiry amt : ℕ)
      → IsSound w
      → lookup id w.reservations ≡ some (expiry, amt)
      → actual ≤ amt
      → spent w ≤ cap
      → spent (settle_in now window actual id w) ≤ cap
  settle-spent now actual id w expiry amt s found bounded within =
      let charged = settle_charges now window actual id id w s found in
      omega (arith, charged.0, charged.1, roll_window-spent now window w)

  -- One step keeps the window sound and its spending within the cap.
  step-within :
      {w w' : MemoryWindow}
      → budget_to_micros budget ≡ some (pos cap)
      → IsSound w
      → spent w ≤ cap
      → Step budget window ttl w w'
      → IsSound w' × (spent w' ≤ cap)
  step-within in_micros s within (reserve now estimate id w fresh) = (
    reserve_in-IsSound now window ttl budget estimate id w fresh s,
    reserve-spent in_micros now estimate id w within,
  )
  step-within in_micros s within (settle now actual id w expiry amt found bounded) = (
    settle_in-IsSound now window actual id w s,
    settle-spent now actual id w expiry amt s found bounded within,
  )
  step-within in_micros s within (settle_unknown now actual id w fresh) =
      rw (settle_fresh now window actual id w fresh) (s, within)
  step-within in_micros s within (purge now keys_ttl w) =
      (expire_memory-IsSound now keys_ttl w s, omega (arith, expire_memory-spent now keys_ttl w))

  -- From a sound window within the cap, whatever reservations, punctual settlements of at most
  -- the reserved amount, unknown settlements and purges follow, at whatever times: the window
  -- stays sound, and what is committed and reserved together never passes the cap.
  pub never_overspent :
      {w w' : MemoryWindow}
      → budget_to_micros budget ≡ some (pos cap)
      → IsSound w
      → spent w ≤ cap
      → Reach budget window ttl w w'
      → IsSound w' × (spent w' ≤ cap)
  never_overspent in_micros s within here = (s, within)
  never_overspent in_micros s within (next r st) =
      let before = never_overspent in_micros s within r in
      step-within in_micros before.0 before.1 st
