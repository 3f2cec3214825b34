-- ===== src/Budget/Lifecycle.antt =====
-- Runs of the methods of `BudgetReservation` in app/gateway/budget_guard.py.
use ai_runtime_platform.Base.{
  ℕ, ◌*◌, ◌^◌, ◌≤◌, ◌<◌, ◌+◌, ◌≡◌, ◌≢◌, refl, true, false, some, List, ◌∷◌, arith, if◌then◌else◌,
}
use ai_runtime_platform.Money.{Decimal, finite, micros_per_usd, context_limit}
use ai_runtime_platform.Money.Bounds.{charge_and_budget_bounds}
use ai_runtime_platform.Budget.Decision.{BudgetReservation}
use ai_runtime_platform.Budget.Guard.{Guard, World, settle_micros}
use ai_runtime_platform.Budget.Reservation.{
  Call, call_settle, call_mark_executed, perform, perform_all, perform_all_settled, actual_micros,
  settle, release, abandon,
}

perform_settles :
    (c : Call) (g : Guard) (r : BudgetReservation)
    → c ≢ call_mark_executed
    → (perform c (g, r)).1.settled ≡ true
unfolding perform settle release abandon
perform_settles (call_settle actual world) g r settling = ground arith
perform_settles call_mark_executed g r settling = absurd (settling refl)
perform_settles c g r settling = ground arith

-- Of any calls of `settle`, `release`, `abandon` and `mark_executed` on a reservation, those after
-- the first settling one do not reach the guard.
pub first_settlement_counts :
    (c : Call) (cs : List Call) (g : Guard) (r : BudgetReservation)
    → c ≢ call_mark_executed
    → (perform_all (c ∷ cs) (g, r)).0 ≡ (perform c (g, r)).0
unfolding perform_all
first_settlement_counts c cs g r settling =
    perform_all_settled cs (perform c (g, r)).0 (perform c (g, r)).1
      (perform_settles c g r settling)

-- An abandoned reservation that is not settled is charged its estimate if the model may have been
-- called, and nothing otherwise.
pub abandon_charges :
    (world : World) (g : Guard) (r : BudgetReservation)
    → r.settled ≡ false
    → let r' = record r { settled = true } in
      let micros = if r.executed then r.reserved_micros else 0 in
      abandon world (g, r) ≡ (settle_micros r' micros world g, r')
unfolding abandon actual_micros
abandon_charges world g r open_one = ground arith

-- A spend that is known, finite and not negative is charged in full: the micros that `settle`
-- charges are the least whole number at or above it, for an amount whose product with 10^6 has at
-- most 28 digits.
pub actual_micros_covers :
    (estimate : ℕ) (x : Decimal)
    → x.coefficient * micros_per_usd < context_limit
    → let m = actual_micros estimate (some (finite false x)) in
      (x.coefficient * micros_per_usd ≤ m * 10 ^ x.scale)
      × (m * 10 ^ x.scale < x.coefficient * micros_per_usd + 10 ^ x.scale)
unfolding actual_micros
actual_micros_covers estimate x h =
    let (m, n, charged, capped, above, below, low, high) = charge_and_budget_bounds x h in
    rw charged (above, below)
