-- ===== src/Budget/Reservation.antt =====
-- The methods of `BudgetReservation` in app/gateway/budget_guard.py.
use ai_runtime_platform.Base.{
  ℕ, ◌≡◌, refl, true, ◌&&◌, Option, none, some, List, [], ◌∷◌, arith, ltb, if◌then◌else◌, ◌∙◌,
}
use ai_runtime_platform.Int.{ℤ, max_zero}
use ai_runtime_platform.Money.{Float, finite, infinite, nan, charge_to_micros}
use ai_runtime_platform.Budget.Decision.{BudgetReservation}
use ai_runtime_platform.Budget.Guard.{Guard, World, settle_micros}

unfoldable pub mark_executed : BudgetReservation → BudgetReservation
mark_executed r = record r { executed = true }

abbrev charge_or : ℕ → Option ℤ → ℕ
charge_or estimate none = estimate
charge_or estimate (some i) = max_zero i

-- The micros that `settle` charges: an unknown, non-finite or negative amount counts as the
-- estimate. `max(0, …)` is that of `_settle`.
unfoldable pub actual_micros : ℕ → Option Float → ℕ
actual_micros estimate none = estimate
actual_micros estimate (some infinite) = estimate
actual_micros estimate (some nan) = estimate
actual_micros estimate (some (finite minus x)) =
    if minus && ltb 0 x.coefficient
    then estimate
    else charge_or estimate (charge_to_micros (finite minus x))

abbrev pub Held : Type 0
Held = Guard × BudgetReservation

-- the common part of `settle` and `release`
unfoldable pub settle_once_for : ℕ → World → Held → Held
settle_once_for micros world (g, r) =
    if r.settled
    then (g, r)
    else (let r' = record r { settled = true } in (settle_micros r' micros world g, r'))

unfoldable pub settle : Option Float → World → Held → Held
unfolding settle_once_for actual_micros
settle actual_usd world (g, r) =
    settle_once_for (actual_micros r.reserved_micros actual_usd) world (g, r)

unfoldable pub release : World → Held → Held
unfolding settle_once_for
release world h = settle_once_for 0 world h

unfoldable pub abandon : World → Held → Held
unfolding settle release
abandon world (g, r) = if r.executed then settle none world (g, r) else release world (g, r)

-- A call of one of the methods, in the world of that moment.
pub data Call : Type 0 where
  call_settle : Option Float → World → Call
  call_release call_abandon : World → Call
  call_mark_executed : Call

unfoldable pub perform : Call → Held → Held
perform (call_settle actual world) h = settle actual world h
perform (call_release world) h = release world h
perform (call_abandon world) h = abandon world h
perform call_mark_executed (g, r) = (g, mark_executed r)

unfoldable pub perform_all : List Call → Held → Held
perform_all [] h = h
perform_all (c ∷ cs) h = perform_all cs (perform c h)

perform_settled :
    (c : Call) (g : Guard) (r : BudgetReservation)
    → r.settled ≡ true
    → ((perform c (g, r)).0 ≡ g) × ((perform c (g, r)).1.settled ≡ true)
unfolding perform settle release abandon mark_executed
perform_settled (call_settle actual world) g r done = ground (arith, done)
perform_settled c g r done = ground (arith, done)

-- Once a reservation is settled, no further calls reach the guard.
pub perform_all_settled :
    (cs : List Call) (g : Guard) (r : BudgetReservation)
    → r.settled ≡ true
    → (perform_all cs (g, r)).0 ≡ g
unfolding perform_all
perform_all_settled [] g r done = refl
perform_all_settled (c ∷ cs) g r done =
    let step = perform_settled c g r done in
    perform_all_settled cs (perform c (g, r)).0 (perform c (g, r)).1 step.1 ∙ step.0
