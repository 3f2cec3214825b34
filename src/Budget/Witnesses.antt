-- ===== src/Budget/Witnesses.antt =====
-- Runs of the budget guard, and its theorems at concrete inputs.
use ai_runtime_platform.Base.{
  ℕ, ◌+◌, ◌*◌, ◌^◌, ◌≤◌, ◌<◌, ◌≡◌, refl, true, false, none, some, [], ◌∷◌, arith, ok,
}
use ai_runtime_platform.Int.{pos}
use ai_runtime_platform.Dict.{lookup}
use ai_runtime_platform.Money.{
  Decimal, Float, finite, charge_to_micros, budget_to_micros, mul, add, round_size,
}
use ai_runtime_platform.Money.Bounds.{charge_and_budget_bounds}
use ai_runtime_platform.Budget.Policy.{
  timeout, ScopeBudget, InferenceBudgetPolicy, ModelPrice, estimate_cost_micros,
}
use ai_runtime_platform.Budget.Window.{
  MemoryWindow, new_window, refresh, reserve_in, settle_in, commit, roll_window,
}
use ai_runtime_platform.Budget.Invariant.{IsSound, reserve_in-IsSound}
use ai_runtime_platform.Budget.Settlement.{settle_once, settle_charges}
use ai_runtime_platform.Budget.Trace.{reserve, settle, here, next, spent, never_overspent}
use ai_runtime_platform.Budget.Decision.{Subject, BudgetReservation, sequence, number}
use ai_runtime_platform.Budget.Guard.{
  Guard, World, Request, replied, raised, reserve as reserve_call,
}
use ai_runtime_platform.Budget.FailClosed.{IsConsistent, StoreSays, reserve-IsConsistent}
use ai_runtime_platform.Budget.ByStore.{IsByStore}
use ai_runtime_platform.Budget.Reservation.{perform, perform_all, call_release, call_abandon}
use ai_runtime_platform.Budget.Lifecycle.{first_settlement_counts}

abbrev dollar : Float
dollar = finite false (record { coefficient = 1; scale = 0 })

dollar_cap : budget_to_micros dollar ≡ some (pos 1_000_000)
unfolding budget_to_micros
dollar_cap = refl

-- One dollar an hour; a reservation of 0.60 expires after two minutes.
abbrev held_window : MemoryWindow
held_window = (reserve_in 1000 3_600_000 120_000 dollar 600_000 "r1" new_window).1

held_window_is : held_window ≡ record {
  window_start_ms = 1000;
  committed_micros = 0;
  reserved_micros = 600_000;
  reservations = ("r1", (121_000, 600_000)) ∷ [];
  tombstones = [];
}
unfolding reserve_in refresh budget_to_micros
held_window_is = refl

new_window-IsSound : IsSound new_window
new_window-IsSound = record {
  live_distinct = tt;
  expired_distinct = tt;
  apart = λ k live. refl;
  total = refl;
}

abbrev settled_window : MemoryWindow
settled_window = settle_in 2000 3_600_000 250_000 "r1" held_window

settled_window_commits : settled_window.committed_micros ≡ 250_000
unfolding settle_in commit reserve_in refresh budget_to_micros
settled_window_commits = refl

never_overspent_example : IsSound settled_window × (spent settled_window ≤ 1_000_000)
unfolding reserve_in refresh budget_to_micros
never_overspent_example =
    never_overspent dollar 3_600_000 120_000 dollar_cap new_window-IsSound (omega arith) (
      next (next here (reserve 1000 600_000 "r1" new_window (refl, refl)))
        (settle 2000 250_000 "r1" held_window 121_000 600_000 refl (omega arith)))

held_window-IsSound : IsSound held_window
held_window-IsSound =
    reserve_in-IsSound 1000 3_600_000 120_000 dollar 600_000 "r1" new_window (refl, refl)
      new_window-IsSound

found_r1 : lookup "r1" held_window.reservations ≡ some (121_000, 600_000)
unfolding reserve_in refresh budget_to_micros
found_r1 = refl

settle_once_example :
    settle_in 3000 3_600_000 999 "r1" (settle_in 2000 3_600_000 250_000 "r1" held_window)
    ≡ settle_in 2000 3_600_000 250_000 "r1" held_window
settle_once_example =
    settle_once 2000 3_600_000 250_000 3000 3_600_000 999 "r1" held_window held_window-IsSound

settle_charges_example :
    let w' = settle_in 2000 3_600_000 250_000 "r1" held_window in
    (w'.reserved_micros + 600_000 ≡ held_window.reserved_micros)
    × (w'.committed_micros ≡ (roll_window 2000 3_600_000 held_window).committed_micros + 250_000)
    × (lookup "r1" w'.reservations ≡ none)
settle_charges_example =
    settle_charges 2000 3_600_000 250_000 "r1" "r1" held_window held_window-IsSound found_r1

abbrev fifty_cents : Decimal
fifty_cents = record { coefficient = 5; scale = 1 }

charge_and_budget_bounds_example :
    (m n : ℕ) × (charge_to_micros (finite false fifty_cents) ≡ some (pos m))
    × (budget_to_micros (finite false fifty_cents) ≡ some (pos n))
    × (5_000_000 ≤ m * 10 ^ 1)
    × (m * 10 ^ 1 < 5_000_000 + 10 ^ 1)
    × (n * 10 ^ 1 ≤ 5_000_000)
    × (5_000_000 < n * 10 ^ 1 + 10 ^ 1)
charge_and_budget_bounds_example = charge_and_budget_bounds fifty_cents (omega arith)

abbrev hourly : ScopeBudget
hourly = record {
  budget_usd = dollar;
  window_seconds = 3600;
  soft_warning_ratio = finite false (record { coefficient = 8; scale = 1 });
  reservation_ttl_ms = 120_000;
}

-- 0.15 and 0.60 dollars per million tokens
abbrev price : ModelPrice
price = record {
  input_per_million = finite false (record { coefficient = 15; scale = 2 });
  output_per_million = finite false (record { coefficient = 6; scale = 1 });
}

abbrev budgets : InferenceBudgetPolicy
budgets = record {
  version = "1";
  enabled = true;
  default = hourly;
  tenants = [];
  prices = ("*", price) ∷ [];
  require_store = true;
}

-- 10 tokens at 0.15 and 7 at 0.60 are 5.7 micros, and 6 are reserved.
estimate_rounds_up : estimate_cost_micros budgets "m" (pos 10) (pos 7) ≡ ok 6
unfolding estimate_cost_micros mul add round_size
estimate_rounds_up = refl

abbrev guard : Guard
guard = record {
  policy = some budgets;
  redis_configured = false;
  memory = [];
  redis_ok = false;
  last_error = none;
  force_unavailable = false;
  force_timeout = false;
  force_corrupt = false;
}

abbrev world : World
world = record { new_id = "r1"; now_ms = 1000; exchange = raised timeout }

abbrev request : Request
request = record {
  tenant_id = "acme";
  model = "m";
  input_tokens = pos 10;
  output_tokens = pos 7;
  api_key = none;
  estimated_usd = none;
}

abbrev subject : Subject
subject = record { scope = "tenant:acme"; budget = hourly; version = "1"; estimate = pos 6 }

reserve-IsConsistent_example :
    let a = (reserve_call (λ s. s) request world guard).1 in
    IsConsistent a × IsByStore (StoreSays (λ s. s) budgets request world guard) a
reserve-IsConsistent_example = reserve-IsConsistent (λ s. s) request world guard refl

abbrev redis_world : World
redis_world = record {
  new_id = "r1";
  now_ms = 1000;
  exchange =
      replied (sequence (number (pos 1) ∷ number (pos 0) ∷ number (pos 6) ∷ number (pos 6) ∷ []));
}

abbrev reservation : BudgetReservation
reservation = record {
  scope = "tenant:acme";
  reservation_id = "r1";
  reserved_micros = 6;
  soft_warning = false;
  policy_version = "1";
  window_ms = 3_600_000;
  executed = false;
  settled = false;
}

first_settlement_counts_example :
    (perform_all (call_release world ∷ call_abandon world ∷ []) (guard, reservation)).0
    ≡ (perform (call_release world) (guard, reservation)).0
first_settlement_counts_example =
    first_settlement_counts (call_release world) (call_abandon world ∷ []) guard reservation
      (λ e. cc)
