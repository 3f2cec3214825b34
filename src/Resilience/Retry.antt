-- ===== src/Resilience/Retry.antt =====
-- `RetryBudget` of app/gateway/resilience.py. `consume` runs under the budget's lock. Times are
-- milliseconds of the monotonic clock; `now - start >= 60` is written as a sum.
use ai_runtime_platform.Base.{
  ℕ, ◌+◌, ◌-◌, ◌≤◌, ◌<◌, min, ◌≡◌, Bool, true, false, List, [], ◌∷◌, arith, leb, if◌then◌else◌,
  length, All,
}

pub record RetryBudget : Type 0 where
  pub max_retries_per_minute : ℕ
  pub window_start : ℕ
  pub used : ℕ

-- the first `if` of `consume`
unfoldable pub renew : ℕ → RetryBudget → RetryBudget
renew now r =
    if leb (r.window_start + 60000) now then record r { window_start = now; used = 0 } else r

-- the rest of it
unfoldable pub take_one : RetryBudget → RetryBudget × Bool
take_one r =
    if leb r.max_retries_per_minute r.used
    then (r, false)
    else (record r { used = r.used + 1 }, true)

-- `consume`
unfoldable pub consume : ℕ → RetryBudget → RetryBudget × Bool
unfolding renew take_one
consume now r = take_one (renew now r)

-- How many of the calls at the given times are granted.
unfoldable pub retries : List ℕ → RetryBudget → ℕ
retries [] r = 0
retries (t ∷ ts) r =
    let (r', granted) = consume t r in
    let rest = retries ts r' in if granted then rest + 1 else rest

abbrev pub AllBefore : ℕ → List ℕ → Type 0
AllBefore end ts = All (λ t. t < end) ts

abbrev pub AllFrom : ℕ → List ℕ → Type 0
AllFrom start ts = All (λ t. start ≤ t) ts

AllBefore-le : (a b : ℕ) (ts : List ℕ) → a ≤ b → AllBefore a ts → AllBefore b ts
AllBefore-le a b [] h all = all
AllBefore-le a b (t ∷ ts) h (one, all) = (omega (arith, h, one), AllBefore-le a b ts h all)

-- Calls that all come before the budget's window ends are granted, first come first served, until
-- the budget of the window is used.
pub retries_in_window :
    (ts : List ℕ) (r : RetryBudget)
    → AllBefore (r.window_start + 60000) ts
    → retries ts r ≡ min (length ts) (r.max_retries_per_minute - r.used)
unfolding retries consume renew take_one
retries_in_window [] r h = ground arith
retries_in_window (t ∷ ts) r (one, all) =
    ground (arith, one, retries_in_window ts (consume t r).0, all)

-- Whatever the state, the calls of any sixty seconds get at most twice the budget, since at most
-- one window starts among them.
pub retries_bounded :
    (start : ℕ) (ts : List ℕ) (r : RetryBudget)
    → AllFrom start ts
    → AllBefore (start + 60000) ts
    → retries ts r ≤ (r.max_retries_per_minute - r.used) + r.max_retries_per_minute
unfolding retries consume renew take_one
retries_bounded start [] r from before = omega arith
retries_bounded start (t ∷ ts) r (t_from, from) (t_before, before) =
    let r' = (consume t r).0 in
    ground (
      arith,
      retries_in_window ts r',
      AllBefore-le (start + 60000) (t + 60000) ts,
      retries_bounded start ts r' from before,
      t_from,
      before,
    )
