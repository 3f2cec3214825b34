-- ===== src/Tenancy/Quota/Ledger.antt =====
-- The tokens of a day, as `TenantAttributionStore` of app/gateway/tenant.py adds them
-- up over reservations, refunds and reconciliations.
use ai_runtime_platform.Base.{
  ℕ, ◌+◌, ◌-◌, String, ◌≡◌, refl, some, eq_iff, List, [], ◌∷◌, ◌++◌, arith, str_eq, if◌then◌else◌,
}
use ai_runtime_platform.Dict.{lookup, erase, get_or, insert, get_or-insert}
use ai_runtime_platform.Tenancy.Quota.{
  Actual, Ask, Clock, QuotaReservation, TenantAttributionStore, TenantUsage, actual_tokens,
  asked_tokens, new_usage, roll_day, get_usage, put_usage, reserve_request, refund_reservation,
  reconcile_usage, count_request, member_or, remove_stamp, adjust, adjust_spend, minus, floored,
}

-- What is counted for a team on a day.
abbrev pub usage_on : ℕ → String → TenantAttributionStore → TenantUsage
usage_on today team s = roll_day today (get_or team new_usage s.usage)

-- An amount for one team.
abbrev pub for_team : String → String → ℕ → ℕ
for_team owner team n = if str_eq owner team then n else 0

-- What the open reservations of a team hold.
abbrev pub open_tokens : String → List QuotaReservation → ℕ
open_tokens team [] = 0
open_tokens team (r ∷ rs) = for_team r.team team r.reserved_tokens + open_tokens team rs

open_tokens-middle :
    (team : String) (xs ys : List QuotaReservation) (r : QuotaReservation)
    → open_tokens team (xs ++ r ∷ ys)
      ≡ open_tokens team (xs ++ ys) + for_team r.team team r.reserved_tokens
open_tokens-middle team [] ys r = omega arith
open_tokens-middle team (x ∷ xs) ys r = omega (arith, open_tokens-middle team xs ys r)

-- Tokens that were charged for good, for each team.
abbrev pub Charged : Type 0
Charged = String → ℕ

abbrev pub charge : QuotaReservation → Actual → Charged → Charged
charge r a c = λ team. c team + for_team r.team team (actual_tokens a)

-- The calls of one day from the store `s`: each reservation that was made is open until it is
-- refunded or reconciled, in any order, and only one of the two happens to it.
pub data Run (today : ℕ) (s : TenantAttributionStore)
    : TenantAttributionStore → List QuotaReservation → Charged → Type 0 where
  start : Run today s s [] (λ team. (usage_on today team s).tokens_today)
  reserves :
      {t : TenantAttributionStore} {open_ones : List QuotaReservation} {c : Charged} (a : Ask)
      (uuid : String) (now : ℕ)
      → Run today s t open_ones c
      → Run today s
          (reserve_request a uuid (record { now = now; today = today }) t).1
          ((reserve_request a uuid (record { now = now; today = today }) t).0 ∷ open_ones)
          c
  refunds :
      {t : TenantAttributionStore} {open_ones : List QuotaReservation} {c : Charged}
      (xs ys : List QuotaReservation) (r : QuotaReservation) (now : ℕ)
      → open_ones ≡ xs ++ r ∷ ys
      → Run today s t open_ones c
      → Run today s (refund_reservation r (record { now = now; today = today }) t) (xs ++ ys) c
  reconciles :
      {t : TenantAttributionStore} {open_ones : List QuotaReservation} {c : Charged}
      (xs ys : List QuotaReservation) (r : QuotaReservation) (a : Actual) (now : ℕ)
      → open_ones ≡ xs ++ r ∷ ys
      → Run today s t open_ones c
      → Run today s
          (reconcile_usage r a (record { now = now; today = today }) t).1
          (xs ++ ys)
          (charge r a c)

roll_day-same : (today : ℕ) (u : TenantUsage) → u.tokens_day ≡ some today → roll_day today u ≡ u
unfolding roll_day
roll_day-same today u h = ground (arith, h)

pub usage_on-put_usage :
    (today : ℕ) (owner team : String) (u : TenantUsage) (s : TenantAttributionStore)
    → u.tokens_day ≡ some today
    → usage_on today team (put_usage owner u s)
      ≡ (if str_eq owner team then u else usage_on today team s)
unfolding put_usage
usage_on-put_usage today owner team u s h =
    ground (arith, get_or-insert owner team new_usage u s.usage, roll_day-same today u)

-- `_get` brings a team's usage to the day, and keeps what is counted on it.
pub get_usage-usage_on :
    (team : String) (at : Clock) (s : TenantAttributionStore)
    → let u = get_usage team at s in
      (u.tokens_day ≡ some at.today) × (u.tokens_today ≡ (usage_on at.today team s).tokens_today)
unfolding get_usage roll_day
get_usage-usage_on team at s = ground arith

module _ (team : String) (at : Clock) (t : TenantAttributionStore) where
  usage_on-reserve_request :
      (a : Ask) (uuid : String)
      → let u = usage_on at.today team (reserve_request a uuid at t).1 in
        u.tokens_today
        ≡ (usage_on at.today team t).tokens_today + for_team a.team team (asked_tokens a)
  unfolding reserve_request count_request
  usage_on-reserve_request a uuid =
      let u = count_request at.now a (get_usage a.team at t) in
      let mid = member_or a.member_id uuid in
      ground (
        arith,
        get_usage-usage_on a.team at t,
        usage_on-put_usage at.today a.team team u
            (record t { members = insert mid at.now t.members }),
        eq_iff a.team team,
      )

  open-reserve_request :
      (a : Ask) (uuid : String) (rs : List QuotaReservation)
      → let r = (reserve_request a uuid at t).0 in
        open_tokens team (r ∷ rs) ≡ for_team a.team team (asked_tokens a) + open_tokens team rs
  unfolding reserve_request
  open-reserve_request a uuid rs = refl

  usage_on-refund_reservation :
      (r : QuotaReservation)
      → let u = usage_on at.today team (refund_reservation r at t) in
        u.tokens_today
        ≡ (usage_on at.today team t).tokens_today - for_team r.team team r.reserved_tokens
  unfolding refund_reservation
  usage_on-refund_reservation r =
      let u = get_usage r.team at t in
      ground (
        arith,
        get_usage-usage_on r.team at t,
        usage_on-put_usage at.today r.team team
            (record u {
              request_times = remove_stamp (lookup r.member_id t.members) u.request_times;
              tokens_today = u.tokens_today - r.reserved_tokens;
              spend_usd = floored (minus u.spend_usd r.reserved_spend_usd);
            })
            (record t { members = erase r.member_id t.members }),
        eq_iff r.team team,
      )

  usage_on-reconcile_usage :
      (r : QuotaReservation) (a : Actual)
      → let u = usage_on at.today team (reconcile_usage r a at t).1 in
        u.tokens_today
        ≡ ((usage_on at.today team t).tokens_today + for_team r.team team (actual_tokens a))
          - for_team r.team team r.reserved_tokens
  unfolding reconcile_usage
  usage_on-reconcile_usage r a =
      let u = get_usage r.team at t in
      ground (
        arith,
        get_usage-usage_on r.team at t,
        usage_on-put_usage at.today r.team team
            (record u {
              tokens_today = adjust u.tokens_today (actual_tokens a) r.reserved_tokens;
              spend_usd = adjust_spend u.spend_usd a.spend_usd r.reserved_spend_usd;
            })
            t,
        eq_iff r.team team,
      )

-- On one day, whatever calls are made for whatever teams, each reservation being settled at most
-- once: the tokens counted for a team are those charged to it for good, the actual tokens of each
-- reconciled request included, and those that its open reservations hold. Refunded ones leave
-- nothing, and nothing is lost at the `max` with 0.
pub ledger_balances :
    (today : ℕ) (s t : TenantAttributionStore) (open_ones : List QuotaReservation) (c : Charged)
    (team : String)
    → Run today s t open_ones c
    → (usage_on today team t).tokens_today ≡ c team + open_tokens team open_ones
ledger_balances today s t open_ones c team start = ground arith
ledger_balances today s _ _ c team (reserves {t} {open_ones = before} a uuid now run) =
    let at : Clock = record { now = now; today = today } in
    let tokens = ledger_balances today s t before c team run in
    let more = usage_on-reserve_request team at t a uuid in
    let held = open-reserve_request team at t a uuid before in omega (arith, tokens, more, held)
ledger_balances today s _ _ c team (refunds {t} {open_ones = before} xs ys r now e run) =
    let at : Clock = record { now = now; today = today } in
    let tokens = ledger_balances today s t before c team run in
    let less = usage_on-refund_reservation team at t r in
    omega (arith, rw e at tokens, less, open_tokens-middle team xs ys r)
ledger_balances today s _ _ _ team (reconciles {t} {open_ones = before} {c} xs ys r a now e run) =
    let at : Clock = record { now = now; today = today } in
    let tokens = ledger_balances today s t before c team run in
    let settled = usage_on-reconcile_usage team at t r a in
    omega (arith, rw e at tokens, settled, open_tokens-middle team xs ys r)
