-- ===== src/Tenancy/Witnesses.antt =====
-- Concrete runs of the quota stores of app/gateway/tenant.py.
use ai_runtime_platform.Base.{
  ℕ, ◌+◌, ◌≡◌, refl, String, false, append, Option, none, some, List, [], ◌∷◌, arith, length, leb,
  if◌then◌else◌,
}
use ai_runtime_platform.Money.{Float, finite}
use ai_runtime_platform.Dict.{Dict, insert, erase}
use ai_runtime_platform.Int.{ℤ, pos, negsuc, ◌+ℤ◌}
use ai_runtime_platform.Tenancy.Commands.{Redis, or_zero}
use ai_runtime_platform.Tenancy.Quota.{
  Actual, Ask, Clock, QuotaReservation, TenantAttributionStore, amount, new_store, reserve_request,
  refund_reservation, reconcile_usage,
}
use ai_runtime_platform.Tenancy.Quota.Windows.{window_counts}
use ai_runtime_platform.Tenancy.Quota.History
use ai_runtime_platform.Tenancy.Quota.History.{asks, refunds, perform_all}
use ai_runtime_platform.Tenancy.Quota.Ledger.{
  Run, start, reserves, reconciles, Charged, charge, usage_on, open_tokens, ledger_balances,
}
use ai_runtime_platform.Tenancy.Scripts.Agreement.{Call}
use ai_runtime_platform.Tenancy.Scripts.{text_or_zero}
use ai_runtime_platform.Tenancy.Scripts.Agreement

abbrev cents : ℕ → Float
cents n = finite false (record { coefficient = n; scale = 2 })

abbrev finance_asks : ℕ → Ask
finance_asks n = record {
  team = "finance";
  input_tokens = n;
  output_tokens = 10;
  spend_usd = amount (cents 3);
  member_id = none;
}

abbrev research_asks : Ask
research_asks = record {
  team = "research";
  input_tokens = 7;
  output_tokens = 0;
  spend_usd = amount (cents 1);
  member_id = some "";
}

abbrev noon : ℕ → Clock
noon now = record { now = now; today = 5 }

-- The reservation "e" is refunded.
abbrev refunded : QuotaReservation
refunded = record {
  team = "finance";
  member_id = "e";
  reserved_tokens = 11;
  reserved_spend_usd = amount (cents 3);
  requests_last_minute = 3;
  tokens_today = 33;
  month_to_date_cost_usd = amount (cents 9);
}

-- An earlier request of the team that is just a minute old counts, and an older one does not.
abbrev earlier : List History.Call
earlier =
    asks (finance_asks 1) "a" (noon 100)
    ∷ asks (finance_asks 1) "b" (noon 101)
    ∷ asks research_asks "c" (noon 130)
    ∷ asks (finance_asks 1) "e" (noon 140)
    ∷ refunds refunded (noon 150)
    ∷ []

window_counts_example :
    (reserve_request
      (finance_asks 2)
      "d"
      (noon 161)
      (perform_all earlier new_store)).0.requests_last_minute
    ≡ 2
window_counts_example = window_counts earlier (finance_asks 2) "d" (noon 161) (
  omega arith,
  refl,
  (omega arith, refl, (omega arith, refl, (omega arith, refl, (omega arith, refl, omega arith)))),
)

abbrev first_answer : QuotaReservation × TenantAttributionStore
first_answer = reserve_request (finance_asks 90) "a" (noon 100) new_store

abbrev no_charges : Charged
no_charges = λ team. (usage_on 5 team new_store).tokens_today

abbrev used : Actual
used = record { input_tokens = 90; output_tokens = 40; spend_usd = amount (cents 5) }

reconciled_day :
    Run 5 new_store
      (reconcile_usage first_answer.0 used (noon 103) first_answer.1).1
      []
      (charge first_answer.0 used no_charges)
reconciled_day =
    reconciles [] [] first_answer.0 used 103 refl (reserves (finance_asks 90) "a" 100 start)

ledger_balances_example :
    (usage_on 5 "finance"
      (reconcile_usage first_answer.0 used (noon 103) first_answer.1).1).tokens_today
    ≡ charge first_answer.0 used no_charges "finance" + open_tokens "finance" []
ledger_balances_example =
    ledger_balances 5 new_store (reconcile_usage first_answer.0 used (noon 103) first_answer.1).1 []
      (charge first_answer.0 used no_charges) "finance" reconciled_day

-- A reconciled request leaves its member id behind.
members_stay :
    (reconcile_usage first_answer.0 used (noon 103) first_answer.1).1.members ≡ ("a", 100) ∷ []
unfolding reconcile_usage reserve_request
members_stay = refl

abbrev next_day : ℕ → Clock
next_day now = record { now = now; today = 6 }

-- A refund after midnight takes tokens away that another request of the new day reserved.
refund_after_midnight :
    (usage_on 6 "finance" (
      refund_reservation first_answer.0
        (next_day 102)
        (reserve_request (finance_asks 30) "b" (next_day 101) first_answer.1).1)).tokens_today
    ≡ 0
unfolding refund_reservation reserve_request
refund_after_midnight = refl

-- A Redis with the two keys of a team.
record TeamKeys : Type 0 where
  rpm : Dict ℕ
  day : Option ℕ
  tokens : Option ℤ
  spend : Option String

abbrev after_bound : ℤ → Dict ℕ → Dict ℕ
after_bound b [] = []
after_bound (negsuc b) d = d
after_bound (pos b) ((k, t) ∷ d) =
    let rest = after_bound (pos b) d in if leb t b then rest else (k, t) ∷ rest

abbrev team_redis : Redis TeamKeys
team_redis = record {
  zremrangebyscore = λ b s. record s { rpm = after_bound b s.rpm };
  zadd = λ t k s. record s { rpm = insert k t s.rpm };
  zrem = λ k s. record s { rpm = erase k s.rpm };
  zcard = λ s. length s.rpm;
  hget_day = λ s. s.day;
  hset_day = λ d s. record s { day = some d };
  hget_tokens = λ s. s.tokens;
  hset_tokens = λ n s. record s { tokens = some n };
  hincrby_tokens =
      λ n s. (record s { tokens = some (or_zero s.tokens +ℤ n) }, or_zero s.tokens +ℤ n);
  hget_spend = λ s. s.spend;
  hset_spend = λ v s. record s { spend = some v };
  hincrbyfloat_spend = λ v s. (
    record s { spend = some (append (text_or_zero s.spend) v) },
    append (text_or_zero s.spend) v,
  );
  argument = λ v. "0.05";
  lua_minus = λ a b. a;
  lua_is_negative = λ t. false;
  pexpire_rpm = λ _ s. s;
  expire_usage = λ _ s. s;
}

abbrev no_keys : TeamKeys
no_keys = record { rpm = []; day = none; tokens = none; spend = none }

abbrev two_days : List (Clock × Agreement.Call)
two_days =
    (noon 100, Call.reserves (finance_asks 90) "a")
    ∷ (noon 103, Call.reconciles first_answer.0 used)
    ∷ (next_day 104, Call.refunds first_answer.0)
    ∷ (next_day 105, Call.reads)
    ∷ []
