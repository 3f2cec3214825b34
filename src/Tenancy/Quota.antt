-- ===== src/Tenancy/Quota.antt =====
-- `TenantAttributionStore` of app/gateway/tenant.py, the counters of one process. A time is a whole
-- number of seconds, and a day is its number. Spend is a float: what is computed of it is kept as the
-- expression, without a rounding and without a value.
pub mod Stamps
pub mod History
pub mod Windows
pub mod Ledger
use ai_runtime_platform.Base.{
  ℕ, ◌+◌, ◌-◌, String, Bool, true, false, Option, none, some, List, [], ◌∷◌, ◌++◌, length, ltb,
  ◌==◌, str_eq, if◌then◌else◌,
}
use ai_runtime_platform.Dict.{Dict, lookup, get_or, insert, erase}
use ai_runtime_platform.Money.{Float}

-- A float as the code computes it: one that it was given, 0.0, `+`, `-`, and `max(0.0, …)`.
pub data Spend : Type 0 where
  amount : Float → Spend
  zero_usd : Spend
  plus minus : Spend → Spend → Spend
  floored : Spend → Spend

abbrev pub window_seconds : ℕ
window_seconds = 60

-- `tokens_day` is `none` for the text "" of a team that was never asked for.
pub record TenantUsage : Type 0 where
  pub request_times : List ℕ
  pub tokens_today : ℕ
  pub spend_usd : Spend
  pub tokens_day : Option ℕ

abbrev pub new_usage : TenantUsage
new_usage = record { request_times = []; tokens_today = 0; spend_usd = zero_usd; tokens_day = none }

pub record QuotaReservation : Type 0 where
  pub team : String
  pub member_id : String
  pub reserved_tokens : ℕ
  pub reserved_spend_usd : Spend
  pub requests_last_minute : ℕ
  pub tokens_today : ℕ
  pub month_to_date_cost_usd : Spend

pub record TenantAttributionStore : Type 0 where
  pub usage : Dict TenantUsage
  pub members : Dict ℕ

abbrev pub new_store : TenantAttributionStore
new_store = record { usage = []; members = [] }

-- `time.monotonic()` and `_today()` at a call
pub record Clock : Type 0 where
  pub now : ℕ
  pub today : ℕ

-- `_prune_window`: `times[0] < now - window`, written as a sum
unfoldable pub prune_window : List ℕ → ℕ → ℕ → List ℕ
prune_window [] now window = []
prune_window (t ∷ times) now window =
    let rest = prune_window times now window in if ltb (t + window) now then rest else t ∷ times

abbrev pub is_day : Option ℕ → ℕ → Bool
is_day none today = false
is_day (some day) today = day == today

-- the `if` of `_get`
unfoldable pub roll_day : ℕ → TenantUsage → TenantUsage
roll_day today u =
    if is_day u.tokens_day today
    then u
    else record u { tokens_day = some today; tokens_today = 0; spend_usd = zero_usd }

-- `_get`: the entry that it returns is the one in the dict, so a method that changes it writes it
-- back by `insert`.
unfoldable pub get_usage : String → Clock → TenantAttributionStore → TenantUsage
unfolding prune_window roll_day
get_usage team at s =
    let u = get_or team new_usage s.usage in
    roll_day at.today
      (record u { request_times = prune_window u.request_times at.now window_seconds })

unfoldable pub put_usage : String → TenantUsage → TenantAttributionStore → TenantAttributionStore
put_usage team u s = record s { usage = insert team u s.usage }

-- `member_id or str(uuid.uuid4())`
abbrev pub member_or : Option String → String → String
member_or none uuid = uuid
member_or (some id) uuid = if str_eq id "" then uuid else id

pub record Ask : Type 0 where
  pub team : String
  pub input_tokens : ℕ
  pub output_tokens : ℕ
  pub spend_usd : Spend
  pub member_id : Option String

abbrev pub asked_tokens : Ask → ℕ
asked_tokens a = a.input_tokens + a.output_tokens

-- the counters of a reservation
unfoldable pub count_request : ℕ → Ask → TenantUsage → TenantUsage
count_request now a u = record u {
  request_times = u.request_times ++ now ∷ [];
  tokens_today = u.tokens_today + asked_tokens a;
  spend_usd = plus u.spend_usd a.spend_usd;
}

unfoldable pub reserve_request :
    Ask → String → Clock → TenantAttributionStore → QuotaReservation × TenantAttributionStore
unfolding get_usage put_usage count_request
reserve_request a uuid at s =
    let u = count_request at.now a (get_usage a.team at s) in
    let mid = member_or a.member_id uuid in
    (
      record {
        team = a.team;
        member_id = mid;
        reserved_tokens = asked_tokens a;
        reserved_spend_usd = a.spend_usd;
        requests_last_minute = length u.request_times;
        tokens_today = u.tokens_today;
        month_to_date_cost_usd = u.spend_usd;
      },
      put_usage a.team u (record s { members = insert mid at.now s.members }),
    )

-- `request_times.remove(stamp)`, with the ValueError suppressed
unfoldable pub remove : ℕ → List ℕ → List ℕ
remove stamp [] = []
remove stamp (t ∷ times) = if t == stamp then times else t ∷ remove stamp times

abbrev pub remove_stamp : Option ℕ → List ℕ → List ℕ
remove_stamp none times = times
remove_stamp (some stamp) times = remove stamp times

unfoldable pub refund_reservation :
    QuotaReservation → Clock → TenantAttributionStore → TenantAttributionStore
unfolding get_usage put_usage remove
refund_reservation r at s =
    let u = get_usage r.team at s in
    put_usage r.team
      (record u {
        request_times = remove_stamp (lookup r.member_id s.members) u.request_times;
        tokens_today = u.tokens_today - r.reserved_tokens;
        spend_usd = floored (minus u.spend_usd r.reserved_spend_usd);
      })
      (record s { members = erase r.member_id s.members })

pub record Actual : Type 0 where
  pub input_tokens : ℕ
  pub output_tokens : ℕ
  pub spend_usd : Spend

abbrev pub actual_tokens : Actual → ℕ
actual_tokens a = a.input_tokens + a.output_tokens

-- `max(0.0, used + (actual - reserved))`
abbrev pub adjust_spend : Spend → Spend → Spend → Spend
adjust_spend used actual reserved = floored (plus used (minus actual reserved))

-- `max(0, used + (actual - reserved))`: the difference on ℕ stops at 0, as `max` does.
abbrev pub adjust : ℕ → ℕ → ℕ → ℕ
adjust used actual reserved = (used + actual) - reserved

unfoldable pub reconcile_usage :
    QuotaReservation
    → Actual
    → Clock
    → TenantAttributionStore
    → (ℕ × Spend) × TenantAttributionStore
unfolding get_usage put_usage
reconcile_usage r a at s =
    let u = get_usage r.team at s in
    let tokens = adjust u.tokens_today (actual_tokens a) r.reserved_tokens in
    let spend = adjust_spend u.spend_usd a.spend_usd r.reserved_spend_usd in
    ((tokens, spend), put_usage r.team (record u { tokens_today = tokens; spend_usd = spend }) s)

unfoldable pub usage_snapshot :
    String → Clock → TenantAttributionStore → (ℕ × ℕ) × TenantAttributionStore
unfolding get_usage put_usage
usage_snapshot team at s =
    let u = get_usage team at s in ((length u.request_times, u.tokens_today), put_usage team u s)

unfoldable pub spend_snapshot :
    String → Clock → TenantAttributionStore → Spend × TenantAttributionStore
unfolding get_usage put_usage
spend_snapshot team at s = let u = get_usage team at s in (u.spend_usd, put_usage team u s)
