-- ===== src/Tenancy/Scripts.antt =====
-- `RedisTenantAttributionStore` of app/gateway/tenant.py: the three Lua scripts on the keys of one
-- team, and the methods that run them. Each script runs alone, whichever replica sent it. The reload
-- of a script that Redis forgot is inside the exchange with Redis. A spend that is not finite, for which
-- HINCRBYFLOAT fails, is left out.
pub mod Effects
pub mod Agreement
use ai_runtime_platform.Base.{
  ℕ, ◌+◌, ◌*◌, String, Bool, true, false, Option, none, some, if◌then◌else◌,
}
use ai_runtime_platform.Int.{ℤ, pos, negsuc, sub_ℕ, ◌+ℤ◌, is_neg}
use ai_runtime_platform.Tenancy.Commands.{Redis, or_zero}
use ai_runtime_platform.Tenancy.Quota.{
  Actual, Ask, Clock, QuotaReservation, minus, actual_tokens, asked_tokens, is_day, member_or,
  window_seconds,
}

-- What a script returns of the counters.
pub record Counts : Type 0 where
  pub tokens_today : ℤ
  pub spend : String

-- `or '0'`
abbrev pub text_or_zero : Option String → String
text_or_zero none = "0"
text_or_zero (some text) = text

-- `if next < 0 then next = 0 end`
abbrev pub at_least_zero : ℤ → ℤ
at_least_zero (pos n) = pos n
at_least_zero (negsuc n) = pos 0

module _ {S : Type 0} (r : Redis S) where
  -- `if day ~= today then ... end`
  unfoldable pub open_day : ℕ → S → S
  open_day today s =
      if is_day (r.hget_day s) today
      then s
      else r.hset_spend "0" (r.hset_tokens (pos 0) (r.hset_day today s))

  -- `_RESERVE_LUA`, with the number of requests in the window
  unfoldable pub reserve_lua : ℕ → ℕ → String → ℕ → ℕ → String → S → S × ℕ × Counts
  unfolding open_day
  reserve_lua now window member token_delta today spend_delta s =
      let s1 =
        r.pexpire_rpm ((window + 1) * 1000)
          (r.zadd now member (r.zremrangebyscore (sub_ℕ now window) s)) in
      let rpm = r.zcard s1 in
      let (s2, tokens_today) = r.hincrby_tokens (pos token_delta) (open_day today s1) in
      let (s3, spend) = r.hincrbyfloat_spend spend_delta s2 in
      (r.expire_usage 172800 s3, rpm, record { tokens_today = tokens_today; spend = spend })

  -- the part of `_REFUND_LUA` for the tokens, and the part for the spend
  unfoldable pub take_back_tokens : ℕ → S → S
  take_back_tokens delta s =
      r.hset_tokens (at_least_zero (or_zero (r.hget_tokens s) +ℤ sub_ℕ 0 delta)) s

  unfoldable pub take_back_spend : String → S → S
  take_back_spend delta s =
      let next_spend = r.lua_minus (text_or_zero (r.hget_spend s)) delta in
      r.hset_spend (if r.lua_is_negative next_spend then "0" else next_spend) s

  -- `_REFUND_LUA`
  unfoldable pub refund_lua : String → ℕ → ℕ → String → S → S
  unfolding take_back_tokens take_back_spend
  refund_lua member token_delta today spend_delta s =
      let s1 = r.zrem member s in
      if is_day (r.hget_day s1) today
      then take_back_spend spend_delta (take_back_tokens token_delta s1)
      else s1

  -- HINCRBY, and HINCRBYFLOAT, with the reset of a negative counter
  unfoldable pub add_tokens : ℤ → S → S × ℤ
  add_tokens delta s =
      let (s1, total) = r.hincrby_tokens delta s in
      if is_neg total then (r.hset_tokens (pos 0) s1, pos 0) else (s1, total)

  unfoldable pub add_spend : String → S → S × String
  add_spend delta s =
      let (s1, total) = r.hincrbyfloat_spend delta s in
      if r.lua_is_negative total then (r.hset_spend "0" s1, "0") else (s1, total)

  -- `_RECONCILE_LUA`
  unfoldable pub reconcile_lua : ℤ → ℕ → String → S → S × Counts
  unfolding open_day add_tokens add_spend
  reconcile_lua token_delta today spend_delta s =
      let (s1, tokens_today) = add_tokens token_delta (open_day today s) in
      let (s2, spend) = add_spend spend_delta s1 in
      (r.expire_usage 172800 s2, record { tokens_today = tokens_today; spend = spend })

  -- The methods. The first gives what the reservation says beside what was asked for.
  unfoldable pub reserve_request : Ask → String → Clock → S → S × ℕ × Counts
  unfolding reserve_lua
  reserve_request a uuid at s =
      reserve_lua at.now window_seconds (member_or a.member_id uuid) (asked_tokens a) at.today
        (r.argument a.spend_usd) s

  unfoldable pub refund_reservation : QuotaReservation → Clock → S → S
  unfolding refund_lua
  refund_reservation q at s =
      refund_lua q.member_id q.reserved_tokens at.today (r.argument q.reserved_spend_usd) s

  unfoldable pub reconcile_usage : QuotaReservation → Actual → Clock → S → S × Counts
  unfolding reconcile_lua
  reconcile_usage q a at s =
      reconcile_lua (sub_ℕ (actual_tokens a) q.reserved_tokens) at.today
        (r.argument (minus a.spend_usd q.reserved_spend_usd)) s

  -- The tokens, if they are of today: an absent hash or field counts as 0.
  unfoldable pub counted_today : ℕ → S → ℤ
  counted_today today s = if is_day (r.hget_day s) today then or_zero (r.hget_tokens s) else pos 0

  unfoldable pub usage_snapshot : Clock → S → S × ℕ × ℤ
  unfolding counted_today
  usage_snapshot at s =
      let s1 = r.zremrangebyscore (sub_ℕ at.now window_seconds) s in
      (s1, r.zcard s1, counted_today at.today s1)

  -- The text whose `float` is the answer, or `none` for 0.0.
  unfoldable pub spend_snapshot : Clock → S → Option String
  spend_snapshot at s = if is_day (r.hget_day s) at.today then r.hget_spend s else none
