-- ===== src/Tenancy/Scripts/Effects.antt =====
-- What the quota scripts of app/gateway/tenant.py do to the tokens in the usage hash of a team.
use ai_runtime_platform.Base.{ℕ, ◌+◌, ◌-◌, ◌*◌, String, ◌≡◌, some, arith, if◌then◌else◌, if_both}
use ai_runtime_platform.Int.{pos, sub_ℕ, ◌+ℤ◌}
use ai_runtime_platform.Tenancy.Commands.{Redis, IsRedis, LeavesTokens, or_zero}
use ai_runtime_platform.Tenancy.Scripts.{
  open_day, reserve_lua, refund_lua, reconcile_lua, take_back_tokens, take_back_spend, add_tokens,
  add_spend, counted_today, at_least_zero, text_or_zero,
}

module _ {S : Type 0} (r : Redis S) where
  -- The tokens that the hash holds for a day: none, if it is of another.
  pub record Shows (today t : ℕ) (s : S) : Type 0 where
    pub tokens_shown : counted_today r today s ≡ pos t

  -- The hash is of the day.
  record IsOpen (today t : ℕ) (s : S) : Type 0 where
    day : r.hget_day s ≡ some today
    tokens_kept : or_zero (r.hget_tokens s) ≡ pos t

  IsOpen-Shows : (today t : ℕ) (s : S) → IsOpen today t s → Shows today t s
  unfolding counted_today
  IsOpen-Shows today t s o = ground (arith, o.day, o.tokens_kept)

  pub LeavesTokens-Shows :
      (f : S → S) (today t : ℕ) (s : S) → LeavesTokens r f → Shows today t s → Shows today t (f s)
  unfolding counted_today
  LeavesTokens-Shows f today t s l h = ground (arith, l.day_left s, l.tokens_left s, h.tokens_shown)

  LeavesTokens-IsOpen :
      (f : S → S) (today t : ℕ) (s : S) → LeavesTokens r f → IsOpen today t s → IsOpen today t (f s)
  LeavesTokens-IsOpen f today t s l h =
      ground (arith, l.day_left s, l.tokens_left s, h.day, h.tokens_kept)

module _ {S : Type 0} (r : Redis S) (laws : IsRedis r) where
  open_day-IsOpen :
      (today t : ℕ) (s : S) → Shows r today t s → IsOpen r today t (open_day r today s)
  unfolding open_day counted_today
  open_day-IsOpen today t s h =
      let s1 = r.hset_day today s in
      let s2 = r.hset_tokens (pos 0) s1 in
      let spend = laws.hset_spend-LeavesTokens "0" in
      ground (
        arith,
        h.tokens_shown,
        laws.day-hset_day today s,
        laws.day-hset_tokens (pos 0) s1,
        laws.tokens-hset_tokens (pos 0) s1,
        spend.day_left s2,
        spend.tokens_left s2,
      )

  hincrby_tokens-IsOpen :
      (today t n : ℕ) (s : S)
      → IsOpen r today t s
      → IsOpen r today (t + n) (r.hincrby_tokens (pos n) s).0
        × ((r.hincrby_tokens (pos n) s).1 ≡ pos (t + n))
  hincrby_tokens-IsOpen today t n s h = ground (
    arith,
    h.day,
    h.tokens_kept,
    laws.day-hincrby_tokens (pos n) s,
    laws.tokens-hincrby_tokens (pos n) s,
    laws.hincrby_answer (pos n) s,
  )

  -- `used + (actual - reserved)` as the script adds it, and the counter that it leaves
  add_tokens-IsOpen :
      (today t actual reserved : ℕ) (s : S)
      → IsOpen r today t s
      → let (s', total) = add_tokens r (sub_ℕ actual reserved) s in
        IsOpen r today (t + actual - reserved) s' × (total ≡ pos (t + actual - reserved))
  unfolding add_tokens
  add_tokens-IsOpen today t actual reserved s h =
      let delta = sub_ℕ actual reserved in
      let s1 = (r.hincrby_tokens delta s).0 in
      ground (
        arith,
        h.day,
        h.tokens_kept,
        laws.day-hincrby_tokens delta s,
        laws.tokens-hincrby_tokens delta s,
        laws.hincrby_answer delta s,
        laws.day-hset_tokens (pos 0) s1,
        laws.tokens-hset_tokens (pos 0) s1,
      )

  add_spend-IsOpen :
      (today t : ℕ) (delta : String) (s : S)
      → IsOpen r today t s
      → IsOpen r today t (add_spend r delta s).0
  unfolding add_spend
  add_spend-IsOpen today t delta s h =
      let (s1, total) = r.hincrbyfloat_spend delta s in
      let added = LeavesTokens-IsOpen r _ today t s (laws.hincrbyfloat-LeavesTokens delta) h in
      if_both (λ (o : S × String). IsOpen r today t o.0) (r.lua_is_negative total)
        (LeavesTokens-IsOpen r _ today t s1 (laws.hset_spend-LeavesTokens "0") added) added

  pub reserve_lua-Shows :
      (now window n today t : ℕ) (cost member : String) (s : S)
      → Shows r today t s
      → let (s', _, counts) = reserve_lua r now window member n today cost s in
        Shows r today (t + n) s'
        × (counts.tokens_today ≡ pos (t + n))
        × (r.hget_day s' ≡ some today)
  unfolding reserve_lua
  reserve_lua-Shows now window n today t cost member s h =
      let s1 = r.zremrangebyscore (sub_ℕ now window) s in
      let s2 = r.zadd now member s1 in
      let s3 = r.pexpire_rpm ((window + 1) * 1000) s2 in
      let h1 =
        LeavesTokens-Shows r _ today t s (laws.zremrangebyscore-LeavesTokens (sub_ℕ now window))
          h in
      let h2 = LeavesTokens-Shows r _ today t s1 (laws.zadd-LeavesTokens now member) h1 in
      let h3 =
        LeavesTokens-Shows r _ today t s2 (laws.pexpire_rpm-LeavesTokens ((window + 1) * 1000))
          h2 in
      let s4 = open_day r today s3 in
      let (h5, told) = hincrby_tokens-IsOpen today t n s4 (open_day-IsOpen today t s3 h3) in
      let s5 = (r.hincrby_tokens (pos n) s4).0 in
      let h6 = LeavesTokens-IsOpen r _ today (t + n) s5 (laws.hincrbyfloat-LeavesTokens cost) h5 in
      let s6 = (r.hincrbyfloat_spend cost s5).0 in
      let h7 =
        LeavesTokens-IsOpen r _ today (t + n) s6 (laws.expire_usage-LeavesTokens 172800) h6 in
      (IsOpen-Shows r today (t + n) _ h7, told, h7.day)

  pub reconcile_lua-Shows :
      (actual reserved today t : ℕ) (cost : String) (s : S)
      → Shows r today t s
      → let (s', counts) = reconcile_lua r (sub_ℕ actual reserved) today cost s in
        Shows r today (t + actual - reserved) s'
        × (counts.tokens_today ≡ pos (t + actual - reserved))
        × (r.hget_day s' ≡ some today)
  unfolding reconcile_lua
  reconcile_lua-Shows actual reserved today t cost s h =
      let s1 = open_day r today s in
      let (h2, told) = add_tokens-IsOpen today t actual reserved s1 (open_day-IsOpen today t s h) in
      let s2 = (add_tokens r (sub_ℕ actual reserved) s1).0 in
      let h3 = add_spend-IsOpen today (t + actual - reserved) cost s2 h2 in
      let s3 = (add_spend r cost s2).0 in
      let h4 =
        LeavesTokens-IsOpen r _ today (t + actual - reserved) s3
          (laws.expire_usage-LeavesTokens 172800) h3 in
      (IsOpen-Shows r today (t + actual - reserved) _ h4, told, h4.day)

  pub refund_lua-Shows :
      (n today t : ℕ) (cost member : String) (s : S)
      → Shows r today t s
      → Shows r today (t - n) (refund_lua r member n today cost s)
        × (r.hget_day (refund_lua r member n today cost s) ≡ r.hget_day s)
  unfolding refund_lua take_back_tokens take_back_spend counted_today
  refund_lua-Shows n today t cost member s h =
      let s1 = r.zrem member s in
      let removed = laws.zrem-LeavesTokens member in
      let h1 = LeavesTokens-Shows r _ today t s removed h in
      let left = at_least_zero (or_zero (r.hget_tokens s1) +ℤ sub_ℕ 0 n) in
      let s2 = r.hset_tokens left s1 in
      let next = r.lua_minus (text_or_zero (r.hget_spend s2)) cost in
      let rest = laws.hset_spend-LeavesTokens (if r.lua_is_negative next then "0" else next) in
      ground (
        arith,
        h1.tokens_shown,
        removed.day_left s,
        laws.day-hset_tokens left s1,
        laws.tokens-hset_tokens left s1,
        rest.day_left s2,
        rest.tokens_left s2,
      )
