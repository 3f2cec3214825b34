-- ===== src/Budget/Scripts.antt =====
-- The Lua scripts of app/gateway/budget_guard.py, on the keys of one scope. A script runs alone,
-- whichever replica sent it. The arguments are numbers, as the guard sends them, so the tests for
-- nil of an argument do not fire.
pub mod Totals
pub mod Mirror
pub mod Expiring
pub mod Agreement
pub mod Settling
pub mod Purge
pub mod Fleet
mod Witnesses
use ai_runtime_platform.Base.{
  ℕ, ◌+◌, ◌-◌, ◌*◌, max, String, Bool, true, false, ◌||◌, Option, none, some, List, [], ◌∷◌, length,
  leb, ltb, ◌==◌, if◌then◌else◌,
}
use ai_runtime_platform.Int.{ℤ, pos, negsuc, neg}
use ai_runtime_platform.Budget.Commands.{
  Redis, Stored, number, no_number, Amount, micros, tombstone, no_amount, window_start,
  committed_micros, reserved_micros,
}

-- `num`: `none` is nil
abbrev pub num : Option Stored → Option ℕ
num none = some 0
num (some (number n)) = some n
num (some no_number) = none

-- `tonumber` of a text of the amounts hash, where a missing one is 0
abbrev pub amount_or_zero : Option Amount → Option ℕ
amount_or_zero none = some 0
amount_or_zero (some (micros n)) = some n
amount_or_zero (some (tombstone n)) = none
amount_or_zero (some no_amount) = none

pub record Loaded : Type 0 where
  pub committed : ℕ
  pub reserved : ℕ
  pub start : ℕ

abbrev pub all_three : Option ℕ → Option ℕ → Option ℕ → Option Loaded
all_three none reserved start = none
all_three (some c) none start = none
all_three (some c) (some r) none = none
all_three (some c) (some r) (some w) = some (record { committed = c; reserved = r; start = w })

abbrev pub cons_if : Option ℕ → Option (List ℕ) → Option (List ℕ)
cons_if none rest = none
cons_if (some n) none = none
cons_if (some n) (some ns) = some (n ∷ ns)

abbrev pub total : List ℕ → ℕ
total [] = 0
total (n ∷ ns) = n + total ns

-- What `expire` returns, and the state that it leaves.
pub record Expired (S : Type 0) : Type 0 where
  pub state : S
  pub still_reserved : ℕ
  pub count : ℕ
  pub released : ℕ

-- `{code, committed, reserved, total, expired}`
pub record ReserveReply : Type 0 where
  pub code : ℤ
  pub committed : ℕ
  pub reserved : ℕ
  pub total_micros : ℕ
  pub expired : ℕ

-- `{code, committed, reserved, reserved_amt}`
pub record SettleReply : Type 0 where
  pub code : ℤ
  pub committed : ℕ
  pub reserved : ℕ
  pub reserved_amt : ℕ

-- `{expired_count, released, committed, reserved}`
pub record PurgeReply : Type 0 where
  pub expired_count : ℤ
  pub released : ℕ
  pub committed : ℕ
  pub reserved : ℕ

abbrev pub no_reserve : ℤ → ReserveReply
no_reserve code = record { code = code; committed = 0; reserved = 0; total_micros = 0; expired = 0 }

abbrev pub no_settle : ℤ → SettleReply
no_settle code = record { code = code; committed = 0; reserved = 0; reserved_amt = 0 }

-- `n > budget`, of which the script has tested that it is above 0
abbrev pub over : ℕ → ℤ → Bool
over n (pos budget) = ltb budget n
over n (negsuc budget) = true

abbrev pub is_not_positive : ℤ → Bool
is_not_positive (pos n) = n == 0
is_not_positive (negsuc n) = true

-- Window rollover: the start and the committed spend that a script goes on with.
abbrev pub rolls : ℕ → ℕ → ℕ → Bool
rolls now window start = start == 0 || leb (start + window) now

module _ {S : Type 0} (r : Redis S) where
  -- `load_window`
  unfoldable pub load_window : S → Option Loaded
  load_window s =
      all_three (num (r.hget_window committed_micros s)) (num (r.hget_window reserved_micros s))
        (num (r.hget_window window_start s))

  -- the first loop of `expire`
  unfoldable pub read_amounts : List String → S → Option (List ℕ)
  read_amounts [] s = some []
  read_amounts (k ∷ ks) s = cons_if (amount_or_zero (r.hget_amount k s)) (read_amounts ks s)

  -- the writes of its second loop
  unfoldable pub bury : List String → List ℕ → S → S
  bury [] amounts s = s
  bury (k ∷ ks) [] s = s
  bury (k ∷ ks) (n ∷ ns) s = bury ks ns (r.hset_amount k (tombstone n) s)

  -- `expire`
  unfoldable pub expire : ℕ → ℕ → S → Option (Expired S)
  unfolding read_amounts bury
  expire now reserved s =
      let expired = r.zrangebyscore now s in
      elim (read_amounts expired s) [
        | none ↦ none
        | some amounts ↦
            let s1 = bury expired amounts s in
            some (record {
              state = if ltb 0 (length expired) then r.zremrangebyscore now s1 else s1;
              still_reserved = reserved - total amounts;
              count = length expired;
              released = total amounts;
            })
      ]

  -- `_RESERVE_LUA` behind `expire`, with the window rolled over
  unfoldable pub reserve_at : ℕ → ℕ → ℤ → ℕ → String → ℕ → ℕ → ℕ → Expired S → S × ReserveReply
  reserve_at now keys_ttl budget estimate res_id ttl start committed e =
      let kept = r.touch keys_ttl (r.hset_window start committed e.still_reserved e.state) in
      let reserved = e.still_reserved + estimate in
      let s1 = r.hset_window start committed reserved e.state in
      let s2 = r.hset_amount res_id (micros estimate) (r.zadd (now + ttl) res_id s1) in
      if over (committed + e.still_reserved + estimate) budget
      then (
        kept,
        record {
          code = pos 0;
          committed = committed;
          reserved = e.still_reserved;
          total_micros = committed + e.still_reserved;
          expired = e.count;
        },
      )
      else (
        r.touch keys_ttl s2,
        record {
          code = pos 1;
          committed = committed;
          reserved = reserved;
          total_micros = committed + reserved;
          expired = e.count;
        },
      )

  -- `_RESERVE_LUA` behind the tests of its arguments
  unfoldable pub reserve_loaded : ℕ → ℕ → ℤ → ℕ → String → ℕ → Option Loaded → S → S × ReserveReply
  reserve_loaded now window budget estimate res_id ttl none s = (s, no_reserve (negsuc 1))
  reserve_loaded now window budget estimate res_id ttl (some w) s = elim (expire now w.reserved s) [
    | none ↦ (s, no_reserve (negsuc 1))
    | some e ↦
        let rolled = rolls now window w.start in
        reserve_at now (max window ttl * 4) budget estimate res_id ttl
          (if rolled then now else w.start) (if rolled then 0 else w.committed) e
  ]

  -- `_RESERVE_LUA`. An estimate below 0 is refused by the guard before.
  unfoldable pub reserve_lua : ℕ → ℕ → ℤ → ℕ → String → ℕ → S → S × ReserveReply
  unfolding load_window reserve_loaded
  reserve_lua now window budget estimate res_id ttl s =
      if is_not_positive budget || (window == 0 || ttl == 0)
      then (s, no_reserve (negsuc 0))
      else reserve_loaded now window budget estimate res_id ttl (load_window s) s

  -- `_SETTLE_LUA` for an amount that was read
  unfoldable pub settle_at : String → ℕ → ℕ → ℕ → Bool → ℕ → Loaded → S → S × SettleReply
  settle_at res_id actual now window expired amt w s =
      let rolled = rolls now window w.start in
      let start = if rolled then now else w.start in
      let committed = (if rolled then 0 else w.committed) + actual in
      let reserved = if expired then w.reserved else w.reserved - amt in
      (
        r.hset_window start committed reserved (r.zrem res_id (r.hdel_amount res_id s)),
        record {
          code = if expired then pos 2 else pos 1;
          committed = committed;
          reserved = reserved;
          reserved_amt = amt;
        },
      )

  unfoldable pub settle_loaded : String → ℕ → ℕ → ℕ → Bool → ℕ → Option Loaded → S → S × SettleReply
  unfolding settle_at
  settle_loaded res_id actual now window expired amt none s = (s, no_settle (negsuc 1))
  settle_loaded res_id actual now window expired amt (some w) s =
      settle_at res_id actual now window expired amt w s

  unfoldable pub settle_raw : String → ℕ → ℕ → ℕ → Option Amount → S → S × SettleReply
  unfolding load_window settle_loaded
  settle_raw res_id actual now window none s = (s, no_settle (pos 0))
  settle_raw res_id actual now window (some no_amount) s = (s, no_settle (negsuc 1))
  settle_raw res_id actual now window (some (micros amt)) s =
      settle_loaded res_id actual now window false amt (load_window s) s
  settle_raw res_id actual now window (some (tombstone amt)) s =
      settle_loaded res_id actual now window true amt (load_window s) s

  -- `_SETTLE_LUA`
  unfoldable pub settle_lua : String → ℕ → ℕ → ℕ → S → S × SettleReply
  unfolding settle_raw
  settle_lua res_id actual now window s =
      if window == 0
      then (s, no_settle (negsuc 0))
      else settle_raw res_id actual now window (r.hget_amount res_id s) s

  unfoldable pub purge_loaded : ℕ → Option Loaded → S → S × PurgeReply
  purge_loaded now none s =
      (s, record { expired_count = negsuc 1; released = 0; committed = 0; reserved = 0 })
  purge_loaded now (some w) s = elim (expire now w.reserved s) [
    | none ↦ (s, record { expired_count = negsuc 1; released = 0; committed = 0; reserved = 0 })
    | some e ↦ (
      if ltb 0 e.count then r.hset_reserved e.still_reserved e.state else e.state,
      record {
        expired_count = pos e.count;
        released = e.released;
        committed = w.committed;
        reserved = e.still_reserved;
      },
    )
  ]

  -- `_PURGE_LUA`
  unfoldable pub purge_lua : ℕ → S → S × PurgeReply
  unfolding load_window purge_loaded
  purge_lua now s = purge_loaded now (load_window s) s
