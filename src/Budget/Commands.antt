-- ===== src/Budget/Commands.antt =====
-- The Redis commands that the Lua scripts of app/gateway/budget_guard.py use, on the three keys of
-- one scope, and what Redis documents of them. Redis is not code of the repository, so it is a
-- parameter.
use ai_runtime_platform.Base.{
  ℕ, String, ◌≡◌, Bool, false, Option, none, some, List, [], ◌∷◌, str_eq, leb, elem, if◌then◌else◌,
}

-- A text of the window hash: a number as `string.format('%d', n)` prints it, or a text that
-- `tonumber` does not read. The scripts write no other numbers.
pub data Stored : Type 0 where
  number : ℕ → Stored
  no_number : Stored

-- A text of the amounts hash: "<micros>", "x<micros>", or neither.
pub data Amount : Type 0 where
  micros : ℕ → Amount
  tombstone : ℕ → Amount
  no_amount : Amount

pub data Field : Type 0 where
  window_start committed_micros reserved_micros : Field

-- `window` is KEYS[1], the hash; the sorted set is KEYS[2]; `amount` is KEYS[3]. `zscore` is what
-- Redis would say, and is used by no script. `touch` is PEXPIRE on the three keys.
pub record Redis (S : Type 0) : Type 0 where
  pub hget_window : Field → S → Option Stored
  pub hset_window : ℕ → ℕ → ℕ → S → S
  pub hset_reserved : ℕ → S → S
  pub zrangebyscore : ℕ → S → List String
  pub zremrangebyscore : ℕ → S → S
  pub zadd : ℕ → String → S → S
  pub zrem : String → S → S
  pub zscore : String → S → Option ℕ
  pub hget_amount : String → S → Option Amount
  pub hset_amount : String → Amount → S → S
  pub hdel_amount : String → S → S
  pub touch : ℕ → S → S

abbrev pub comes_by : ℕ → Option ℕ → Bool
comes_by now none = false
comes_by now (some score) = leb score now

abbrev pub after : ℕ → Option ℕ → Option ℕ
after now none = none
after now (some score) = if leb score now then none else some score

-- No member twice.
abbrev pub Unique : List String → Type 0
Unique [] = Unit {0}
Unique (k ∷ ks) = (elem k ks ≡ false) × Unique ks

-- A command that leaves the window hash, the sorted set, or the amounts as they are.
module _ {S : Type 0} (r : Redis S) (f : S → S) where
  abbrev pub KeepsWindow : Type 0
  KeepsWindow = (k : Field) (s : S) → r.hget_window k (f s) ≡ r.hget_window k s

  abbrev pub KeepsScores : Type 0
  KeepsScores = (k : String) (s : S) → r.zscore k (f s) ≡ r.zscore k s

  abbrev pub KeepsAmounts : Type 0
  KeepsAmounts = (k : String) (s : S) → r.hget_amount k (f s) ≡ r.hget_amount k s

pub record IsRedis {S : Type 0} (r : Redis S) : Type 0 where
  pub start-hset_window :
      (a b c : ℕ) (s : S) → r.hget_window window_start (r.hset_window a b c s) ≡ some (number a)
  pub committed-hset_window :
      (a b c : ℕ) (s : S) → r.hget_window committed_micros (r.hset_window a b c s) ≡ some (number b)
  pub reserved-hset_window :
      (a b c : ℕ) (s : S) → r.hget_window reserved_micros (r.hset_window a b c s) ≡ some (number c)
  pub hset_window-KeepsScores : (a b c : ℕ) → KeepsScores r (r.hset_window a b c)
  pub hset_window-KeepsAmounts : (a b c : ℕ) → KeepsAmounts r (r.hset_window a b c)
  pub start-hset_reserved :
      (c : ℕ) (s : S)
      → r.hget_window window_start (r.hset_reserved c s) ≡ r.hget_window window_start s
  pub committed-hset_reserved :
      (c : ℕ) (s : S)
      → r.hget_window committed_micros (r.hset_reserved c s) ≡ r.hget_window committed_micros s
  pub reserved-hset_reserved :
      (c : ℕ) (s : S) → r.hget_window reserved_micros (r.hset_reserved c s) ≡ some (number c)
  pub hset_reserved-KeepsScores : (c : ℕ) → KeepsScores r (r.hset_reserved c)
  pub hset_reserved-KeepsAmounts : (c : ℕ) → KeepsAmounts r (r.hset_reserved c)
  pub zrangebyscore-Unique : (now : ℕ) (s : S) → Unique (r.zrangebyscore now s)
  pub elem-zrangebyscore :
      (now : ℕ) (k : String) (s : S) → elem k (r.zrangebyscore now s) ≡ comes_by now (r.zscore k s)
  pub zremrangebyscore-KeepsWindow : (now : ℕ) → KeepsWindow r (r.zremrangebyscore now)
  pub score-zremrangebyscore :
      (now : ℕ) (k : String) (s : S)
      → r.zscore k (r.zremrangebyscore now s) ≡ after now (r.zscore k s)
  pub zremrangebyscore-KeepsAmounts : (now : ℕ) → KeepsAmounts r (r.zremrangebyscore now)
  pub zadd-KeepsWindow : (t : ℕ) (j : String) → KeepsWindow r (r.zadd t j)
  pub score-zadd :
      (t : ℕ) (j k : String) (s : S)
      → r.zscore k (r.zadd t j s) ≡ (if str_eq j k then some t else r.zscore k s)
  pub zadd-KeepsAmounts : (t : ℕ) (j : String) → KeepsAmounts r (r.zadd t j)
  pub zrem-KeepsWindow : (j : String) → KeepsWindow r (r.zrem j)
  pub score-zrem :
      (j k : String) (s : S) → r.zscore k (r.zrem j s) ≡ (if str_eq j k then none else r.zscore k s)
  pub zrem-KeepsAmounts : (j : String) → KeepsAmounts r (r.zrem j)
  pub hset_amount-KeepsWindow : (j : String) (a : Amount) → KeepsWindow r (r.hset_amount j a)
  pub hset_amount-KeepsScores : (j : String) (a : Amount) → KeepsScores r (r.hset_amount j a)
  pub amount-hset_amount :
      (j k : String) (a : Amount) (s : S)
      → r.hget_amount k (r.hset_amount j a s) ≡ (if str_eq j k then some a else r.hget_amount k s)
  pub hdel_amount-KeepsWindow : (j : String) → KeepsWindow r (r.hdel_amount j)
  pub hdel_amount-KeepsScores : (j : String) → KeepsScores r (r.hdel_amount j)
  pub amount-hdel_amount :
      (j k : String) (s : S)
      → r.hget_amount k (r.hdel_amount j s) ≡ (if str_eq j k then none else r.hget_amount k s)
  pub touch-KeepsWindow : (t : ℕ) → KeepsWindow r (r.touch t)
  pub touch-KeepsScores : (t : ℕ) → KeepsScores r (r.touch t)
  pub touch-KeepsAmounts : (t : ℕ) → KeepsAmounts r (r.touch t)
