-- ===== src/Tenancy/Commands.antt =====
-- The Redis commands that the quota scripts of app/gateway/tenant.py use, on the two keys of one
-- team, and what Redis documents of them. Redis is not code of the repository, so it is a parameter.
use ai_runtime_platform.Base.{ℕ, String, ◌≡◌, Bool, Option, none, some}
use ai_runtime_platform.Tenancy.Quota.{Spend}
use ai_runtime_platform.Int.{ℤ, pos, ◌+ℤ◌}

abbrev pub or_zero : Option ℤ → ℤ
or_zero none = pos 0
or_zero (some n) = n

-- KEYS[1] is the sorted set of the requests, KEYS[2] the usage hash. The tokens of the hash are kept
-- as a number in place of its text. Its spend is the text that HINCRBYFLOAT or `tostring` made, and
-- the arithmetic of floats on texts is that of Redis and of its Lua: `lua_minus` is
-- `tostring(tonumber(a) - tonumber(b))`, and `lua_is_negative` is `tonumber(a) < 0`. `argument` is
-- the text in which a float is sent to a script.
pub record Redis (S : Type 0) : Type 0 where
  pub zremrangebyscore : ℤ → S → S
  pub zadd : ℕ → String → S → S
  pub zrem : String → S → S
  pub zcard : S → ℕ
  pub hget_day : S → Option ℕ
  pub hset_day : ℕ → S → S
  pub hget_tokens : S → Option ℤ
  pub hset_tokens : ℤ → S → S
  pub hincrby_tokens : ℤ → S → S × ℤ
  pub hget_spend : S → Option String
  pub hset_spend : String → S → S
  pub hincrbyfloat_spend : String → S → S × String
  pub argument : Spend → String
  pub lua_minus : String → String → String
  pub lua_is_negative : String → Bool
  pub pexpire_rpm : ℕ → S → S
  pub expire_usage : ℕ → S → S

-- A command on the other key, on the spend, or on a time to live, leaves the day and the tokens.
pub record LeavesTokens {S : Type 0} (r : Redis S) (f : S → S) : Type 0 where
  pub day_left : (s : S) → r.hget_day (f s) ≡ r.hget_day s
  pub tokens_left : (s : S) → r.hget_tokens (f s) ≡ r.hget_tokens s

pub record IsRedis {S : Type 0} (r : Redis S) : Type 0 where
  pub zremrangebyscore-LeavesTokens : (bound : ℤ) → LeavesTokens r (r.zremrangebyscore bound)
  pub zadd-LeavesTokens : (t : ℕ) (k : String) → LeavesTokens r (r.zadd t k)
  pub zrem-LeavesTokens : (k : String) → LeavesTokens r (r.zrem k)
  pub hset_spend-LeavesTokens : (v : String) → LeavesTokens r (r.hset_spend v)
  pub hincrbyfloat-LeavesTokens : (v : String) → LeavesTokens r (λ s. (r.hincrbyfloat_spend v s).0)
  pub pexpire_rpm-LeavesTokens : (t : ℕ) → LeavesTokens r (r.pexpire_rpm t)
  pub expire_usage-LeavesTokens : (t : ℕ) → LeavesTokens r (r.expire_usage t)
  pub day-hset_day : (day : ℕ) (s : S) → r.hget_day (r.hset_day day s) ≡ some day
  pub tokens-hset_day : (day : ℕ) (s : S) → r.hget_tokens (r.hset_day day s) ≡ r.hget_tokens s
  pub day-hset_tokens : (n : ℤ) (s : S) → r.hget_day (r.hset_tokens n s) ≡ r.hget_day s
  pub tokens-hset_tokens : (n : ℤ) (s : S) → r.hget_tokens (r.hset_tokens n s) ≡ some n
  pub day-hincrby_tokens : (n : ℤ) (s : S) → r.hget_day (r.hincrby_tokens n s).0 ≡ r.hget_day s
  pub tokens-hincrby_tokens :
      (n : ℤ) (s : S)
      → r.hget_tokens (r.hincrby_tokens n s).0 ≡ some (or_zero (r.hget_tokens s) +ℤ n)
  pub hincrby_answer : (n : ℤ) (s : S) → (r.hincrby_tokens n s).1 ≡ or_zero (r.hget_tokens s) +ℤ n
