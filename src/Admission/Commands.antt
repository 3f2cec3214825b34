-- ===== src/Admission/Commands.antt =====
-- The Redis commands that the lease scripts use, on the three keys of one tenant and model, and
-- what Redis documents of them. Redis is not code of the repository, so it is a parameter.
use ai_runtime_platform.Base.{
  ℕ, ◌+◌, ◌≤◌, ◌<◌, String, ◌≡◌, Option, none, some, List, str_eq, leb, if◌then◌else◌,
}

pub data Key : Type 0 where
  leases tokens fence : Key

-- `leases` is KEYS[1], the sorted set; `tokens` KEYS[2], the hash; `fence` KEYS[3], the counter.
-- A token is kept as the number that `tostring` prints. `lapse` is no command: Redis drops a key
-- itself, when the time that PEXPIRE set is over.
pub record Redis (S : Type 0) : Type 0 where
  pub zrangebyscore : ℕ → S → List String
  pub zremrangebyscore : ℕ → S → S
  pub zadd : ℕ → String → S → S
  pub zrem : String → S → S
  pub zscore : String → S → Option ℕ
  pub zcard : S → ℕ
  pub hset : String → ℕ → S → S
  pub hdel : String → S → S
  pub hget : String → S → Option ℕ
  pub incr : S → S × ℕ
  pub pexpire_leases : ℕ → S → S
  pub pexpire_tokens : ℕ → S → S
  pub pexpire_fence : ℕ → S → S
  pub lapse : Key → S → S

-- the score that is left when all up to `now` are removed
abbrev pub kept : ℕ → Option ℕ → Option ℕ
kept now none = none
kept now (some score) = if leb score now then none else some score

-- What holds of the sorted set after each command.
pub record IsRedis {S : Type 0} (r : Redis S) : Type 0 where
  pub zscore-zadd :
      (t : ℕ) (k j : String) (s : S)
      → r.zscore j (r.zadd t k s) ≡ (if str_eq k j then some t else r.zscore j s)
  pub zcard-zadd_new :
      (t : ℕ) (k : String) (s : S) → r.zscore k s ≡ none → r.zcard (r.zadd t k s) ≡ r.zcard s + 1
  pub zcard-zadd_old :
      (t u : ℕ) (k : String) (s : S) → r.zscore k s ≡ some u → r.zcard (r.zadd t k s) ≡ r.zcard s
  pub zscore-zrem :
      (k j : String) (s : S) → r.zscore j (r.zrem k s) ≡ (if str_eq k j then none else r.zscore j s)
  pub zcard-zrem : (k : String) (s : S) → r.zcard (r.zrem k s) ≤ r.zcard s
  pub zscore-zremrangebyscore :
      (now : ℕ) (j : String) (s : S)
      → r.zscore j (r.zremrangebyscore now s) ≡ kept now (r.zscore j s)
  pub zcard-zremrangebyscore : (now : ℕ) (s : S) → r.zcard (r.zremrangebyscore now s) ≤ r.zcard s
  pub zscore-hset : (k j : String) (v : ℕ) (s : S) → r.zscore j (r.hset k v s) ≡ r.zscore j s
  pub zcard-hset : (k : String) (v : ℕ) (s : S) → r.zcard (r.hset k v s) ≡ r.zcard s
  pub zscore-hdel : (k j : String) (s : S) → r.zscore j (r.hdel k s) ≡ r.zscore j s
  pub zcard-hdel : (k : String) (s : S) → r.zcard (r.hdel k s) ≡ r.zcard s
  pub zscore-incr : (j : String) (s : S) → r.zscore j (r.incr s).0 ≡ r.zscore j s
  pub zcard-incr : (s : S) → r.zcard (r.incr s).0 ≡ r.zcard s
  -- a time of 0 deletes the key
  pub zscore-pexpire_leases :
      (j : String) (t : ℕ) (s : S) → 0 < t → r.zscore j (r.pexpire_leases t s) ≡ r.zscore j s
  pub zcard-pexpire_leases : (t : ℕ) (s : S) → r.zcard (r.pexpire_leases t s) ≤ r.zcard s
  pub zscore-pexpire_tokens :
      (j : String) (t : ℕ) (s : S) → r.zscore j (r.pexpire_tokens t s) ≡ r.zscore j s
  pub zcard-pexpire_tokens : (t : ℕ) (s : S) → r.zcard (r.pexpire_tokens t s) ≡ r.zcard s
  pub zscore-pexpire_fence :
      (j : String) (t : ℕ) (s : S) → r.zscore j (r.pexpire_fence t s) ≡ r.zscore j s
  pub zcard-pexpire_fence : (t : ℕ) (s : S) → r.zcard (r.pexpire_fence t s) ≡ r.zcard s
  pub zcard-lapse : (k : Key) (s : S) → r.zcard (r.lapse k s) ≤ r.zcard s
  pub zscore-lapse_tokens : (j : String) (s : S) → r.zscore j (r.lapse tokens s) ≡ r.zscore j s
  pub zscore-lapse_fence : (j : String) (s : S) → r.zscore j (r.lapse fence s) ≡ r.zscore j s
