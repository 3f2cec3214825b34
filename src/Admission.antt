-- ===== src/Admission.antt =====
-- The fleet-wide part of app/gateway/admission.py: the four Lua scripts that keep the leases of a
-- tenant and model in Redis. A script runs alone, whichever replica sent it. Where
-- Redis drops a key whose time is over (PEXPIRE), this is a step of its own.
pub mod Commands
pub mod Fleet
pub mod Local
mod Witnesses
use ai_runtime_platform.Base.{
  ℕ, ◌+◌, ◌*◌, ◌≤◌, String, ◌≡◌, Bool, true, false, Option, none, some, List, [], ◌∷◌, length, leb,
  ltb, ◌==◌, if◌then◌else◌,
}
use ai_runtime_platform.Admission.Commands.{Redis}

-- What a script returns.
pub data AcquireReply : Type 0 where
  denied : ℕ → ℕ → AcquireReply
  granted : ℕ → ℕ → ℕ → AcquireReply

module _ {S : Type 0} (r : Redis S) where
  -- the `for` of the scripts
  unfoldable pub hdel_each : List String → S → S
  hdel_each [] s = s
  hdel_each (k ∷ ks) s = hdel_each ks (r.hdel k s)

  -- the first part of `_ACQUIRE_LUA` and `_PURGE_LUA`
  unfoldable pub drop_expired : ℕ → S → S × ℕ
  unfolding hdel_each
  drop_expired now s =
      let expired = r.zrangebyscore now s in
      let expired_count = length expired in
      if ltb 0 expired_count
      then (r.zremrangebyscore now (hdel_each expired s), expired_count)
      else (s, expired_count)

  -- the writes of a lease
  unfoldable pub grant : ℕ → ℕ → String → S → S × ℕ
  grant now ttl lease_id s =
      let (s1, token) = r.incr s in
      (
        r.pexpire_fence (ttl * 8) (
            r.pexpire_tokens (ttl * 4) (
              r.pexpire_leases (ttl * 4) (r.hset lease_id token (r.zadd (now + ttl) lease_id s1)))),
        token,
      )

  -- `_ACQUIRE_LUA`
  unfoldable pub acquire : ℕ → ℕ → ℕ → String → S → S × AcquireReply
  unfolding drop_expired grant
  acquire now ttl limit lease_id s =
      let (s1, expired_count) = drop_expired now s in
      let inflight = r.zcard s1 in
      let (s2, token) = grant now ttl lease_id s1 in
      if leb limit inflight
      then (s1, denied inflight expired_count)
      else (s2, granted token (inflight + 1) expired_count)

  abbrev pub is_token : ℕ → Option ℕ → Bool
  is_token token none = false
  is_token token (some stored) = stored == token

  -- `_RENEW_LUA`
  unfoldable pub renew : ℕ → ℕ → String → ℕ → S → S × ℕ
  renew now ttl lease_id token s =
      if is_token token (r.hget lease_id s)
      then (elim (r.zscore lease_id s) [
        | none ↦ (s, 0)
        | some score ↦ (
          r.pexpire_tokens (ttl * 4) (r.pexpire_leases (ttl * 4) (r.zadd (now + ttl) lease_id s)),
          1,
        )
      ])
      else (s, 0)

  -- `_RELEASE_LUA`
  unfoldable pub release : String → ℕ → S → S × ℕ
  release lease_id token s =
      if is_token token (r.hget lease_id s)
      then (r.hdel lease_id (r.zrem lease_id s), 1)
      else (s, 0)

  -- `_PURGE_LUA`
  unfoldable pub purge : ℕ → S → S × ℕ × ℕ
  unfolding drop_expired
  purge now s = let (s1, expired_count) = drop_expired now s in (s1, expired_count, r.zcard s1)
