-- ===== src/Admission/Fleet.antt =====
-- Runs of the lease scripts of app/gateway/admission.py by the replicas of a fleet.
use ai_runtime_platform.Base.{
  ℕ, ◌+◌, ◌*◌, ◌≤◌, ◌<◌, String, ◌≡◌, refl, false, some, List, [], ◌∷◌, arith, str_eq, eq_refl,
  if◌then◌else◌, Option-cases, inl, inr, All, ◌∙◌,
}
use ai_runtime_platform.Admission.Commands.{Redis, IsRedis, Key, leases, tokens, fence}
use ai_runtime_platform.Admission.{
  granted, acquire, drop_expired, grant, hdel_each, purge, release, renew,
}

-- A script that some replica runs, or that Redis drops a key whose time is over. The limit is the tenant's, the same for all replicas.
pub data Call : Type 0 where
  acquires : (now ttl : ℕ) (lease_id : String) → Call
  renews : (now ttl : ℕ) (lease_id : String) (token : ℕ) → Call
  releases : (lease_id : String) (token : ℕ) → Call
  purges : (now : ℕ) → Call
  lapses : Key → Call

module _ {S : Type 0} (r : Redis S) where
  unfoldable pub perform : ℕ → Call → S → S
  perform limit (acquires now ttl lease_id) s = (acquire r now ttl limit lease_id s).0
  perform limit (renews now ttl lease_id token) s = (renew r now ttl lease_id token s).0
  perform limit (releases lease_id token) s = (release r lease_id token s).0
  perform limit (purges now) s = (purge r now s).0
  perform limit (lapses key) s = r.lapse key s

  unfoldable pub perform_all : ℕ → List Call → S → S
  perform_all limit [] s = s
  perform_all limit (c ∷ cs) s = perform_all limit cs (perform limit c s)

module _ {S : Type 0} (r : Redis S) (laws : IsRedis r) where
  hdel_each-keeps :
      (j : String) (ks : List String) (s : S)
      → (r.zscore j (hdel_each r ks s) ≡ r.zscore j s) × (r.zcard (hdel_each r ks s) ≡ r.zcard s)
  unfolding hdel_each
  hdel_each-keeps j [] s = (refl, refl)
  hdel_each-keeps j (k ∷ ks) s =
      ground (arith, hdel_each-keeps j ks (r.hdel k s), laws.zscore-hdel k j s, laws.zcard-hdel k s)

  zcard-drop_expired : (now : ℕ) (s : S) → r.zcard (drop_expired r now s).0 ≤ r.zcard s
  unfolding drop_expired
  zcard-drop_expired now s =
      let expired = r.zrangebyscore now s in
      ground (
        arith,
        laws.zcard-zremrangebyscore now (hdel_each r expired s),
        hdel_each-keeps "" expired s,
      )

  grant-zscore :
      (now ttl : ℕ) (k j : String) (s : S)
      → 0 < ttl
      → r.zscore j (grant r now ttl k s).0 ≡ (if str_eq k j then some (now + ttl) else r.zscore j s)
  unfolding grant
  grant-zscore now ttl k j s lasts =
      let s1 = (r.incr s).0 in
      let token = (r.incr s).1 in
      let s2 = r.zadd (now + ttl) k s1 in
      let s3 = r.hset k token s2 in
      let s4 = r.pexpire_leases (ttl * 4) s3 in
      let s5 = r.pexpire_tokens (ttl * 4) s4 in
      ground (
        arith,
        laws.zscore-incr j s,
        laws.zscore-zadd (now + ttl) k j s1,
        laws.zscore-hset k j token s2,
        laws.zscore-pexpire_leases j (ttl * 4) s3 (omega (arith, lasts)),
        laws.zscore-pexpire_tokens j (ttl * 4) s4,
        laws.zscore-pexpire_fence j (ttl * 8) s5,
      )

  zadd-zcard : (t : ℕ) (k : String) (s : S) → r.zcard (r.zadd t k s) ≤ r.zcard s + 1
  zadd-zcard t k s = elim (Option-cases (r.zscore k s)) [
    | inl new ↦ omega (arith, laws.zcard-zadd_new t k s new)
    | inr (u, old) ↦ omega (arith, laws.zcard-zadd_old t u k s old)
  ]

  zcard-grant : (now ttl : ℕ) (k : String) (s : S) → r.zcard (grant r now ttl k s).0 ≤ r.zcard s + 1
  unfolding grant
  zcard-grant now ttl k s =
      let s1 = (r.incr s).0 in
      let token = (r.incr s).1 in
      let s2 = r.zadd (now + ttl) k s1 in
      let s3 = r.hset k token s2 in
      let s4 = r.pexpire_leases (ttl * 4) s3 in
      let s5 = r.pexpire_tokens (ttl * 4) s4 in
      omega (
        arith,
        laws.zcard-incr s,
        zadd-zcard (now + ttl) k s1,
        laws.zcard-hset k token s2,
        laws.zcard-pexpire_leases (ttl * 4) s3,
        laws.zcard-pexpire_tokens (ttl * 4) s4,
        laws.zcard-pexpire_fence (ttl * 8) s5,
      )

  zcard-perform :
      (limit : ℕ) (c : Call) (s : S) → r.zcard s ≤ limit → r.zcard (perform r limit c s) ≤ limit
  unfolding perform acquire renew release purge
  zcard-perform limit (acquires now ttl k) s h =
      let s1 = (drop_expired r now s).0 in
      ground (arith, h, zcard-drop_expired now s, zcard-grant now ttl k s1)
  zcard-perform limit (renews now ttl k token) s h = elim (Option-cases (r.zscore k s)) [
    | inl gone ↦ ground (arith, h, gone)
    | inr (u, live) ↦ ground (
      arith,
      h,
      live,
      laws.zcard-zadd_old (now + ttl) u k s live,
      laws.zcard-pexpire_leases (ttl * 4) (r.zadd (now + ttl) k s),
      laws.zcard-pexpire_tokens (ttl * 4) (r.pexpire_leases (ttl * 4) (r.zadd (now + ttl) k s)),
    )
  ]
  zcard-perform limit (releases k token) s h =
      ground (arith, h, laws.zcard-hdel k (r.zrem k s), laws.zcard-zrem k s)
  zcard-perform limit (purges now) s h = ground (arith, h, zcard-drop_expired now s)
  zcard-perform limit (lapses key) s h = omega (arith, h, laws.zcard-lapse key s)

  -- From leases within the limit, and with the same limit for all replicas: whatever scripts they
  -- run, in whatever order, with whatever clocks and times to live, and whenever Redis drops a key
  -- whose time is over, there are never more leases than the limit.
  pub fleet_limit :
      (limit : ℕ) (cs : List Call) (s : S)
      → r.zcard s ≤ limit
      → r.zcard (perform_all r limit cs s) ≤ limit
  unfolding perform_all
  fleet_limit limit [] s h = h
  fleet_limit limit (c ∷ cs) s h =
      fleet_limit limit cs (perform r limit c s) (zcard-perform limit c s h)

-- The calls that leave a lease alone: those about other leases, at times before it expires and with
-- some time to live, and the loss of another key than that of the leases.
abbrev pub Spares : String → ℕ → Call → Type 0
Spares lease_id expiry (acquires now ttl k) =
    (str_eq k lease_id ≡ false) × (now < expiry) × (0 < ttl)
Spares lease_id expiry (renews now ttl k token) = (str_eq k lease_id ≡ false) × (0 < ttl)
Spares lease_id expiry (releases k token) = str_eq k lease_id ≡ false
Spares lease_id expiry (purges now) = now < expiry
Spares lease_id expiry (lapses leases) = ⊥
Spares lease_id expiry (lapses tokens) = Unit {0}
Spares lease_id expiry (lapses fence) = Unit {0}

module _ {S : Type 0} (r : Redis S) (laws : IsRedis r) where
  drop_expired-live :
      (now expiry : ℕ) (j : String) (s : S)
      → r.zscore j s ≡ some expiry
      → now < expiry
      → r.zscore j (drop_expired r now s).0 ≡ some expiry
  unfolding drop_expired
  drop_expired-live now expiry j s live early =
      let expired = r.zrangebyscore now s in
      ground (
        arith,
        live,
        early,
        laws.zscore-zremrangebyscore now j (hdel_each r expired s),
        (hdel_each-keeps r laws j expired s).0,
      )

  zscore-perform :
      (limit expiry : ℕ) (j : String) (c : Call) (s : S)
      → r.zscore j s ≡ some expiry
      → Spares j expiry c
      → r.zscore j (perform r limit c s) ≡ some expiry
  unfolding perform acquire renew release purge
  zscore-perform limit expiry j (acquires now ttl k) s live (other, early, lasts) =
      let s1 = (drop_expired r now s).0 in
      ground (
        arith,
        other,
        drop_expired-live now expiry j s live early,
        grant-zscore r laws now ttl k j s1 lasts,
      )
  zscore-perform limit expiry j (renews now ttl k token) s live (other, lasts) =
      let s1 = r.zadd (now + ttl) k s in
      let s2 = r.pexpire_leases (ttl * 4) s1 in
      ground (
        arith,
        live,
        other,
        laws.zscore-zadd (now + ttl) k j s,
        laws.zscore-pexpire_leases j (ttl * 4) s1 (omega (arith, lasts)),
        laws.zscore-pexpire_tokens j (ttl * 4) s2,
      )
  zscore-perform limit expiry j (releases k token) s live other =
      ground (arith, live, other, laws.zscore-hdel k j (r.zrem k s), laws.zscore-zrem k j s)
  zscore-perform limit expiry j (purges now) s live early =
      drop_expired-live now expiry j s live early
  zscore-perform limit expiry j (lapses leases) s live lost = absurd lost
  zscore-perform limit expiry j (lapses tokens) s live spared = laws.zscore-lapse_tokens j s ∙ live
  zscore-perform limit expiry j (lapses fence) s live spared = laws.zscore-lapse_fence j s ∙ live

  zscore-perform_all :
      (limit expiry : ℕ) (j : String) (cs : List Call) (s : S)
      → r.zscore j s ≡ some expiry
      → All (Spares j expiry) cs
      → r.zscore j (perform_all r limit cs s) ≡ some expiry
  unfolding perform_all
  zscore-perform_all limit expiry j [] s live spared = live
  zscore-perform_all limit expiry j (c ∷ cs) s live (one, spared) =
      zscore-perform_all limit expiry j cs (perform r limit c s)
        (zscore-perform limit expiry j c s live one) spared

  -- A lease that was granted with some time to live is in Redis with its expiry, and stays there as
  -- long as Redis keeps the key of the leases: no scripts about other leases take it away that are
  -- run at times before it expires and with some time to live, renewals at any time, and not the
  -- loss of the other two keys either. The key of the leases goes four times the last time to live
  -- after the last acquire or renewal, by the clock of Redis; this step is left out.
  pub held_until_expiry :
      (now ttl limit token inflight expired : ℕ) (lease_id : String) (cs : List Call) (s : S)
      → 0 < ttl
      → (acquire r now ttl limit lease_id s).1 ≡ granted token inflight expired
      → All (Spares lease_id (now + ttl)) cs
      → r.zscore lease_id (perform_all r limit cs (acquire r now ttl limit lease_id s).0)
        ≡ some (now + ttl)
  unfolding acquire
  held_until_expiry now ttl limit token inflight expired lease_id cs s lasts yes_granted spared =
      let s1 = (drop_expired r now s).0 in
      let there = grant-zscore r laws now ttl lease_id lease_id s1 lasts in
      zscore-perform_all limit (now + ttl) lease_id cs (acquire r now ttl limit lease_id s).0
        (ground (arith, yes_granted, there, eq_refl lease_id)) spared
