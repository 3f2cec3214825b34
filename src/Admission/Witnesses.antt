-- ===== src/Admission/Witnesses.antt =====
-- A Redis of three values, and leases in it.
use ai_runtime_platform.Base.{
  ℕ, ◌+◌, ◌≤◌, String, ◌≡◌, refl, none, some, List, [], ◌∷◌, arith, leb, length, ◌==◌,
  if◌then◌else◌,
}
use ai_runtime_platform.Dict.{Dict, lookup, insert, erase, lookup-insert, lookup-erase}
use ai_runtime_platform.Admission.Commands.{Redis, IsRedis, Key, kept}
use ai_runtime_platform.Admission.{acquire, drop_expired, grant, hdel_each}
use ai_runtime_platform.Admission.Fleet.{
  acquires, fleet_limit, held_until_expiry, perform_all, purges, lapses,
}

record Keys : Type 0 where
  leases : Dict ℕ
  tokens : Dict ℕ
  fence : ℕ

-- The entries above `now`.
abbrev above : ℕ → Dict ℕ → Dict ℕ
above now [] = []
above now ((k, t) ∷ d) = let rest = above now d in if leb t now then erase k rest else (k, t) ∷ rest

abbrev up_to : ℕ → Dict ℕ → List String
up_to now [] = []
up_to now ((k, t) ∷ d) = let rest = up_to now d in if leb t now then k ∷ rest else rest

lookup-above : (now : ℕ) (j : String) (d : Dict ℕ) → lookup j (above now d) ≡ kept now (lookup j d)
lookup-above now j [] = refl
lookup-above now j ((k, t) ∷ d) =
    ground (arith, lookup-above now j d, lookup-erase k j (above now d))

length-erase : (k : String) (d : Dict ℕ) → length (erase k d) ≤ length d
length-erase k [] = omega arith
length-erase k ((j, t) ∷ d) = ground (arith, length-erase k d)

length-above : (now : ℕ) (d : Dict ℕ) → length (above now d) ≤ length d
length-above now [] = omega arith
length-above now ((k, t) ∷ d) = ground (arith, length-above now d, length-erase k (above now d))

length-insert_new :
    (t : ℕ) (k : String) (d : Dict ℕ) → lookup k d ≡ none → length (insert k t d) ≡ length d + 1
length-insert_new t k [] h = omega arith
length-insert_new t k ((j, u) ∷ d) h = ground (arith, h, length-insert_new t k d)

length-insert_old :
    (t u : ℕ) (k : String) (d : Dict ℕ) → lookup k d ≡ some u → length (insert k t d) ≡ length d
length-insert_old t u k [] h = ground (arith, h)
length-insert_old t u k ((j, w) ∷ d) h = ground (arith, h, length-insert_old t u k d)

abbrev drop_key : Key → Keys → Keys
drop_key Key.leases s = record s { leases = [] }
drop_key Key.tokens s = record s { tokens = [] }
drop_key Key.fence s = record s { fence = 0 }

zcard-drop_key : (k : Key) (s : Keys) → length (drop_key k s).leases ≤ length s.leases
zcard-drop_key Key.leases s = omega arith
zcard-drop_key Key.tokens s = omega arith
zcard-drop_key Key.fence s = omega arith

abbrev commands : Redis Keys
commands = record {
  zrangebyscore = λ now s. up_to now s.leases;
  zremrangebyscore = λ now s. record s { leases = above now s.leases };
  zadd = λ t k s. record s { leases = insert k t s.leases };
  zrem = λ k s. record s { leases = erase k s.leases };
  zscore = λ k s. lookup k s.leases;
  zcard = λ s. length s.leases;
  hset = λ k v s. record s { tokens = insert k v s.tokens };
  hdel = λ k s. record s { tokens = erase k s.tokens };
  hget = λ k s. lookup k s.tokens;
  incr = λ s. (record s { fence = s.fence + 1 }, s.fence + 1);
  pexpire_leases = λ t s. if t == 0 then record s { leases = [] } else s;
  pexpire_tokens = λ t s. s;
  pexpire_fence = λ t s. s;
  lapse = drop_key;
}

commands-IsRedis : IsRedis commands
commands-IsRedis = record {
  zscore-zadd = λ t k j s. lookup-insert k j t s.leases;
  zcard-zadd_new = λ t k s h. length-insert_new t k s.leases h;
  zcard-zadd_old = λ t u k s h. length-insert_old t u k s.leases h;
  zscore-zrem = λ k j s. lookup-erase k j s.leases;
  zcard-zrem = λ k s. length-erase k s.leases;
  zscore-zremrangebyscore = λ now j s. lookup-above now j s.leases;
  zcard-zremrangebyscore = λ now s. length-above now s.leases;
  zscore-hset = λ k j v s. refl;
  zcard-hset = λ k v s. refl;
  zscore-hdel = λ k j s. refl;
  zcard-hdel = λ k s. refl;
  zscore-incr = λ j s. refl;
  zcard-incr = λ s. refl;
  zscore-pexpire_leases = λ j t s lasts. ground (arith, lasts);
  zcard-pexpire_leases = λ t s. ground arith;
  zscore-pexpire_tokens = λ j t s. refl;
  zcard-pexpire_tokens = λ t s. refl;
  zscore-pexpire_fence = λ j t s. refl;
  zcard-pexpire_fence = λ t s. refl;
  zcard-lapse = zcard-drop_key;
  zscore-lapse_tokens = λ j s. refl;
  zscore-lapse_fence = λ j s. refl;
}

abbrev empty : Keys
empty = record { leases = []; tokens = []; fence = 0 }

fleet_limit_example :
    length
      (perform_all commands 1
        (acquires 0 30000 "a"
          ∷ acquires 5 30000 "b"
          ∷ lapses Key.leases
          ∷ acquires 31001 30000 "c"
          ∷ [])
        empty).leases
    ≤ 1
fleet_limit_example =
    fleet_limit commands commands-IsRedis 1
      (acquires 0 30000 "a"
        ∷ acquires 5 30000 "b"
        ∷ lapses Key.leases
        ∷ acquires 31001 30000 "c"
        ∷ [])
      empty (omega arith)

held_until_expiry_example :
    lookup "a"
      (perform_all commands 1
        (acquires 5 30000 "b" ∷ purges 29000 ∷ lapses Key.tokens ∷ [])
        (acquire commands 0 30000 1 "a" empty).0).leases
    ≡ some 30000
unfolding acquire drop_expired grant hdel_each
held_until_expiry_example =
    held_until_expiry commands commands-IsRedis 0 30000 1 1 1 0 "a"
      (acquires 5 30000 "b" ∷ purges 29000 ∷ lapses Key.tokens ∷ []) empty (omega arith) refl
      ((refl, omega arith, omega arith), (omega arith, (record {}, record {})))
