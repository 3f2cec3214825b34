-- ===== src/Budget/Scripts/Witnesses.antt =====
-- Concrete runs of the Lua scripts of app/gateway/budget_guard.py.
use ai_runtime_platform.Base.{
  ℕ, ◌+◌, ◌≤◌, String, ◌≡◌, refl, false, Option, none, some, List, [], ◌∷◌, arith, elem, leb,
  str_eq, eq_iff, eq_refl, if◌then◌else◌, ok,
}
use ai_runtime_platform.Dict.{Dict, lookup, insert, erase, lookup-insert, lookup-erase}
use ai_runtime_platform.Int.{pos}
use ai_runtime_platform.Money.{Float, finite, budget_to_micros}
use ai_runtime_platform.Budget.Window
use ai_runtime_platform.Budget.Window.{MemoryWindow, new_window, reserve_in, settle_in}
use ai_runtime_platform.Budget.Invariant.{IsSound}
use ai_runtime_platform.Budget.Trace.{Reach}
use ai_runtime_platform.Budget.Commands.{
  Redis, IsRedis, Stored, number, Amount, micros, tombstone, Field, window_start, committed_micros,
  reserved_micros, Unique, comes_by, after,
}
use ai_runtime_platform.Budget.Scripts.{
  Loaded, load_window, expire, reserve_at, reserve_lua, settle_lua, purge_lua,
}
use ai_runtime_platform.Budget.Scripts.Mirror.{Mirrors}
use ai_runtime_platform.Budget.Scripts.Agreement.{SameReply, reserve_lua-Mirrors}
use ai_runtime_platform.Budget.Scripts.Fleet.{
  ScriptRuns, no_run, then_run, reserve, settle, scripts_take_steps, replicas_never_overspend,
}

-- The three keys of a scope.
record ScopeKeys : Type 0 where
  start : Option Stored
  committed : Option Stored
  reserved : Option Stored
  scores : Dict ℕ
  amounts : Dict Amount

abbrev field_of : Field → ScopeKeys → Option Stored
field_of window_start s = s.start
field_of committed_micros s = s.committed
field_of reserved_micros s = s.reserved

abbrev without : String → List String → List String
without k [] = []
without k (j ∷ ks) = let rest = without k ks in if str_eq j k then rest else j ∷ rest

abbrev due_members : ℕ → Dict ℕ → List String
due_members now [] = []
due_members now ((k, t) ∷ d) =
    let rest = without k (due_members now d) in if leb t now then k ∷ rest else rest

abbrev sweep : ℕ → Dict ℕ → Dict ℕ
sweep now [] = []
sweep now ((k, t) ∷ d) = let rest = sweep now d in if leb t now then erase k rest else (k, t) ∷ rest

elem-without :
    (k j : String) (ks : List String)
    → elem j (without k ks) ≡ (if str_eq k j then false else elem j ks)
elem-without k j [] = ground arith
elem-without k j (i ∷ ks) =
    ground (arith, eq_iff i k, eq_iff i j, eq_iff j i, eq_iff k j, elem-without k j ks)

without-Unique : (k : String) (ks : List String) → Unique ks → Unique (without k ks)
without-Unique k [] h = tt
without-Unique k (i ∷ ks) h = ground (arith, elem-without k i ks, without-Unique k ks h.1)

due_members-Unique : (now : ℕ) (d : Dict ℕ) → Unique (due_members now d)
due_members-Unique now [] = tt
due_members-Unique now ((k, t) ∷ d) = ground (
  arith,
  elem-without k k (due_members now d),
  eq_refl k,
  without-Unique k (due_members now d) (due_members-Unique now d),
)

elem-due_members :
    (now : ℕ) (j : String) (d : Dict ℕ) → elem j (due_members now d) ≡ comes_by now (lookup j d)
elem-due_members now j [] = refl
elem-due_members now j ((k, t) ∷ d) =
    ground (
      arith,
      elem-without k j (due_members now d),
      elem-due_members now j d,
      eq_iff k j,
      eq_iff j k,
    )

lookup-sweep : (now : ℕ) (j : String) (d : Dict ℕ) → lookup j (sweep now d) ≡ after now (lookup j d)
lookup-sweep now j [] = refl
lookup-sweep now j ((k, t) ∷ d) =
    ground (arith, lookup-erase k j (sweep now d), lookup-sweep now j d, eq_iff k j, eq_iff j k)

abbrev scope_redis : Redis ScopeKeys
scope_redis = record {
  hget_window = field_of;
  hset_window = λ a b c s. record s {
    start = some (number a);
    committed = some (number b);
    reserved = some (number c);
  };
  hset_reserved = λ c s. record s { reserved = some (number c) };
  zrangebyscore = λ now s. due_members now s.scores;
  zremrangebyscore = λ now s. record s { scores = sweep now s.scores };
  zadd = λ t k s. record s { scores = insert k t s.scores };
  zrem = λ k s. record s { scores = erase k s.scores };
  zscore = λ k s. lookup k s.scores;
  hget_amount = λ k s. lookup k s.amounts;
  hset_amount = λ k a s. record s { amounts = insert k a s.amounts };
  hdel_amount = λ k s. record s { amounts = erase k s.amounts };
  touch = λ _ s. s;
}

scope_redis-IsRedis : IsRedis scope_redis
scope_redis-IsRedis = record {
  start-hset_window = λ a b c s. refl;
  committed-hset_window = λ a b c s. refl;
  reserved-hset_window = λ a b c s. refl;
  hset_window-KeepsScores = λ a b c k s. refl;
  hset_window-KeepsAmounts = λ a b c k s. refl;
  start-hset_reserved = λ c s. refl;
  committed-hset_reserved = λ c s. refl;
  reserved-hset_reserved = λ c s. refl;
  hset_reserved-KeepsScores = λ c k s. refl;
  hset_reserved-KeepsAmounts = λ c k s. refl;
  zrangebyscore-Unique = λ now s. due_members-Unique now s.scores;
  elem-zrangebyscore = λ now k s. elem-due_members now k s.scores;
  zremrangebyscore-KeepsWindow = λ now k s. ground arith;
  score-zremrangebyscore = λ now k s. lookup-sweep now k s.scores;
  zremrangebyscore-KeepsAmounts = λ now k s. refl;
  zadd-KeepsWindow = λ t j k s. ground arith;
  score-zadd = λ t j k s. lookup-insert j k t s.scores;
  zadd-KeepsAmounts = λ t j k s. refl;
  zrem-KeepsWindow = λ j k s. ground arith;
  score-zrem = λ j k s. lookup-erase j k s.scores;
  zrem-KeepsAmounts = λ j k s. refl;
  hset_amount-KeepsWindow = λ j a k s. ground arith;
  hset_amount-KeepsScores = λ j a k s. refl;
  amount-hset_amount = λ j k a s. lookup-insert j k a s.amounts;
  hdel_amount-KeepsWindow = λ j k s. ground arith;
  hdel_amount-KeepsScores = λ j k s. refl;
  amount-hdel_amount = λ j k s. lookup-erase j k s.amounts;
  touch-KeepsWindow = λ t k s. refl;
  touch-KeepsScores = λ t k s. refl;
  touch-KeepsAmounts = λ t k s. refl;
}

abbrev no_keys : ScopeKeys
no_keys = record { start = none; committed = none; reserved = none; scores = []; amounts = [] }

abbrev dollar : Float
dollar = finite false (record { coefficient = 1; scale = 0 })

dollar_cap : budget_to_micros dollar ≡ some (pos 1_000_000)
unfolding budget_to_micros
dollar_cap = refl

new_window-IsSound : IsSound new_window
new_window-IsSound = record {
  live_distinct = tt;
  expired_distinct = tt;
  apart = λ k live. refl;
  total = refl;
}

no_keys-Mirrors : Mirrors scope_redis no_keys new_window
unfolding load_window
no_keys-Mirrors = record {
  loaded = refl;
  entries = record { scores = λ k. refl; amounts = λ k. tt };
}

-- One dollar an hour; a reservation of 0.60 expires after two minutes.
abbrev held_keys : ScopeKeys
held_keys = (reserve_lua scope_redis 1000 3_600_000 (pos 1_000_000) 600_000 "r1" 120_000 no_keys).0

abbrev held_window : MemoryWindow
held_window = (reserve_in 1000 3_600_000 120_000 dollar 600_000 "r1" new_window).1

reserve_lua-Mirrors_example :
    let (s', reply) =
      reserve_lua scope_redis 1000 3_600_000 (pos 1_000_000) 600_000 "r1" 120_000 no_keys in
    let (answer, w') = reserve_in 1000 3_600_000 120_000 dollar 600_000 "r1" new_window in
    Mirrors scope_redis s' w'
    × (here : Window.ReserveReply) × (answer ≡ ok here)
    × SameReply reply here
reserve_lua-Mirrors_example =
    reserve_lua-Mirrors scope_redis scope_redis-IsRedis 1000 3_600_000 120_000 1_000_000 600_000
      "r1" no_keys new_window new_window-IsSound no_keys-Mirrors
      (omega arith, omega arith, omega arith) dollar dollar_cap

held_keys_are : held_keys ≡ record {
  start = some (number 1000);
  committed = some (number 0);
  reserved = some (number 600_000);
  scores = ("r1", 121_000) ∷ [];
  amounts = ("r1", micros 600_000) ∷ [];
}
unfolding reserve_lua expire reserve_at
held_keys_are = refl

-- A second replica purges after the expiry: the amount stays as a tombstone.
purged_keys_are : (purge_lua scope_redis 121_000 held_keys).0 ≡ record {
  start = some (number 1000);
  committed = some (number 0);
  reserved = some (number 0);
  scores = [];
  amounts = ("r1", tombstone 600_000) ∷ [];
}
unfolding reserve_lua purge_lua expire reserve_at
purged_keys_are = refl

abbrev settled_keys : ScopeKeys
settled_keys = (settle_lua scope_redis "r1" 250_000 2000 3_600_000 held_keys).0

settled-ScriptRuns : ScriptRuns scope_redis 1_000_000 3_600_000 120_000 no_keys settled_keys
unfolding reserve_lua expire reserve_at
settled-ScriptRuns =
    then_run (then_run no_run (reserve 1000 600_000 "r1" refl))
      (settle 2000 250_000 "r1" 121_000 600_000 refl refl (omega arith))

scripts_take_steps_example :
    (w' : MemoryWindow) × Reach dollar 3_600_000 120_000 new_window w'
    × Mirrors scope_redis settled_keys w'
scripts_take_steps_example =
    scripts_take_steps scope_redis scope_redis-IsRedis dollar 3_600_000 120_000 1_000_000 dollar_cap
      (omega arith, omega arith, omega arith) new_window new_window-IsSound no_keys-Mirrors
      settled-ScriptRuns

replicas_never_overspend_example :
    (l : Loaded) × (load_window scope_redis settled_keys ≡ some l)
    × (l.committed + l.reserved ≤ 1_000_000)
replicas_never_overspend_example =
    replicas_never_overspend scope_redis scope_redis-IsRedis dollar 3_600_000 120_000 1_000_000
      dollar_cap (omega arith, omega arith, omega arith) new_window new_window-IsSound
      no_keys-Mirrors (omega arith) settled-ScriptRuns
