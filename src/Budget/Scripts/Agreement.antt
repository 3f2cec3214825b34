-- ===== src/Budget/Scripts/Agreement.antt =====
-- The Lua scripts of app/gateway/budget_guard.py and its in-process window, side by side.
use ai_runtime_platform.Base.{
  ℕ, ◌+◌, ◌*◌, ◌<◌, max, String, ◌≡◌, refl, ◌∙◌, false, some, List, [], ◌∷◌, length, arith, str_eq,
  ltb, ◌==◌, if◌then◌else◌, Bool-cases, inl, inr, ◌||◌, ok,
}
use ai_runtime_platform.Dict.{insert, lookup-insert}
use ai_runtime_platform.Int.{ℤ, pos}
use ai_runtime_platform.Money.{Float, budget_to_micros}
use ai_runtime_platform.Budget.Window
use ai_runtime_platform.Budget.Window.{
  MemoryWindow, expire_memory, expire_each, expire_one, forget_stale, roll_window, exceeds, admit,
  refresh, reserve_in, commit, settle_in,
}
use ai_runtime_platform.Budget.Invariant.{IsSound}
use ai_runtime_platform.Budget.Commands.{Redis, IsRedis, Field, micros}
use ai_runtime_platform.Budget.Scripts.{
  Loaded, Expired, ReserveReply, load_window, expire, rolls, reserve_at, reserve_loaded,
  reserve_lua,
}
use ai_runtime_platform.Budget.Scripts.Totals.{sum_of}
use ai_runtime_platform.Budget.Scripts.Mirror.{SameEntries, Mirrors}
use ai_runtime_platform.Budget.Scripts.Expiring.{
  due_ids, expired_state, entries-expired, expire-expired,
}

module _ {S : Type 0} (r : Redis S) (laws : IsRedis r) where
  load_window-hset_window :
      (start committed reserved : ℕ) (s : S)
      → load_window r (r.hset_window start committed reserved s)
        ≡ some (record { committed = committed; reserved = reserved; start = start })
  unfolding load_window
  load_window-hset_window a b c s =
      rw
        (
          laws.committed-hset_window a b c s,
          laws.reserved-hset_window a b c s,
          laws.start-hset_window a b c s,
        )
        refl

  pub hset_window-Mirrors :
      (s : S) (w : MemoryWindow)
      → SameEntries r s w
      → Mirrors r (r.hset_window w.window_start_ms w.committed_micros w.reserved_micros s) w
  hset_window-Mirrors s w same =
      let a = w.window_start_ms in
      let b = w.committed_micros in
      let c = w.reserved_micros in
      record {
        loaded = load_window-hset_window a b c s;
        entries = record {
          scores = λ k. laws.hset_window-KeepsScores a b c k s ∙ same.scores k;
          amounts = λ k. rw (laws.hset_window-KeepsAmounts a b c k s) (same.amounts k);
        };
      }

  touch-Mirrors : (ttl : ℕ) (s : S) (w : MemoryWindow) → Mirrors r s w → Mirrors r (r.touch ttl s) w
  unfolding load_window
  touch-Mirrors ttl s w m = record {
    loaded =
        rw
          (
            laws.touch-KeepsWindow ttl Field.committed_micros s,
            laws.touch-KeepsWindow ttl Field.reserved_micros s,
            laws.touch-KeepsWindow ttl Field.window_start s,
          )
          m.loaded;
    entries = record {
      scores = λ k. laws.touch-KeepsScores ttl k s ∙ m.entries.scores k;
      amounts = λ k. rw (laws.touch-KeepsAmounts ttl k s) (m.entries.amounts k);
    };
  }

  -- A new reservation, in the sorted set and the amounts.
  add-Mirrors :
      (expiry amt : ℕ) (id : String) (s : S) (w : MemoryWindow)
      → Mirrors r s w
      → Mirrors r
          (r.hset_amount id (micros amt) (r.zadd expiry id s))
          (record w { reservations = insert id (expiry, amt) w.reservations })
  unfolding load_window
  add-Mirrors expiry amt id s w m =
      let s1 = r.zadd expiry id s in
      let a = micros amt in
      record {
        loaded =
            rw
              (
                laws.hset_amount-KeepsWindow id a Field.committed_micros s1,
                laws.hset_amount-KeepsWindow id a Field.reserved_micros s1,
                laws.hset_amount-KeepsWindow id a Field.window_start s1,
                laws.zadd-KeepsWindow expiry id Field.committed_micros s,
                laws.zadd-KeepsWindow expiry id Field.reserved_micros s,
                laws.zadd-KeepsWindow expiry id Field.window_start s,
              )
              m.loaded;
        entries = record {
          scores = λ k. ground (
            arith,
            laws.hset_amount-KeepsScores id a k s1,
            laws.score-zadd expiry id k s,
            lookup-insert id k (expiry, amt) w.reservations,
            m.entries.scores k,
          );
          amounts = λ k. elim (Bool-cases (str_eq id k)) [
            | inl own ↦
                rw (lookup-insert id k (expiry, amt) w.reservations, own)
                  (laws.amount-hset_amount id k a s1 ∙ (rw own refl))
            | inr other ↦
                rw
                  (
                    lookup-insert id k (expiry, amt) w.reservations,
                    laws.amount-hset_amount id k a s1,
                    other,
                    laws.zadd-KeepsAmounts expiry id k s,
                  )
                  (m.entries.amounts k)
          ];
        };
      }

-- The two replies say the same.
pub record SameReply (script : ReserveReply) (here : Window.ReserveReply) : Type 0 where
  pub same_code : script.code ≡ pos here.code
  pub same_committed : script.committed ≡ here.committed
  pub same_reserved : script.reserved ≡ here.reserved

module _ {S : Type 0} (r : Redis S) (laws : IsRedis r) where
  reserve_at-admit :
      (now keys_ttl b estimate : ℕ) (id : String) (ttl count released : ℕ) (s : S)
      (w : MemoryWindow)
      → SameEntries r s w
      → let (s', reply) =
          reserve_at r now keys_ttl
            (pos b)
            estimate
            id
            ttl
            w.window_start_ms
            w.committed_micros
            (record {
              state = s;
              still_reserved = w.reserved_micros;
              count = count;
              released = released;
            }) in
        let (reply', w') = admit (now + ttl) (pos b) estimate id w in
        Mirrors r s' w' × SameReply reply reply'
  unfolding reserve_at admit
  reserve_at-admit now keys_ttl b estimate id ttl count released s w same =
      elim (Bool-cases (ltb b (w.committed_micros + w.reserved_micros + estimate))) [
        | inl too_much ↦ rw too_much (
          touch-Mirrors r laws keys_ttl _ w (hset_window-Mirrors r laws s w same),
          record { same_code = refl; same_committed = refl; same_reserved = refl },
        )
        | inr fits ↦
            let w1 = record w { reserved_micros = w.reserved_micros + estimate } in
            let same1 : SameEntries r s w1 = record {
              scores = same.scores;
              amounts = same.amounts;
            } in
            rw fits (
              touch-Mirrors r laws keys_ttl _ _ (
                  add-Mirrors r laws (now + ttl) estimate id _ w1
                    (hset_window-Mirrors r laws s w1 same1)),
              record { same_code = refl; same_committed = refl; same_reserved = refl },
            )
      ]

expire_one-window :
    (now ttl : ℕ) (id : String) (w : MemoryWindow)
    → ((expire_one now ttl id w).window_start_ms ≡ w.window_start_ms)
      × ((expire_one now ttl id w).committed_micros ≡ w.committed_micros)
unfolding expire_one
expire_one-window now ttl id w = ground arith

expire_each-window :
    (now ttl : ℕ) (ids : List String) (w : MemoryWindow)
    → ((expire_each now ttl ids w).window_start_ms ≡ w.window_start_ms)
      × ((expire_each now ttl ids w).committed_micros ≡ w.committed_micros)
unfolding expire_each
expire_each-window now ttl [] w = (refl, refl)
expire_each-window now ttl (id ∷ ids) w = ground (
  arith,
  expire_each-window now ttl ids (expire_one now ttl id w),
  expire_one-window now ttl id w,
)

pub expire_memory-window :
    (now ttl : ℕ) (w : MemoryWindow)
    → ((expire_memory now ttl w).0.window_start_ms ≡ w.window_start_ms)
      × ((expire_memory now ttl w).0.committed_micros ≡ w.committed_micros)
unfolding expire_memory forget_stale
expire_memory-window now ttl w = expire_each-window now ttl (Window.due now w.reservations) w

-- `_roll_window` and the rollover of the scripts are the same.
roll_window-rolls :
    (now window : ℕ) (w : MemoryWindow)
    → let rolled = rolls now window w.window_start_ms in
      let w' = roll_window now window w in
      (w'.window_start_ms ≡ (if rolled then now else w.window_start_ms))
      × (w'.committed_micros ≡ (if rolled then 0 else w.committed_micros))
      × (w'.reserved_micros ≡ w.reserved_micros)
      × (w'.reservations ≡ w.reservations)
      × (w'.tombstones ≡ w.tombstones)
unfolding roll_window
roll_window-rolls now window w = ground arith

refresh-roll_window :
    (now window ttl : ℕ) (w : MemoryWindow)
    → refresh now window ttl w ≡ roll_window now window (expire_memory now (max window ttl * 4) w).0
unfolding refresh
refresh-roll_window now window ttl w = refl

module _ {S : Type 0} (r : Redis S) where
  reserve_loaded-some :
      (now window : ℕ) (budget : ℤ) (estimate : ℕ) (id : String) (ttl : ℕ) (w : Loaded) (s : S)
      (e : Expired S)
      → expire r now w.reserved s ≡ some e
      → let rolled = rolls now window w.start in
        reserve_loaded r now window budget estimate id ttl (some w) s
        ≡ reserve_at r now
            (max window ttl * 4)
            budget
            estimate
            id
            ttl
            (if rolled then now else w.start)
            (if rolled then 0 else w.committed)
            e
  unfolding reserve_loaded
  reserve_loaded-some now window budget estimate id ttl w s e h = rw (h, reserve_loaded) refl

  SameEntries-roll_window :
      (now window : ℕ) (s : S) (w : MemoryWindow)
      → SameEntries r s w
      → SameEntries r s (roll_window now window w)
  SameEntries-roll_window now window s w same =
      let (_, _, _, live, gone) = roll_window-rolls now window w in
      record {
        scores = λ k. rw live (same.scores k);
        amounts = λ k. rw (live, gone) (same.amounts k);
      }

module _ {S : Type 0} (r : Redis S) (laws : IsRedis r) (now window ttl b estimate : ℕ) (id : String)
    (s : S) (w : MemoryWindow) (sound : IsSound w) (m : Mirrors r s w)
    (positive : (0 < b) × (0 < window) × (0 < ttl)) where
  abbrev keys_ttl : ℕ
  keys_ttl = max window ttl * 4

  reserve_lua-reserve_at :
      let w' = refresh now window ttl w in
      reserve_lua r now window (pos b) estimate id ttl s
      ≡ reserve_at r now keys_ttl
          (pos b)
          estimate
          id
          ttl
          w'.window_start_ms
          w'.committed_micros
          (record {
            state = expired_state r laws now keys_ttl s w sound m.entries;
            still_reserved = w'.reserved_micros;
            count = length (due_ids r laws now keys_ttl s w sound m.entries);
            released = sum_of (due_ids r laws now keys_ttl s w sound m.entries) w.reservations;
          })
  unfolding reserve_lua
  reserve_lua-reserve_at =
      let w1 = (expire_memory now keys_ttl w).0 in
      let (start, committed, reserved, _, _) = roll_window-rolls now window w1 in
      let (start1, committed1) = expire_memory-window now keys_ttl w in
      let no_zero : (b == 0 || (window == 0 || ttl == 0)) ≡ false = ground (arith, positive) in
      let before : Loaded = record {
        committed = w.committed_micros;
        reserved = w.reserved_micros;
        start = w.window_start_ms;
      } in
      let gone = expire-expired r laws now keys_ttl s w sound m.entries in
      rw
        (
          no_zero,
          m.loaded,
          reserve_loaded-some r now window (pos b) estimate id ttl before s _ gone,
          refresh-roll_window now window ttl w,
          start,
          committed,
          reserved,
          start1,
          committed1,
        )
        refl

  -- From a sound window and a Redis that mirrors it: the script grants and refuses exactly what
  -- the in-process store does, replies with the same committed and reserved spend, and leaves a
  -- Redis that mirrors the new window.
  pub reserve_lua-Mirrors :
      (budget : Float)
      → budget_to_micros budget ≡ some (pos b)
      → let (s', reply) = reserve_lua r now window (pos b) estimate id ttl s in
        let (answer, w') = reserve_in now window ttl budget estimate id w in
        Mirrors r s' w' × (here : Window.ReserveReply) × (answer ≡ ok here) × SameReply reply here
  unfolding reserve_in
  reserve_lua-Mirrors budget in_micros =
      let w2 = refresh now window ttl w in
      let same : SameEntries r (expired_state r laws now keys_ttl s w sound m.entries) w2 =
        rw (refresh-roll_window now window ttl w) (
          SameEntries-roll_window r now window _ _
            (entries-expired r laws now keys_ttl s w sound m.entries (omega (arith, positive)))) in
      let (mirrors, replies) =
        reserve_at-admit r laws now keys_ttl b estimate id ttl _ _ _ w2 same in
      rw (in_micros, reserve_lua-reserve_at)
        (mirrors, (admit (now + ttl) (pos b) estimate id w2).0, refl, replies)
