-- ===== src/Budget/Scripts/Purge.antt =====
-- The purge script of app/gateway/budget_guard.py beside `_expire_memory`.
use ai_runtime_platform.Base.{
  ℕ, ◌<◌, String, ◌≡◌, refl, sym, ◌∙◌, Bool, true, false, Option, none, some, List, [], ◌∷◌, length,
  arith, ltb, if◌then◌else◌,
}
use ai_runtime_platform.Dict.{Dict}
use ai_runtime_platform.Budget.Window.{MemoryWindow, expire_memory}
use ai_runtime_platform.Budget.Invariant.{IsSound}
use ai_runtime_platform.Budget.Commands.{Redis, IsRedis}
use ai_runtime_platform.Budget.Scripts.{Loaded, all_three, load_window, purge_lua}
use ai_runtime_platform.Budget.Scripts.Totals.{sum_of}
use ai_runtime_platform.Budget.Scripts.Mirror.{SameEntries, Mirrors}
use ai_runtime_platform.Budget.Scripts.Expiring.{
  due_ids, expired_state, entries-expired, load_window-expired_state, expire-expired,
  reserved-expired,
}
use ai_runtime_platform.Budget.Scripts.Agreement.{expire_memory-window}
use ai_runtime_platform.Budget.Scripts.Settling.{purge_loaded-some}

all_three-some :
    (a b c : Option ℕ) (l : Loaded)
    → all_three a b c ≡ some l
    → (a ≡ some l.committed) × (b ≡ some l.reserved) × (c ≡ some l.start)
all_three-some none b c l h = ground (arith, h)
all_three-some (some a) none c l h = ground (arith, h)
all_three-some (some a) (some b) none l h = ground (arith, h)
all_three-some (some a) (some b) (some c) l h = ground (arith, h)

sum_of_nothing : (ks : List String) (d : Dict (ℕ × ℕ)) → ltb 0 (length ks) ≡ false → sum_of ks d ≡ 0
sum_of_nothing [] d h = refl
sum_of_nothing (k ∷ ks) d h = ground (arith, h)

module _ {S : Type 0} (r : Redis S) (laws : IsRedis r) where
  load_window-hset_reserved :
      (n : ℕ) (s : S) (l : Loaded)
      → load_window r s ≡ some l
      → load_window r (r.hset_reserved n s) ≡ some (record l { reserved = n })
  unfolding load_window
  load_window-hset_reserved n s l h =
      let (committed, _, start) = all_three-some _ _ _ l h in
      rw
        (
          laws.committed-hset_reserved n s,
          laws.reserved-hset_reserved n s,
          laws.start-hset_reserved n s,
          committed,
          start,
        )
        refl

  hset_reserved-entries :
      (n : ℕ) (s : S) (w : MemoryWindow) → SameEntries r s w → SameEntries r (r.hset_reserved n s) w
  hset_reserved-entries n s w same = record {
    scores = λ k. laws.hset_reserved-KeepsScores n k s ∙ same.scores k;
    amounts = λ k. rw (laws.hset_reserved-KeepsAmounts n k s) (same.amounts k);
  }

  -- The write behind `expire` in the purge script, when it is needed.
  purged-Mirrors :
      (b : Bool) (s1 : S) (before : Loaded) (w' : MemoryWindow)
      → load_window r s1 ≡ some before
      → before.committed ≡ w'.committed_micros
      → before.start ≡ w'.window_start_ms
      → (b ≡ false → before.reserved ≡ w'.reserved_micros)
      → SameEntries r s1 w'
      → Mirrors r (if b then r.hset_reserved w'.reserved_micros s1 else s1) w'
  purged-Mirrors true s1 before w' loaded committed start reserved same = record {
    loaded =
        rw (← committed, ← start) (load_window-hset_reserved w'.reserved_micros s1 before loaded);
    entries = hset_reserved-entries w'.reserved_micros s1 w' same;
  }
  purged-Mirrors false s1 before w' loaded committed start reserved same = record {
    loaded = rw (← committed, ← start, ← reserved refl) loaded;
    entries = same;
  }

  -- From a sound window and a Redis that mirrors it: the purge script expires what
  -- `_expire_memory` expires.
  pub purge_lua-Mirrors :
      (now ttl : ℕ) (s : S) (w : MemoryWindow)
      → IsSound w
      → Mirrors r s w
      → 0 < ttl
      → Mirrors r (purge_lua r now s).0 (expire_memory now ttl w).0
  unfolding purge_lua
  purge_lua-Mirrors now ttl s w sound m positive =
      let before : Loaded = record {
        committed = w.committed_micros;
        reserved = w.reserved_micros;
        start = w.window_start_ms;
      } in
      let w' = (expire_memory now ttl w).0 in
      let ids = due_ids r laws now ttl s w sound m.entries in
      let s1 = expired_state r laws now ttl s w sound m.entries in
      let (start, committed) = expire_memory-window now ttl w in
      let loaded = load_window-expired_state r laws now ttl s w sound m.entries ∙ m.loaded in
      let entries = entries-expired r laws now ttl s w sound m.entries positive in
      let reserved = reserved-expired r laws now ttl s w sound m.entries in
      rw
        (
          m.loaded,
          purge_loaded-some r laws now before s _
              (expire-expired r laws now ttl s w sound m.entries),
        )
        (purged-Mirrors (ltb 0 (length ids)) s1 before w' loaded (sym committed) (sym start)
          (λ none_due. omega (arith, sum_of_nothing ids w.reservations none_due, reserved)) entries)
