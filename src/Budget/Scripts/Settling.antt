-- ===== src/Budget/Scripts/Settling.antt =====
-- The settle script of app/gateway/budget_guard.py beside `_settle`.
use ai_runtime_platform.Base.{
  ℕ, ◌+◌, ◌-◌, ◌<◌, String, ◌≡◌, refl, sym, ap, ◌∙◌, Bool, true, false, none, some, arith, str_eq,
  eq_iff, eq_refl, ltb, ◌==◌, if◌then◌else◌, Bool-cases, inl, inr, ◌⊎◌,
}
use ai_runtime_platform.Dict.{lookup, erase, lookup-erase, erase_missing}
use ai_runtime_platform.Budget.Window.{MemoryWindow, commit, settle_in}
use ai_runtime_platform.Budget.Invariant.{IsSound, without_live, without_expired}
use ai_runtime_platform.Budget.Settlement.{settle_live, settle_expired}
use ai_runtime_platform.Budget.Commands.{Redis, IsRedis, micros, tombstone}
use ai_runtime_platform.Budget.Scripts.{
  Loaded, Expired, load_window, expire, rolls, settle_at, settle_loaded, settle_raw, settle_lua,
  purge_loaded,
}
use ai_runtime_platform.Budget.Scripts.Mirror.{SameEntries, Mirrors}
use ai_runtime_platform.Budget.Scripts.Agreement.{hset_window-Mirrors}

commit-rolls :
    (now window actual : ℕ) (w : MemoryWindow)
    → let rolled = rolls now window w.window_start_ms in
      let w' = commit now window actual w in
      (w'.window_start_ms ≡ (if rolled then now else w.window_start_ms))
      × (w'.committed_micros ≡ (if rolled then 0 else w.committed_micros) + actual)
      × (w'.reserved_micros ≡ w.reserved_micros)
      × (w'.reservations ≡ w.reservations)
      × (w'.tombstones ≡ w.tombstones)
unfolding commit
commit-rolls now window actual w = ground arith

module _ {S : Type 0} (r : Redis S) (laws : IsRedis r) where
  -- Settling an id takes it out of the sorted set and of the amounts.
  remove-SameEntries :
      (id : String) (s : S) (w w' : MemoryWindow)
      → SameEntries r s w
      → w'.reservations ≡ erase id w.reservations
      → ((k : String) → str_eq id k ≡ false → lookup k w'.tombstones ≡ lookup k w.tombstones)
      → lookup id w'.tombstones ≡ none
      → SameEntries r (r.zrem id (r.hdel_amount id s)) w'
  remove-SameEntries id s w w' same live apart gone =
      let s1 = r.hdel_amount id s in
      record {
        scores = λ k. rw live (
            ground (
              arith,
              laws.score-zrem id k s1,
              laws.hdel_amount-KeepsScores id k s,
              lookup-erase id k w.reservations,
              same.scores k,
            ));
        amounts = λ k. elim (Bool-cases (str_eq id k)) [
          | inl own ↦
              let e = (eq_iff id k).0 own in
              rw (live, lookup-erase id k w.reservations, own, ← e, gone) tt
          | inr other ↦
              rw
                (
                  live,
                  lookup-erase id k w.reservations,
                  other,
                  apart k other,
                  laws.zrem-KeepsAmounts id k s1,
                  laws.amount-hdel_amount id k s,
                  other,
                )
                (same.amounts k)
        ];
      }

  -- `settle_at` commits as `commit` does.
  settle_at-Mirrors :
      (id : String) (actual now window : ℕ) (late : Bool) (amt : ℕ) (s : S) (w w1 : MemoryWindow)
      → SameEntries r (r.zrem id (r.hdel_amount id s)) w1
      → w1.window_start_ms ≡ w.window_start_ms
      → w1.committed_micros ≡ w.committed_micros
      → w1.reserved_micros ≡ (if late then w.reserved_micros else w.reserved_micros - amt)
      → Mirrors r
          (settle_at r id actual now window late amt
            (record {
              committed = w.committed_micros;
              reserved = w.reserved_micros;
              start = w.window_start_ms;
            })
            s).0
          (commit now window actual w1)
  unfolding settle_at
  settle_at-Mirrors id actual now window late amt s w w1 same start committed reserved =
      let (a, b, c, live, gone) = commit-rolls now window actual w1 in
      let same2 : SameEntries r (r.zrem id (r.hdel_amount id s)) (commit now window actual w1) =
        record {
          scores = λ k. rw live (same.scores k);
          amounts = λ k. rw (live, gone) (same.amounts k);
        } in
      let starts = ap (λ n. if rolls now window n then now else n) (sym start) ∙ sym a in
      let commits : (if rolls now window w.window_start_ms then 0 else w.committed_micros) + actual
          ≡ (commit now window actual w1).committed_micros =
        ground (arith, start, committed, b) in
      let reserves = sym reserved ∙ sym c in
      rw (starts, commits, reserves)
        (hset_window-Mirrors r laws (r.zrem id (r.hdel_amount id s)) (commit now window actual w1)
          same2)

  settle_loaded_some :
      (id : String) (actual now window : ℕ) (late : Bool) (amt : ℕ) (s : S) (w w1 : MemoryWindow)
      → Mirrors r s w
      → SameEntries r (r.zrem id (r.hdel_amount id s)) w1
      → w1.window_start_ms ≡ w.window_start_ms
      → w1.committed_micros ≡ w.committed_micros
      → w1.reserved_micros ≡ (if late then w.reserved_micros else w.reserved_micros - amt)
      → Mirrors r
          (settle_loaded r id actual now window late amt (load_window r s) s).0
          (commit now window actual w1)
  unfolding settle_loaded
  settle_loaded_some id actual now window late amt s w w1 m same start committed reserved =
      rw m.loaded
        (settle_at-Mirrors id actual now window late amt s w w1 same start committed reserved)

  -- From a sound window and a Redis that mirrors it: the script settles a live reservation, or one
  -- that has expired and whose tombstone the in-process store has, exactly as that store does.
  pub settle_lua-Mirrors :
      (now window actual : ℕ) (id : String) (s : S) (w : MemoryWindow) (amt : ℕ)
      → IsSound w
      → Mirrors r s w
      → 0 < window
      → ((t : ℕ) × (lookup id w.reservations ≡ some (t, amt)))
        ⊎ ((t : ℕ) × (lookup id w.reservations ≡ none) × (lookup id w.tombstones ≡ some (t, amt)))
      → Mirrors r (settle_lua r id actual now window s).0 (settle_in now window actual id w)
  unfolding settle_lua settle_raw
  settle_lua-Mirrors now window actual id s w amt sound m positive (inl (t, live)) =
      let no_zero : (window == 0) ≡ false = ground (arith, positive) in
      let stored : r.hget_amount id s ≡ some (micros amt) = rw live at (m.entries.amounts id) in
      let no_tombstone = sound.apart id (λ e. cc) in
      rw (no_zero, stored, settle_live now window actual id w live)
        (settle_loaded_some id actual now window false amt s w (without_live id amt w) m
          (remove-SameEntries id s w (without_live id amt w) m.entries refl (λ k _. refl)
            no_tombstone)
          refl refl refl)
  settle_lua-Mirrors now window actual id s w amt sound m positive (inr (t, missing, expired)) =
      let no_zero : (window == 0) ≡ false = ground (arith, positive) in
      let stored : r.hget_amount id s ≡ some (tombstone amt) =
        rw (missing, expired) at (m.entries.amounts id) in
      rw (no_zero, stored, settle_expired now window actual id w missing expired)
        (settle_loaded_some id actual now window true amt s w (without_expired id w) m
          (remove-SameEntries id s w (without_expired id w) m.entries
            (sym (erase_missing id w.reservations missing))
            (λ k other. ground (arith, lookup-erase id k w.tombstones, other))
            (ground (arith, lookup-erase id id w.tombstones, eq_refl id)))
          refl refl refl)

  pub purge_loaded-some :
      (now : ℕ) (w : Loaded) (s : S) (e : Expired S)
      → expire r now w.reserved s ≡ some e
      → (purge_loaded r now (some w) s).0
        ≡ (if ltb 0 e.count then r.hset_reserved e.still_reserved e.state else e.state)
  unfolding purge_loaded
  purge_loaded-some now w s e h = rw (h, purge_loaded) refl
