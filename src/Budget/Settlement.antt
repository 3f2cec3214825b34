-- ===== src/Budget/Settlement.antt =====
-- About the locked section of `_settle` in app/gateway/budget_guard.py.
use ai_runtime_platform.Base.{
  ℕ, ◌+◌, String, ◌≡◌, refl, none, some, arith, eq_refl, inl, inr, Option-cases, ◌≤◌, ◌<◌, ap, ◌∙◌,
  if◌then◌else◌, str_eq,
}
use ai_runtime_platform.Budget.Held.{held-erase}
use ai_runtime_platform.Dict.{lookup, lookup-erase}
use ai_runtime_platform.Budget.Window.{MemoryWindow, roll_window, commit, settle_in, expire_memory}
use ai_runtime_platform.Budget.Invariant.{IsSound, IsFresh, without_live, without_expired}
use ai_runtime_platform.Budget.Expiry.{lookup-expire_memory, tombstone-expire_memory}

pub settle_live :
    (now window actual : ℕ) (id : String) (w : MemoryWindow) {t amt : ℕ}
    → lookup id w.reservations ≡ some (t, amt)
    → settle_in now window actual id w ≡ commit now window actual (without_live id amt w)
unfolding settle_in
settle_live now window actual id w found = rw (found, settle_in)

pub settle_expired :
    (now window actual : ℕ) (id : String) (w : MemoryWindow) {entry : ℕ × ℕ}
    → lookup id w.reservations ≡ none
    → lookup id w.tombstones ≡ some entry
    → settle_in now window actual id w ≡ commit now window actual (without_expired id w)
unfolding settle_in
settle_expired now window actual id w missing found = rw (missing, found, settle_in)

pub settle_fresh :
    (now window actual : ℕ) (id : String) (w : MemoryWindow)
    → IsFresh id w
    → settle_in now window actual id w ≡ w
unfolding settle_in
settle_fresh now window actual id w fresh = rw (fresh.0, fresh.1, settle_in)

-- `commit` writes the committed total and the window's start alone.
commit_keeps :
    (now window actual : ℕ) (w : MemoryWindow)
    → let w' = commit now window actual w in
      (w'.reservations ≡ w.reservations)
      × (w'.tombstones ≡ w.tombstones)
      × (w'.reserved_micros ≡ w.reserved_micros)
      × (w'.committed_micros ≡ (roll_window now window w).committed_micros + actual)
unfolding commit
commit_keeps now window actual w = ground arith

-- The window that a settlement rolls does not depend on the reservations.
committed-roll_window :
    (now window : ℕ) (v w : MemoryWindow)
    → v.window_start_ms ≡ w.window_start_ms
    → v.committed_micros ≡ w.committed_micros
    → (roll_window now window v).committed_micros ≡ (roll_window now window w).committed_micros
unfolding roll_window
committed-roll_window now window v w same_start same_committed = ground arith

-- A settled id is known no more.
pub settle_in-IsFresh :
    (now window actual : ℕ) (id : String) (w : MemoryWindow)
    → IsSound w
    → IsFresh id (settle_in now window actual id w)
settle_in-IsFresh now window actual id w s = elim (Option-cases (lookup id w.reservations)) [
  | inr ((t, amt), found) ↦ rw (settle_live now window actual id w found) (
      ground (
        arith,
        commit_keeps now window actual (without_live id amt w),
        lookup-erase id id w.reservations,
        eq_refl id,
        s.apart id,
        found,
      ))
  | inl missing ↦ elim (Option-cases (lookup id w.tombstones)) [
    | inl unknown ↦ rw (settle_fresh now window actual id w (missing, unknown)) (missing, unknown)
    | inr (entry, found) ↦ rw (settle_expired now window actual id w missing found) (
        ground (
          arith,
          commit_keeps now window actual (without_expired id w),
          lookup-erase id id w.tombstones,
          eq_refl id,
          missing,
        ))
  ]
]

-- Settling an id again, at any time and for any amount, changes nothing.
pub settle_once :
    (now window actual now' window' actual' : ℕ) (id : String) (w : MemoryWindow)
    → IsSound w
    → let w' = settle_in now window actual id w in settle_in now' window' actual' id w' ≡ w'
settle_once now window actual now' window' actual' id w s =
    settle_fresh now' window' actual' id (settle_in now window actual id w)
      (settle_in-IsFresh now window actual id w s)

-- Settling a live reservation gives its amount back and charges the actual spend to the window of
-- the settlement. Its id is gone, and every other reservation is left alone.
pub settle_charges :
    (now window actual : ℕ) (id k : String) (w : MemoryWindow) {t amt : ℕ}
    → IsSound w
    → lookup id w.reservations ≡ some (t, amt)
    → let w' = settle_in now window actual id w in
      (w'.reserved_micros + amt ≡ w.reserved_micros)
      × (w'.committed_micros ≡ (roll_window now window w).committed_micros + actual)
      × (lookup k w'.reservations ≡ (if str_eq id k then none else lookup k w.reservations))
settle_charges now window actual id k w {t} {amt} s found =
    rw (settle_live now window actual id w found) (
      let kept = commit_keeps now window actual (without_live id amt w) in
      (
        omega (arith, kept.2, s.total, held-erase id t amt w.reservations s.live_distinct found),
        kept.3 ∙ ap (λ c. c + actual) (committed-roll_window now window _ _ refl refl),
        ap (lookup k) kept.0 ∙ lookup-erase id k w.reservations,
      ))

-- A reservation that expired before it was settled is still charged its actual spend, once: the
-- amount held for it was given back when it expired, and nothing more is given back.
pub late_settle_charges :
    (now ttl now' window actual : ℕ) (id : String) (w : MemoryWindow) {t amt : ℕ}
    → IsSound w
    → 0 < ttl
    → lookup id w.reservations ≡ some (t, amt)
    → t ≤ now
    → let expired = (expire_memory now ttl w).0 in
      let w' = settle_in now' window actual id expired in
      (w'.reserved_micros ≡ expired.reserved_micros)
      × (w'.committed_micros ≡ (roll_window now' window expired).committed_micros + actual)
late_settle_charges now ttl now' window actual id w s pos found come =
    let expired = (expire_memory now ttl w).0 in
    let gone : lookup id expired.reservations ≡ none =
      ground (arith, lookup-expire_memory now ttl id w s, found, come) in
    let kept = commit_keeps now' window actual (without_expired id expired) in
    rw
      (settle_expired now' window actual id expired gone
        (tombstone-expire_memory now ttl id w s pos found come))
      (kept.2, kept.3 ∙ ap (λ c. c + actual) (committed-roll_window now' window _ _ refl refl))
