-- ===== src/Budget/Expiry.antt =====
-- What `_expire_memory` does to each id, whatever the order of the loop.
use ai_runtime_platform.Base.{
  ℕ, ◌+◌, String, ◌≡◌, refl, Bool, true, false, Option, none, some, List, [], ◌∷◌, arith, str_eq,
  eq_iff, leb, if◌then◌else◌, elem, Option-cases, Bool-cases, ◌⊎◌, inl, inr, ◌<◌, ◌≤◌,
}
use ai_runtime_platform.Dict.{Dict, lookup, erase, Distinct, lookup-insert, lookup-erase}
use ai_runtime_platform.Budget.Window.{
  MemoryWindow, due, expire_one, expire_each, erase_each, forget_stale, expire_memory,
}
use ai_runtime_platform.Budget.Invariant.{IsSound, expire_each-IsSound}

-- Whether an entry's time has come.
abbrev pub is_due : ℕ → Option (ℕ × ℕ) → Bool
is_due now none = false
is_due now (some (t, amt)) = leb t now

-- The entry that is left after those whose time has come are taken out.
abbrev pub unexpired : ℕ → Option (ℕ × ℕ) → Option (ℕ × ℕ)
unexpired now none = none
unexpired now (some (t, amt)) = if leb t now then none else some (t, amt)

elem-due_missing :
    (now : ℕ) (k : String) (d : Dict (ℕ × ℕ)) → lookup k d ≡ none → elem k (due now d) ≡ false
unfolding due
elem-due_missing now k [] h = refl
elem-due_missing now k ((j, (t, amt)) ∷ d) h = ground (arith, elem-due_missing now k d)

elem-due :
    (now : ℕ) (k : String) (d : Dict (ℕ × ℕ))
    → Distinct d
    → elem k (due now d) ≡ is_due now (lookup k d)
unfolding due
elem-due now k [] h = refl
elem-due now k ((j, (t, amt)) ∷ d) h =
    ground (arith, eq_iff j k, elem-due now k d h.1, elem-due_missing now k d)

lookup-expire_one :
    (now ttl : ℕ) (k j : String) (w : MemoryWindow)
    → lookup k (expire_one now ttl j w).reservations
      ≡ (if str_eq j k then none else lookup k w.reservations)
unfolding expire_one
lookup-expire_one now ttl k j w = elim (Option-cases (lookup j w.reservations)) [
  | inl missing ↦ rw (missing, expire_one) (ground (arith, eq_iff j k))
  | inr (entry, found) ↦ rw (found, expire_one) (lookup-erase j k w.reservations)
]

lookup-expire_each :
    (now ttl : ℕ) (k : String) (ids : List String) (w : MemoryWindow)
    → lookup k (expire_each now ttl ids w).reservations
      ≡ (if elem k ids then none else lookup k w.reservations)
unfolding expire_each
lookup-expire_each now ttl k [] w = refl
lookup-expire_each now ttl k (j ∷ ids) w = ground (
  arith,
  lookup-expire_each now ttl k ids (expire_one now ttl j w),
  lookup-expire_one now ttl k j w,
)

pub lookup-erase_each :
    (k : String) (ks : List String) (d : Dict (ℕ × ℕ))
    → lookup k (erase_each ks d) ≡ (if elem k ks then none else lookup k d)
unfolding erase_each
lookup-erase_each k [] d = refl
lookup-erase_each k (j ∷ ks) d =
    ground (arith, lookup-erase_each k ks (erase j d), lookup-erase j k d)

-- The entry of `k` among the expired, after a round that expires `j`.
expired_entry : ℕ → ℕ → Option (ℕ × ℕ) → Option (ℕ × ℕ) → Option (ℕ × ℕ)
expired_entry now ttl none old = old
expired_entry now ttl (some (t, amt)) old = some (now + ttl, amt)

tombstone-expire_one :
    (now ttl : ℕ) (k j : String) (w : MemoryWindow)
    → lookup k (expire_one now ttl j w).tombstones ≡ (
        if str_eq j k
        then expired_entry now ttl (lookup k w.reservations) (lookup k w.tombstones)
        else lookup k w.tombstones)
unfolding expire_one expired_entry
tombstone-expire_one now ttl k j w = elim (Option-cases (lookup j w.reservations)) [
  | inl missing ↦ rw (missing, expire_one) (ground (arith, eq_iff j k))
  | inr ((t, amt), found) ↦
      rw (found, expire_one)
        (ground (arith, eq_iff j k, lookup-insert j k (now + ttl, amt) w.tombstones))
]

tombstone-expire_each :
    (now ttl : ℕ) (k : String) (ids : List String) (w : MemoryWindow)
    → lookup k (expire_each now ttl ids w).tombstones ≡ (
        if elem k ids
        then expired_entry now ttl (lookup k w.reservations) (lookup k w.tombstones)
        else lookup k w.tombstones)
unfolding expire_each expired_entry
tombstone-expire_each now ttl k [] w = refl
tombstone-expire_each now ttl k (j ∷ ids) w = ground (
  arith,
  tombstone-expire_each now ttl k ids (expire_one now ttl j w),
  tombstone-expire_one now ttl k j w,
  lookup-expire_one now ttl k j w,
)

-- After `_expire_memory` on a sound window, a live id is the one that was live and whose expiry is
-- still to come, with its entry unchanged.
pub lookup-expire_memory :
    (now ttl : ℕ) (k : String) (w : MemoryWindow)
    → IsSound w
    → lookup k (expire_memory now ttl w).0.reservations ≡ unexpired now (lookup k w.reservations)
unfolding expire_memory forget_stale
lookup-expire_memory now ttl k w s = elim (Option-cases (lookup k w.reservations)) [
  | inl missing ↦ ground (arith, lookup-expire_each now ttl k (due now w.reservations) w, missing)
  | inr (entry, found) ↦ ground (
    arith,
    lookup-expire_each now ttl k (due now w.reservations) w,
    elem-due now k w.reservations s.live_distinct,
    found,
  )
]

-- A reservation whose expiry has come becomes a tombstone of the same amount, kept for `ttl`.
pub tombstone-expire_memory :
    (now ttl : ℕ) (k : String) (w : MemoryWindow) {t amt : ℕ}
    → IsSound w
    → 0 < ttl
    → lookup k w.reservations ≡ some (t, amt)
    → t ≤ now
    → lookup k (expire_memory now ttl w).0.tombstones ≡ some (now + ttl, amt)
unfolding expire_memory forget_stale expired_entry
tombstone-expire_memory now ttl k w {t} {amt} s pos found come =
    let ids = due now w.reservations in
    let w' = expire_each now ttl ids w in
    let listed : elem k ids ≡ true =
      ground (arith, elem-due now k w.reservations s.live_distinct, found, come) in
    let moved : lookup k w'.tombstones ≡ some (now + ttl, amt) =
      ground (arith, tombstone-expire_each now ttl k ids w, listed, found) in
    let sound = expire_each-IsSound now ttl ids w s in
    let later : leb (now + ttl) now ≡ false = ground (arith, pos) in
    ground (
      arith,
      lookup-erase_each k (due now w'.tombstones) w'.tombstones,
      elem-due now k w'.tombstones sound.expired_distinct,
      moved,
      later,
    )

-- What `_expire_memory` leaves of an id that is not live: its tombstone, or nothing.
pub tombstone-not_live :
    (now ttl : ℕ) (k : String) (w : MemoryWindow)
    → lookup k w.reservations ≡ none
    → (lookup k (expire_memory now ttl w).0.tombstones ≡ none)
      ⊎ (lookup k (expire_memory now ttl w).0.tombstones ≡ lookup k w.tombstones)
unfolding expire_memory forget_stale expired_entry
tombstone-not_live now ttl k w missing =
    let ids = due now w.reservations in
    let w' = expire_each now ttl ids w in
    let kept : lookup k w'.tombstones ≡ lookup k w.tombstones =
      ground (arith, tombstone-expire_each now ttl k ids w, missing) in
    let left = lookup-erase_each k (due now w'.tombstones) w'.tombstones in
    elim (Bool-cases (elem k (due now w'.tombstones))) [
      | inl gone ↦ inl (ground (arith, left, gone))
      | inr there ↦ inr (ground (arith, left, there, kept))
    ]
