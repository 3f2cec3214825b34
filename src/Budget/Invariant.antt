-- ===== src/Budget/Invariant.antt =====
-- The well-formedness of a budget window of app/gateway/budget_guard.py.
use ai_runtime_platform.Base.{
  ℕ, ◌+◌, ◌-◌, String, ◌≡◌, ◌≢◌, none, some, List, [], ◌∷◌, arith, eq_iff, Option-cases, Bool-cases,
  inl, inr, ◌||◌, leb, ◌==◌, ◌*◌, max,
}
use ai_runtime_platform.Int.{ℤ}
use ai_runtime_platform.Money.{Float, budget_to_micros}
use ai_runtime_platform.Dict.{
  Dict, lookup, erase, Distinct, lookup-insert, lookup-erase, insert-Distinct, erase-Distinct,
}
use ai_runtime_platform.Budget.Window.{
  MemoryWindow, exceeds, due, expire_one, expire_each, erase_each, forget_stale, expire_memory,
  roll_window, admit, refresh, reserve_in, commit, settle_in,
}
use ai_runtime_platform.Budget.Held.{held, held-insert_new, held-erase}

-- No id twice, no id both live and expired, and the total is the sum of the live amounts.
pub record IsSound (w : MemoryWindow) : Type 0 where
  pub live_distinct : Distinct w.reservations
  pub expired_distinct : Distinct w.tombstones
  pub apart : (k : String) → lookup k w.reservations ≢ none → lookup k w.tombstones ≡ none
  pub total : w.reserved_micros ≡ held w.reservations

pub expire_one-IsSound :
    (now ttl : ℕ) (id : String) (w : MemoryWindow) → IsSound w → IsSound (expire_one now ttl id w)
unfolding expire_one
expire_one-IsSound now ttl id w s = elim (Option-cases (lookup id w.reservations)) [
  | inl missing ↦ rw (missing, expire_one) s
  | inr ((t, amt), found) ↦
      rw (found, expire_one)
        (record {
          live_distinct = erase-Distinct id w.reservations s.live_distinct;
          expired_distinct = insert-Distinct id (now + ttl, amt) w.tombstones s.expired_distinct;
          apart = λ k live. ground (
            arith,
            lookup-insert id k (now + ttl, amt) w.tombstones,
            lookup-erase id k w.reservations,
            s.apart k,
            eq_iff id k,
          );
          total = omega (arith, s.total, held-erase id t amt w.reservations s.live_distinct found);
        })
]

pub expire_each-IsSound :
    (now ttl : ℕ) (ids : List String) (w : MemoryWindow)
    → IsSound w
    → IsSound (expire_each now ttl ids w)
unfolding expire_each
expire_each-IsSound now ttl [] w s = s
expire_each-IsSound now ttl (id ∷ ids) w s =
    expire_each-IsSound now ttl ids (expire_one now ttl id w) (expire_one-IsSound now ttl id w s)

pub erase_each-Distinct :
    (ks : List String) (d : Dict (ℕ × ℕ)) → Distinct d → Distinct (erase_each ks d)
unfolding erase_each
erase_each-Distinct [] d h = h
erase_each-Distinct (k ∷ ks) d h = erase_each-Distinct ks (erase k d) (erase-Distinct k d h)

erase_each_missing :
    (k : String) (ks : List String) (d : Dict (ℕ × ℕ))
    → lookup k d ≡ none
    → lookup k (erase_each ks d) ≡ none
unfolding erase_each
erase_each_missing k [] d h = h
erase_each_missing k (j ∷ ks) d h =
    erase_each_missing k ks (erase j d) (ground (arith, lookup-erase j k d))

forget_stale-IsSound : (now : ℕ) (w : MemoryWindow) → IsSound w → IsSound (forget_stale now w)
unfolding forget_stale
forget_stale-IsSound now w s = record {
  live_distinct = s.live_distinct;
  expired_distinct = erase_each-Distinct (due now w.tombstones) w.tombstones s.expired_distinct;
  apart = λ k live. erase_each_missing k (due now w.tombstones) w.tombstones (s.apart k live);
  total = s.total;
}

pub expire_memory-IsSound :
    (now ttl : ℕ) (w : MemoryWindow) → IsSound w → IsSound (expire_memory now ttl w).0
unfolding expire_memory
expire_memory-IsSound now ttl w s =
    forget_stale-IsSound now _ (expire_each-IsSound now ttl (due now w.reservations) w s)

roll_window-IsSound :
    (now window : ℕ) (w : MemoryWindow) → IsSound w → IsSound (roll_window now window w)
unfolding roll_window
roll_window-IsSound now window w s =
    elim (Bool-cases (w.window_start_ms == 0 || leb (w.window_start_ms + window) now)) [
      | inl rolls ↦
          rw (rolls, roll_window)
            (record {
              live_distinct = s.live_distinct;
              expired_distinct = s.expired_distinct;
              apart = s.apart;
              total = s.total;
            })
      | inr stays ↦ rw (stays, roll_window) s
    ]

pub refresh-IsSound :
    (now window ttl : ℕ) (w : MemoryWindow) → IsSound w → IsSound (refresh now window ttl w)
unfolding refresh
refresh-IsSound now window ttl w s =
    roll_window-IsSound now window _ (expire_memory-IsSound now _ w s)

-- An id is fresh in a window if it names neither a live nor an expired reservation.
abbrev pub IsFresh : String → MemoryWindow → Type 0
IsFresh id w = (lookup id w.reservations ≡ none) × (lookup id w.tombstones ≡ none)

admit-IsSound :
    (expiry : ℕ) (budget : ℤ) (estimate : ℕ) (id : String) (w : MemoryWindow)
    → IsFresh id w
    → IsSound w
    → IsSound (admit expiry budget estimate id w).1
unfolding admit
admit-IsSound expiry budget estimate id w fresh s =
    elim (Bool-cases (exceeds (w.committed_micros + w.reserved_micros + estimate) budget)) [
      | inl over ↦ rw (over, admit) s
      | inr fits ↦
          rw (fits, admit)
            (record {
              live_distinct = insert-Distinct id (expiry, estimate) w.reservations s.live_distinct;
              expired_distinct = s.expired_distinct;
              apart = λ k live. ground (
                arith,
                lookup-insert id k (expiry, estimate) w.reservations,
                s.apart k,
                eq_iff id k,
                fresh.1,
              );
              total =
                  omega (arith, s.total, held-insert_new id expiry estimate w.reservations fresh.0);
            })
    ]

expire_one-IsFresh :
    (now ttl : ℕ) (id j : String) (w : MemoryWindow)
    → IsFresh id w
    → IsFresh id (expire_one now ttl j w)
unfolding expire_one
expire_one-IsFresh now ttl id j w fresh = elim (Option-cases (lookup j w.reservations)) [
  | inl missing ↦ rw (missing, expire_one) fresh
  | inr ((t, amt), found) ↦
      rw (found, expire_one)
        (ground (
          arith,
          lookup-erase j id w.reservations,
          lookup-insert j id (now + ttl, amt) w.tombstones,
          eq_iff j id,
          fresh,
        ))
]

expire_each-IsFresh :
    (now ttl : ℕ) (id : String) (ids : List String) (w : MemoryWindow)
    → IsFresh id w
    → IsFresh id (expire_each now ttl ids w)
unfolding expire_each
expire_each-IsFresh now ttl id [] w fresh = fresh
expire_each-IsFresh now ttl id (j ∷ ids) w fresh =
    expire_each-IsFresh now ttl id ids (expire_one now ttl j w)
      (expire_one-IsFresh now ttl id j w fresh)

pub expire_memory-IsFresh :
    (now ttl : ℕ) (id : String) (w : MemoryWindow)
    → IsFresh id w
    → IsFresh id (expire_memory now ttl w).0
unfolding expire_memory forget_stale
expire_memory-IsFresh now ttl id w fresh =
    let ids = due now w.reservations in
    let w' = expire_each now ttl ids w in
    let after = expire_each-IsFresh now ttl id ids w fresh in
    (after.0, erase_each_missing id (due now w'.tombstones) w'.tombstones after.1)

pub refresh-IsFresh :
    (now window ttl : ℕ) (id : String) (w : MemoryWindow)
    → IsFresh id w
    → IsFresh id (refresh now window ttl w)
unfolding refresh roll_window
refresh-IsFresh now window ttl id w fresh =
    ground (arith, expire_memory-IsFresh now (max window ttl * 4) id w fresh)

-- Admission of a reservation under an unused id keeps the window sound, whatever the answer.
pub reserve_in-IsSound :
    (now window ttl : ℕ) (budget : Float) (estimate : ℕ) (id : String) (w : MemoryWindow)
    → IsFresh id w
    → IsSound w
    → IsSound (reserve_in now window ttl budget estimate id w).1
unfolding reserve_in
reserve_in-IsSound now window ttl budget estimate id w fresh s =
    elim (Option-cases (budget_to_micros budget)) [
      | inl infinite_budget ↦ rw (infinite_budget, reserve_in) (refresh-IsSound now window ttl w s)
      | inr (cap, e) ↦
          rw (e, reserve_in)
            (admit-IsSound (now + ttl) cap estimate id (refresh now window ttl w)
              (refresh-IsFresh now window ttl id w fresh) (refresh-IsSound now window ttl w s))
    ]

commit-IsSound :
    (now window actual : ℕ) (w : MemoryWindow) → IsSound w → IsSound (commit now window actual w)
unfolding commit
commit-IsSound now window actual w s =
    let rolled = roll_window-IsSound now window w s in
    record {
      live_distinct = rolled.live_distinct;
      expired_distinct = rolled.expired_distinct;
      apart = rolled.apart;
      total = rolled.total;
    }

-- The window after the reservation of `id` is taken out of it, as `settle_in` does first.
abbrev pub without_live : String → ℕ → MemoryWindow → MemoryWindow
without_live id amt w = record w {
  reserved_micros = w.reserved_micros - amt;
  reservations = erase id w.reservations;
}

abbrev pub without_expired : String → MemoryWindow → MemoryWindow
without_expired id w = record w { tombstones = erase id w.tombstones }

without_live-IsSound :
    (id : String) (t amt : ℕ) (w : MemoryWindow)
    → lookup id w.reservations ≡ some (t, amt)
    → IsSound w
    → IsSound (without_live id amt w)
without_live-IsSound id t amt w found s = record {
  live_distinct = erase-Distinct id w.reservations s.live_distinct;
  expired_distinct = s.expired_distinct;
  apart = λ k live. ground (arith, lookup-erase id k w.reservations, s.apart k);
  total = omega (arith, s.total, held-erase id t amt w.reservations s.live_distinct found);
}

without_expired-IsSound :
    (id : String) (w : MemoryWindow) → IsSound w → IsSound (without_expired id w)
without_expired-IsSound id w s = record {
  live_distinct = s.live_distinct;
  expired_distinct = erase-Distinct id w.tombstones s.expired_distinct;
  apart = λ k live. ground (arith, lookup-erase id k w.tombstones, s.apart k live);
  total = s.total;
}

-- A settlement, of a live, an expired or an unknown id, keeps the window sound.
pub settle_in-IsSound :
    (now window actual : ℕ) (id : String) (w : MemoryWindow)
    → IsSound w
    → IsSound (settle_in now window actual id w)
unfolding settle_in
settle_in-IsSound now window actual id w s = elim (Option-cases (lookup id w.reservations)) [
  | inr ((t, amt), found) ↦
      rw (found, settle_in)
        (commit-IsSound now window actual _ (without_live-IsSound id t amt w found s))
  | inl missing ↦ elim (Option-cases (lookup id w.tombstones)) [
    | inl unknown ↦ rw (missing, unknown, settle_in) s
    | inr (entry, expired) ↦
        rw (missing, expired, settle_in)
          (commit-IsSound now window actual _ (without_expired-IsSound id w s))
  ]
]
