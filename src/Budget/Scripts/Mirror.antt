-- ===== src/Budget/Scripts/Mirror.antt =====
-- The keys of a scope in Redis and its window in process (app/gateway/budget_guard.py) side by
-- side, and how both expire their reservations.
use ai_runtime_platform.Base.{
  ℕ, String, ◌≡◌, refl, ◌∙◌, true, false, Option, none, some, List, [], ◌∷◌, length, arith, eq_iff,
  eq_refl, elem, ltb, if◌then◌else◌, All,
}
use ai_runtime_platform.Dict.{Dict, lookup}
use ai_runtime_platform.Budget.Window.{MemoryWindow}
use ai_runtime_platform.Budget.Expiry.{unexpired}
use ai_runtime_platform.Budget.Commands.{
  Redis, IsRedis, Field, Amount, micros, tombstone, Unique, comes_by, after,
}
use ai_runtime_platform.Budget.Scripts.{load_window, read_amounts, bury, total}
use ai_runtime_platform.Budget.Scripts.Totals.{amount_of, sum_of}

abbrev pub score_of : Option (ℕ × ℕ) → Option ℕ
score_of none = none
score_of (some (t, amt)) = some t

-- The text of an id's amount. The in-process store forgets a tombstone after a while; Redis, whose
-- keys expire as a whole, may still have it.
abbrev pub Shows : Option (ℕ × ℕ) → Option (ℕ × ℕ) → Option Amount → Type 0
Shows (some (t, amt)) old stored = stored ≡ some (micros amt)
Shows none (some (t, amt)) stored = stored ≡ some (tombstone amt)
Shows none none stored = Unit {0}

module _ {S : Type 0} (r : Redis S) where
  -- The same reservations, live and expired.
  pub record SameEntries (s : S) (w : MemoryWindow) : Type 0 where
    pub scores : (k : String) → r.zscore k s ≡ score_of (lookup k w.reservations)
    pub amounts :
        (k : String) → Shows (lookup k w.reservations) (lookup k w.tombstones) (r.hget_amount k s)

  -- The same window: start, committed and reserved spend, and reservations.
  pub record Mirrors (s : S) (w : MemoryWindow) : Type 0 where
    pub loaded :
        load_window r s
        ≡ some (record {
          committed = w.committed_micros;
          reserved = w.reserved_micros;
          start = w.window_start_ms;
        })
    pub entries : SameEntries s w

pub amounts_in : List String → Dict (ℕ × ℕ) → List ℕ
amounts_in [] d = []
amounts_in (k ∷ ks) d = amount_of (lookup k d) ∷ amounts_in ks d

pub total-amounts_in : (ks : List String) (d : Dict (ℕ × ℕ)) → total (amounts_in ks d) ≡ sum_of ks d
unfolding amounts_in
total-amounts_in [] d = refl
total-amounts_in (k ∷ ks) d = omega (arith, total-amounts_in ks d)

-- Whether an id is among those that expire, and its entry is live.
abbrev IsLiveIn : Dict (ℕ × ℕ) → String → Type 0
IsLiveIn d k = (t : ℕ) × (lookup k d ≡ some (t, amount_of (lookup k d)))

pub All-of_elem :
    {P : String → Type 0} (ks : List String) → ((k : String) → elem k ks ≡ true → P k) → All P ks
All-of_elem [] h = tt
All-of_elem (k ∷ ks) h =
    (h k (ground (arith, eq_refl k)), All-of_elem ks (λ j m. h j (ground (arith, m))))

module _ {S : Type 0} (r : Redis S) (laws : IsRedis r) where
  pub read_amounts-amounts_in :
      (ks : List String) (d : Dict (ℕ × ℕ)) (s : S)
      → All (λ k. r.hget_amount k s ≡ some (micros (amount_of (lookup k d)))) ks
      → read_amounts r ks s ≡ some (amounts_in ks d)
  unfolding read_amounts amounts_in
  read_amounts-amounts_in [] d s h = refl
  read_amounts-amounts_in (k ∷ ks) d s (one, h) = rw (one, read_amounts-amounts_in ks d s h) refl

  -- What burying leaves of an id.
  pub amount-bury :
      (ks : List String) (d : Dict (ℕ × ℕ)) (k : String) (s : S)
      → Unique ks
      → r.hget_amount k (bury r ks (amounts_in ks d) s)
        ≡ (if elem k ks then some (tombstone (amount_of (lookup k d))) else r.hget_amount k s)
  unfolding bury amounts_in
  amount-bury [] d k s u = refl
  amount-bury (j ∷ ks) d k s (new, u) =
      let a = tombstone (amount_of (lookup j d)) in
      ground (
        arith,
        amount-bury ks d k (r.hset_amount j a s) u,
        laws.amount-hset_amount j k a s,
        eq_iff j k,
        new,
      )

  pub zscore-bury :
      (ks : List String) (ns : List ℕ) (k : String) (s : S)
      → r.zscore k (bury r ks ns s) ≡ r.zscore k s
  unfolding bury
  zscore-bury [] ns k s = refl
  zscore-bury (j ∷ ks) [] k s = refl
  zscore-bury (j ∷ ks) (n ∷ ns) k s =
      zscore-bury ks ns k (r.hset_amount j (tombstone n) s)
      ∙ laws.hset_amount-KeepsScores j (tombstone n) k s

  pub load_window-bury :
      (ks : List String) (ns : List ℕ) (s : S) → load_window r (bury r ks ns s) ≡ load_window r s
  unfolding bury load_window
  load_window-bury [] ns s = refl
  load_window-bury (j ∷ ks) [] s = refl
  load_window-bury (j ∷ ks) (n ∷ ns) s =
      let keeps = laws.hset_amount-KeepsWindow j (tombstone n) in
      load_window-bury ks ns (r.hset_amount j (tombstone n) s)
      ∙ rw
          (
            keeps Field.committed_micros s,
            keeps Field.reserved_micros s,
            keeps Field.window_start s,
          )
          refl

pub after_later :
    (now : ℕ) (score : Option ℕ) → comes_by now score ≡ false → after now score ≡ score
after_later now none h = refl
after_later now (some score) h = ground (arith, h)

pub elem_nothing : (k : String) (ks : List String) → ltb 0 (length ks) ≡ false → elem k ks ≡ false
elem_nothing k [] h = refl
elem_nothing k (j ∷ ks) h = ground (arith, h)

pub after-score_of :
    (now : ℕ) (entry : Option (ℕ × ℕ)) → after now (score_of entry) ≡ score_of (unexpired now entry)
after-score_of now none = refl
after-score_of now (some (t, amt)) = ground arith
