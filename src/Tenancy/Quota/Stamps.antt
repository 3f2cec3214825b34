-- ===== src/Tenancy/Quota/Stamps.antt =====
-- The times in the window of a team in app/gateway/tenant.py, in ascending order.
use ai_runtime_platform.Base.{
  ℕ, ◌+◌, ◌≤◌, ◌<◌, ◌≡◌, ◌⊎◌, refl, List, [], ◌∷◌, ◌++◌, arith, ltb, ◌==◌, if◌then◌else◌, All,
  Bool-cases, inl, inr,
}
use ai_runtime_platform.Tenancy.Quota.{window_seconds, prune_window, remove}

-- The times that are at most a window old.
abbrev pub recent : ℕ → List ℕ → List ℕ
recent now [] = []
recent now (t ∷ times) =
    let rest = recent now times in if ltb (t + window_seconds) now then rest else t ∷ rest

abbrev pub Ascending : List ℕ → Type 0
Ascending [] = Unit {0}
Ascending (t ∷ times) = All (λ u. t ≤ u) times × Ascending times

pub recent-append :
    (now : ℕ) (xs ys : List ℕ) → recent now (xs ++ ys) ≡ recent now xs ++ recent now ys
recent-append now [] ys = refl
recent-append now (x ∷ xs) ys = ground (arith, recent-append now xs ys)

pub recent_twice : (c now : ℕ) (xs : List ℕ) → c ≤ now → recent now (recent c xs) ≡ recent now xs
recent_twice c now [] h = refl
recent_twice c now (x ∷ xs) h = ground (arith, recent_twice c now xs h)

recent_every :
    (now t : ℕ) (xs : List ℕ) → now ≤ t + window_seconds → All (λ u. t ≤ u) xs → recent now xs ≡ xs
recent_every now t [] h above = refl
recent_every now t (x ∷ xs) h above = ground (arith, recent_every now t xs h above.1)

pub prune_window-recent :
    (now : ℕ) (xs : List ℕ) → Ascending xs → prune_window xs now window_seconds ≡ recent now xs
unfolding prune_window
prune_window-recent now [] h = refl
prune_window-recent now (x ∷ xs) h =
    ground (arith, prune_window-recent now xs h.1, recent_every now x xs)

All-recent : (now t : ℕ) (xs : List ℕ) → All (λ u. t ≤ u) xs → All (λ u. t ≤ u) (recent now xs)
All-recent now t [] h = tt
All-recent now t (x ∷ xs) h = ground (arith, All-recent now t xs h.1)

pub recent-Ascending : (now : ℕ) (xs : List ℕ) → Ascending xs → Ascending (recent now xs)
recent-Ascending now [] h = tt
recent-Ascending now (x ∷ xs) h =
    ground (arith, recent-Ascending now xs h.1, All-recent now x xs h.0)

All-append_one :
    (t c : ℕ) (xs : List ℕ) → t ≤ c → All (λ u. t ≤ u) xs → All (λ u. t ≤ u) (xs ++ c ∷ [])
All-append_one t c [] h above = (h, tt)
All-append_one t c (x ∷ xs) h above = (above.0, All-append_one t c xs h above.1)

pub append_one-Ascending :
    (c : ℕ) (xs : List ℕ) → All (λ u. u ≤ c) xs → Ascending xs → Ascending (xs ++ c ∷ [])
append_one-Ascending c [] below h = (tt, tt)
append_one-Ascending c (x ∷ xs) below h =
    (All-append_one x c xs below.0 h.0, append_one-Ascending c xs below.1 h.1)

pub All-below_mono :
    (c now : ℕ) (xs : List ℕ) → c ≤ now → All (λ u. u ≤ c) xs → All (λ u. u ≤ now) xs
All-below_mono c now [] h below = tt
All-below_mono c now (x ∷ xs) h below = (omega (arith, below.0), All-below_mono c now xs h below.1)

pub All-below_append : (c : ℕ) (xs : List ℕ) → All (λ u. u ≤ c) xs → All (λ u. u ≤ c) (xs ++ c ∷ [])
All-below_append c [] below = (omega arith, tt)
All-below_append c (x ∷ xs) below = (below.0, All-below_append c xs below.1)

pub All-below_recent :
    (c now : ℕ) (xs : List ℕ) → All (λ u. u ≤ c) xs → All (λ u. u ≤ c) (recent now xs)
All-below_recent c now [] below = tt
All-below_recent c now (x ∷ xs) below = ground (arith, All-below_recent c now xs below.1)

-- The time is one of them.
abbrev pub Among : ℕ → List ℕ → Type 0
Among t [] = ⊥
Among t (x ∷ xs) = (x ≡ t) ⊎ Among t xs

le-Among : (t u : ℕ) (xs : List ℕ) → All (λ v. t ≤ v) xs → Among u xs → t ≤ u
le-Among t u [] above among = absurd among
le-Among t u (x ∷ xs) above (inl same) = omega (arith, above.0, same)
le-Among t u (x ∷ xs) above (inr among) = le-Among t u xs above.1 among

-- Of equal times it does not matter which one goes.
pub remove-front :
    (t : ℕ) (xs : List ℕ) → Ascending xs → All (λ v. t ≤ v) xs → Among t xs → t ∷ remove t xs ≡ xs
unfolding remove
remove-front t [] h above among = absurd among
remove-front t (x ∷ xs) h above (inl same) = ground (arith, same)
remove-front t (x ∷ xs) h above (inr among) =
    let low : x ≤ t = le-Among x t xs h.0 among in
    let same : x ≡ t = omega (arith, low, above.0) in ground (arith, same)

pub All-remove {ℓ} : (P : ℕ → Type ℓ) (t : ℕ) (xs : List ℕ) → All P xs → All P (remove t xs)
unfolding remove
All-remove P t [] h = h
All-remove P t (x ∷ xs) h = elim (Bool-cases (x == t)) [
  | inl same ↦ rw same h.1
  | inr other ↦ rw other (h.0, All-remove P t xs h.1)
]

pub remove-Ascending : (t : ℕ) (xs : List ℕ) → Ascending xs → Ascending (remove t xs)
unfolding remove
remove-Ascending t [] h = h
remove-Ascending t (x ∷ xs) h = elim (Bool-cases (x == t)) [
  | inl same ↦ rw same h.1
  | inr other ↦ rw other (All-remove (λ v. x ≤ v) t xs h.0, remove-Ascending t xs h.1)
]

remove-recent_old :
    (now t : ℕ) (xs : List ℕ) → t + window_seconds < now → remove t (recent now xs) ≡ recent now xs
unfolding remove
remove-recent_old now t [] old = refl
remove-recent_old now t (x ∷ xs) old = ground (arith, remove-recent_old now t xs old)

pub recent-remove : (now t : ℕ) (xs : List ℕ) → recent now (remove t xs) ≡ remove t (recent now xs)
unfolding remove
recent-remove now t [] = refl
recent-remove now t (x ∷ xs) = ground (arith, recent-remove now t xs, remove-recent_old now t xs)

-- What the store keeps of a team whose reservations came at `log`, the last of all at `last`.
pub record IsLog (log : List ℕ) (last : ℕ) (times : List ℕ) : Type 0 where
  pub ordered : Ascending times
  pub past : All (λ u. u ≤ last) times
  pub logged : Ascending log
  pub logged_past : All (λ u. u ≤ last) log
  pub same : (now : ℕ) → last ≤ now → recent now times ≡ recent now log

pub IsLog-later :
    (log times : List ℕ) (last c : ℕ) → last ≤ c → IsLog log last times → IsLog log c times
IsLog-later log times last c h i = record {
  ordered = i.ordered;
  past = All-below_mono last c times h i.past;
  logged = i.logged;
  logged_past = All-below_mono last c log h i.logged_past;
  same = λ now later. i.same now (omega arith);
}

-- The store drops what is too old.
pub IsLog-prune :
    (log times : List ℕ) (last c : ℕ)
    → last ≤ c
    → IsLog log last times
    → IsLog log c (prune_window times c window_seconds)
IsLog-prune log times last c h i = rw (prune_window-recent c times i.ordered) (record {
  ordered = recent-Ascending c times i.ordered;
  past = All-below_recent c c times (All-below_mono last c times h i.past);
  logged = i.logged;
  logged_past = All-below_mono last c log h i.logged_past;
  same = λ now later. rw (recent_twice c now times later, i.same now (omega arith)) refl;
})

pub IsLog-append :
    (log times : List ℕ) (c : ℕ) → IsLog log c times → IsLog (log ++ c ∷ []) c (times ++ c ∷ [])
IsLog-append log times c i = record {
  ordered = append_one-Ascending c times i.past i.ordered;
  past = All-below_append c times i.past;
  logged = append_one-Ascending c log i.logged_past i.logged;
  logged_past = All-below_append c log i.logged_past;
  same = λ now later.
      rw (recent-append now times (c ∷ []), recent-append now log (c ∷ []), i.same now later);
}

pub IsLog-remove :
    (log times : List ℕ) (c n : ℕ) → IsLog log c times → IsLog (remove n log) c (remove n times)
IsLog-remove log times c n i = record {
  ordered = remove-Ascending n times i.ordered;
  past = All-remove (λ u. u ≤ c) n times i.past;
  logged = remove-Ascending n log i.logged;
  logged_past = All-remove (λ u. u ≤ c) n log i.logged_past;
  same = λ now later. rw (recent-remove now n times, recent-remove now n log, i.same now later);
}
