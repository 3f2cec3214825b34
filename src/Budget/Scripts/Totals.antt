-- ===== src/Budget/Scripts/Totals.antt =====
-- What the expired reservations of a window hold, for app/gateway/budget_guard.py: the scripts add
-- their amounts up in one list, the in-process store gives them back one by one.
use ai_runtime_platform.Base.{
  ℕ, ◌+◌, String, ◌≡◌, refl, false, Option, none, some, List, [], ◌∷◌, arith, eq_iff, eq_refl, elem,
  Option-cases, inl, inr,
}
use ai_runtime_platform.Dict.{
  Dict, lookup, erase, Distinct, erase_missing, lookup-erase, erase-Distinct,
}
use ai_runtime_platform.Budget.Commands.{Unique}
use ai_runtime_platform.Budget.Window.{erase_each}
use ai_runtime_platform.Budget.Held.{held, held-erase}

abbrev pub amount_of : Option (ℕ × ℕ) → ℕ
amount_of none = 0
amount_of (some (t, amt)) = amt

abbrev pub sum_of : List String → Dict (ℕ × ℕ) → ℕ
sum_of [] d = 0
sum_of (k ∷ ks) d = amount_of (lookup k d) + sum_of ks d

held-erase_any :
    (k : String) (d : Dict (ℕ × ℕ))
    → Distinct d
    → held (erase k d) + amount_of (lookup k d) ≡ held d
held-erase_any k d h = elim (Option-cases (lookup k d)) [
  | inl missing ↦ rw (missing, erase_missing k d missing) (omega arith)
  | inr ((t, amt), found) ↦ rw found (held-erase k t amt d h found)
]

sum_of-erase :
    (k : String) (ks : List String) (d : Dict (ℕ × ℕ))
    → elem k ks ≡ false
    → sum_of ks (erase k d) ≡ sum_of ks d
sum_of-erase k [] d h = refl
sum_of-erase k (j ∷ ks) d h =
    ground (arith, sum_of-erase k ks d, lookup-erase k j d, eq_iff j k, eq_iff k j)

pub held-erase_each :
    (ks : List String) (d : Dict (ℕ × ℕ))
    → Unique ks
    → Distinct d
    → held (erase_each ks d) + sum_of ks d ≡ held d
unfolding erase_each
held-erase_each [] d u h = omega arith
held-erase_each (k ∷ ks) d (new, u) h = omega (
  arith,
  held-erase_each ks (erase k d) u (erase-Distinct k d h),
  sum_of-erase k ks d new,
  held-erase_any k d h,
)

-- Two dicts that say the same of every key hold the same.
pub held-same :
    (d e : Dict (ℕ × ℕ))
    → Distinct d
    → Distinct e
    → ((k : String) → lookup k d ≡ lookup k e)
    → held d ≡ held e
held-same [] [] h g same = refl
held-same [] ((k, (t, amt)) ∷ e) h g same = absurd (ground (arith, same k, eq_refl k))
held-same ((k, (t, amt)) ∷ d) e h g same =
    let there : lookup k e ≡ some (t, amt) = ground (arith, same k, eq_refl k) in
    omega (
      arith,
      held-erase k t amt e g there,
      held-same d (erase k e) h.1 (erase-Distinct k e g)
          (λ j. ground (arith, same j, lookup-erase k j e, eq_iff k j, h.0)),
    )
