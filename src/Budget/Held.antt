-- ===== src/Budget/Held.antt =====
-- The sum of the amounts that a dict of reservations holds, under each update of the dict.
use ai_runtime_platform.Base.{ℕ, ◌+◌, String, ◌≡◌, none, some, [], ◌∷◌, arith, eq_iff}
use ai_runtime_platform.Dict.{Dict, lookup, insert, erase, Distinct, erase_missing}

abbrev pub held : Dict (ℕ × ℕ) → ℕ
held [] = 0
held ((k, (t, amt)) ∷ d) = amt + held d

pub held-insert_new :
    (k : String) (t amt : ℕ) (d : Dict (ℕ × ℕ))
    → lookup k d ≡ none
    → held (insert k (t, amt) d) ≡ held d + amt
held-insert_new k t amt [] h = omega arith
held-insert_new k t amt ((j, (u, b)) ∷ d) h = ground (arith, held-insert_new k t amt d)

pub held-erase :
    (k : String) (t amt : ℕ) (d : Dict (ℕ × ℕ))
    → Distinct d
    → lookup k d ≡ some (t, amt)
    → held (erase k d) + amt ≡ held d
held-erase k t amt [] h e = ground arith
held-erase k t amt ((j, (u, b)) ∷ d) h e =
    ground (arith, eq_iff j k, held-erase k t amt d h.1, erase_missing k d)
