-- ===== src/Budget/Admission.antt =====
-- About the locked section of `_reserve_memory` in app/gateway/budget_guard.py.
use ai_runtime_platform.Base.{ℕ, ◌+◌, String, ◌≡◌, some, arith, eq_refl, ok, ◌≤◌, ◌<◌}
use ai_runtime_platform.Int.{pos}
use ai_runtime_platform.Money.{Float, budget_to_micros}
use ai_runtime_platform.Dict.{lookup, lookup-insert}
use ai_runtime_platform.Budget.Window.{MemoryWindow, refresh, admit, reserve_in}

module _ (now window ttl : ℕ) (budget : Float) (estimate : ℕ) (id : String) (w : MemoryWindow)
    {cap : ℕ} (in_micros : budget_to_micros budget ≡ some (pos cap)) where
  -- the micros spent or held once the window is up to date
  abbrev used : ℕ
  used = (refresh now window ttl w).committed_micros + (refresh now window ttl w).reserved_micros

  -- A reservation that fits is granted: the reply and the window agree, the estimate is added
  -- to what was used, the sum is within the cap, and the id holds its estimate until its expiry.
  pub reserve_grants :
      used + estimate ≤ cap
      → let (r, w') = reserve_in now window ttl budget estimate id w in
        (r
          ≡ ok
              (record { code = 1; committed = w'.committed_micros; reserved = w'.reserved_micros }))
        × (w'.committed_micros + w'.reserved_micros ≡ used + estimate)
        × (w'.committed_micros + w'.reserved_micros ≤ cap)
        × (lookup id w'.reservations ≡ some (now + ttl, estimate))
  unfolding reserve_in admit
  reserve_grants fits = rw in_micros (
      ground (
        arith,
        fits,
        lookup-insert id id (now + ttl, estimate) (refresh now window ttl w).reservations,
        eq_refl id,
      ))

  -- A reservation that does not fit is refused, and only brings the window up to date.
  pub reserve_refuses :
      cap < used + estimate
      → let (r, w') = reserve_in now window ttl budget estimate id w in
        (r
          ≡ ok
              (record { code = 0; committed = w'.committed_micros; reserved = w'.reserved_micros }))
        × (w' ≡ refresh now window ttl w)
  unfolding reserve_in admit
  reserve_refuses over = rw in_micros (ground (arith, over))
