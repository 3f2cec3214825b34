-- ===== src/Chat/Refund.antt =====
-- What a request costs that `_chat_completions_admitted` stops before the upstream.
use ai_runtime_platform.Base.{
  ℕ, ◌+◌, ◌≡◌, ◌⊎◌, inl, inr, ap, ◌∙◌, String, true, false, none, some, arith, ok, err,
  Option-cases, ◌==◌, if◌then◌else◌, str_eq, eq_refl,
}
use ai_runtime_platform.Dict.{lookup, lookup-insert}
use ai_runtime_platform.Budget.Decision.{BudgetReservation}
use ai_runtime_platform.Budget.Window.{MemoryWindow, roll_window, settle_in}
use ai_runtime_platform.Budget.Invariant.{IsSound}
use ai_runtime_platform.Budget.Settlement.{settle_charges}
use ai_runtime_platform.Budget.Guard.{World, window_of, settle_micros, settle_memory}
use ai_runtime_platform.Budget.Reservation.{Held, abandon, release, settle, settle_once_for}
use ai_runtime_platform.Chat.{
  Flow, Outcome, Parts, choose_and_call, clean_up, release_lease, release_slot, with_reservation,
}
use ai_runtime_platform.Chat.Cleanup.{is_ok, settled_of}

-- The request stopped before its call of the upstream.
abbrev pub StopsEarly : Parts → Type 0
StopsEarly p =
    (is_ok p.governance ≡ false) ⊎ ((is_ok p.selection ≡ false) ⊎ (p.target_known ≡ false))

abandon_again :
    (w : World) (f : Flow)
    → settled_of f.reservation ≡ true
    → (with_reservation (abandon w) f).guard ≡ f.guard
unfolding with_reservation abandon settle release settle_once_for
abandon_again w f done = ground (arith, done)

release-settled : (w : World) (h : Held) → (release w h).1.settled ≡ true
unfolding release settle_once_for
release-settled w (g, r) = ground arith

settled-with_release :
    (w : World) (f : Flow) → settled_of (with_reservation (release w) f).reservation ≡ true
unfolding with_reservation
settled-with_release w f = elim (Option-cases f.reservation) [
  | inl free ↦ ground (arith, free)
  | inr (r, held) ↦ ground (arith, held, release-settled w (f.guard, r))
]

uncalled_lem :
    (p : Parts) (f : Flow)
    → StopsEarly p
    → ((choose_and_call p f).0 ≡ with_reservation (release p.settled_in) f)
      × (is_ok (choose_and_call p f).1 ≡ false)
unfolding choose_and_call
uncalled_lem p f stopped = ground (arith, stopped)

-- The length of the window that a settlement rolls: an unknown one is an hour.
abbrev pub window_of_settlement : BudgetReservation → ℕ
window_of_settlement r = if r.window_ms == 0 then 3_600_000 else r.window_ms

-- On the in-process store a release settles the window of the reservation's scope for nothing.
refunded_window :
    (world : World) (f : Flow) (r : BudgetReservation) (w : MemoryWindow)
    → f.reservation ≡ some r
    → r.settled ≡ false
    → f.guard.redis_configured ≡ false
    → lookup r.scope f.guard.memory ≡ some w
    → window_of r.scope (with_reservation (release world) f).guard
      ≡ settle_in world.now_ms (window_of_settlement r) 0 r.reservation_id w
unfolding with_reservation release settle_once_for settle_micros settle_memory
refunded_window world f r w held unsettled local found = ground (
  arith,
  held,
  unsettled,
  local,
  found,
  lookup-insert r.scope r.scope
      (settle_in world.now_ms (window_of_settlement r) 0 r.reservation_id w) f.guard.memory,
  eq_refl r.scope,
)

module _ (sha256_hex : String → String) where
  guard-clean_up :
      (p : Parts) (o : Outcome)
      → is_ok o.1 ≡ false
      → settled_of o.0.reservation ≡ true
      → (clean_up sha256_hex p o).0.guard ≡ o.0.guard
  unfolding clean_up release_slot release_lease
  guard-clean_up p (f, ok done) failed done_already = ground (arith, failed)
  guard-clean_up p (f, err error) failed done_already = abandon_again p.closed_in f done_already

  uncalled_guard :
      (p : Parts) (f : Flow)
      → StopsEarly p
      → (clean_up sha256_hex p (choose_and_call p f)).0.guard
        ≡ (with_reservation (release p.settled_in) f).guard
  uncalled_guard p f stopped =
      let (same, failed) = uncalled_lem p f stopped in
      let settled =
        ap (λ (g : Flow). settled_of g.reservation) same ∙ settled-with_release p.settled_in f in
      guard-clean_up p (choose_and_call p f) failed settled ∙ ap (λ (g : Flow). g.guard) same

  -- A request that governance or the choice of a backend stops, or whose model is unknown, costs
  -- nothing, on the in-process store: when it holds a reservation of `amt` micros, the window of its
  -- scope ends, also when the outer handler has cleaned up, with `amt` less reserved and with
  -- nothing charged, since its committed total is that of the window as it is at this time; the id
  -- is gone, and every other reservation is left alone.
  pub uncalled_is_refunded :
      (p : Parts) (f : Flow) (r : BudgetReservation) (w : MemoryWindow) (k : String) {t amt : ℕ}
      → StopsEarly p
      → f.reservation ≡ some r
      → r.settled ≡ false
      → f.guard.redis_configured ≡ false
      → lookup r.scope f.guard.memory ≡ some w
      → IsSound w
      → lookup r.reservation_id w.reservations ≡ some (t, amt)
      → let w' = window_of r.scope (clean_up sha256_hex p (choose_and_call p f)).0.guard in
        (w'.reserved_micros + amt ≡ w.reserved_micros)
        × (w'.committed_micros
            ≡ (roll_window p.settled_in.now_ms (window_of_settlement r) w).committed_micros)
        × (lookup k w'.reservations
            ≡ (if str_eq r.reservation_id k then none else lookup k w.reservations))
  uncalled_is_refunded p f r w k {t} {amt} stopped held unsettled local found sound live =
      let now = p.settled_in.now_ms in
      let window = window_of_settlement r in
      let charges = settle_charges now window 0 r.reservation_id k w sound live in
      let same =
        ap (window_of r.scope) (uncalled_guard p f stopped)
        ∙ refunded_window p.settled_in f r w held unsettled local found in
      rw same (charges.0, charges.1 ∙ omega arith, charges.2)
