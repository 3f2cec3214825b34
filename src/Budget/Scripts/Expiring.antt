-- ===== src/Budget/Scripts/Expiring.antt =====
-- What `expire` of the Lua scripts of app/gateway/budget_guard.py leaves of a mirrored window.
use ai_runtime_platform.Base.{
  ℕ, ◌-◌, ◌<◌, String, ◌≡◌, refl, sym, ap, ◌∙◌, true, some, List, length, arith, elem, leb, ltb,
  if◌then◌else◌, Option-cases, Bool-cases, inl, inr,
}
use ai_runtime_platform.Dict.{lookup}
use ai_runtime_platform.Budget.Window.{MemoryWindow, erase_each, expire_memory}
use ai_runtime_platform.Budget.Invariant.{IsSound, expire_memory-IsSound, erase_each-Distinct}
use ai_runtime_platform.Budget.Expiry.{
  unexpired, lookup-expire_memory, lookup-erase_each, tombstone-expire_memory, tombstone-not_live,
}
use ai_runtime_platform.Budget.Commands.{Redis, IsRedis, Field, micros, tombstone, comes_by, after}
use ai_runtime_platform.Budget.Scripts.{load_window, bury, expire}
use ai_runtime_platform.Budget.Scripts.Totals.{amount_of, sum_of, held-erase_each, held-same}
use ai_runtime_platform.Budget.Scripts.Mirror.{
  All-of_elem, SameEntries, Shows, after-score_of, after_later, amount-bury, amounts_in,
  elem_nothing, load_window-bury, read_amounts-amounts_in, score_of, total-amounts_in, zscore-bury,
}

module _ {S : Type 0} (r : Redis S) (laws : IsRedis r) (now ttl : ℕ) (s : S) (w : MemoryWindow)
    (sound : IsSound w) (same : SameEntries r s w) where
  abbrev pub due_ids : List String
  due_ids = r.zrangebyscore now s

  elem-due_ids : (k : String) → elem k due_ids ≡ comes_by now (score_of (lookup k w.reservations))
  elem-due_ids k = laws.elem-zrangebyscore now k s ∙ ap (comes_by now) (same.scores k)

  due_amount :
      (k : String)
      → elem k due_ids ≡ true
      → r.hget_amount k s ≡ some (micros (amount_of (lookup k w.reservations)))
  due_amount k listed = elim (Option-cases (lookup k w.reservations)) [
    | inl missing ↦ ground (arith, elem-due_ids k, listed, missing)
    | inr ((t, amt), found) ↦ rw found (rw found at (same.amounts k))
  ]

  abbrev pub buried : S
  buried = bury r due_ids (amounts_in due_ids w.reservations) s

  abbrev pub expired_state : S
  expired_state = if ltb 0 (length due_ids) then r.zremrangebyscore now buried else buried

  zscore-expired_state :
      (k : String) → r.zscore k expired_state ≡ score_of (unexpired now (lookup k w.reservations))
  zscore-expired_state k =
      let bare =
        zscore-bury r laws due_ids (amounts_in due_ids w.reservations) k s ∙ same.scores k in
      let by_entry = after-score_of now (lookup k w.reservations) in
      elim (Bool-cases (ltb 0 (length due_ids))) [
        | inl some_due ↦
            rw some_due (laws.score-zremrangebyscore now k buried ∙ ap (after now) bare ∙ by_entry)
        | inr none_due ↦
            let later = sym (elem-due_ids k) ∙ elem_nothing k due_ids none_due in
            rw none_due
              (bare ∙ sym (after_later now (score_of (lookup k w.reservations)) later) ∙ by_entry)
      ]

  amount-expired_state :
      (k : String)
      → r.hget_amount k expired_state ≡ (
          if comes_by now (score_of (lookup k w.reservations))
          then some (tombstone (amount_of (lookup k w.reservations)))
          else r.hget_amount k s)
  amount-expired_state k =
      let bare =
        amount-bury r laws due_ids w.reservations k s (laws.zrangebyscore-Unique now s)
        ∙ ap
            (λ b.
              if b
              then some (tombstone (amount_of (lookup k w.reservations)))
              else r.hget_amount k s)
            (elem-due_ids k) in
      elim (Bool-cases (ltb 0 (length due_ids))) [
        | inl some_due ↦ rw some_due (laws.zremrangebyscore-KeepsAmounts now k buried ∙ bare)
        | inr none_due ↦ rw none_due bare
      ]

  pub load_window-expired_state : load_window r expired_state ≡ load_window r s
  unfolding load_window
  load_window-expired_state =
      let bare = load_window-bury r laws due_ids (amounts_in due_ids w.reservations) s in
      let keeps = laws.zremrangebyscore-KeepsWindow now in
      elim (Bool-cases (ltb 0 (length due_ids))) [
        | inl some_due ↦ rw some_due (
            rw
              (
                keeps Field.committed_micros buried,
                keeps Field.reserved_micros buried,
                keeps Field.window_start buried,
              )
              bare)
        | inr none_due ↦ rw none_due bare
      ]

  Shows-expired :
      (k : String)
      → 0 < ttl
      → Shows
          (unexpired now (lookup k w.reservations))
          (lookup k (expire_memory now ttl w).0.tombstones)
          (r.hget_amount k expired_state)
  Shows-expired k positive = elim (Option-cases (lookup k w.reservations)) [
    | inr ((t, amt), found) ↦ elim (Bool-cases (leb t now)) [
      | inl come ↦
          let buried_amount = rw (found, come) at (amount-expired_state k) in
          rw
            (
              found,
              come,
              tombstone-expire_memory now ttl k w sound positive found (ground (arith, come)),
            )
            buried_amount
      | inr later ↦
          rw (found, later)
            (rw (found, later) at (amount-expired_state k) ∙ rw found at (same.amounts k))
    ]
    | inl missing ↦ elim (tombstone-not_live now ttl k w missing) [
      | inl gone ↦ rw (missing, gone) tt
      | inr there ↦
          rw (missing, there, rw missing at (amount-expired_state k))
            (rw missing at (same.amounts k))
    ]
  ]

  pub entries-expired : 0 < ttl → SameEntries r expired_state (expire_memory now ttl w).0
  entries-expired positive = record {
    scores =
        λ k. zscore-expired_state k ∙ ap score_of (sym (lookup-expire_memory now ttl k w sound));
    amounts = λ k. rw (lookup-expire_memory now ttl k w sound) (Shows-expired k positive);
  }

  lookup-erase_due :
      (k : String)
      → lookup k (erase_each due_ids w.reservations) ≡ unexpired now (lookup k w.reservations)
  lookup-erase_due k =
      let left = lookup-erase_each k due_ids w.reservations in
      elim (Option-cases (lookup k w.reservations)) [
        | inl missing ↦ ground (arith, left, missing, elem-due_ids k)
        | inr ((t, amt), found) ↦ ground (arith, left, found, elem-due_ids k)
      ]

  -- What the script takes off at once is what the in-process store gives back one by one.
  pub reserved-expired :
      w.reserved_micros - sum_of due_ids w.reservations
      ≡ (expire_memory now ttl w).0.reserved_micros
  reserved-expired =
      let w' = (expire_memory now ttl w).0 in
      let sound' = expire_memory-IsSound now ttl w sound in
      let together =
        held-erase_each due_ids w.reservations (laws.zrangebyscore-Unique now s)
          sound.live_distinct in
      let agree =
        held-same (erase_each due_ids w.reservations) w'.reservations
          (erase_each-Distinct due_ids w.reservations sound.live_distinct) sound'.live_distinct
          (λ k. lookup-erase_due k ∙ sym (lookup-expire_memory now ttl k w sound)) in
      omega (arith, together, agree, sound.total, sound'.total)

  -- `expire` finds no corrupt amount, and takes off what the in-process store does.
  pub expire-expired :
      expire r now w.reserved_micros s
      ≡ some (record {
        state = expired_state;
        still_reserved = (expire_memory now ttl w).0.reserved_micros;
        count = length due_ids;
        released = sum_of due_ids w.reservations;
      })
  unfolding expire
  expire-expired =
      let ids = due_ids in
      let read =
        read_amounts-amounts_in r laws ids w.reservations s
          (All-of_elem ids (λ k m. due_amount k m)) in
      rw (read, expire) (rw (total-amounts_in ids w.reservations, reserved-expired) refl)
