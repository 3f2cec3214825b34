-- ===== src/Budget/Window.antt =====
-- The in-process budget window of app/gateway/budget_guard.py: `_MemoryWindow` and the code that
-- runs on it under the guard's lock. Times are milliseconds, money is micro-units.
use ai_runtime_platform.Base.{
  ℕ, ◌+◌, ◌-◌, ◌*◌, max, String, Bool, true, ◌||◌, Option, none, some, List, [], ◌∷◌, length, ltb,
  leb, ◌==◌, if◌then◌else◌, Result, ok, err,
}
use ai_runtime_platform.Dict.{Dict, lookup, insert, erase}
use ai_runtime_platform.Int.{ℤ, pos, negsuc}
use ai_runtime_platform.Money.{Float, budget_to_micros}
use ai_runtime_platform.Budget.Policy.{Fault, bad_value}

-- In `reservations` a key has its expiry and its micros, in `tombstones` the time after which it
-- may be forgotten and its micros.
pub record MemoryWindow : Type 0 where
  pub window_start_ms : ℕ
  pub committed_micros : ℕ
  pub reserved_micros : ℕ
  pub reservations : Dict (ℕ × ℕ)
  pub tombstones : Dict (ℕ × ℕ)

abbrev pub new_window : MemoryWindow
new_window = record {
  window_start_ms = 0;
  committed_micros = 0;
  reserved_micros = 0;
  reservations = [];
  tombstones = [];
}

-- `[k for k, (t, _) in d.items() if t <= now_ms]`
unfoldable pub due : ℕ → Dict (ℕ × ℕ) → List String
due now_ms [] = []
due now_ms ((k, (t, amt)) ∷ d) = let rest = due now_ms d in if leb t now_ms then k ∷ rest else rest

-- One round of the loop over `expired_ids`. The ids are the dict's own keys, so the missing key
-- (a KeyError) does not occur.
unfoldable pub expire_one : ℕ → ℕ → String → MemoryWindow → MemoryWindow
expire_one now_ms keys_ttl_ms res_id w = elim (lookup res_id w.reservations) [
  | none ↦ w
  | some (expiry, amt) ↦ record w {
    reserved_micros = w.reserved_micros - amt;
    reservations = erase res_id w.reservations;
    tombstones = insert res_id (now_ms + keys_ttl_ms, amt) w.tombstones;
  }
]

unfoldable pub expire_each : ℕ → ℕ → List String → MemoryWindow → MemoryWindow
unfolding expire_one
expire_each now_ms keys_ttl_ms [] w = w
expire_each now_ms keys_ttl_ms (res_id ∷ ids) w =
    expire_each now_ms keys_ttl_ms ids (expire_one now_ms keys_ttl_ms res_id w)

-- `for rid in stale: del state.tombstones[rid]`
unfoldable pub erase_each : List String → Dict (ℕ × ℕ) → Dict (ℕ × ℕ)
erase_each [] d = d
erase_each (k ∷ ks) d = erase_each ks (erase k d)

unfoldable pub forget_stale : ℕ → MemoryWindow → MemoryWindow
unfolding due erase_each
forget_stale now_ms w = record w { tombstones = erase_each (due now_ms w.tombstones) w.tombstones }

-- `_expire_memory`, with the number of reservations that expired
unfoldable pub expire_memory : ℕ → ℕ → MemoryWindow → MemoryWindow × ℕ
unfolding due expire_each forget_stale
expire_memory now_ms keys_ttl_ms w =
    let expired_ids = due now_ms w.reservations in
    (forget_stale now_ms (expire_each now_ms keys_ttl_ms expired_ids w), length expired_ids)

-- `_roll_window`: `now_ms - window_start_ms >= window_ms`, written as a sum
unfoldable pub roll_window : ℕ → ℕ → MemoryWindow → MemoryWindow
roll_window now_ms window_ms w =
    if w.window_start_ms == 0 || leb (w.window_start_ms + window_ms) now_ms
    then record w { window_start_ms = now_ms; committed_micros = 0 }
    else w

abbrev pub exceeds : ℕ → ℤ → Bool
exceeds n (pos budget) = ltb budget n
exceeds n (negsuc budget) = true

-- `[code, committed, reserved]`
pub record ReserveReply : Type 0 where
  pub code : ℕ
  pub committed : ℕ
  pub reserved : ℕ

-- the `if` of `_reserve_memory`
unfoldable pub admit : ℕ → ℤ → ℕ → String → MemoryWindow → ReserveReply × MemoryWindow
admit expiry budget_micros estimate_micros res_id w =
    if exceeds (w.committed_micros + w.reserved_micros + estimate_micros) budget_micros
    then (record { code = 0; committed = w.committed_micros; reserved = w.reserved_micros }, w)
    else (
      record {
        code = 1;
        committed = w.committed_micros;
        reserved = w.reserved_micros + estimate_micros;
      },
      record w {
        reserved_micros = w.reserved_micros + estimate_micros;
        reservations = insert res_id (expiry, estimate_micros) w.reservations;
      },
    )

-- What `reserve` brings up to date before it decides.
unfoldable pub refresh : ℕ → ℕ → ℕ → MemoryWindow → MemoryWindow
unfolding expire_memory roll_window
refresh now_ms window_ms ttl_ms w =
    roll_window now_ms window_ms (expire_memory now_ms (max window_ms ttl_ms * 4) w).0

abbrev pub admit_under :
    Option ℤ → ℕ → ℕ → String → MemoryWindow → Result Fault ReserveReply × MemoryWindow
admit_under none expiry estimate_micros res_id w = (err bad_value, w)
admit_under (some budget_micros) expiry estimate_micros res_id w =
    let (reply, w') = admit expiry budget_micros estimate_micros res_id w in (ok reply, w')

-- The locked section of `_reserve_memory`. An infinite budget raises after the window was
-- brought up to date.
unfoldable pub reserve_in :
    ℕ → ℕ → ℕ → Float → ℕ → String → MemoryWindow → Result Fault ReserveReply × MemoryWindow
unfolding admit
reserve_in now_ms window_ms ttl_ms budget_usd estimate_micros res_id w =
    admit_under (budget_to_micros budget_usd) (now_ms + ttl_ms) estimate_micros res_id
      (refresh now_ms window_ms ttl_ms w)

-- The last two lines of `_settle`.
unfoldable pub commit : ℕ → ℕ → ℕ → MemoryWindow → MemoryWindow
unfolding roll_window
commit now_ms window_ms actual_micros w =
    let rolled = roll_window now_ms window_ms w in
    record rolled { committed_micros = rolled.committed_micros + actual_micros }

-- The locked section of `_settle`.
unfoldable pub settle_in : ℕ → ℕ → ℕ → String → MemoryWindow → MemoryWindow
settle_in now_ms window_ms actual_micros res_id w = elim (lookup res_id w.reservations) [
  | some (expiry, reserved_amt) ↦ commit now_ms window_ms actual_micros (record w {
    reserved_micros = w.reserved_micros - reserved_amt;
    reservations = erase res_id w.reservations;
  })
  | none ↦ elim (lookup res_id w.tombstones) [
    | none ↦ w
    | some _ ↦
        commit now_ms window_ms actual_micros (record w { tombstones = erase res_id w.tombstones })
  ]
]
