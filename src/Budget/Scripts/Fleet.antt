-- ===== src/Budget/Scripts/Fleet.antt =====
-- Any number of replicas that run the Lua scripts of app/gateway/budget_guard.py on one scope.
use ai_runtime_platform.Base.{
  ℕ, ◌+◌, ◌≤◌, ◌<◌, String, ◌≡◌, refl, sym, ◌∙◌, Option, none, some, arith, inl,
}
use ai_runtime_platform.Dict.{lookup}
use ai_runtime_platform.Int.{pos}
use ai_runtime_platform.Money.{Float, budget_to_micros}
use ai_runtime_platform.Budget.Window.{MemoryWindow, expire_memory, reserve_in, settle_in}
use ai_runtime_platform.Budget.Invariant.{
  IsSound, IsFresh, expire_memory-IsSound, reserve_in-IsSound, settle_in-IsSound,
}
use ai_runtime_platform.Budget.Trace.{spent, Step, Reach, here, next, never_overspent}
use ai_runtime_platform.Budget.Trace
use ai_runtime_platform.Budget.Commands.{Redis, IsRedis, Amount, micros}
use ai_runtime_platform.Budget.Scripts.{Loaded, load_window, reserve_lua, settle_lua, purge_lua}
use ai_runtime_platform.Budget.Scripts.Mirror.{Mirrors, Shows, score_of}
use ai_runtime_platform.Budget.Scripts.Agreement.{reserve_lua-Mirrors}
use ai_runtime_platform.Budget.Scripts.Settling.{settle_lua-Mirrors}
use ai_runtime_platform.Budget.Scripts.Purge.{purge_lua-Mirrors}

-- One run of a script. Redis runs them one at a time, and each replica sends its own time, so the
-- times come in any order. A reservation has an id that is not in use, as a UUID does, and a
-- settlement is of a live reservation and of at most its amount.
pub data ScriptRun {S : Type 0} (r : Redis S) (cap window ttl : ℕ) (s : S) : S → Type 0 where
  reserve :
      (now estimate : ℕ) (id : String)
      → r.hget_amount id s ≡ none
      → ScriptRun r cap window ttl s (reserve_lua r now window (pos cap) estimate id ttl s).0
  settle :
      (now actual : ℕ) (id : String) (expiry amt : ℕ)
      → r.zscore id s ≡ some expiry
      → r.hget_amount id s ≡ some (micros amt)
      → actual ≤ amt
      → ScriptRun r cap window ttl s (settle_lua r id actual now window s).0
  purge : (now : ℕ) → ScriptRun r cap window ttl s (purge_lua r now s).0

pub data ScriptRuns {S : Type 0} (r : Redis S) (cap window ttl : ℕ) (s : S) : S → Type 0 where
  no_run : ScriptRuns r cap window ttl s s
  then_run :
      {s1 s2 : S}
      → ScriptRuns r cap window ttl s s1
      → ScriptRun r cap window ttl s1 s2
      → ScriptRuns r cap window ttl s s2

Shows-none : (live old : Option (ℕ × ℕ)) → Shows live old none → (live ≡ none) × (old ≡ none)
Shows-none none none h = (refl, refl)
Shows-none none (some (t, amt)) h = ground (arith, h)
Shows-none (some (t, amt)) old h = ground (arith, h)

Shows-micros :
    (live old : Option (ℕ × ℕ)) (stored : Option Amount) (t amt : ℕ)
    → some t ≡ score_of live
    → stored ≡ some (micros amt)
    → Shows live old stored
    → live ≡ some (t, amt)
Shows-micros none old stored t amt h e shows = ground (arith, h)
Shows-micros (some (u, n)) old stored t amt h e shows = ground (arith, h, e, shows)

module _ {S : Type 0} (r : Redis S) (laws : IsRedis r) (budget : Float) (window ttl cap : ℕ)
    (in_micros : budget_to_micros budget ≡ some (pos cap))
    (positive : (0 < cap) × (0 < window) × (0 < ttl)) where
  -- What the in-process store is when Redis has come to `s`.
  pub record Shadow (w0 : MemoryWindow) (s : S) : Type 0 where
    pub window_now : MemoryWindow
    pub trace : Reach budget window ttl w0 window_now
    pub sound : IsSound window_now
    pub mirror : Mirrors r s window_now

  ScriptRun-Shadow :
      {w0 : MemoryWindow} {s s' : S} → Shadow w0 s → ScriptRun r cap window ttl s s' → Shadow w0 s'
  ScriptRun-Shadow {w0} {s} h (reserve now estimate id unused) =
      let w = h.window_now in
      let fresh : IsFresh id w = Shows-none _ _ (rw unused at (h.mirror.entries.amounts id)) in
      record {
        window_now = (reserve_in now window ttl budget estimate id w).1;
        trace = next h.trace (Trace.reserve now estimate id w fresh);
        sound = reserve_in-IsSound now window ttl budget estimate id w fresh h.sound;
        mirror =
            (reserve_lua-Mirrors r laws now window ttl cap estimate id s w h.sound h.mirror positive
              budget in_micros).0;
      }
  ScriptRun-Shadow {w0} {s} h (settle now actual id expiry amt score amount bounded) =
      let w = h.window_now in
      let live : lookup id w.reservations ≡ some (expiry, amt) =
        Shows-micros _ _ _ expiry amt (sym score ∙ h.mirror.entries.scores id) amount
          (h.mirror.entries.amounts id) in
      record {
        window_now = settle_in now window actual id w;
        trace = next h.trace (Trace.settle now actual id w expiry amt live bounded);
        sound = settle_in-IsSound now window actual id w h.sound;
        mirror =
            settle_lua-Mirrors r laws now window actual id s w amt h.sound h.mirror positive.1
              (inl (expiry, live));
      }
  ScriptRun-Shadow {w0} {s} h (purge now) =
      let w = h.window_now in
      record {
        window_now = (expire_memory now ttl w).0;
        trace = next h.trace (Trace.purge now ttl w);
        sound = expire_memory-IsSound now ttl w h.sound;
        mirror = purge_lua-Mirrors r laws now ttl s w h.sound h.mirror positive.2;
      }

  ScriptRuns-Shadow :
      {w0 : MemoryWindow} {s s' : S} → Shadow w0 s → ScriptRuns r cap window ttl s s' → Shadow w0 s'
  ScriptRuns-Shadow h no_run = h
  ScriptRuns-Shadow h (then_run before run) = ScriptRun-Shadow (ScriptRuns-Shadow h before) run

  -- From a Redis that mirrors a sound window, whatever reservations, settlements of live
  -- reservations within their amounts and purges the replicas run: the in-process store can take
  -- steps of its own to a window that the Redis mirrors.
  pub scripts_take_steps :
      (w : MemoryWindow) {s s' : S}
      → IsSound w
      → Mirrors r s w
      → ScriptRuns r cap window ttl s s'
      → (w' : MemoryWindow) × Reach budget window ttl w w' × Mirrors r s' w'
  scripts_take_steps w sound m runs =
      let h =
        ScriptRuns-Shadow (record { window_now = w; trace = here; sound = sound; mirror = m })
          runs in
      (h.window_now, h.trace, h.mirror)

  -- From a Redis that mirrors a sound window within the cap, whatever reservations, settlements of
  -- live reservations within their amounts and purges the replicas run: Redis still holds a window
  -- that can be read, and what is committed and reserved in it does not pass the cap.
  pub replicas_never_overspend :
      (w : MemoryWindow) {s s' : S}
      → IsSound w
      → Mirrors r s w
      → spent w ≤ cap
      → ScriptRuns r cap window ttl s s'
      → (l : Loaded) × (load_window r s' ≡ some l) × (l.committed + l.reserved ≤ cap)
  replicas_never_overspend w sound m within runs =
      let (w', trace, mirror) = scripts_take_steps w sound m runs in
      (_, mirror.loaded, (never_overspent budget window ttl in_micros sound within trace).1)
