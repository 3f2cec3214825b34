-- ===== src/Resilience/Breaker/Probes.antt =====
-- What `allow` of the circuit breaker answers for an open circuit until it hears of an outcome.
use ai_runtime_platform.Base.{
  ℕ, ◌+◌, ◌-◌, ◌≤◌, ◌<◌, ◌≡◌, refl, ◌∙◌, String, Bool, true, false, some, List, [], ◌∷◌, arith,
  if◌then◌else◌, inl, inr, Bool-cases, str_eq, eq_iff, max,
}
use ai_runtime_platform.Resilience.Breaker.{opened, half_open, CircuitBreaker, allow}
use ai_runtime_platform.Resilience.Breaker.Circuit.{Circuit, Settings, ask}
use ai_runtime_platform.Resilience.Breaker.View.{
  view, settings, Event, asks, succeeds, fails, call, step, call_self, call_other, settings-call,
  events_of, allow_refines,
}

abbrev pub one_if : Bool → ℕ
one_if true = 1
one_if false = 0

-- Whether a call is an `allow` that answers true.
abbrev pub answer : String → Event → CircuitBreaker → Bool
answer k (asks now) b = (allow k now b).1
answer k succeeds b = false
answer k (fails now) b = false

abbrev pub reply : Settings → Event → Circuit → Bool
reply c (asks now) v = (ask c now v).1
reply c succeeds v = false
reply c (fails now) v = false

-- How many requests a run of calls admits to the backend `j`.
unfoldable pub admitted : String → List (String × Event) → CircuitBreaker → ℕ
admitted j [] b = 0
admitted j ((k, e) ∷ es) b =
    let rest = admitted j es (call k e b) in
    if str_eq k j then one_if (answer k e b) + rest else rest

unfoldable grants : Settings → List Event → Circuit → ℕ
grants c [] v = 0
grants c (e ∷ es) v = one_if (reply c e v) + grants c es (step c e v)

-- Requests for admission only, each before the given time.
unfoldable pub AsksBefore : ℕ → List Event → Type 0
AsksBefore end [] = Unit
AsksBefore end (asks now ∷ es) = (now < end) × AsksBefore end es
AsksBefore end (succeeds ∷ es) = 1 ≤ 0
AsksBefore end (fails now ∷ es) = 1 ≤ 0

answer_refines :
    (k : String) (e : Event) (b : CircuitBreaker) → answer k e b ≡ reply (settings b) e (view k b)
answer_refines k (asks now) b = (allow_refines k now b).0
answer_refines k succeeds b = refl
answer_refines k (fails now) b = refl

admitted_refines :
    (j : String) (es : List (String × Event)) (b : CircuitBreaker)
    → admitted j es b ≡ grants (settings b) (events_of j es) (view j b)
unfolding admitted grants events_of
admitted_refines j [] b = refl
admitted_refines j ((k, e) ∷ es) b =
    let rest = admitted_refines j es (call k e b) in
    elim (Bool-cases (str_eq k j)) [
      | inl same ↦
          let k_is_j : k ≡ j = (eq_iff k j).0 same in
          let self : view j (call k e b) ≡ step (settings b) e (view j b) =
            rw k_is_j (call_self j e b) in
          let told : answer k e b ≡ reply (settings b) e (view j b) =
            rw k_is_j (answer_refines j e b) in
          rw (same, rest, told, settings-call k e b, self) refl
      | inr apart ↦ rw (apart, rest, settings-call k e b, call_other k j e b apart) refl
    ]

-- Until its recovery time has passed an open circuit admits nothing, and half-open it admits what
-- is left of its probes.
granted_resting :
    (c : Settings) (t : ℕ) (es : List Event) (v : Circuit)
    → v.state ≡ opened
    → v.opened_time ≡ some t
    → AsksBefore (t + c.recovery) es
    → grants c es v ≡ 0
unfolding grants step ask AsksBefore
granted_resting c t [] v o s h = refl
granted_resting c t (asks now ∷ es) v o s (early, h) =
    ground (arith, o, s, early, granted_resting c t es v, h)
granted_resting c t (succeeds ∷ es) v o s h = omega (arith, h)
granted_resting c t (fails now ∷ es) v o s h = omega (arith, h)

granted_probing :
    (c : Settings) (end : ℕ) (es : List Event) (v : Circuit)
    → v.state ≡ half_open
    → AsksBefore end es
    → grants c es v ≤ c.max_probes - v.probes
unfolding grants step ask AsksBefore
granted_probing c end [] v o h = omega arith
granted_probing c end (asks now ∷ es) v o (early, h) =
    ground (arith, o, granted_probing c end es (ask c now v).0, h)
granted_probing c end (succeeds ∷ es) v o h = omega (arith, h)
granted_probing c end (fails now ∷ es) v o h = omega (arith, h)

granted_open :
    (c : Settings) (t end : ℕ) (es : List Event) (v : Circuit)
    → v.state ≡ opened
    → v.opened_time ≡ some t
    → AsksBefore end es
    → grants c es v ≤ max 1 c.max_probes
unfolding grants step ask AsksBefore
granted_open c t end [] v o s h = omega arith
granted_open c t end (asks now ∷ es) v o s (early, h) = ground (
  arith,
  o,
  s,
  granted_open c t end es v,
  granted_probing c end es (record v { state = half_open; probes = 1 }),
  h,
)
granted_open c t end (succeeds ∷ es) v o s h = omega (arith, h)
granted_open c t end (fails now ∷ es) v o s h = omega (arith, h)

-- A backend whose circuit was opened at the time `t` gets no request before `t` and the recovery
-- time, as long as no outcome is recorded for it, whatever is called for others.
pub open_rests :
    (j : String) (t : ℕ) (es : List (String × Event)) (b : CircuitBreaker)
    → (view j b).state ≡ opened
    → (view j b).opened_time ≡ some t
    → AsksBefore (t + b.recovery) (events_of j es)
    → admitted j es b ≡ 0
open_rests j t es b o s h =
    admitted_refines j es b ∙ granted_resting (settings b) t (events_of j es) (view j b) o s h

-- As long as no outcome is recorded for it, a backend whose circuit is open gets at most as many
-- requests as there are probes (one, when the setting is none), however often it is asked for and
-- whatever the calls for others.
pub probes_bounded :
    (j : String) (t end : ℕ) (es : List (String × Event)) (b : CircuitBreaker)
    → (view j b).state ≡ opened
    → (view j b).opened_time ≡ some t
    → AsksBefore end (events_of j es)
    → admitted j es b ≤ max 1 b.half_open_max_probes
probes_bounded j t end es b o s h =
    rw (admitted_refines j es b) (granted_open (settings b) t end (events_of j es) (view j b) o s h)

-- A half-open circuit admits what is left of its probes until an outcome is recorded.
pub probes_left :
    (j : String) (end : ℕ) (es : List (String × Event)) (b : CircuitBreaker)
    → (view j b).state ≡ half_open
    → AsksBefore end (events_of j es)
    → admitted j es b ≤ b.half_open_max_probes - (view j b).probes
probes_left j end es b o h =
    rw (admitted_refines j es b) (granted_probing (settings b) end (events_of j es) (view j b) o h)
