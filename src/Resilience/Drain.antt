-- ===== src/Resilience/Drain.antt =====
-- `DrainState` of app/gateway/resilience.py, of one process. The HTTP error is a value.
use ai_runtime_platform.Base.{
  ℕ, ◌≡◌, refl, Bool, true, false, Option, none, some, List, [], ◌∷◌, if◌then◌else◌, Result, ok,
  err,
}
use ai_runtime_platform.Http.{HttpError}

pub record DrainState : Type 0 where
  pub draining : Bool
  pub started_at : Option ℕ

abbrev pub new_drain : DrainState
new_drain = record { draining = false; started_at = none }

-- `begin`
unfoldable pub begin : ℕ → DrainState → DrainState
begin now d = if d.draining then d else record { draining = true; started_at = some now }

abbrev pub gateway_draining : HttpError
gateway_draining = record { status_code = 503; code = "gateway_draining"; retry_after = some 1 }

-- `reject_if_draining`
unfoldable pub reject_if_draining : DrainState → Result HttpError Unit
reject_if_draining d = if d.draining then err gateway_draining else ok record {}

-- A request, or the signal that begins the drain.
pub data Event : Type 0 where
  request : Event
  signal : ℕ → Event

unfoldable pub after : List Event → DrainState → DrainState
after [] d = d
after (request ∷ es) d = after es d
after (signal now ∷ es) d = after es (begin now d)

-- The time of the first signal of a run.
unfoldable pub first_signal : List Event → Option ℕ
first_signal [] = none
first_signal (request ∷ es) = first_signal es
first_signal (signal now ∷ es) = some now

drained_stays : (now : ℕ) (es : List Event) → after es (begin now new_drain) ≡ begin now new_drain
unfolding after begin
drained_stays now [] = refl
drained_stays now (request ∷ es) = drained_stays now es
drained_stays now (signal t ∷ es) = drained_stays now es

abbrev pub expected : Option ℕ → DrainState
expected none = new_drain
expected (some now) = record { draining = true; started_at = some now }

-- A process that has run for a while is draining when a signal came, from the first one on.
pub first_signal_counts : (es : List Event) → after es new_drain ≡ expected (first_signal es)
unfolding after begin first_signal
first_signal_counts [] = refl
first_signal_counts (request ∷ es) = first_signal_counts es
first_signal_counts (signal now ∷ es) = drained_stays now es

abbrev pub verdict : Option ℕ → Result HttpError Unit
verdict none = ok record {}
verdict (some now) = err gateway_draining

-- Once a signal came, every request that follows is refused with 503 and "gateway_draining", and
-- none before it is.
pub drain_refuses :
    (es : List Event) → reject_if_draining (after es new_drain) ≡ verdict (first_signal es)
unfolding reject_if_draining
drain_refuses es =
    elim (first_signal es)
        as (λ o. first_signal es ≡ o → reject_if_draining (after es new_drain) ≡ verdict o) [
          | none ↦ λ e. rw (first_signal_counts es, e) refl
          | some now ↦ λ e. rw (first_signal_counts es, e) refl
        ]
      refl
