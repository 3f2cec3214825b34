-- ===== src/Streaming.antt =====
-- app/gateway/streaming.py: how a stream that was passed on to the client is classified. A chunk is
-- its length, whether it holds the end mark of the protocol, and the usage that is found in it.
pub mod Outcomes
mod Witnesses
use ai_runtime_platform.Base.{
  ℕ, ◌+◌, Bool, true, false, ◌||◌, Option, none, some, List, [], ◌∷◌, ◌==◌, if◌then◌else◌,
}

pub record Chunk {ℓ} (Usage : Type ℓ) : Type ℓ where
  pub size : ℕ
  pub has_done : Bool
  pub usage : Option Usage

-- How the loop ends: at the end of the stream, with the client gone (a cancellation, or the
-- generator closed), with an httpx error, or with another one.
pub data End : Type 0 where
  finished client_gone http_error other_error : End

pub data StreamOutcome : Type 0 where
  success empty_stream client_disconnected : StreamOutcome
  upstream_error_before_first_byte upstream_interrupted : StreamOutcome

abbrev pub interrupted : ℕ → StreamOutcome
interrupted bytes_sent =
    if bytes_sent == 0 then upstream_error_before_first_byte else upstream_interrupted

-- `classify_stream_outcome`
unfoldable pub classify_stream_outcome : ℕ → Bool → End → StreamOutcome
classify_stream_outcome bytes_sent saw_done finished =
    if saw_done then success else if bytes_sent == 0 then empty_stream else success
classify_stream_outcome bytes_sent saw_done client_gone = client_disconnected
classify_stream_outcome bytes_sent saw_done http_error = interrupted bytes_sent
classify_stream_outcome bytes_sent saw_done other_error = interrupted bytes_sent

-- The variables of the loop of `observe_upstream_stream`, less the clock.
pub record Seen {ℓ} (Usage : Type ℓ) : Type ℓ where
  pub bytes_sent : ℕ
  pub saw_done : Bool
  pub usage : Option Usage

abbrev pub nothing_seen {ℓ} : {Usage : Type ℓ} → Seen Usage
nothing_seen = record { bytes_sent = 0; saw_done = false; usage = none }

abbrev pub or_else {ℓ} : {A : Type ℓ} → Option A → Option A → Option A
or_else none old = old
or_else (some new) old = some new

-- the body of the loop
abbrev pub see {ℓ} : {Usage : Type ℓ} → Chunk Usage → Seen Usage → Seen Usage
see c s = record {
  bytes_sent = s.bytes_sent + c.size;
  saw_done = c.has_done || s.saw_done;
  usage = or_else c.usage s.usage;
}

unfoldable pub observe_all {ℓ} : {Usage : Type ℓ} → List (Chunk Usage) → Seen Usage → Seen Usage
observe_all [] s = s
observe_all (c ∷ cs) s = observe_all cs (see c s)

pub record StreamObservation {ℓ} (Usage : Type ℓ) : Type ℓ where
  pub outcome : StreamOutcome
  pub seen : Seen Usage

-- `observe_upstream_stream`: what it hands to `on_complete`, once it was started
unfoldable pub observe_upstream_stream {ℓ} :
    {Usage : Type ℓ} → List (Chunk Usage) → End → StreamObservation Usage
observe_upstream_stream cs end =
    let s = observe_all cs nothing_seen in
    record { outcome = classify_stream_outcome s.bytes_sent s.saw_done end; seen = s }
