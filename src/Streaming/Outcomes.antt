-- ===== src/Streaming/Outcomes.antt =====
-- About the outcome of `observe_upstream_stream` in app/gateway/streaming.py.
use ai_runtime_platform.Base.{
  ℕ, ◌+◌, ◌≤◌, ◌≡◌, refl, true, not, ◌||◌, leb, Option, none, List, [], ◌∷◌, arith, All, ◌==◌,
  if◌then◌else◌,
}
use ai_runtime_platform.Streaming.{
  Chunk, End, Seen, StreamOutcome, classify_stream_outcome, client_gone, client_disconnected,
  empty_stream, finished, http_error, interrupted, nothing_seen, observe_all,
  observe_upstream_stream, or_else, other_error, see, success,
}

abbrev pub total_size {ℓ} : {U : Type ℓ} → List (Chunk U) → ℕ
total_size [] = 0
total_size (c ∷ cs) = c.size + total_size cs

-- The end mark has six bytes.
abbrev pub IsChunk {ℓ} : {U : Type ℓ} → Chunk U → Type 0
IsChunk c = (not c.has_done || leb 6 c.size) ≡ true

-- The outcome by the number of bytes and the end alone.
abbrev pub outcome_of : ℕ → End → StreamOutcome
outcome_of n finished = if n == 0 then empty_stream else success
outcome_of n client_gone = client_disconnected
outcome_of n http_error = interrupted n
outcome_of n other_error = interrupted n

-- The usage of the last chunk that has one.
abbrev pub last_usage {ℓ} : {U : Type ℓ} → List (Chunk U) → Option U
last_usage [] = none
last_usage (c ∷ cs) = or_else (last_usage cs) c.usage

module _ {ℓ} {U : Type ℓ} where
  bytes-observe_all :
      (cs : List (Chunk U)) (s : Seen U)
      → (observe_all cs s).bytes_sent ≡ s.bytes_sent + total_size cs
  unfolding observe_all
  bytes-observe_all [] s = ground arith
  bytes-observe_all (c ∷ cs) s = ground (arith, bytes-observe_all cs (see c s))

  done-observe_all :
      (cs : List (Chunk U)) (s : Seen U)
      → All (λ (c : Chunk U). IsChunk c) cs
      → (s.saw_done ≡ true → 1 ≤ s.bytes_sent)
      → (observe_all cs s).saw_done ≡ true
      → 1 ≤ (observe_all cs s).bytes_sent
  unfolding observe_all
  done-observe_all [] s sized before = before
  done-observe_all (c ∷ cs) s (one, sized) before =
      done-observe_all cs (see c s) sized (λ h. ground (arith, one, before, h))

  usage-observe_all :
      (cs : List (Chunk U)) (s : Seen U)
      → (observe_all cs s).usage ≡ or_else (last_usage cs) s.usage
  unfolding observe_all
  usage-observe_all [] s = refl
  usage-observe_all (c ∷ cs) s = ground (arith, usage-observe_all cs (see c s))

  -- However the bytes of a stream are cut into chunks, its outcome depends on their number and on
  -- how the stream ended alone, the number that is reported is theirs, and the usage is that of the
  -- last chunk that has one; the end mark makes no difference to the outcome.
  pub outcome_by_total :
      (cs : List (Chunk U)) (end : End)
      → All (λ (c : Chunk U). IsChunk c) cs
      → ((observe_upstream_stream cs end).outcome ≡ outcome_of (total_size cs) end)
        × ((observe_upstream_stream cs end).seen.bytes_sent ≡ total_size cs)
        × ((observe_upstream_stream cs end).seen.usage ≡ last_usage cs)
  unfolding observe_upstream_stream classify_stream_outcome
  outcome_by_total cs end sized =
      let bytes = bytes-observe_all cs nothing_seen in
      let done = done-observe_all cs nothing_seen sized (λ h. ground (arith, h)) in
      (
        ground (arith, bytes, done),
        ground (arith, bytes),
        ground (arith, usage-observe_all cs nothing_seen),
      )
