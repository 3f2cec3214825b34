-- ===== src/Streaming/Witnesses.antt =====
-- A stream of two chunks.
use ai_runtime_platform.Base.{ℕ, ◌≡◌, refl, true, false, none, some, List, [], ◌∷◌}
use ai_runtime_platform.Streaming.{Chunk, finished, observe_upstream_stream, success}
use ai_runtime_platform.Streaming.Outcomes.{outcome_by_total}

abbrev chunks : List (Chunk ℕ)
chunks =
    record { size = 40; has_done = false; usage = some 7 }
    ∷ record { size = 14; has_done = true; usage = none }
    ∷ []

outcome_by_total_example :
    ((observe_upstream_stream chunks finished).outcome ≡ success)
    × ((observe_upstream_stream chunks finished).seen.bytes_sent ≡ 54)
    × ((observe_upstream_stream chunks finished).seen.usage ≡ some 7)
outcome_by_total_example = outcome_by_total chunks finished (refl, (refl, record {}))
