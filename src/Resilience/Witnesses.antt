-- ===== src/Resilience/Witnesses.antt =====
-- Concrete runs of the breaker, the retry budget, the drain and the load shedding.
use ai_runtime_platform.Base.{◌≤◌, ◌<◌, ◌≡◌, refl, String, true, some, List, [], ◌∷◌, arith}
use ai_runtime_platform.Resilience.Breaker.{opened, CircuitBreaker}
use ai_runtime_platform.Resilience.Breaker.View.{
  Event, asks, succeeds, fails, events_of, run_calls, run_steps, settings, view, view-run_calls,
}
use ai_runtime_platform.Resilience.Breaker.Probes.{AsksBefore, admitted, probes_bounded}
use ai_runtime_platform.Resilience.Retry.{RetryBudget}
use ai_runtime_platform.Resilience.Drain.{
  after as drain_after, first_signal, first_signal_counts, new_drain, request, signal,
}
use ai_runtime_platform.Resilience.Shedding.{
  GlobalAdmissionController, dequeue, enqueue, give_back, new_controller, take_slot, uncount,
}
use ai_runtime_platform.Resilience.Shedding.Counters.{
  Move, Reachable, Tasks, after, arrive, enter, finish, leave, move, moves_on, nobody,
  nothing_leaks, pass, start, to_go,
}

abbrev breaker : CircuitBreaker
breaker = record {
  failure_threshold = 2;
  recovery = 30;
  half_open_max_probes = 1;
  failures = [];
  opened_at = [];
  states = [];
  half_open_probes = [];
}

abbrev broken : CircuitBreaker
broken = record breaker {
  failures = ("vllm-a", 2) ∷ [];
  opened_at = ("vllm-a", 10) ∷ [];
  states = ("vllm-a", opened) ∷ [];
  half_open_probes = ("vllm-a", 0) ∷ [];
}

abbrev mixed_calls : List (String × Event)
mixed_calls =
    ("vllm-a", fails 5) ∷ ("vllm-b", fails 6) ∷ ("vllm-a", fails 7) ∷ ("vllm-a", asks 40) ∷ []

view-run_calls_example :
    view "vllm-a" (run_calls mixed_calls breaker)
    ≡ run_steps (settings breaker) (fails 5 ∷ fails 7 ∷ asks 40 ∷ []) (view "vllm-a" breaker)
unfolding events_of
view-run_calls_example = view-run_calls "vllm-a" mixed_calls breaker

abbrev early_asks : List (String × Event)
early_asks = ("vllm-a", asks 12) ∷ ("vllm-b", succeeds) ∷ ("vllm-a", asks 39) ∷ []

abbrev late_asks : List (String × Event)
late_asks = ("vllm-a", asks 12) ∷ ("vllm-a", asks 40) ∷ ("vllm-a", asks 41) ∷ []

probes_bounded_example : admitted "vllm-a" late_asks broken ≤ 1
unfolding view events_of AsksBefore
probes_bounded_example =
    probes_bounded "vllm-a" 10 100 late_asks broken refl refl
      (omega arith, (omega arith, (omega arith, record {})))

abbrev budget : RetryBudget
budget = record { max_retries_per_minute = 2; window_start = 1000; used = 1 }

first_signal_counts_example :
    drain_after (request ∷ signal 5 ∷ signal 6 ∷ []) new_drain
    ≡ record { draining = true; started_at = some 5 }
unfolding first_signal
first_signal_counts_example = first_signal_counts (request ∷ signal 5 ∷ signal 6 ∷ [])

-- Two requests under a limit of one: the first works, the second waits.
abbrev busy : GlobalAdmissionController
busy = record (new_controller 1 1) { sem = 0; queued = 1; inflight = 1 }

abbrev two_tasks : Tasks
two_tasks = record nobody { waiting = 1; holding = 1 }

abbrev at_work : GlobalAdmissionController
at_work = record (new_controller 1 1) { sem = 0; inflight = 1 }

at_work_run : Reachable 1 1 at_work (record nobody { holding = 1 })
unfolding enqueue take_slot dequeue
at_work_run = after (after (after start (arrive refl)) (move (pass refl refl))) (move (enter refl))

busy_run : Reachable 1 1 busy two_tasks
unfolding enqueue
busy_run = after at_work_run (arrive refl)

moves_on_example :
    (c' : GlobalAdmissionController) × (t' : Tasks) × Move busy two_tasks c' t'
    × (to_go t' < to_go two_tasks)
moves_on_example = moves_on 1 1 busy two_tasks busy_run (omega arith)

abbrev gone : GlobalAdmissionController
gone = uncount (give_back at_work)

gone_run : Reachable 1 1 gone nobody
gone_run = after (after at_work_run (move (finish refl))) (move (leave refl))

nothing_leaks_example : gone ≡ new_controller 1 1
nothing_leaks_example = nothing_leaks 1 1 gone gone_run
