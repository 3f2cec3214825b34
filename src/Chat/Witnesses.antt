-- ===== src/Chat/Witnesses.antt =====
-- A request from its body to its end.
use ai_runtime_platform.Base.{
  String, ◌+◌, ◌≡◌, refl, inl, true, false, none, some, [], ◌∷◌, ok, err,
}
use ai_runtime_platform.Int.{pos}
use ai_runtime_platform.Money.{Float, finite, budget_to_micros}
use ai_runtime_platform.Budget.Policy.{InferenceBudgetPolicy, ScopeBudget}
use ai_runtime_platform.Budget.Decision.{BudgetReservation, no_sequence}
use ai_runtime_platform.Budget.Guard.{World, replied, window_of}
use ai_runtime_platform.Budget.Window.{MemoryWindow, new_window, refresh, reserve_in, roll_window}
use ai_runtime_platform.Budget.Invariant.{IsSound, reserve_in-IsSound}
use ai_runtime_platform.Dict.{lookup}
use ai_runtime_platform.Chat.{
  Flow, Parts, chat_completions, choose_and_call, clean_up, responded, api_error,
}
use ai_runtime_platform.Chat.Cleanup.{IsClean, nothing_is_kept}
use ai_runtime_platform.Chat.Refund.{uncalled_is_refunded}

abbrev one : Float
one = finite false (record { coefficient = 1; scale = 0 })

abbrev hourly : ScopeBudget
hourly = record {
  budget_usd = one;
  window_seconds = 3600;
  soft_warning_ratio = one;
  reservation_ttl_ms = 120_000;
}

abbrev policy : InferenceBudgetPolicy
policy = record {
  version = "v1";
  enabled = true;
  default = hourly;
  tenants = [];
  prices = ("*", record { input_per_million = one; output_per_million = one }) ∷ [];
  require_store = true;
}

abbrev idle : Flow
idle = record {
  guard = record {
    policy = some policy;
    redis_configured = false;
    memory = [];
    redis_ok = false;
    last_error = none;
    force_unavailable = false;
    force_timeout = false;
    force_corrupt = false;
  };
  reservation = none;
  slots = 0;
  leases = 0;
}

abbrev world : World
world = record { new_id = "r1"; now_ms = 1000; exchange = replied no_sequence }

-- A streamed request that governance blocks.
abbrev parts : Parts
parts = record {
  accepted = ok record {};
  slot = some (ok record {});
  lease = some (ok record {});
  request = record {
    tenant_id = "finance";
    model = "chat";
    input_tokens = pos 10;
    output_tokens = pos 10;
    api_key = none;
    estimated_usd = none;
  };
  reserved_in = world;
  quota = ok record {};
  governance = err (api_error 403 "governance_blocked" none);
  selection = ok record {};
  target_known = true;
  stream = true;
  upstream = responded none;
  before_settlement = ok record {};
  after_settlement = ok record {};
  closing = ok record {};
  settled_in = world;
  closed_in = world;
}

abbrev sha256_hex : String → String
sha256_hex s = s

nothing_is_kept_example : IsClean (chat_completions sha256_hex parts idle).0
nothing_is_kept_example = nothing_is_kept sha256_hex parts idle refl refl refl

abbrev held_window : MemoryWindow
held_window = (reserve_in 1000 3_600_000 120_000 one 20 "r1" new_window).1

held_window-IsSound : IsSound held_window
held_window-IsSound =
    reserve_in-IsSound 1000 3_600_000 120_000 one 20 "r1" new_window (refl, refl)
      (record { live_distinct = tt; expired_distinct = tt; apart = λ k live. refl; total = refl })

found_r1 : lookup "r1" held_window.reservations ≡ some (121_000, 20)
unfolding reserve_in refresh budget_to_micros
found_r1 = refl

abbrev held : BudgetReservation
held = record {
  scope = "tenant:finance";
  reservation_id = "r1";
  reserved_micros = 20;
  soft_warning = false;
  policy_version = "v1";
  window_ms = 3_600_000;
  executed = false;
  settled = false;
}

abbrev holding : Flow
holding = record idle {
  guard = record idle.guard { memory = ("tenant:finance", held_window) ∷ [] };
  reservation = some held;
  slots = 1;
  leases = 1;
}

uncalled_is_refunded_example :
    let w' =
      window_of "tenant:finance"
        (clean_up sha256_hex parts (choose_and_call parts holding)).0.guard in
    (w'.reserved_micros + 20 ≡ held_window.reserved_micros)
    × (w'.committed_micros ≡ (roll_window 1000 3_600_000 held_window).committed_micros)
    × (lookup "r1" w'.reservations ≡ none)
uncalled_is_refunded_example =
    uncalled_is_refunded sha256_hex parts holding held held_window "r1" (inl refl) refl refl refl
      refl held_window-IsSound found_r1
