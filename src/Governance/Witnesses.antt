-- ===== src/Governance/Witnesses.antt =====
-- Concrete answers of the control plane.
use ai_runtime_platform.Base.{
  String, ◌≡◌, ◌≢◌, refl, true, false, Option, none, some, [], ◌∷◌, arith, str_eq, ok,
  if◌then◌else◌,
}
use ai_runtime_platform.Replay.{
  InMemoryDecisionReplayStore, consume, expired_jtis, forget_expired, new_store, pop_each,
}
use ai_runtime_platform.Governance.{
  Claims, Clocks, Evaluation, GovernanceConfig, Local, bind_claims, bind_signed_decision,
  derive_jti, enforce_governance, first_nonempty, merge_token_claims, misconfigured,
  normalize_digest, raise_first, replied, use_up,
}
use ai_runtime_platform.Governance.Verdicts.{fails_closed}
use ai_runtime_platform.Governance.Binding.{Agree, Matches, request_is_bound, token_used_once}

-- `.strip().lower()` on the texts of these examples
abbrev fold : String → String
fold s = if str_eq s "Block" then "block" else s

abbrev sha256_hex : String → String
sha256_hex s = s

abbrev claims : Claims
claims = record {
  jti = "j-1";
  verdict = "allow";
  decision_id = "d-1";
  request_digest = "sha256:ab12";
  policy_digest = "";
  tenant = "finance";
  subject = "";
  model = "chat";
  exp = some 1300;
}

abbrev verify : String → Option Claims
verify token = if str_eq token "signed" then some claims else none

abbrev local : Local
local = record { digest = "ab12"; tenant = "finance"; subject = "ada"; model = "chat" }

abbrev allowed : Evaluation
allowed = record {
  final_verdict = "allow";
  decision_id = "d-1";
  request_digest = "";
  policy_digest = "";
  decision_token = some "signed";
}

abbrev merged : Evaluation
merged = record allowed { request_digest = "sha256:ab12" }

abbrev clocks : Clocks
clocks = record { seconds = 1000; monotonic_ms = 5000 }

abbrev used : InMemoryDecisionReplayStore
used = record { entries = ("j-1", ("finance|ab12", 305_000)) ∷ [] }

bound_once :
    bind_signed_decision fold sha256_hex verify false clocks allowed local (some new_store)
    ≡ (some used, ok merged)
unfolding bind_signed_decision bind_claims use_up raise_first merge_token_claims normalize_digest
    derive_jti consume forget_expired expired_jtis pop_each
bound_once = refl

abbrev later : Clocks
later = record { seconds = 1100; monotonic_ms = 105_000 }

token_used_once_example :
    (bind_signed_decision fold sha256_hex verify false later allowed local (some used)).1
    ≢ ok merged
unfolding derive_jti
token_used_once_example =
    token_used_once fold sha256_hex verify false clocks later "signed" "signed" claims claims
      allowed merged allowed merged local local new_store used (record {}) refl refl refl bound_once
      refl refl refl refl (omega arith)

bound_without_store :
    (bind_signed_decision fold sha256_hex verify false clocks allowed local none).1 ≡ ok merged
unfolding bind_signed_decision bind_claims use_up raise_first merge_token_claims normalize_digest
bound_without_store = refl

request_is_bound_example :
    Agree "allow" "allow"
    × Agree "d-1" "d-1"
    × Agree "finance" "finance"
    × Agree "" "ada"
    × Agree "chat" "chat"
    × Matches "ab12" (first_nonempty (normalize_digest "sha256:ab12") (normalize_digest ""))
request_is_bound_example =
    request_is_bound fold sha256_hex verify false clocks "signed" claims allowed merged local none
      refl refl refl bound_without_store

abbrev config : GovernanceConfig
config = record {
  control_plane_url = "http://control-plane";
  enabled = true;
  fail_open = false;
  mode_disabled = false;
}

passed :
    (enforce_governance fold sha256_hex verify config false clocks (replied allowed) local none).1
    ≡ ok (some merged)
unfolding enforce_governance misconfigured bind_signed_decision bind_claims use_up raise_first
    merge_token_claims normalize_digest
passed = refl

fails_closed_example :
    (sent e : Evaluation) × (replied allowed ≡ replied sent)
    × ((bind_signed_decision fold sha256_hex verify false clocks sent local none).1 ≡ ok e)
    × (some merged ≡ some e)
    × (misconfigured config ≡ false)
    × (str_eq e.final_verdict "block" ≡ false)
    × (str_eq e.final_verdict "approval_required" ≡ false)
fails_closed_example =
    fails_closed fold sha256_hex verify config false clocks (replied allowed) local none
      (some merged) refl refl refl passed

-- The verdict "Block" of an answer agrees with the verdict "block" of its signed token, and still
-- is no refusal.
abbrev shouted : Evaluation
shouted = record allowed { final_verdict = "Block" }

abbrev verify_block : String → Option Claims
verify_block token = some (record claims { verdict = "block" })

block_in_capitals_passes :
    (enforce_governance fold sha256_hex verify_block config false clocks
      (replied shouted)
      local
      none).1
    ≡ ok (some (record shouted { request_digest = "sha256:ab12" }))
unfolding enforce_governance misconfigured bind_signed_decision bind_claims use_up raise_first
    merge_token_claims normalize_digest
block_in_capitals_passes = refl
