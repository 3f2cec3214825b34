-- ===== src/Governance.antt =====
-- app/gateway/governance.py and app/gateway/decision_token.py: what the control plane's answer does
-- to a request. The texts of an answer and of a token's claims are kept as they are after
-- `str(… or "").strip()`, but for the verdicts. `fold` is Python's `.strip().lower()`, the
-- verification of a token's signature and the digest of the request are outside.
pub mod Verdicts
pub mod Binding
mod Witnesses
use Prim.Native.String.{slice, len}
use text.Mathlib.Text.{starts_with}
use ai_runtime_platform.Base.{
  ℕ, ◌-◌, ◌+◌, max, String, Bool, true, false, not, ◌&&◌, ◌||◌, Option, none, some, List, [], ◌∷◌,
  str_eq, leb, if◌then◌else◌, Result, ok, err, ◌>>=◌,
}
use ai_runtime_platform.Int.{ℤ, pos}
use ai_runtime_platform.Http.{HttpError}
use ai_runtime_platform.Replay.{InMemoryDecisionReplayStore, Token, consume}

pub record GovernanceConfig : Type 0 where
  pub control_plane_url : String
  pub enabled : Bool
  pub fail_open : Bool
  pub mode_disabled : Bool

-- `misconfigured`
unfoldable pub misconfigured : GovernanceConfig → Bool
misconfigured c = not c.mode_disabled && str_eq c.control_plane_url ""

-- The fields of the control plane's answer that are read here.
pub record Evaluation : Type 0 where
  pub final_verdict : String
  pub decision_id : String
  pub request_digest : String
  pub policy_digest : String
  pub decision_token : Option String

pub record Claims : Type 0 where
  pub jti : String
  pub verdict : String
  pub decision_id : String
  pub request_digest : String
  pub policy_digest : String
  pub tenant : String
  pub subject : String
  pub model : String
  pub exp : Option ℕ

-- What the local request says: the digest of the evaluate payload and three of its fields.
pub record Local : Type 0 where
  pub digest : String
  pub tenant : String
  pub subject : String
  pub model : String

-- `_normalize_digest`
unfoldable pub normalize_digest : String → String
normalize_digest text = if starts_with text "sha256:" then slice text 7 (len text) else text

-- what every test of a claim asks for before it compares
abbrev pub differ : String → String → Bool
differ a b = not (str_eq a "") && not (str_eq b "") && not (str_eq a b)

abbrev pub first_nonempty : String → String → String
first_nonempty a b = if str_eq a "" then b else a

abbrev pub refusal : ℕ → String → HttpError
refusal status code = record { status_code = status; code = code; retry_after = none }

-- The first test that is met raises its error.
unfoldable pub raise_first : List (Bool × HttpError) → Result HttpError Unit
raise_first [] = ok record {}
raise_first ((test, error) ∷ tests) =
    let rest = raise_first tests in if test then err error else rest

-- the `if evaluate_payload is not None` of `bind_signed_decision`
abbrev pub local_tests : Claims → Evaluation → Local → List (Bool × HttpError)
local_tests c e l =
    let expected =
      first_nonempty (normalize_digest c.request_digest) (normalize_digest e.request_digest) in
    (
      not (str_eq expected "") && not (str_eq l.digest expected),
      refusal 403 "signed_decision_request_mismatch",
    )
    ∷ (differ c.tenant l.tenant, refusal 403 "signed_decision_mismatch")
    ∷ (differ c.subject l.subject, refusal 403 "signed_decision_mismatch")
    ∷ (differ c.model l.model, refusal 403 "signed_decision_mismatch")
    ∷ []

abbrev pub filled : String → String → String
filled claim value = if not (str_eq claim "") && str_eq value "" then claim else value

-- `_merge_token_claims`
unfoldable pub merge_token_claims : Evaluation → Claims → Evaluation
merge_token_claims e c = record e {
  decision_id = filled c.decision_id e.decision_id;
  request_digest = filled c.request_digest e.request_digest;
  policy_digest = filled c.policy_digest e.policy_digest;
}

-- seconds that a token is remembered
abbrev pub ttl_of : ℕ → Option ℕ → ℕ
ttl_of now_seconds none = 300
ttl_of now_seconds (some exp) = max 1 (exp - now_seconds)

-- How the call of the control plane ended; a failure is an httpx.HTTPError.
pub data Answer : Type 0 where
  replied : Evaluation → Answer
  failed : Answer

-- The clocks of a call: `time.time()` in seconds and `time.monotonic()` in milliseconds.
pub record Clocks : Type 0 where
  pub seconds : ℕ
  pub monotonic_ms : ℕ

module _ (fold : String → String) (sha256_hex : String → String)
    (verify : String → Option Claims) where
  -- `derive_jti`
  unfoldable pub derive_jti : Claims → String → String
  derive_jti c token =
      if not (str_eq c.jti "")
      then c.jti
      else if not (str_eq c.decision_id "")
      then c.decision_id
      else sha256_hex token

  abbrev pub answer_tests : Claims → Evaluation → List (Bool × HttpError)
  answer_tests c e =
      (differ (fold c.verdict) (fold e.final_verdict), refusal 403 "signed_decision_mismatch")
      ∷ (differ c.decision_id e.decision_id, refusal 403 "signed_decision_mismatch")
      ∷ (
        differ (normalize_digest c.request_digest) (normalize_digest e.request_digest),
        refusal 403 "signed_decision_mismatch",
      )
      ∷ (
        differ (normalize_digest c.policy_digest) (normalize_digest e.policy_digest),
        refusal 403 "signed_decision_mismatch",
      )
      ∷ []

  abbrev pub token_of : Clocks → String → Claims → Local → Token
  token_of clocks token c l = record {
    jti = derive_jti c token;
    tenant = first_nonempty c.tenant l.tenant;
    request_digest = first_nonempty (normalize_digest c.request_digest) l.digest;
    ttl_seconds = pos (ttl_of clocks.seconds c.exp);
  }

  -- the use of the replay store
  unfoldable pub use_up :
      Clocks
      → Token
      → Evaluation
      → Option InMemoryDecisionReplayStore
      → Option InMemoryDecisionReplayStore × Result HttpError Evaluation
  use_up clocks t e none = (none, ok e)
  use_up clocks t e (some s) =
      let (s', accepted) = consume clocks.monotonic_ms t s in
      (some s', if accepted then ok e else err (refusal 403 "decision_replayed"))

  unfoldable pub bind_claims :
      Clocks
      → String
      → Claims
      → Evaluation
      → Local
      → Option InMemoryDecisionReplayStore
      → Option InMemoryDecisionReplayStore × Result HttpError Evaluation
  bind_claims clocks token c e l s = elim (raise_first (answer_tests c e)) [
    | err error ↦ (s, err error)
    | ok _ ↦ elim (raise_first (local_tests c e l)) [
      | err error ↦ (s, err error)
      | ok _ ↦ use_up clocks (token_of clocks token c l) (merge_token_claims e c) s
    ]
  ]

  -- `bind_signed_decision`, with the evaluate payload, as `enforce_governance` calls it
  unfoldable pub bind_signed_decision :
      Bool
      → Clocks
      → Evaluation
      → Local
      → Option InMemoryDecisionReplayStore
      → Option InMemoryDecisionReplayStore × Result HttpError Evaluation
  bind_signed_decision required clocks e l s = elim e.decision_token [
    | none ↦ (s, if required then err (refusal 503 "signed_decision_required") else ok e)
    | some token ↦
        if str_eq token ""
        then (s, if required then err (refusal 503 "signed_decision_required") else ok e)
        else (elim (verify token) [
          | none ↦ (s, err (refusal 403 "signed_decision_invalid"))
          | some c ↦ bind_claims clocks token c e l s
        ])
  ]

  -- the end of `enforce_governance`: the verdict as it was sent
  abbrev pub judge : Result HttpError Evaluation → Result HttpError (Option Evaluation)
  judge (err error) = err error
  judge (ok e) =
      if str_eq e.final_verdict "block"
      then err (refusal 403 "governance_blocked")
      else if str_eq e.final_verdict "approval_required"
      then err (refusal 409 "governance_approval_required")
      else ok (some e)

  unfoldable pub enforce_governance :
      GovernanceConfig
      → Bool
      → Clocks
      → Answer
      → Local
      → Option InMemoryDecisionReplayStore
      → Option InMemoryDecisionReplayStore × Result HttpError (Option Evaluation)
  enforce_governance config required clocks answer l s =
      if config.mode_disabled || not config.enabled
      then (s, ok none)
      else if misconfigured config
      then (s, err (refusal 503 "governance_misconfigured"))
      else (elim answer [
        | failed ↦
            (s, if config.fail_open then ok none else err (refusal 503 "control_plane_unavailable"))
        | replied e ↦
            let (s', bound) = bind_signed_decision required clocks e l s in (s', judge bound)
      ])
