-- ===== src/Governance/Verdicts.antt =====
-- About `enforce_governance` of app/gateway/governance.py.
use ai_runtime_platform.Base.{
  String, ◌≡◌, refl, Bool, true, false, Option, some, arith, str_eq, Result, ok, err,
}
use ai_runtime_platform.Http.{HttpError}
use ai_runtime_platform.Replay.{InMemoryDecisionReplayStore}
use ai_runtime_platform.Governance.{
  Answer, Claims, Clocks, Evaluation, GovernanceConfig, Local, bind_signed_decision,
  enforce_governance, failed, judge, misconfigured, replied,
}

module _ (fold : String → String) (sha256_hex : String → String)
    (verify : String → Option Claims) where
  judge_passes :
      (bound : Result HttpError Evaluation) (o : Option Evaluation)
      → judge fold sha256_hex verify bound ≡ ok o
      → (e : Evaluation) × (o ≡ some e)
        × (bound ≡ ok e)
        × (str_eq e.final_verdict "block" ≡ false)
        × (str_eq e.final_verdict "approval_required" ≡ false)
  judge_passes (err error) o h = ground (arith, h)
  judge_passes (ok e) o h = (e, ground (arith, h), refl, ground (arith, h), ground (arith, h))

  -- An enforcing gateway that does not fail open lets a request pass only on an answer of the
  -- control plane that passed the test of its token, and whose verdict is neither "block" nor
  -- "approval_required"; a control plane that is not configured or does not answer stops it.
  pub fails_closed :
      (config : GovernanceConfig) (required : Bool) (clocks : Clocks) (answer : Answer) (l : Local)
      (s : Option InMemoryDecisionReplayStore) (o : Option Evaluation)
      → config.mode_disabled ≡ false
      → config.enabled ≡ true
      → config.fail_open ≡ false
      → (enforce_governance fold sha256_hex verify config required clocks answer l s).1 ≡ ok o
      → (sent e : Evaluation) × (answer ≡ replied sent)
        × ((bind_signed_decision fold sha256_hex verify required clocks sent l s).1 ≡ ok e)
        × (o ≡ some e)
        × (misconfigured config ≡ false)
        × (str_eq e.final_verdict "block" ≡ false)
        × (str_eq e.final_verdict "approval_required" ≡ false)
  unfolding enforce_governance
  fails_closed config required clocks failed l s o mode on closed h =
      ground (arith, mode, on, closed, h)
  fails_closed config required clocks (replied sent) l s o mode on closed h =
      let bound = (bind_signed_decision fold sha256_hex verify required clocks sent l s).1 in
      let judged : judge fold sha256_hex verify bound ≡ ok o =
        ground (arith, mode, on, closed, h) in
      let (e, is, passed, no_block, no_approval) = judge_passes bound o judged in
      (sent, e, refl, passed, is, ground (arith, mode, on, closed, h), no_block, no_approval)
