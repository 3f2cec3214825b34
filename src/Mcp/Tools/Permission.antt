-- ===== src/Mcp/Tools/Permission.antt =====
-- When app/gateway/routers/mcp.py runs a tool.
use ai_runtime_platform.Base.{
  String, ◌≡◌, ◌≢◌, ◌⊎◌, refl, ap, Bool, true, false, not, ◌&&◌, Option, none, some, List, str_eq,
  arith, eq_iff, Result, ok, err, Bool-cases, inl, inr,
}
use ai_runtime_platform.Dict.{Dict}
use ai_runtime_platform.Http.{HttpError}
use ai_runtime_platform.Governance.{
  GovernanceConfig, misconfigured, Evaluation, Answer, replied, failed, refusal,
}
use ai_runtime_platform.Mcp.{object, Fields, get_field, object_or_empty, Python, McpServerConfig}
use ai_runtime_platform.Mcp.Sessions.{Sent, Heard, Mcp, Uuids, Execution}
use ai_runtime_platform.Mcp.Calls.{execute_mcp_tool}
use ai_runtime_platform.Mcp.Tools.{
  ToolAnswer, hear_verdict, judge_tool, enforce_tool_governance, is_usable, governed, tool_executed,
  server_named, run_tool, call_governed, call_with, mcp_tool_call,
}

-- There is no control plane to ask: it is not configured, switched off by its mode, or has no URL.
abbrev pub HasNoPlane : Option GovernanceConfig → Type 0
HasNoPlane none = Unit {0}
HasNoPlane (some config) = (config.mode_disabled ≡ true) ⊎ (config.control_plane_url ≡ "")

-- The enforcement of the verdicts is not switched off.
abbrev pub IsEnforced : Option GovernanceConfig → Type 0
IsEnforced none = Unit {0}
IsEnforced (some config) = config.enabled ≡ true

-- The answer to a call whose tool was executed.
abbrev pub IsAnswerOf : Result HttpError Execution → Result HttpError ToolAnswer → Type 0
IsAnswerOf (ok execution) r = (t : ToolAnswer) × (r ≡ ok t) × (t.execution ≡ some execution)
IsAnswerOf (err error) r = r ≡ err error

-- The call `o` was refused with the error in the state `s`, and nothing else happened.
abbrev pub IsRefused : HttpError → Mcp → Mcp × Result HttpError ToolAnswer → Type 0
IsRefused error s o = (o.0 ≡ s) × (o.1 ≡ err error)

abbrev pub HasRun : Mcp × Result HttpError Execution → Mcp × Result HttpError ToolAnswer → Type 0
HasRun ran o = (o.0 ≡ ran.0) × IsAnswerOf ran.1 o.1

-- What has to become of a call by what the control plane says: `ran` is what the execution gives.
abbrev pub IsJudged :
    Bool
    → Answer
    → Mcp
    → Mcp × Result HttpError Execution
    → Mcp × Result HttpError ToolAnswer
    → Type 0
IsJudged fail_open failed s ran o =
    ((fail_open ≡ false) × IsRefused (refusal 503 "tool_control_plane_unavailable") s o)
    ⊎ ((fail_open ≡ true) × HasRun ran o)
IsJudged fail_open (replied e) s ran o =
    ((e.final_verdict ≡ "block") × IsRefused (refusal 403 "tool_governance_blocked") s o)
    ⊎ ((e.final_verdict ≡ "approval_required")
        × IsRefused (refusal 409 "tool_governance_approval_required") s o)
    ⊎ ((e.final_verdict ≢ "block") × (e.final_verdict ≢ "approval_required") × HasRun ran o)

tool_executed-HasRun :
    (config : Option GovernanceConfig) (tool server : String) (verdict : Option Evaluation)
    (ran : Mcp × Result HttpError Execution)
    → HasRun ran (tool_executed config tool server verdict ran)
tool_executed-HasRun config tool server verdict (s1, ok execution) = (refl, (_, refl, refl))
tool_executed-HasRun config tool server verdict (s1, err error) = (refl, refl)

governed_lem :
    (config : GovernanceConfig) (verdict : Answer)
    → config.mode_disabled ≡ false
    → config.enabled ≡ true
    → str_eq config.control_plane_url "" ≡ false
    → governed (some config) verdict ≡ hear_verdict config.fail_open verdict
unfolding enforce_tool_governance misconfigured
governed_lem config verdict on enabled url = ground (arith, on, enabled, url)

module _ (py : Python) (answer : List Sent → Sent → Heard) (registry : Dict McpServerConfig) where
  run_tool-tool_executed :
      (config : Option GovernanceConfig) (tool server : String) (payload : Fields) (uuids : Uuids)
      (verdict : Option Evaluation) (s : Mcp)
      → str_eq server "" ≡ false
      → run_tool py answer registry config tool server payload uuids verdict s
        ≡ tool_executed config tool server verdict (
            execute_mcp_tool py answer registry server tool
              (object_or_empty (get_field "arguments" payload))
              none
              uuids
              s)
  unfolding run_tool
  run_tool-tool_executed config tool server payload uuids verdict s filled =
      rw (filled, run_tool) refl

  -- The execution of a tool on the server that the payload names.
  abbrev pub ran_on : Fields → String → Uuids → Mcp → Mcp × Result HttpError Execution
  ran_on payload tool uuids s =
      execute_mcp_tool py answer registry (server_named py answer registry payload) tool
        (object_or_empty (get_field "arguments" payload)) none uuids s

  call_governed-IsJudged :
      (fail_open : Bool) (config : Option GovernanceConfig) (verdict : Answer) (tool : String)
      (payload : Fields) (uuids : Uuids) (s : Mcp)
      → str_eq (server_named py answer registry payload) "" ≡ false
      → IsJudged fail_open verdict s (ran_on payload tool uuids s) (
          call_governed py answer registry config tool
            (server_named py answer registry payload)
            payload
            uuids
            (hear_verdict fail_open verdict)
            s)
  unfolding call_governed judge_tool
  call_governed-IsJudged true config failed tool payload uuids s filled =
      let server = server_named py answer registry payload in
      rw (run_tool-tool_executed config tool server payload uuids none s filled)
        (inr (refl, tool_executed-HasRun config tool server none _))
  call_governed-IsJudged false config failed tool payload uuids s filled = inl (refl, (refl, refl))
  call_governed-IsJudged fail_open config (replied e) tool payload uuids s filled =
      let server = server_named py answer registry payload in
      elim (Bool-cases (str_eq e.final_verdict "block")) [
        | inl blocked ↦ rw blocked (inl ((eq_iff e.final_verdict "block").0 blocked, (refl, refl)))
        | inr passes ↦ elim (Bool-cases (str_eq e.final_verdict "approval_required")) [
          | inl waits ↦
              rw (passes, waits)
                (inr (inl ((eq_iff e.final_verdict "approval_required").0 waits, (refl, refl))))
          | inr free ↦
              let not_blocked : e.final_verdict ≢ "block" =
                ground (arith, passes, eq_iff e.final_verdict "block") in
              let not_waiting : e.final_verdict ≢ "approval_required" =
                ground (arith, free, eq_iff e.final_verdict "approval_required") in
              let run = run_tool-tool_executed config tool server payload uuids (some e) s filled in
              rw (passes, free, run)
                (inr (
                  inr
                    (not_blocked, not_waiting, tool_executed-HasRun config tool server (some e) _)))
        ]
      ]

  call_with_usable :
      (config : GovernanceConfig) (verdict : Answer) (tool : String) (payload : Fields)
      (uuids : Uuids) (s : Mcp)
      → config.mode_disabled ≡ false
      → config.enabled ≡ true
      → str_eq config.control_plane_url "" ≡ false
      → call_with py answer registry false (some config) verdict tool payload uuids s
        ≡ call_governed py answer registry
            (some config)
            tool
            (server_named py answer registry payload)
            payload
            uuids
            (hear_verdict config.fail_open verdict)
            s
  unfolding call_with
  call_with_usable config verdict tool payload uuids s on enabled url =
      let server = server_named py answer registry payload in
      let gate : (not (str_eq server "") && (not (is_usable (some config)) && not false)) ≡ false =
        grind (arith, on, url) in
      rw gate (
        ap (λ r. call_governed py answer registry (some config) tool server payload uuids r s)
          (governed_lem config verdict on enabled url))

  call_with_refused :
      (config : Option GovernanceConfig) (verdict : Answer) (tool : String) (payload : Fields)
      (uuids : Uuids) (s : Mcp)
      → str_eq (server_named py answer registry payload) "" ≡ false
      → is_usable config ≡ false
      → call_with py answer registry false config verdict tool payload uuids s
        ≡ (s, err (refusal 503 "mcp_governance_required"))
  unfolding call_with
  call_with_refused config verdict tool payload uuids s filled unusable =
      rw (filled, unusable, call_with) refl

  -- For a payload that names a server, where MCP_ALLOW_UNGOVERNED is not set and the enforcement is
  -- not switched off (a configuration with a URL and without enforcement is left out): without a
  -- control plane the call is refused with 503, a verdict of block with 403, one of
  -- approval_required with 409, and an answer that fails with 503 unless the configuration fails
  -- open; then no request was sent to a server and no session changed. In all other cases the tool
  -- is executed once, and what is answered is its execution, or its error.
  pub tools_run_when_permitted :
      (config : Option GovernanceConfig) (verdict : Answer) (tool : String) (payload : Fields)
      (uuids : Uuids) (s : Mcp)
      → server_named py answer registry payload ≢ ""
      → IsEnforced config
      → let o =
          mcp_tool_call py answer registry false config verdict tool (object payload) uuids s in
        (HasNoPlane config × IsRefused (refusal 503 "mcp_governance_required") s o)
        ⊎ ((c : GovernanceConfig) × (config ≡ some c)
            × (c.mode_disabled ≡ false)
            × (c.control_plane_url ≢ "")
            × IsJudged c.fail_open verdict s (ran_on payload tool uuids s) o)
  unfolding mcp_tool_call
  tools_run_when_permitted none verdict tool payload uuids s named enforced =
      let filled : str_eq (server_named py answer registry payload) "" ≡ false =
        ground (arith, named, eq_iff (server_named py answer registry payload) "") in
      rw (call_with_refused none verdict tool payload uuids s filled refl) (inl (tt, (refl, refl)))
  tools_run_when_permitted (some config) verdict tool payload uuids s named enforced =
      let filled : str_eq (server_named py answer registry payload) "" ≡ false =
        ground (arith, named, eq_iff (server_named py answer registry payload) "") in
      let refused = call_with_refused (some config) verdict tool payload uuids s filled in
      elim (Bool-cases config.mode_disabled) [
        | inl off ↦
            let unusable : is_usable (some config) ≡ false = ground (arith, off) in
            rw (refused unusable) (inl (inl off, (refl, refl)))
        | inr on ↦ elim (Bool-cases (str_eq config.control_plane_url "")) [
          | inl missing ↦
              let unusable : is_usable (some config) ≡ false = ground (arith, on, missing) in
              rw (refused unusable)
                (inl (inr ((eq_iff config.control_plane_url "").0 missing), (refl, refl)))
          | inr url ↦
              let there : config.control_plane_url ≢ "" =
                ground (arith, url, eq_iff config.control_plane_url "") in
              rw (call_with_usable config verdict tool payload uuids s on enforced url) (
                inr (
                  config,
                  refl,
                  on,
                  there,
                  call_governed-IsJudged config.fail_open (some config) verdict tool payload uuids s
                      filled,
                ))
        ]
      ]
