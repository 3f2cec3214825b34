-- ===== src/Mcp/Tools.antt =====
-- app/gateway/mcp.py and the call of a tool in app/gateway/routers/mcp.py: what the control plane's
-- answer does to it. The answer is an argument, and so is MCP_ALLOW_UNGOVERNED.
pub mod Permission
use ai_runtime_platform.Base.{
  String, Bool, true, false, not, ◌&&◌, ◌||◌, Option, none, some, List, str_eq, if◌then◌else◌,
  Result, ok, err,
}
use ai_runtime_platform.Dict.{Dict}
use ai_runtime_platform.Http.{HttpError}
use ai_runtime_platform.Governance.{
  GovernanceConfig, misconfigured, Evaluation, Answer, replied, failed, refusal,
}
use ai_runtime_platform.Mcp.{
  Json, Fields, string, get_field, is_true, object_or_empty, Python, McpServerConfig,
}
use ai_runtime_platform.Mcp.Stream.{object_of}
use ai_runtime_platform.Mcp.Sessions.{Sent, Heard, Mcp, Uuids, Execution}
use ai_runtime_platform.Mcp.Calls.{execute_mcp_tool}

-- What is told to the control plane behind an execution.
pub record Audit : Type 0 where
  pub tool : String
  pub server : String
  pub verdict : String
  pub truncated : Bool

pub record ToolAnswer : Type 0 where
  pub governance : Option Evaluation
  pub execution : Option Execution
  pub audit : Option Audit

-- the verdict of `enforce_tool_governance`
unfoldable pub judge_tool : Evaluation → Result HttpError (Option Evaluation)
judge_tool e =
    if str_eq e.final_verdict "block"
    then err (refusal 403 "tool_governance_blocked")
    else if str_eq e.final_verdict "approval_required"
    then err (refusal 409 "tool_governance_approval_required")
    else ok (some e)

abbrev pub hear_verdict : Bool → Answer → Result HttpError (Option Evaluation)
hear_verdict fail_open (replied e) = judge_tool e
hear_verdict fail_open failed =
    if fail_open then ok none else err (refusal 503 "tool_control_plane_unavailable")

unfoldable pub enforce_tool_governance :
    GovernanceConfig → Answer → Result HttpError (Option Evaluation)
unfolding misconfigured judge_tool
enforce_tool_governance config answer =
    if config.mode_disabled || not config.enabled
    then ok none
    else if misconfigured config
    then err (refusal 503 "governance_misconfigured")
    else hear_verdict config.fail_open answer

-- `governance_usable`
abbrev pub is_usable : Option GovernanceConfig → Bool
is_usable none = false
is_usable (some config) = not config.mode_disabled && not (str_eq config.control_plane_url "")

-- the use of `enforce_tool_governance`
abbrev pub governed : Option GovernanceConfig → Answer → Result HttpError (Option Evaluation)
governed none answer = ok none
governed (some config) answer =
    if config.mode_disabled then ok none else enforce_tool_governance config answer

-- `payload.get("mcp_server") or payload.get("server") or ""`
abbrev pub first_true : Option Json → Option Json → Json
first_true none none = string ""
first_true none (some w) = if is_true w then w else string ""
first_true (some v) none = if is_true v then v else string ""
first_true (some v) (some w) = if is_true v then v else if is_true w then w else string ""

abbrev pub audit_of :
    Option GovernanceConfig → String → String → Option Evaluation → Execution → Option Audit
audit_of none tool server verdict execution = none
audit_of (some config) tool server verdict execution = some (record {
  tool = tool;
  server = server;
  verdict = elim verdict [ none ↦ "allow" | some e ↦ e.final_verdict ];
  truncated = execution.truncated;
})

abbrev pub tool_executed :
    Option GovernanceConfig
    → String
    → String
    → Option Evaluation
    → Mcp × Result HttpError Execution
    → Mcp × Result HttpError ToolAnswer
tool_executed config tool server verdict (s, err error) = (s, err error)
tool_executed config tool server verdict (s, ok execution) = (
  s,
  ok (record {
    governance = verdict;
    execution = some execution;
    audit = audit_of config tool server verdict execution;
  }),
)

module _ (py : Python) (answer : List Sent → Sent → Heard) (registry : Dict McpServerConfig) where
  -- `str(…).strip()` of the server that a payload names
  abbrev pub server_named : Fields → String
  server_named payload =
      py.strip (py.str (first_true (get_field "mcp_server" payload) (get_field "server" payload)))

  -- `mcp_tool_call` behind the governance
  unfoldable pub run_tool :
      Option GovernanceConfig
      → String
      → String
      → Fields
      → Uuids
      → Option Evaluation
      → Mcp
      → Mcp × Result HttpError ToolAnswer
  run_tool config tool server payload uuids verdict s =
      if str_eq server ""
      then (s, ok (record { governance = verdict; execution = none; audit = none }))
      else tool_executed config tool server verdict (
          execute_mcp_tool py answer registry server tool
            (object_or_empty (get_field "arguments" payload)) none uuids s)

  unfoldable pub call_governed :
      Option GovernanceConfig
      → String
      → String
      → Fields
      → Uuids
      → Result HttpError (Option Evaluation)
      → Mcp
      → Mcp × Result HttpError ToolAnswer
  unfolding run_tool
  call_governed config tool server payload uuids (err error) s = (s, err error)
  call_governed config tool server payload uuids (ok verdict) s =
      run_tool config tool server payload uuids verdict s

  -- `mcp_tool_call` for a payload that is an object
  unfoldable pub call_with :
      Bool
      → Option GovernanceConfig
      → Answer
      → String
      → Fields
      → Uuids
      → Mcp
      → Mcp × Result HttpError ToolAnswer
  unfolding call_governed enforce_tool_governance
  call_with allow_ungoverned config verdict tool payload uuids s =
      let server = server_named payload in
      if not (str_eq server "") && (not (is_usable config) && not allow_ungoverned)
      then (s, err (refusal 503 "mcp_governance_required"))
      else call_governed config tool server payload uuids (governed config verdict) s

  -- `mcp_tool_call`. The refusal of a payload that is no object has no code.
  unfoldable pub mcp_tool_call :
      Bool
      → Option GovernanceConfig
      → Answer
      → String
      → Json
      → Uuids
      → Mcp
      → Mcp × Result HttpError ToolAnswer
  unfolding call_with
  mcp_tool_call allow_ungoverned config verdict tool payload uuids s =
      elim (object_of (some payload)) [
        | none ↦ (s, err (refusal 422 ""))
        | some fields ↦ call_with allow_ungoverned config verdict tool fields uuids s
      ]
