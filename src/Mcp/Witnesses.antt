-- ===== src/Mcp/Witnesses.antt =====
-- Concrete runs of app/gateway/mcp_transport.py and of a tool call.
use Prim.Native.String.{slice, len}
use text.Mathlib.Text.{starts_with}
use ai_runtime_platform.Base.{
  String, ◌≡◌, ◌≢◌, ◌⊎◌, refl, Bool, Result, err, true, false, none, some, List, [], ◌∷◌, str_eq,
  eq_iff, if◌then◌else◌, ok, map, or_raise,
}
use mathlib.Core.Bool.{false≢true}
use ai_runtime_platform.Dict.{Dict}
use ai_runtime_platform.Governance.{GovernanceConfig, failed, refusal}
use ai_runtime_platform.Mcp.{
  object, string, Fields, no_fields, field, get_field, has_field, Python, McpServerConfig, whole,
  resolve_credential, compute_capability_digest, truncate_result, wants_session,
}
use ai_runtime_platform.Mcp.Stream.{no_message, parse_sse_jsonrpc, parse_mcp_response_body}
use ai_runtime_platform.Mcp.Stream.Messages.{latest, message_of, events, last_message_is_read}
use ai_runtime_platform.Mcp.Sessions.{
  Sent, Heard, responds, Uuids, Execution, initialize_mcp_session,
}
use ai_runtime_platform.Mcp.Calls.{execute_mcp_tool}
use ai_runtime_platform.Mcp.Calls.Pinning.{
  Call, initializes, no_sessions, call_all, calls_are_pinned, IsShown,
}
use ai_runtime_platform.Mcp.Tools.{
  mcp_tool_call, ToolAnswer, call_with, call_governed, run_tool, enforce_tool_governance,
}
use ai_runtime_platform.Http.{HttpError}
use ai_runtime_platform.Mcp.Tools.Permission.{
  HasNoPlane, IsRefused, IsJudged, ran_on, tools_run_when_permitted,
}

-- One event of three lines, one that is no JSON, and one that the end of the text closes.
abbrev stream_lines : List String
stream_lines =
    "event: message" ∷ "data: first" ∷ "" ∷ "data: broken" ∷ "" ∷ ": a comment" ∷ "data: second"
    ∷ []

abbrev message : String → Fields
message name = field "result" (object (field "name" (string name) no_fields)) no_fields

abbrev texts : Python
texts = record {
  strip = λ t. t;
  lstrip = λ t. if starts_with t " " then slice t 1 (len t) else t;
  rstrip = λ chars t. t;
  lower = λ t. t;
  splitlines = λ t. stream_lines;
  contains = λ part whole. str_eq part whole;
  loads = λ t. if str_eq t "broken" then none else some (object (message t));
  str = λ v. elim v [ string t ↦ t | _ ↦ "" ];
  dumps = λ v. [];
  sorted_sha256 = λ fs. "abc";
  getenv = λ name. "";
}

last_message_is_read_example :
    parse_sse_jsonrpc texts ""
    ≡ or_raise (latest (map (message_of texts) (events texts stream_lines))) no_message
last_message_is_read_example = last_message_is_read texts ""

second_is_read : parse_sse_jsonrpc texts "" ≡ ok (message "second")
unfolding parse_sse_jsonrpc
second_is_read = refl

abbrev files : McpServerConfig
files = record {
  url = "http://files";
  transport = "streamable-http";
  credential_ref = none;
  max_result_bytes = 100;
  session_mode = "auto";
  capability_digest = some "sha256:abc";
}

abbrev registry : Dict McpServerConfig
registry = ("files", files) ∷ []

abbrev answers : List Sent → Sent → Heard
answers sent sent_now = responds (record {
  status_code = 200;
  is_success = true;
  session_header = some "s1";
  content_type = "application/json";
  body = "hello";
})

abbrev uuids : Uuids
uuids = record { initialize_id = "u1"; session_id = "u2"; call_id = "u3" }

abbrev reads : Execution
reads = record {
  server = "files";
  tool = "read";
  result = whole (object (field "name" (string "hello") no_fields));
  truncated = false;
  mcp_request_id = "u3";
  session_id = some "s1";
  capability_digest = some "sha256:abc";
}

abbrev opened : List Call
opened = initializes "files" true uuids ∷ []

reads_is :
    (execute_mcp_tool texts answers registry "files" "read" no_fields none uuids
      (call_all texts answers registry opened no_sessions)).1
    ≡ ok reads
unfolding execute_mcp_tool initialize_mcp_session resolve_credential wants_session
    parse_mcp_response_body has_field compute_capability_digest truncate_result get_field
reads_is = refl

calls_are_pinned_example :
    IsShown texts answers registry files "sha256:abc"
      (execute_mcp_tool texts answers registry "files" "read" no_fields none uuids
        (call_all texts answers registry opened no_sessions)).0
      reads
unfolding wants_session
calls_are_pinned_example =
    calls_are_pinned texts answers registry opened "files" "read" no_fields none uuids files
      "sha256:abc" reads refl refl refl (λ e. false≢true ((eq_iff "sha256:abc" "").1 e)) reads_is

abbrev config : GovernanceConfig
config = record {
  control_plane_url = "http://plane";
  enabled = true;
  fail_open = false;
  mode_disabled = false;
}

abbrev asks_files : Fields
asks_files = field "mcp_server" (string "files") no_fields

tools_run_when_permitted_example :
    let o =
      mcp_tool_call texts answers registry false
        (some config)
        failed
        "read"
        (object asks_files)
        uuids
        no_sessions in
    (HasNoPlane (some config) × IsRefused (refusal 503 "mcp_governance_required") no_sessions o)
    ⊎ ((c : GovernanceConfig) × (some config ≡ some c)
        × (c.mode_disabled ≡ false)
        × (c.control_plane_url ≢ "")
        × IsJudged c.fail_open failed no_sessions
            (ran_on texts answers registry asks_files "read" uuids no_sessions)
            o)
unfolding get_field
tools_run_when_permitted_example =
    tools_run_when_permitted texts answers registry (some config) failed "read" asks_files uuids
      no_sessions (λ e. false≢true ((eq_iff "files" "").1 e)) refl

abbrev any_answers : Result HttpError ToolAnswer → Bool
any_answers (ok t) = true
any_answers (err e) = false

-- With the enforcement switched off a tool runs that nobody has judged, although ungoverned tools
-- are not allowed.
switched_off_runs :
    any_answers
      (mcp_tool_call texts answers registry false
        (some (record config { enabled = false }))
        failed
        "read"
        (object asks_files)
        uuids
        no_sessions).1
    ≡ true
unfolding mcp_tool_call call_with call_governed run_tool enforce_tool_governance execute_mcp_tool
    initialize_mcp_session resolve_credential wants_session parse_mcp_response_body has_field
    compute_capability_digest truncate_result get_field
switched_off_runs = refl
