-- ===== src/Mcp/Calls.antt =====
-- app/gateway/mcp_transport.py: the calls of tools and their cancellation.
pub mod Pinning
use mathlib.Core.Option
use ai_runtime_platform.Base.{
  ℕ, String, Bool, true, false, not, ◌&&◌, ◌||◌, Option, none, some, List, [], ◌∷◌, str_eq, leb,
  if◌then◌else◌, Result, ok, err,
}
use ai_runtime_platform.Dict.{Dict, lookup}
use ai_runtime_platform.Http.{HttpError}
use ai_runtime_platform.Mcp.{
  Json, Fields, has_field, Python, McpServerConfig, McpSession, text_or_empty, resolve_credential,
  Filtered, truncate_result, wants_session,
}
use ai_runtime_platform.Mcp.Sessions.{
  Method, call_tool, notify_cancelled, delete_session, Sent, Response, Heard, no_response, responds,
  Mcp, Uuids, RpcError, Execution, mcp_error, with_header, result_of, url_of, post, post_rpc,
  rpc_failure, credential_unavailable, server_not_found, session_for, rotate,
}

module _ (py : Python) (answer : List Sent → Sent → Heard) (registry : Dict McpServerConfig) where
  -- The session of a call behind the answer: it is the stored object, whose id has changed.
  abbrev pub renamed : Option McpSession → Response → Option McpSession
  renamed none response = none
  renamed (some session) response = some (with_header response session)

  -- `execute_mcp_tool` from the answer of the server on
  unfoldable pub conclude_call :
      String
      → McpServerConfig
      → String
      → Uuids
      → Option McpSession
      → Mcp × Result RpcError (Response × Fields)
      → Mcp × Result HttpError Execution
  unfolding rotate
  conclude_call server_name server tool uuids session (s, err error) = (s, err (rpc_failure error))
  conclude_call server_name server tool uuids session (s, ok (response, payload)) =
      let s1 = rotate session response s in
      let (filtered, truncated) = truncate_result py (result_of payload) server.max_result_bytes in
      let after = renamed session response in
      if has_field "error" payload then (s1, err (mcp_error 502 "mcp_tool_error")) else (
        s1,
        ok (record {
          server = server_name;
          tool = tool;
          result = filtered;
          truncated = truncated;
          mcp_request_id = uuids.call_id;
          session_id = Option.map (λ session. session.session_id) after;
          capability_digest = elim after [ none ↦ none | some session ↦ session.capability_digest ];
        }),
      )

  abbrev pub call_message :
      McpServerConfig
      → Option String
      → Uuids
      → Option McpSession
      → String
      → Fields
      → Option String
      → Sent
  call_message server token uuids session tool arguments progress_token = record {
    url = py.rstrip "/" server.url;
    method = call_tool tool arguments progress_token;
    id = some uuids.call_id;
    session_id = Option.map (λ session. session.session_id) session;
    token = token;
  }

  -- the POST of `execute_mcp_tool` and what follows it
  unfoldable pub send_call :
      String
      → McpServerConfig
      → Option String
      → Uuids
      → String
      → Fields
      → Option String
      → Mcp × Result HttpError (Option McpSession)
      → Mcp × Result HttpError Execution
  unfolding post_rpc conclude_call
  send_call server_name server token uuids tool arguments progress_token (s, err error) =
      (s, err error)
  send_call server_name server token uuids tool arguments progress_token (s, ok session) =
      conclude_call server_name server tool uuids session (
        post_rpc py answer registry
          (call_message server token uuids session tool arguments progress_token) s)

  abbrev pub is_supported : String → Bool
  is_supported transport =
      str_eq transport "http" || (str_eq transport "streamable-http" || str_eq transport "sse")

  -- `execute_mcp_tool` for a registered server
  unfoldable pub execute_on :
      String
      → McpServerConfig
      → String
      → Fields
      → Option String
      → Uuids
      → Mcp
      → Mcp × Result HttpError Execution
  unfolding session_for send_call
  execute_on server_name server tool arguments progress_token uuids s =
      if not (is_supported server.transport)
      then (s, err (mcp_error 501 "mcp_transport_unsupported"))
      else (elim (resolve_credential py server.credential_ref) [
        | err error ↦ (s, err credential_unavailable)
        | ok token ↦
            send_call server_name server token uuids tool arguments progress_token
              (session_for py answer registry server_name server uuids s)
      ])

  -- `execute_mcp_tool`
  unfoldable pub execute_mcp_tool :
      String → String → Fields → Option String → Uuids → Mcp → Mcp × Result HttpError Execution
  unfolding execute_on
  execute_mcp_tool server_name tool arguments progress_token uuids s =
      elim (lookup server_name registry) [
        | none ↦ (s, err server_not_found)
        | some server ↦ execute_on server_name server tool arguments progress_token uuids s
      ]

  abbrev pub cancel_failed : HttpError
  cancel_failed = mcp_error 502 "mcp_cancel_failed"

  abbrev pub heard_delete : Mcp × Heard → Mcp × Result HttpError Unit
  heard_delete (s, no_response) = (s, err cancel_failed)
  heard_delete (s, responds response) = (s, ok tt)

  abbrev pub delete_message : Sent → Sent
  delete_message message = record message { method = delete_session; id = none }

  -- `cancel_mcp_request` from the answer of the server on
  unfoldable pub heard_cancel : Sent → Option McpSession → Mcp × Heard → Mcp × Result HttpError Unit
  unfolding post
  heard_cancel message session (s, no_response) = (s, err cancel_failed)
  heard_cancel message none (s, responds response) = (s, ok tt)
  heard_cancel message (some session) (s, responds response) =
      if leb 400 response.status_code
      then heard_delete (post py answer registry (delete_message message) s)
      else (s, ok tt)

  abbrev pub cancel_message : McpServerConfig → Option String → Option McpSession → String → Sent
  cancel_message server token session request_id = record {
    url = py.rstrip "/" server.url;
    method = notify_cancelled request_id;
    id = none;
    session_id = Option.map (λ session. session.session_id) session;
    token = token;
  }

  -- `cancel_mcp_request`
  unfoldable pub cancel_mcp_request : String → String → Mcp → Mcp × Result HttpError Unit
  unfolding heard_cancel post
  cancel_mcp_request server_name request_id s = elim (lookup server_name registry) [
    | none ↦ (s, err server_not_found)
    | some server ↦ elim (resolve_credential py server.credential_ref) [
      | err error ↦ (s, err credential_unavailable)
      | ok token ↦
          let session = lookup server_name s.sessions in
          let message = cancel_message server token session request_id in
          heard_cancel message session (post py answer registry message s)
    ]
  ]
