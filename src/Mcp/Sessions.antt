-- ===== src/Mcp/Sessions.antt =====
-- app/gateway/mcp_transport.py: what is sent to a server, and the sessions. One call runs to its end before
-- the next begins. What a server answers is a function of all that was sent before.
pub mod Pinning
use ai_runtime_platform.Base.{
  ℕ, String, Bool, false, not, ◌&&◌, Option, none, some, List, ◌∷◌, str_eq, if◌then◌else◌, Result,
  ok, err,
}
use ai_runtime_platform.Dict.{Dict, lookup, insert}
use ai_runtime_platform.Http.{HttpError}
use ai_runtime_platform.Mcp.{
  Json, object, Fields, get_field, has_field, is_true, object_or_empty, Python, McpServerConfig,
  McpSession, text_or_empty, resolve_credential, compute_capability_digest, Filtered, wants_session,
}
use ai_runtime_platform.Mcp.Stream.{ParseError, parse_mcp_response_body}

-- The JSON-RPC methods that are sent, with the parameters that differ, and the DELETE of a session.
pub data Method : Type 0 where
  initialize : Method
  notify_initialized : Method
  call_tool : String → Fields → Option String → Method
  notify_cancelled : String → Method
  delete_session : Method

-- A request to a server: `id`, and what stands in the Mcp-Session-Id and Authorization headers.
pub record Sent : Type 0 where
  pub url : String
  pub method : Method
  pub id : Option String
  pub session_id : Option String
  pub token : Option String

-- `is_success` is what httpx says of the status. The two spellings of the header that the code asks
-- for are the same to httpx.
pub record Response : Type 0 where
  pub status_code : ℕ
  pub is_success : Bool
  pub session_header : Option String
  pub content_type : String
  pub body : String

-- How a request ended: an httpx.HTTPError, or a response.
pub data Heard : Type 0 where
  no_response : Heard
  responds : Response → Heard

-- The session store, and what was sent to servers so far, the last first.
pub record Mcp : Type 0 where
  pub sessions : Dict McpSession
  pub sent : List Sent

-- The uuids that a call draws.
pub record Uuids : Type 0 where
  pub initialize_id : String
  pub session_id : String
  pub call_id : String

pub data RpcError : Type 0 where
  http_error : RpcError
  value_error : ParseError → RpcError

pub record Execution : Type 0 where
  pub server : String
  pub tool : String
  pub result : Filtered
  pub truncated : Bool
  pub mcp_request_id : String
  pub session_id : Option String
  pub capability_digest : Option String

abbrev pub mcp_error : ℕ → String → HttpError
mcp_error status code = record { status_code = status; code = code; retry_after = none }

-- `if server.capability_digest and server.capability_digest != digest`
abbrev pub mismatch : Option String → String → Bool
mismatch none digest = false
mismatch (some expected) digest = not (str_eq expected "") && not (str_eq expected digest)

-- `McpSessionStore.put`
abbrev pub put_session : McpSession → Mcp → Mcp
put_session session s = record s { sessions = insert session.server_name session s.sessions }

-- `str(v or default)`
abbrev pub str_or : (Json → String) → Option Json → String → String
str_or str none default = default
str_or str (some v) default = if is_true v then str v else default

-- `response.headers.get(…)` where an empty one counts as none
abbrev pub header_or : Option String → String → String
header_or header other = if str_eq (text_or_empty header) "" then other else text_or_empty header

-- Before a call: `session.session_id = str(rotated)`, when the server sent another one.
abbrev pub with_header : Response → McpSession → McpSession
with_header response session = record session {
  session_id = header_or response.session_header session.session_id;
}

-- `payload.get("result", payload)`
abbrev pub result_of : Fields → Json
result_of payload = elim (get_field "result" payload) [ none ↦ object payload | some v ↦ v ]

abbrev pub payload_or : Response → Result ParseError Fields → Result RpcError (Response × Fields)
payload_or response (ok payload) = ok (response, payload)
payload_or response (err error) = err (value_error error)

abbrev pub rpc_failure : RpcError → HttpError
rpc_failure http_error = mcp_error 502 "mcp_upstream_unavailable"
rpc_failure (value_error error) = mcp_error 502 "mcp_invalid_response"

abbrev pub credential_unavailable : HttpError
credential_unavailable = mcp_error 503 "mcp_credential_unavailable"

abbrev pub server_not_found : HttpError
server_not_found = mcp_error 404 "mcp_server_not_found"

abbrev pub capabilities_of : Fields → Fields
capabilities_of payload =
    object_or_empty (get_field "capabilities" (object_or_empty (get_field "result" payload)))

abbrev pub existing : Bool → String → Mcp → Option McpSession
existing force server_name s = if force then none else lookup server_name s.sessions

abbrev pub some_session :
    Mcp × Result HttpError McpSession → Mcp × Result HttpError (Option McpSession)
some_session (s, ok session) = (s, ok (some session))
some_session (s, err error) = (s, err error)

-- `session.session_id = str(rotated); session_store().put(session)`
unfoldable pub rotate : Option McpSession → Response → Mcp → Mcp
rotate none response s = s
rotate (some session) response s =
    if str_eq (text_or_empty response.session_header) ""
    then s
    else put_session (with_header response session) s

module _ (py : Python) (answer : List Sent → Sent → Heard) (registry : Dict McpServerConfig) where
  abbrev pub url_of : McpServerConfig → String
  url_of server = py.rstrip "/" server.url

  -- `client.post`, and `client.request`
  unfoldable pub post : Sent → Mcp → Mcp × Heard
  post message s = (record s { sent = message ∷ s.sent }, answer s.sent message)

  abbrev pub hear_rpc : Heard → Result RpcError (Response × Fields)
  hear_rpc no_response = err http_error
  hear_rpc (responds r) =
      if r.is_success
      then payload_or r (parse_mcp_response_body py r.content_type r.body)
      else err http_error

  -- `_post_rpc`
  unfoldable pub post_rpc : Sent → Mcp → Mcp × Result RpcError (Response × Fields)
  unfolding post
  post_rpc message s = let (s1, heard) = post message s in (s1, hear_rpc heard)

  -- the `McpSession(…)` of `initialize_mcp_session`
  abbrev pub session_of : String → Uuids → Response → Fields → McpSession
  session_of server_name uuids response payload =
      let result = object_or_empty (get_field "result" payload) in
      let capabilities = capabilities_of payload in
      record {
        server_name = server_name;
        session_id =
            header_or response.session_header
              (str_or py.str (get_field "sessionId" result) uuids.session_id);
        protocol_version = some (str_or py.str (get_field "protocolVersion" result) "2024-11-05");
        capabilities = capabilities;
        capability_digest = some (compute_capability_digest py capabilities);
      }

  -- `initialize_mcp_session` from the answer of the server on
  unfoldable pub open_session :
      String
      → McpServerConfig
      → Option String
      → Uuids
      → Response
      → Fields
      → Mcp
      → Mcp × Result HttpError McpSession
  unfolding post
  open_session server_name server token uuids response payload s =
      let session = session_of server_name uuids response payload in
      let notification : Sent = record {
        url = url_of server;
        method = notify_initialized;
        id = none;
        session_id = some session.session_id;
        token = token;
      } in
      if has_field "error" payload
      then (s, err (mcp_error 502 "mcp_initialize_error"))
      else if mismatch server.capability_digest
          (compute_capability_digest py (capabilities_of payload))
      then (s, err (mcp_error 409 "mcp_capability_digest_mismatch"))
      else ((post notification (put_session session s)).0, ok session)

  abbrev pub hear_initialized :
      String
      → McpServerConfig
      → Option String
      → Uuids
      → Mcp × Result RpcError (Response × Fields)
      → Mcp × Result HttpError McpSession
  hear_initialized server_name server token uuids (s, err error) = (s, err (rpc_failure error))
  hear_initialized server_name server token uuids (s, ok (response, payload)) =
      open_session server_name server token uuids response payload s

  abbrev pub initialize_message : McpServerConfig → Option String → Uuids → Sent
  initialize_message server token uuids = record {
    url = url_of server;
    method = initialize;
    id = some uuids.initialize_id;
    session_id = none;
    token = token;
  }

  -- `initialize_mcp_session` from the test of the credential on
  unfoldable pub start_session :
      String → McpServerConfig → Uuids → Mcp → Mcp × Result HttpError McpSession
  unfolding post_rpc open_session
  start_session server_name server uuids s = elim (resolve_credential py server.credential_ref) [
    | err error ↦ (s, err credential_unavailable)
    | ok token ↦
        hear_initialized server_name server token uuids
          (post_rpc (initialize_message server token uuids) s)
  ]

  -- `initialize_mcp_session`
  unfoldable pub initialize_mcp_session :
      String → Bool → Uuids → Mcp → Mcp × Result HttpError McpSession
  unfolding start_session
  initialize_mcp_session server_name force uuids s = elim (lookup server_name registry) [
    | none ↦ (s, err server_not_found)
    | some server ↦ elim (existing force server_name s) [
      | some session ↦ (s, ok session)
      | none ↦ start_session server_name server uuids s
    ]
  ]

  -- the session of a call, where the server wants one
  unfoldable pub session_for :
      String → McpServerConfig → Uuids → Mcp → Mcp × Result HttpError (Option McpSession)
  unfolding initialize_mcp_session
  session_for server_name server uuids s =
      if wants_session py server
      then some_session (initialize_mcp_session server_name false uuids s)
      else (s, ok none)
