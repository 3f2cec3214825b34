-- ===== src/Mcp/Calls/Pinning.antt =====
-- The capability digests that app/gateway/mcp_transport.py is configured with, and the calls of tools.
use ai_runtime_platform.Base.{
  String, ◌≡◌, ◌≢◌, refl, str_eq, sym, ap, ◌∙◌, Bool, true, false, Option, none, some, List, [],
  ◌∷◌, arith, leb, if◌then◌else◌, Result, ok, err, Result-cases, Bool-cases, Option-cases, inl, inr,
  if_both,
}
use ai_runtime_platform.Dict.{Dict, lookup}
use ai_runtime_platform.Http.{HttpError}
use ai_runtime_platform.Mcp.{
  Fields, has_field, Python, McpServerConfig, McpSession, resolve_credential, wants_session,
  text_or_empty, compute_capability_digest,
}
use ai_runtime_platform.Mcp.Sessions.{
  Sent, Response, Heard, no_response, responds, Mcp, Uuids, RpcError, Execution,
  initialize_mcp_session, post, post_rpc, rotate,
}
use ai_runtime_platform.Mcp.Calls.{
  conclude_call, send_call, is_supported, execute_on, execute_mcp_tool, heard_delete, heard_cancel,
  cancel_mcp_request, cancel_message, call_message, delete_message,
}
use ai_runtime_platform.Mcp.Sessions.Pinning.{
  IsPinned, AllOf, MayBeGiven, initialize_mcp_session-IsPinned, session_for-IsPinned,
  rotate-IsPinned, MustBeGiven, session_for-MustBeGiven, Shown, later-AllOf, post-IsPinned,
}

-- The requests that come to the module, with the uuids that each draws.
pub data Call : Type 0 where
  initializes : String → Bool → Uuids → Call
  executes : String → String → Fields → Option String → Uuids → Call
  cancels : String → String → Call

abbrev pub no_sessions : Mcp
no_sessions = record { sessions = []; sent = [] }

ok_of_if :
    (b : Bool) (s : Mcp) (error : HttpError) (here ex : Execution)
    → (let r : Mcp × Result HttpError Execution = if b then (s, err error) else (s, ok here) in r).1
      ≡ ok ex
    → here ≡ ex
ok_of_if true s error here ex h = ground (arith, h)
ok_of_if false s error here ex h = ground (arith, h)

module _ (py : Python) (answer : List Sent → Sent → Heard) (registry : Dict McpServerConfig) where
  abbrev pub call : Call → Mcp → Mcp
  call (initializes name force uuids) s =
      (initialize_mcp_session py answer registry name force uuids s).0
  call (executes name tool arguments progress uuids) s =
      (execute_mcp_tool py answer registry name tool arguments progress uuids s).0
  call (cancels name request_id) s = (cancel_mcp_request py answer registry name request_id s).0

  -- the last first
  abbrev pub call_all : List Call → Mcp → Mcp
  call_all [] s = s
  call_all (c ∷ earlier) s = call c (call_all earlier s)

  conclude_call-IsPinned :
      (name : String) (server : McpServerConfig) (tool : String) (uuids : Uuids)
      (session : Option McpSession) (s : Mcp) (r : Result RpcError (Response × Fields))
      → (AllOf py answer registry) name s.sent session
      → (IsPinned py answer registry) s
      → (IsPinned py answer registry)
          (conclude_call py answer registry name server tool uuids session (s, r)).0
  unfolding conclude_call
  conclude_call-IsPinned name server tool uuids session s (err error) good pinned = pinned
  conclude_call-IsPinned name server tool uuids session s (ok (response, payload)) good pinned =
      let after = (rotate-IsPinned py answer registry) name session response s good pinned in
      if_both (λ (o : Mcp × Result HttpError Execution). (IsPinned py answer registry) o.0)
        (has_field "error" payload) after after

  send_call-IsPinned :
      (name : String) (server : McpServerConfig) (token : Option String) (uuids : Uuids)
      (tool : String) (arguments : Fields) (progress : Option String) (s : Mcp)
      (r : Result HttpError (Option McpSession))
      → (IsPinned py answer registry) s
      → (MayBeGiven py answer registry) name s.sent r
      → (IsPinned py answer registry)
          (send_call py answer registry name server token uuids tool arguments progress (s, r)).0
  unfolding send_call post_rpc post
  send_call-IsPinned name server token uuids tool arguments progress s (err error) pinned good =
      pinned
  send_call-IsPinned name server token uuids tool arguments progress s (ok session) pinned good =
      let m = call_message py answer registry server token uuids session tool arguments progress in
      conclude_call-IsPinned name server tool uuids session _ _
        ((later-AllOf py answer registry) name m s.sent session good)
        ((post-IsPinned py answer registry) m s pinned)

  execute_on-IsPinned :
      (name : String) (server : McpServerConfig) (tool : String) (arguments : Fields)
      (progress : Option String) (uuids : Uuids) (s : Mcp)
      → (IsPinned py answer registry) s
      → (IsPinned py answer registry)
          (execute_on py answer registry name server tool arguments progress uuids s).0
  unfolding execute_on
  execute_on-IsPinned name server tool arguments progress uuids s pinned =
      let (pinned', good) = (session_for-IsPinned py answer registry) name server uuids s pinned in
      elim (Bool-cases (is_supported py answer registry server.transport)) [
        | inr unknown ↦ rw (unknown, execute_on) pinned
        | inl supported ↦ elim (Result-cases (resolve_credential py server.credential_ref)) [
          | inr (error, failed) ↦ rw (supported, failed, execute_on) pinned
          | inl (token, resolved) ↦
              rw (supported, resolved, execute_on)
                (send_call-IsPinned name server token uuids tool arguments progress _ _ pinned'
                  good)
        ]
      ]

  execute_mcp_tool-IsPinned :
      (name tool : String) (arguments : Fields) (progress : Option String) (uuids : Uuids) (s : Mcp)
      → (IsPinned py answer registry) s
      → (IsPinned py answer registry)
          (execute_mcp_tool py answer registry name tool arguments progress uuids s).0
  unfolding execute_mcp_tool
  execute_mcp_tool-IsPinned name tool arguments progress uuids s pinned =
      elim (Option-cases (lookup name registry)) [
        | inl unknown ↦ rw (unknown, execute_mcp_tool) pinned
        | inr (server, registered) ↦
            rw (registered, execute_mcp_tool)
              (execute_on-IsPinned name server tool arguments progress uuids s pinned)
      ]

  heard_delete-IsPinned :
      (s : Mcp) (heard : Heard)
      → (IsPinned py answer registry) s
      → (IsPinned py answer registry) (heard_delete py answer registry (s, heard)).0
  heard_delete-IsPinned s no_response pinned = pinned
  heard_delete-IsPinned s (responds response) pinned = pinned

  heard_cancel-IsPinned :
      (message : Sent) (session : Option McpSession) (s : Mcp) (heard : Heard)
      → (IsPinned py answer registry) s
      → (IsPinned py answer registry) (heard_cancel py answer registry message session (s, heard)).0
  unfolding heard_cancel post
  heard_cancel-IsPinned message session s no_response pinned = pinned
  heard_cancel-IsPinned message none s (responds response) pinned = pinned
  heard_cancel-IsPinned message (some session) s (responds response) pinned =
      if_both (λ (o : Mcp × Result HttpError Unit). (IsPinned py answer registry) o.0)
        (leb 400 response.status_code)
        (heard_delete-IsPinned _ _
          ((post-IsPinned py answer registry) (delete_message py answer registry message) s pinned))
        pinned

  cancel_mcp_request-IsPinned :
      (name request_id : String) (s : Mcp)
      → (IsPinned py answer registry) s
      → (IsPinned py answer registry) (cancel_mcp_request py answer registry name request_id s).0
  unfolding cancel_mcp_request post
  cancel_mcp_request-IsPinned name request_id s pinned =
      elim (Option-cases (lookup name registry)) [
        | inl unknown ↦ rw (unknown, cancel_mcp_request) pinned
        | inr (server, registered) ↦
            elim (Result-cases (resolve_credential py server.credential_ref)) [
              | inr (error, failed) ↦ rw (registered, failed, cancel_mcp_request) pinned
              | inl (token, resolved) ↦
                  rw (registered, resolved, cancel_mcp_request)
                    (let message =
                        cancel_message py answer registry server token (lookup name s.sessions)
                          request_id in
                      heard_cancel-IsPinned message (lookup name s.sessions) _ _
                        ((post-IsPinned py answer registry) message s pinned))
            ]
      ]

  call-IsPinned :
      (c : Call) (s : Mcp)
      → (IsPinned py answer registry) s
      → (IsPinned py answer registry) (call c s)
  call-IsPinned (initializes name force uuids) s pinned =
      ((initialize_mcp_session-IsPinned py answer registry) name force uuids s pinned).0
  call-IsPinned (executes name tool arguments progress uuids) s pinned =
      execute_mcp_tool-IsPinned name tool arguments progress uuids s pinned
  call-IsPinned (cancels name request_id) s pinned =
      cancel_mcp_request-IsPinned name request_id s pinned

  call_all-IsPinned :
      (calls : List Call) → (IsPinned py answer registry) (call_all calls no_sessions)
  call_all-IsPinned [] = λ name session h. ground (arith, h)
  call_all-IsPinned (c ∷ earlier) = call-IsPinned c _ (call_all-IsPinned earlier)

  conclude_call_digest :
      (name : String) (server : McpServerConfig) (tool : String) (uuids : Uuids)
      (session : McpSession) (s : Mcp) (r : Result RpcError (Response × Fields)) (ex : Execution)
      → (conclude_call py answer registry name server tool uuids (some session) (s, r)).1 ≡ ok ex
      → session.capability_digest ≡ ex.capability_digest
  unfolding conclude_call
  conclude_call_digest name server tool uuids session s (err error) ex h = ground (arith, h)
  conclude_call_digest name server tool uuids session s (ok (response, payload)) ex h =
      ap (λ (e : Execution). e.capability_digest) (ok_of_if (has_field "error" payload) _ _ _ ex h)

  rotate_sent :
      (session : Option McpSession) (response : Response) (s : Mcp)
      → (rotate session response s).sent ≡ s.sent
  unfolding rotate
  rotate_sent none response s = refl
  rotate_sent (some session) response s =
      if_both (λ (s' : Mcp). s'.sent ≡ s.sent) (str_eq (text_or_empty response.session_header) "")
        refl refl

  conclude_call_sent :
      (name : String) (server : McpServerConfig) (tool : String) (uuids : Uuids)
      (session : Option McpSession) (s : Mcp) (r : Result RpcError (Response × Fields))
      → (conclude_call py answer registry name server tool uuids session (s, r)).0.sent ≡ s.sent
  unfolding conclude_call
  conclude_call_sent name server tool uuids session s (err error) = refl
  conclude_call_sent name server tool uuids session s (ok (response, payload)) =
      let same = rotate_sent session response s in
      if_both (λ (o : Mcp × Result HttpError Execution). o.0.sent ≡ s.sent)
        (has_field "error" payload) same same

  -- What a successful call says of its digest: it is the result's, and the server has shown it.
  abbrev pub IsShown : McpServerConfig → String → Mcp → Execution → Type 0
  IsShown server digest s ex =
      (ex.capability_digest ≡ some digest) × (Shown py answer registry) server s.sent digest

  send_call-IsShown :
      (name : String) (server : McpServerConfig) (token : Option String) (uuids : Uuids)
      (tool : String) (arguments : Fields) (progress : Option String) (s : Mcp)
      (r : Result HttpError (Option McpSession)) (digest : String) (ex : Execution)
      → (MustBeGiven py answer registry) name s.sent r
      → lookup name registry ≡ some server
      → server.capability_digest ≡ some digest
      → digest ≢ ""
      → (send_call py answer registry name server token uuids tool arguments progress (s, r)).1
        ≡ ok ex
      → IsShown server digest
          (send_call py answer registry name server token uuids tool arguments progress (s, r)).0
          ex
  unfolding send_call post_rpc post
  send_call-IsShown name server token uuids tool arguments progress s (err error) digest ex good
        registered configured filled h =
      ground (arith, h)
  send_call-IsShown name server token uuids tool arguments progress s (ok none) digest ex good
        registered configured filled h =
      elim good [ ]
  send_call-IsShown name server token uuids tool arguments progress s (ok (some session)) digest ex
        good registered configured filled h =
      let pinned = good.pinned server digest registered configured filled in
      let its_own : compute_capability_digest py session.capabilities ≡ digest =
        let digested = good.digested in cc in
      let shown : (Shown py answer registry) server s.sent digest =
        rw its_own at good.shown server registered in
      (
        sym (conclude_call_digest name server tool uuids session _ _ ex h) ∙ pinned,
        rw (conclude_call_sent name server tool uuids (some session) _ _) (inr shown),
      )

  -- Whatever sessions were opened, tools called and calls cancelled before, and whatever the servers
  -- answered: a tool call that succeeds on a server which wants sessions and has a capability digest
  -- configured returns this digest, and among all that was sent there is a request to this server
  -- for a session that it answered, without an error, with capabilities of exactly this digest.
  pub calls_are_pinned :
      (before : List Call) (name tool : String) (arguments : Fields) (progress : Option String)
      (uuids : Uuids) (server : McpServerConfig) (digest : String) (ex : Execution)
      → lookup name registry ≡ some server
      → wants_session py server ≡ true
      → server.capability_digest ≡ some digest
      → digest ≢ ""
      → (execute_mcp_tool py answer registry name tool arguments progress uuids
          (call_all before no_sessions)).1
        ≡ ok ex
      → IsShown server digest
          (execute_mcp_tool py answer registry name tool arguments progress uuids
            (call_all before no_sessions)).0
          ex
  unfolding execute_mcp_tool execute_on
  calls_are_pinned before name tool arguments progress uuids server digest ex registered wanted
        configured filled h =
      let s = call_all before no_sessions in
      let given =
        (session_for-MustBeGiven py answer registry) name server uuids s (call_all-IsPinned before)
          wanted in
      elim (Bool-cases (is_supported py answer registry server.transport)) [
        | inr unknown ↦
            let refused = rw (registered, unknown, execute_mcp_tool, execute_on) at h in
            ground (arith, refused)
        | inl supported ↦ elim (Result-cases (resolve_credential py server.credential_ref)) [
          | inr (error, failed) ↦
              let refused = rw (registered, supported, failed, execute_mcp_tool, execute_on) at h in
              ground (arith, refused)
          | inl (token, resolved) ↦
              rw (registered, supported, resolved, execute_mcp_tool, execute_on)
                (send_call-IsShown name server token uuids tool arguments progress _ _ digest ex
                  given registered configured filled
                  (rw (registered, supported, resolved, execute_mcp_tool, execute_on) at h))
        ]
      ]
