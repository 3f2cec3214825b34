-- ===== src/Mcp/Sessions/Pinning.antt =====
-- The sessions that app/gateway/mcp_transport.py keeps, and the capability digests that it is
-- configured with.
use ai_runtime_platform.Base.{
  String, ◌≡◌, ◌≢◌, refl, sym, ap, Bool, true, false, Option, none, some, List, [], ◌∷◌, ◌⊎◌,
  str_eq, eq_iff, arith, Result, ok, err, Result-cases, Bool-cases, Option-cases, inl, inr, if_both,
}
use ai_runtime_platform.Dict.{Dict, lookup, lookup-insert}
use ai_runtime_platform.Http.{HttpError}
use ai_runtime_platform.Mcp.{
  Fields, has_field, Python, McpServerConfig, McpSession, text_or_empty, resolve_credential,
  compute_capability_digest, wants_session,
}
use ai_runtime_platform.Mcp.Sessions.{
  Sent, Response, Heard, Mcp, Uuids, RpcError, mismatch, put_session, session_of, capabilities_of,
  with_header, hear_initialized, open_session, start_session, existing, initialize_mcp_session,
  some_session, session_for, rotate, post, post_rpc, url_of, hear_rpc, initialize,
  initialize_message,
}

module _ (py : Python) (answer : List Sent → Sent → Heard) (registry : Dict McpServerConfig) where
  -- A request that asked a server for a session, where `earlier` was sent before, and was answered
  -- with capabilities of the digest.
  pub record Shows (server : McpServerConfig) (m : Sent) (earlier : List Sent) (digest : String)
      : Type 0 where
    response : Response
    payload : Fields
    asks : m.method ≡ initialize
    to : m.url ≡ url_of py answer registry server
    heard : hear_rpc py answer registry (answer earlier m) ≡ ok (response, payload)
    fine : has_field "error" payload ≡ false
    digested : compute_capability_digest py (capabilities_of payload) ≡ digest

  -- Some request of those sent, the last first, did.
  abbrev pub Shown : McpServerConfig → List Sent → String → Type 0
  Shown server [] digest = ⊥
  Shown server (m ∷ earlier) digest = Shows server m earlier digest ⊎ Shown server earlier digest

  -- A session of a server: with the digest of its own capabilities, which the server has shown, and
  -- the configured one.
  pub record IsOf (name : String) (sent : List Sent) (session : McpSession) : Type 0 where
    pub named : session.server_name ≡ name
    pub digested :
        session.capability_digest ≡ some (compute_capability_digest py session.capabilities)
    pub shown :
        (server : McpServerConfig)
        → lookup name registry ≡ some server
        → Shown server sent (compute_capability_digest py session.capabilities)
    pub pinned :
        (server : McpServerConfig) (digest : String)
        → lookup name registry ≡ some server
        → server.capability_digest ≡ some digest
        → digest ≢ ""
        → session.capability_digest ≡ some digest

  abbrev pub IsPinned : Mcp → Type 0
  IsPinned s =
      (name : String) (session : McpSession)
      → lookup name s.sessions ≡ some session
      → IsOf name s.sent session

  abbrev pub AllOf : String → List Sent → Option McpSession → Type 0
  AllOf name sent none = Unit {0}
  AllOf name sent (some session) = IsOf name sent session

  later-IsOf :
      (name : String) (m : Sent) (sent : List Sent) (session : McpSession)
      → IsOf name sent session
      → IsOf name (m ∷ sent) session
  later-IsOf name m sent session good = record {
    named = good.named;
    digested = good.digested;
    shown = λ server registered. inr (good.shown server registered);
    pinned = good.pinned;
  }

  pub later-AllOf :
      (name : String) (m : Sent) (sent : List Sent) (session : Option McpSession)
      → AllOf name sent session
      → AllOf name (m ∷ sent) session
  later-AllOf name m sent none good = tt
  later-AllOf name m sent (some session) good = later-IsOf name m sent session good

  pub post-IsPinned : (m : Sent) (s : Mcp) → IsPinned s → IsPinned (record s { sent = m ∷ s.sent })
  post-IsPinned m s pinned =
      λ name session h. later-IsOf name m s.sent session (pinned name session h)

  put_session-IsPinned :
      (name : String) (session : McpSession) (s : Mcp)
      → IsOf name s.sent session
      → IsPinned s
      → IsPinned (put_session session s)
  put_session-IsPinned name session s good pinned k found h =
      elim (Bool-cases (str_eq session.server_name k)) [
        | inl same ↦
            let found_it : session ≡ found =
              ground (arith, h, same, lookup-insert session.server_name k session s.sessions) in
            let here : name ≡ k = ground (arith, good.named, same, eq_iff session.server_name k) in
            rw (← here, ← found_it) good
        | inr other ↦
            pinned k found
              (ground (arith, h, other, lookup-insert session.server_name k session s.sessions))
      ]

  matching :
      (expected : Option String) (digest d : String)
      → mismatch expected digest ≡ false
      → expected ≡ some d
      → d ≢ ""
      → d ≡ digest
  matching none digest d h e filled = ground (arith, e)
  matching (some t) digest d h e filled = ground (arith, h, e, filled, eq_iff t "", eq_iff t digest)

  session_of-IsOf :
      (name : String) (server : McpServerConfig) (uuids : Uuids) (response : Response)
      (payload : Fields) (sent : List Sent)
      → lookup name registry ≡ some server
      → Shown server sent (compute_capability_digest py (capabilities_of payload))
      → mismatch server.capability_digest (compute_capability_digest py (capabilities_of payload))
        ≡ false
      → IsOf name sent (session_of py answer registry name uuids response payload)
  session_of-IsOf name server uuids response payload sent registered shown match = record {
    named = refl;
    digested = refl;
    shown = λ other registered'. let same : server ≡ other = cc in rw (← same) shown;
    pinned = λ other digest registered' configured filled.
        let same : server.capability_digest ≡ some digest = cc in
        ap some (sym (matching server.capability_digest _ digest match same filled));
  }

  abbrev pub Given : String → List Sent → Result HttpError McpSession → Type 0
  Given name sent (err error) = Unit {0}
  Given name sent (ok session) = IsOf name sent session

  abbrev pub MayBeGiven : String → List Sent → Result HttpError (Option McpSession) → Type 0
  MayBeGiven name sent (err error) = Unit {0}
  MayBeGiven name sent (ok session) = AllOf name sent session

  open_session-IsPinned :
      (name : String) (server : McpServerConfig) (token : Option String) (uuids : Uuids)
      (response : Response) (payload : Fields) (s : Mcp)
      → lookup name registry ≡ some server
      → (has_field "error" payload ≡ false
          → Shown server s.sent (compute_capability_digest py (capabilities_of payload)))
      → IsPinned s
      → let (s', r) = open_session py answer registry name server token uuids response payload s in
        IsPinned s' × Given name s'.sent r
  unfolding open_session post
  open_session-IsPinned name server token uuids response payload s registered shown pinned =
      elim (Bool-cases (has_field "error" payload)) [
        | inl failed ↦ rw failed (pinned, tt)
        | inr fine ↦
            elim (Bool-cases (
              mismatch server.capability_digest
                (compute_capability_digest py (capabilities_of payload)))) [
                  | inl other ↦ rw (fine, other) (pinned, tt)
                  | inr match ↦
                      let good =
                        session_of-IsOf name server uuids response payload s.sent registered
                          (shown fine) match in
                      rw (fine, match)
                        (
                          post-IsPinned _ _ (put_session-IsPinned name _ s good pinned),
                          later-IsOf name _ s.sent _ good,
                        )
                ]
      ]

  hear_initialized-IsPinned :
      (name : String) (server : McpServerConfig) (token : Option String) (uuids : Uuids) (s : Mcp)
      (r : Result RpcError (Response × Fields))
      → lookup name registry ≡ some server
      → ((response : Response) (payload : Fields)
          → r ≡ ok (response, payload)
          → has_field "error" payload ≡ false
          → Shown server s.sent (compute_capability_digest py (capabilities_of payload)))
      → IsPinned s
      → let (s', r') = hear_initialized py answer registry name server token uuids (s, r) in
        IsPinned s' × Given name s'.sent r'
  hear_initialized-IsPinned name server token uuids s (err error) registered shown pinned =
      (pinned, tt)
  hear_initialized-IsPinned name server token uuids s (ok (response, payload)) registered shown
        pinned =
      open_session-IsPinned name server token uuids response payload s registered
        (shown response payload refl) pinned

  start_session-IsPinned :
      (name : String) (server : McpServerConfig) (uuids : Uuids) (s : Mcp)
      → lookup name registry ≡ some server
      → IsPinned s
      → let (s', r) = start_session py answer registry name server uuids s in
        IsPinned s' × Given name s'.sent r
  unfolding start_session post_rpc post
  start_session-IsPinned name server uuids s registered pinned =
      elim (Result-cases (resolve_credential py server.credential_ref)) [
        | inr (error, failed) ↦ rw (failed, start_session) (pinned, tt)
        | inl (token, resolved) ↦
            rw (resolved, start_session)
              (hear_initialized-IsPinned name server token uuids _ _ registered
                (λ response payload heard fine. inl (record {
                  response = response;
                  payload = payload;
                  asks = refl;
                  to = refl;
                  heard = heard;
                  fine = fine;
                  digested = refl;
                }))
                (post-IsPinned (initialize_message py answer registry server token uuids) s pinned))
      ]

  existing-IsOf :
      (name : String) (force : Bool) (s : Mcp) (session : McpSession)
      → IsPinned s
      → existing force name s ≡ some session
      → IsOf name s.sent session
  existing-IsOf name true s session pinned h = ground (arith, h)
  existing-IsOf name false s session pinned h = pinned name session h

  pub initialize_mcp_session-IsPinned :
      (name : String) (force : Bool) (uuids : Uuids) (s : Mcp)
      → IsPinned s
      → let (s', r) = initialize_mcp_session py answer registry name force uuids s in
        IsPinned s' × Given name s'.sent r
  unfolding initialize_mcp_session
  initialize_mcp_session-IsPinned name force uuids s pinned =
      elim (Option-cases (lookup name registry)) [
        | inl unknown ↦ rw (unknown, initialize_mcp_session) (pinned, tt)
        | inr (server, registered) ↦ elim (Option-cases (existing force name s)) [
          | inl missing ↦
              rw (registered, missing, initialize_mcp_session)
                (start_session-IsPinned name server uuids s registered pinned)
          | inr (session, found) ↦
              rw (registered, found, initialize_mcp_session)
                (pinned, existing-IsOf name force s session pinned found)
        ]
      ]

  some_session-IsPinned :
      (name : String) (s : Mcp) (r : Result HttpError McpSession)
      → IsPinned s
      → Given name s.sent r
      → let (s', r') = some_session (s, r) in IsPinned s' × MayBeGiven name s'.sent r'
  some_session-IsPinned name s (ok session) pinned good = (pinned, good)
  some_session-IsPinned name s (err error) pinned good = (pinned, tt)

  pub session_for-IsPinned :
      (name : String) (server : McpServerConfig) (uuids : Uuids) (s : Mcp)
      → IsPinned s
      → let (s', r) = session_for py answer registry name server uuids s in
        IsPinned s' × MayBeGiven name s'.sent r
  unfolding session_for
  session_for-IsPinned name server uuids s pinned = elim (Bool-cases (wants_session py server)) [
    | inl wanted ↦
        let (pinned', good) = initialize_mcp_session-IsPinned name false uuids s pinned in
        rw wanted (some_session-IsPinned name _ _ pinned' good)
    | inr unwanted ↦ rw unwanted (pinned, tt)
  ]

  with_header-IsOf :
      (name : String) (sent : List Sent) (session : McpSession) (response : Response)
      → IsOf name sent session
      → IsOf name sent (with_header response session)
  with_header-IsOf name sent session response good = record {
    named = good.named;
    digested = good.digested;
    shown = good.shown;
    pinned = good.pinned;
  }

  pub rotate-IsPinned :
      (name : String) (session : Option McpSession) (response : Response) (s : Mcp)
      → AllOf name s.sent session
      → IsPinned s
      → IsPinned (rotate session response s)
  unfolding rotate
  rotate-IsPinned name none response s good pinned = pinned
  rotate-IsPinned name (some session) response s good pinned =
      if_both IsPinned (str_eq (text_or_empty response.session_header) "") pinned
        (put_session-IsPinned name _ s (with_header-IsOf name s.sent session response good) pinned)

  abbrev pub MustBeGiven : String → List Sent → Result HttpError (Option McpSession) → Type 0
  MustBeGiven name sent (err error) = Unit {0}
  MustBeGiven name sent (ok none) = ⊥
  MustBeGiven name sent (ok (some session)) = IsOf name sent session

  some_session-MustBeGiven :
      (name : String) (s : Mcp) (r : Result HttpError McpSession)
      → Given name s.sent r
      → let (s', r') = some_session (s, r) in MustBeGiven name s'.sent r'
  some_session-MustBeGiven name s (ok session) good = good
  some_session-MustBeGiven name s (err error) good = tt

  pub session_for-MustBeGiven :
      (name : String) (server : McpServerConfig) (uuids : Uuids) (s : Mcp)
      → IsPinned s
      → wants_session py server ≡ true
      → let (s', r) = session_for py answer registry name server uuids s in
        MustBeGiven name s'.sent r
  unfolding session_for
  session_for-MustBeGiven name server uuids s pinned wanted =
      rw (wanted, session_for)
        (some_session-MustBeGiven name
          (initialize_mcp_session py answer registry name false uuids s).0
          (initialize_mcp_session py answer registry name false uuids s).1
          (initialize_mcp_session-IsPinned name false uuids s pinned).1)
