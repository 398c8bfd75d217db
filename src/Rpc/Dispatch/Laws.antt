-- ===== src/Rpc/Dispatch/Laws.antt =====
-- svalin_rpc/src/rpc/session.rs: the two sides of a session together.
use svalin.Prelude.{
  ℕ, ◌≡◌, refl, ap, Bool, true, false, Option, none, some, List, [], ◌∷◌, inl, inr,
}
use svalin.Prelude.Tests.{Bool-cases}
use svalin.Prelude.Lists.{bytes_eq}
use svalin.Prelude.Result.{Result, ok, err, panicked, Done}
use svalin.Bytes.{Bytes}
use svalin.Rpc.Permission.{PermissionCheckError}
use svalin.Rpc.Handler.{
  SessionResponseHeader, accept, decline, Session, command_not_found, permission_check_error,
  Outcome, CommandHandler, outcome, run, add, HandlerCollection, handle_session, handle_incoming,
  handle_with_permission, write_object, read_object, respond, answer,
}
use svalin.Rpc.Handler.Laws.{handle_session-add}
use svalin.Rpc.Dispatch.{
  Caller, SessionDispatchError, session_declined, HeaderCodec, Dispatcher, send_request,
  await_response, run_dispatcher, send_object, dispatch,
}

-- The objects of a call are read back as they were written. `header` and `body` are the bytes of the
-- request header and of the request.
pub record IsCoded {ℓ} {P R E O : Type 0} {W : Type ℓ} (codec : HeaderCodec) (d : Dispatcher R E O)
    (h : CommandHandler P R W) (header body : Bytes) : Type 0 where
  pub header_written : codec.encode_request d.key ≡ some header
  pub header_read : codec.decode_request header ≡ some d.key
  pub request_written : d.encode d.request ≡ some body
  pub request_read : h.decode body ≡ some d.request
  pub response_read :
      (r : SessionResponseHeader) → codec.decode_response (codec.encode_response r) ≡ some r

-- The call, when the other side sends the response and then `more`.
abbrev pub called :
    {R E O : Type 0}
    → HeaderCodec
    → Dispatcher R E O
    → Caller
    → List Bytes
    → SessionResponseHeader
    → Result (SessionDispatchError E) O × Option Caller
called codec d caller more response =
    dispatch codec d (record caller { incoming = codec.encode_response response ∷ more })

-- The session of the handling side, when `left` is still to be read and the response is written.
abbrev pub responded : Session → List Bytes → SessionResponseHeader → Session
responded s left response = record s { incoming = left; outgoing = response ∷ [] }

module _ {ℓ} {P R E O : Type 0} {W : Type ℓ} (codec : HeaderCodec) (d : Dispatcher R E O)
    (h : CommandHandler P R W) (s : Session) (w : W) (caller : Caller) (more : List Bytes) where
  -- The outcome of the handling side and that of the call, by whether the command is the one that was
  -- added and by what the permission handler says.
  abbrev pub Answered : Bool → Result PermissionCheckError Done → Bytes → Outcome W → Type ℓ
  Answered true (ok _) body served =
      (served ≡ run h d.request w (responded s [] accept))
      × (called codec d caller more accept
          ≡ run_dispatcher codec d (record (send_request codec d caller).1 { incoming = more }))
  Answered true (err e) body served =
      (served ≡ outcome (err (permission_check_error e)) (some (responded s [] (decline 403))) w)
      × ((called codec d caller more (decline 403)).0 ≡ err (session_declined 403))
  Answered true panicked body served =
      served ≡ outcome panicked (some (record s { incoming = [] })) w
  Answered false _ body served =
      (served ≡ outcome (err command_not_found) (some (responded s (body ∷ []) (decline 404))) w)
      × ((called codec d caller more (decline 404)).0 ≡ err (session_declined 404))

module _ {ℓ} {P R E O : Type 0} {W : Type ℓ} (codec : HeaderCodec) (d : Dispatcher R E O)
    (h : CommandHandler P R W) (header body : Bytes) (coded : IsCoded codec d h header body) where
  sent_request :
      (caller : Caller)
      → caller.is_writable ≡ true
      → caller.outgoing ≡ []
      → send_request codec d caller ≡ (ok tt, record caller { outgoing = header ∷ body ∷ [] })
  unfolding send_request send_object
  sent_request caller writes new =
      rw (coded.header_written, send_request)
        (rw (writes) (rw (coded.request_written, send_object) (rw new refl)))

  dispatch-sent :
      (s t : Caller)
      → send_request codec d s ≡ (ok tt, t)
      → dispatch codec d s ≡ await_response codec d t
  unfolding dispatch
  dispatch-sent s t e = rw (e, dispatch) (ap (λ o. await_response codec d o.1) e)

  called_accept :
      (caller : Caller) (more : List Bytes)
      → caller.is_writable ≡ true
      → caller.outgoing ≡ []
      → called codec d caller more accept
        ≡ run_dispatcher codec d (record (send_request codec d caller).1 { incoming = more })
  unfolding await_response
  called_accept caller more writes new =
      let e =
        sent_request (record caller { incoming = codec.encode_response accept ∷ more }) writes
          new in
      rw (dispatch-sent _ _ e)
        (rw (coded.response_read accept, await_response) (rw (sent_request caller writes new) refl))

  called_decline :
      (caller : Caller) (more : List Bytes) (code : ℕ)
      → caller.is_writable ≡ true
      → caller.outgoing ≡ []
      → (called codec d caller more (decline code)).0 ≡ err (session_declined code)
  unfolding await_response
  called_decline caller more code writes new =
      let e =
        sent_request (record caller { incoming = codec.encode_response (decline code) ∷ more })
          writes new in
      rw (dispatch-sent _ _ e) (rw (coded.response_read (decline code), await_response) refl)

  module _ (s : Session) (w : W) (caller : Caller) (more : List Bytes)
      (caller_writes : caller.is_writable ≡ true) (caller_new : caller.outgoing ≡ [])
      (writes : s.is_writable ≡ true) (empty : s.outgoing ≡ []) where
    written :
        (left : List Bytes) (response : SessionResponseHeader)
        → write_object response (record s { incoming = left }) ≡ some (responded s left response)
    unfolding write_object
    written left response = rw (writes, write_object) (rw empty refl)

    answer-Answered :
        (a : Result PermissionCheckError Done)
        → Answered codec d h s w caller more true a body
            (answer a (record s { incoming = [] }) w (run h d.request w))
    answer-Answered (ok _) =
        (rw (written [] accept, respond) refl, called_accept caller more caller_writes caller_new)
    answer-Answered (err e) = (
      rw (written [] (decline 403), respond) refl,
      called_decline caller more 403 caller_writes caller_new,
    )
    answer-Answered panicked = refl

    permitted-Answered :
        (c : HandlerCollection P W)
        → Answered codec d h s w caller more true
            (c.permission_handler s.peer (h.into_permission d.request))
            body
            (handle_with_permission h c.permission_handler (record s { incoming = body ∷ [] }) w)
    unfolding handle_with_permission read_object
    permitted-Answered c =
        rw (coded.request_read, handle_with_permission)
          (answer-Answered (c.permission_handler s.peer (h.into_permission d.request)))

    unknown-Answered :
        (c : HandlerCollection P W) (a : Result PermissionCheckError Done)
        → c.commands d.key ≡ none
        → Answered codec d h s w caller more false a body
            (handle_session c (record s { incoming = body ∷ [] }) d.key w)
    unfolding handle_session
    unknown-Answered c a unknown = (
      rw (unknown, handle_session) (rw (written (body ∷ []) (decline 404), respond) refl),
      called_decline caller more 404 caller_writes caller_new,
    )

    -- A fresh session calls a command, and the other side has the handler `h` under `key` and no other
    -- under the key of the call. With the same key and the permission, the handler gets the request
    -- and, on the acceptance, the dispatcher gets the session with what follows the response. Without
    -- the permission the state of the handlers is unchanged and the call fails with SessionDeclined
    -- 403, and with another key with 404. A panic of the permission handler leaves the state unchanged.
    pub dispatch-Answered :
        (key : Bytes) (c : HandlerCollection P W)
        → c.commands d.key ≡ none
        → Answered codec d h s w caller more
            (bytes_eq d.key key)
            (c.permission_handler s.peer (h.into_permission d.request))
            body
            (handle_incoming codec.decode_request
              (add key h c)
              (record s { incoming = (send_request codec d caller).1.outgoing })
              w)
    unfolding handle_incoming read_object
    dispatch-Answered key c unknown = rw (sent_request caller caller_writes caller_new) (
        rw (coded.header_read, handle_incoming)
          (rw (handle_session-add key d.key h c (record s { incoming = body ∷ [] }) w)
            (elim (Bool-cases (bytes_eq d.key key)) [
              | inl same ↦ rw same (permitted-Answered c)
              | inr different ↦ rw different (
                  unknown-Answered c (c.permission_handler s.peer (h.into_permission d.request))
                    unknown)
            ])))
