-- ===== src/Rpc/Dispatch.antt =====
-- svalin_rpc/src/rpc/session.rs and svalin_rpc/src/rpc/command/dispatcher.rs: the side of a session
-- that asks for a command. The coding of objects (postcard) is a parameter.
pub mod Laws
use svalin.Prelude.{ℕ, Bool, true, false, Option, none, some, List, [], ◌∷◌, ◌++◌}
use svalin.Prelude.Tests.{if◌then◌else◌}
use svalin.Prelude.Result.{Result, ok, err, panicked, Done, map_err}
use svalin.Bytes.{Bytes}
use svalin.Rpc.Handler.{SessionResponseHeader, accept, decline}

-- `Session` on the dispatching side: the objects that the other side sends, and those written to it.
pub record Caller : Type 0 where
  pub incoming : List Bytes
  pub is_writable : Bool
  pub outgoing : List Bytes
  pub is_shut_down : Bool

pub data DispatcherError (E : Type 0) : Type 0 where
  none_session : DispatcherError E
  other : E → DispatcherError E

pub data SessionDispatchError (E : Type 0) : Type 0 where
  write_header_error write_request_error read_response_error : SessionDispatchError E
  session_declined : ℕ → SessionDispatchError E
  dispatcher_error : DispatcherError E → SessionDispatchError E

-- The request header and the response header as bytes.
pub record HeaderCodec : Type 0 where
  pub encode_request : Bytes → Option Bytes
  pub decode_request : Bytes → Option Bytes
  pub encode_response : SessionResponseHeader → Bytes
  pub decode_response : Bytes → Option SessionResponseHeader

-- `TakeableCommandDispatcher`; `none` is left of a session that was taken.
pub record Dispatcher (R E O : Type 0) : Type 0 where
  pub key : Bytes
  pub request : R
  pub encode : R → Option Bytes
  pub dispatch_takeable : Option Caller → Result (DispatcherError E) O × Option Caller

-- A `CommandDispatcher` as a takeable one
unfoldable pub takeable :
    {E O : Type 0}
    → (Caller → Result E O × Caller)
    → Option Caller
    → Result (DispatcherError E) O × Option Caller
takeable run none = (err none_session, none)
takeable run (some s) = let (result, left) = run s in (map_err other result, some left)

-- `write_object`
unfoldable pub send_object : Option Bytes → Caller → Option Caller
send_object none s = none
send_object (some b) s =
    if s.is_writable then some (record s { outgoing = s.outgoing ++ b ∷ [] }) else none

-- `session.shutdown()`, of a session that is left
unfoldable pub shut_down : Option Caller → Option Caller
shut_down none = none
shut_down (some s) = some (record s { is_shut_down = true })

module _ {R E O : Type 0} (codec : HeaderCodec) where
  -- The header and the request are written.
  unfoldable pub send_request :
      Dispatcher R E O → Caller → Result (SessionDispatchError E) Done × Caller
  unfolding send_object
  send_request d s = elim (send_object (codec.encode_request d.key) s) [
    | none ↦ (err write_header_error, s)
    | some s1 ↦ elim (send_object (d.encode d.request) s1) [
      | none ↦ (err write_request_error, s1)
      | some s2 ↦ (ok tt, s2)
    ]
  ]

  -- The dispatcher, and the shutdown of a session that it did not take
  unfoldable pub run_dispatcher :
      Dispatcher R E O → Caller → Result (SessionDispatchError E) O × Option Caller
  unfolding shut_down
  run_dispatcher d s =
      let (result, left) = d.dispatch_takeable (some s) in
      (map_err dispatcher_error result, shut_down left)

  -- The response is read and decides.
  unfoldable pub await_response :
      Dispatcher R E O → Caller → Result (SessionDispatchError E) O × Option Caller
  unfolding run_dispatcher
  await_response d s = elim s.incoming [
    | [] ↦ (err read_response_error, some s)
    | b ∷ rest ↦ elim (codec.decode_response b) [
      | none ↦ (err read_response_error, some s)
      | some accept ↦ run_dispatcher d (record s { incoming = rest })
      | some (decline code) ↦ (err (session_declined code), some (record s { incoming = rest }))
    ]
  ]

  -- `Session::dispatch`; what is left of the session when it fails is dropped.
  unfoldable pub dispatch :
      Dispatcher R E O → Caller → Result (SessionDispatchError E) O × Option Caller
  unfolding send_request await_response
  dispatch d s =
      let (sent, s') = send_request d s in
      elim sent [
        | ok _ ↦ await_response d s'
        | err e ↦ (err e, some s')
        | panicked ↦ (panicked, some s')
      ]
