-- ===== src/Rpc/Handler.antt =====
-- svalin_rpc/src/rpc/command/handler.rs: a session's command is looked up, permitted and run.
-- A command's request type, its decoding and its `handle` are parameters. `W` is the state that
-- the handlers change.
pub mod Laws
use svalin.Prelude.{ℕ, Bool, true, false, Option, some, none, List, [], ◌∷◌, ◌++◌}
use svalin.Prelude.Tests.{if◌then◌else◌}
use svalin.Prelude.Lists.{bytes_eq}
use svalin.Prelude.Result.{Result, ok, err, panicked, Done}
use svalin.Bytes.{Bytes}
use svalin.Rpc.Permission.{Peer, PermissionCheckError, PermissionHandler}

pub data SessionResponseHeader : Type 0 where
  accept : SessionResponseHeader
  decline : ℕ → SessionResponseHeader

-- The objects that the peer sends, and what has been written to it. A transport that has failed
-- is not writable.
pub record Session : Type 0 where
  pub peer : Peer
  pub incoming : List Bytes
  pub is_writable : Bool
  pub outgoing : List SessionResponseHeader
  pub is_shut_down : Bool

pub data HandleError : Type 0 where
  read_error write_error command_not_found handler_failed : HandleError
  permission_check_error : PermissionCheckError → HandleError

-- What a handler leaves: its result, the session unless it was taken, and the state.
pub record Outcome {ℓ} (W : Type ℓ) : Type ℓ where
  pub result : Result HandleError Done
  pub session : Option Session
  pub world : W

abbrev pub outcome {ℓ} : {W : Type ℓ} → Result HandleError Done → Option Session → W → Outcome W
outcome r s w = record { result = r; session = s; world = w }

-- `TakeableCommandHandler`, with the conversion of its precursor to a permission
pub record CommandHandler {ℓ} (P R : Type 0) (W : Type ℓ) : Type ℓ where
  pub decode : Bytes → Option R
  pub into_permission : R → P
  pub handle : R → Session → W → Outcome W

-- `write_object`
unfoldable pub write_object : SessionResponseHeader → Session → Option Session
write_object h s =
    if s.is_writable then some (record s { outgoing = s.outgoing ++ h ∷ [] }) else none

-- `read_object`
unfoldable pub read_object : {R : Type 0} → (Bytes → Option R) → Session → Option (R × Session)
read_object decode s = elim s.incoming [
  | [] ↦ none
  | b ∷ rest ↦ elim (decode b) [ none ↦ none | some r ↦ some (r, record s { incoming = rest }) ]
]

unfoldable pub shutdown : Option Session → Option Session
shutdown none = none
shutdown (some s) = some (record s { is_shut_down = true })

-- The header is written, and an error of the transport ends the handling.
abbrev pub respond {ℓ} :
    {W : Type ℓ} → SessionResponseHeader → Session → W → (Session → Outcome W) → Outcome W
respond h s w k = elim (write_object h s) [
  | none ↦ outcome (err write_error) (some s) w
  | some s' ↦ k s'
]

-- `self.handle`, and the shutdown of a session that was not taken
abbrev pub run {ℓ} :
    {P R : Type 0} {W : Type ℓ} → CommandHandler P R W → R → W → Session → Outcome W
run h r w s = let o = h.handle r s w in outcome o.result (shutdown o.session) o.world

-- The permission check's answer decides.
abbrev pub answer {ℓ} :
    {W : Type ℓ}
    → Result PermissionCheckError Done
    → Session
    → W
    → (Session → Outcome W)
    → Outcome W
answer (ok _) s w k = respond accept s w k
answer (err e) s w k =
    respond (decline 403) s w (λ s'. outcome (err (permission_check_error e)) (some s') w)
answer panicked s w k = outcome panicked (some s) w

-- `HandlerPermissionWrapper`, as a trait object
abbrev pub Wrapper {ℓ} : Type 0 → Type ℓ → Type ℓ
Wrapper P W = PermissionHandler P → Session → W → Outcome W

unfoldable pub handle_with_permission {ℓ} :
    {P R : Type 0} {W : Type ℓ} → CommandHandler P R W → Wrapper P W
unfolding read_object write_object shutdown
handle_with_permission h may s w = elim (read_object h.decode s) [
  | none ↦ outcome (err read_error) (some s) w
  | some (r, s') ↦ answer (may s'.peer (h.into_permission r)) s' w (run h r w)
]

-- The commands, by their keys.
pub record HandlerCollection {ℓ} (P : Type 0) (W : Type ℓ) : Type ℓ where
  pub commands : Bytes → Option (Wrapper P W)
  pub permission_handler : PermissionHandler P

unfoldable pub new {ℓ} : {P : Type 0} {W : Type ℓ} → PermissionHandler P → HandlerCollection P W
new may = record { commands = λ _. none; permission_handler = may }

-- `ChainCommandAdder::add`: an old command of the key is replaced.
unfoldable pub add {ℓ} :
    {P R : Type 0} {W : Type ℓ}
    → Bytes
    → CommandHandler P R W
    → HandlerCollection P W
    → HandlerCollection P W
add key h c = record c {
  commands = λ k. if bytes_eq k key then some (handle_with_permission h) else c.commands k;
}

unfoldable pub handle_session {ℓ} :
    {P : Type 0} {W : Type ℓ} → HandlerCollection P W → Session → Bytes → W → Outcome W
unfolding write_object
handle_session c s key w = elim (c.commands key) [
  | some wrapper ↦ wrapper c.permission_handler s w
  | none ↦ respond (decline 404) s w (λ s'. outcome (err command_not_found) (some s') w)
]

-- `Session::handle`: the request header is the first object, and is decoded to the command's key.
unfoldable pub handle_incoming {ℓ} :
    {P : Type 0} {W : Type ℓ}
    → (Bytes → Option Bytes)
    → HandlerCollection P W
    → Session
    → W
    → Outcome W
unfolding read_object
handle_incoming decode_header c s w = elim (read_object decode_header s) [
  | none ↦ outcome (err read_error) (some s) w
  | some (key, s') ↦ handle_session c s' key w
]
