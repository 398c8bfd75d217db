-- ===== src/Mls/Transport.antt =====
-- svalin_pki/src/mls/transport_types.rs: the messages between the parties and the server. The coding
-- of OpenMLS objects (tls_codec) is a parameter.
use svalin.Prelude.{Option, List, [], ◌∷◌}
use svalin.Prelude.Tests.{◌==◌, if◌then◌else◌}
use svalin.Prelude.Result.{Result, ok, ok_or, ◌>>=◌}
use svalin.Bytes.{Bytes}
use svalin.Platform.{SpkiHash}
use svalin.Mls.OpenMls.{OpenMls}
use svalin.Mls.Call.{MlsError, tls_codec}

pub data MessageToServerTransport : Type 0 where
  group_message : Bytes → MessageToServerTransport
  new_device_group : Bytes → Option Bytes → MessageToServerTransport
  add_to_group : Bytes → Bytes → MessageToServerTransport

pub data MessageToMemberTransport : Type 0 where
  welcome_message group_bytes add_bytes : Bytes → MessageToMemberTransport

pub record MessageToSend : Type 0 where
  pub receivers : List SpkiHash
  pub message : MessageToMemberTransport

pub record NewGroup (GroupInfo : Type 0) : Type 0 where
  pub group_info : GroupInfo
  pub welcome : Option Bytes

pub data MessageToServer (M : OpenMls) (GroupInfo : Type 0) : Type 0 where
  received_message : Bytes → M.ProtocolMessage → MessageToServer M GroupInfo
  received_group : NewGroup GroupInfo → MessageToServer M GroupInfo
  -- the commit, its bytes and the welcome
  received_addition : M.ProtocolMessage → Bytes → Bytes → MessageToServer M GroupInfo

-- Reading a message of a group, a public message and a group info
pub record Wire (M : OpenMls) (GroupInfo : Type 0) : Type 0 where
  pub read_protocol_message : Bytes → Option M.ProtocolMessage
  pub read_public_message : Bytes → Option M.ProtocolMessage
  pub read_group_info : Bytes → Option GroupInfo

-- `MessageToServerTransport::unpack`
unfoldable pub unpack :
    {M : OpenMls} {GroupInfo : Type 0}
    → Wire M GroupInfo
    → MessageToServerTransport
    → Result MlsError (MessageToServer M GroupInfo)
unpack wire (group_message raw) = do
  message ← ok_or (wire.read_protocol_message raw) tls_codec
  ok (received_message raw message)
unpack wire (new_device_group info welcome) = do
  group_info ← ok_or (wire.read_group_info info) tls_codec
  ok (received_group (record { group_info = group_info; welcome = welcome }))
unpack wire (add_to_group commit_bytes welcome) = do
  commit ← ok_or (wire.read_public_message commit_bytes) tls_codec
  ok (received_addition commit commit_bytes welcome)

-- `MessageToSend::remove_receiver`
unfoldable pub retain_others : SpkiHash → List SpkiHash → List SpkiHash
retain_others receiver [] = []
retain_others receiver (r ∷ rest) =
    let others = retain_others receiver rest in if r == receiver then others else r ∷ others

unfoldable pub remove_receiver : SpkiHash → MessageToSend → MessageToSend
unfolding retain_others
remove_receiver receiver m = record m { receivers = retain_others receiver m.receivers }
