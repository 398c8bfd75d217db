-- ===== src/Mls/Client.antt =====
-- svalin_pki/src/mls/client.rs: the groups of a user or a session.
pub mod Accepted
pub mod Steps
pub mod Laws
use svalin.Prelude.{ℕ, not, Bool, true, false, Option, none, some, List, [], ◌∷◌}
use svalin.Prelude.Tests.{if◌then◌else◌, ◌==◌}
use svalin.Prelude.Result.{Result, Done, ok, err, panicked, ok_or, map_err, fail_if}
use svalin.Bytes.{Bytes}
use svalin.Platform.{SpkiHash}
use svalin.Certificate.Kind.{CertificateType, root, user, user_session, agent, type_eq}
use svalin.Certificate.Defs.{Certificate}
use svalin.Verifier.{Verifier}
use svalin.Mls.GroupId.{
  Hex, SvalinGroupId, global_group, device_group, device_meta_group, from_group_id, to_group_id,
}
use svalin.Mls.OpenMls.{OpenMls, MemberGroups}
use svalin.Mls.Call.{
  MlsError, Call, ◌>>=◌, resume, given, tls_codec, group_id_error, not_a_message, postcard,
  unexpected_certificate_type, unallowed_message_type, invalid_sender, incorrect_certificate_type,
  retriever_error, wrong_members,
}
use svalin.Mls.KeyPackage.{KeyPackage}
use svalin.Mls.Harness.{KeyRetriever, verify_spki_hash, check_commit}
use svalin.Mls.Transport.{MessageToServerTransport, MessageToMemberTransport}
use svalin.Mls.Unpack.{
  MessageToMember, welcome, group_message, add_to_group, MemberWire, unpack_to_member,
}
use svalin.Mls.PublicProcessor.{deserialize_all}
use svalin.Mls.Server.{contains_all}
use svalin.Mls.Processor.{
  Processor, MemberContent, message_content, staged_content, commit, create_message,
  process_message, stage_join, join_group, add_member, is_member,
}
use svalin.Mls.Creation.{member_harness, create_group_if_not_exists}
use svalin.Mls.Agent.{staged_of}

-- `SvalinMessage`, over the two types of contents
pub data SvalinMessage (Report MetaInfo : Type 0) : Type 0 where
  report : Report → SvalinMessage Report MetaInfo
  meta_info : MetaInfo → SvalinMessage Report MetaInfo

pub data MessageDataContent (Report MetaInfo : Type 0) : Type 0 where
  device_report : SpkiHash → Report → MessageDataContent Report MetaInfo
  device_meta_info : SpkiHash → MetaInfo → MessageDataContent Report MetaInfo
  internal : MessageDataContent Report MetaInfo

pub record MessageData (Report MetaInfo : Type 0) : Type 0 where
  pub group : SvalinGroupId
  pub content : MessageDataContent Report MetaInfo

-- `MlsClient::new`: the hash of the client
unfoldable pub new_client : Certificate → Result MlsError SpkiHash
new_client cert = elim cert.certificate_type [
  | root ↦ ok cert.spki_hash
  | user ↦ ok cert.spki_hash
  | user_session ↦ ok cert.spki_hash
  | other ↦ err (unexpected_certificate_type other)
]

module _ {Report MetaInfo : Type 0} where
  -- Who may send what to which group
  unfoldable pub deliver :
      SvalinGroupId
      → SpkiHash
      → SvalinMessage Report MetaInfo
      → Result MlsError (MessageData Report MetaInfo)
  deliver (device_group device) sender (report r) =
      if device == sender
      then ok (record { group = device_group device; content = device_report device r })
      else err invalid_sender
  deliver id sender (report r) = err unallowed_message_type
  deliver (device_meta_group device) sender (meta_info m) =
      ok (record { group = device_meta_group device; content = device_meta_info device m })
  deliver id sender (meta_info m) = err unallowed_message_type

abbrev pub bytes_of : {M : OpenMls} → MemberContent M → Result MlsError Bytes
bytes_of (message_content bytes) = ok bytes
bytes_of (staged_content _) = err not_a_message

module _ {M : OpenMls} (G : MemberGroups M) (hex : Hex) (retriever : KeyRetriever M)
    (verifier : Verifier) (now : ℕ) (me : SpkiHash) where
  -- The certificate of the group's device is an agent's.
  unfoldable pub check_device : SvalinGroupId → Call (Processor G) Done
  unfolding verify_spki_hash
  check_device global_group = given (ok tt)
  check_device (device_group h) = do
    cert ← given (verify_spki_hash (member_harness G hex retriever verifier now) h)
    given (fail_if (not (type_eq cert.certificate_type agent)) incorrect_certificate_type)
  check_device (device_meta_group h) = do
    cert ← given (verify_spki_hash (member_harness G hex retriever verifier now) h)
    given (fail_if (not (type_eq cert.certificate_type agent)) incorrect_certificate_type)

  unfoldable pub handle_welcome : G.Welcome → Call (Processor G) SvalinGroupId
  unfolding stage_join check_device deserialize_all join_group
  handle_welcome invitation = do
    staged ← stage_join G invitation
    id ← given (map_err group_id_error (from_group_id hex (G.staged_group_id staged)))
    _ ← check_device id
    required_members ← given (ok_or (retriever.get_required_group_members id) retriever_error)
    members ← given (deserialize_all M (G.staged_members staged))
    _ ← given (fail_if (not (contains_all members required_members)) wrong_members)
    _ ← join_group G staged
    given (ok id)

  unfoldable pub handle_add_to_group : M.ProtocolMessage → Call (Processor G) SvalinGroupId
  unfolding process_message check_commit commit
  handle_add_to_group message = do
    processed ← process_message G message
    id ← given (map_err group_id_error (from_group_id hex processed.group_id))
    staged ← given (staged_of processed.content)
    _ ← check_commit (member_harness G hex retriever verifier now) id staged
    _ ← commit G staged
    given (ok id)

  module _ {Report MetaInfo : Type 0}
      (decode : Bytes → Option (SvalinMessage Report MetaInfo)) where
    unfoldable pub handle_group_message :
        M.ProtocolMessage → Call (Processor G) (MessageData Report MetaInfo)
    unfolding process_message deliver
    handle_group_message message = do
      processed ← process_message G message
      id ← given (map_err group_id_error (from_group_id hex processed.group_id))
      decrypted ← given (bytes_of processed.content)
      decoded ← given (ok_or (decode decrypted) postcard)
      given (deliver id processed.sender decoded)

    abbrev pub internal_data : SvalinGroupId → MessageData Report MetaInfo
    internal_data id = record { group = id; content = internal }

    unfoldable pub handle_unpacked :
        MessageToMember M G.Welcome → Call (Processor G) (MessageData Report MetaInfo)
    unfolding handle_welcome handle_add_to_group handle_group_message
    handle_unpacked (welcome invitation) = do
      id ← handle_welcome invitation
      given (ok (internal_data id))
    handle_unpacked (group_message message) = handle_group_message message
    handle_unpacked (add_to_group message) = do
      id ← handle_add_to_group message
      given (ok (internal_data id))

    -- `MlsClient::handle_message`
    unfoldable pub handle_message :
        MemberWire M G.Welcome
        → MessageToMemberTransport
        → Call (Processor G) (MessageData Report MetaInfo)
    unfolding unpack_to_member handle_unpacked
    handle_message wire message = do
      unpacked ← given (unpack_to_member wire message)
      handle_unpacked unpacked

  unfoldable pub create_meta_group_if_missing :
      SpkiHash → Call (Processor G) (Option MessageToServerTransport)
  unfolding check_device create_group_if_not_exists
  create_meta_group_if_missing h = do
    _ ← check_device (device_meta_group h)
    create_group_if_not_exists G hex retriever verifier now (device_meta_group h) me

  unfoldable pub is_member_of : SvalinGroupId → SpkiHash → Call (Processor G) Bool
  unfolding is_member
  is_member_of id h = is_member G (to_group_id hex id) h

  unfoldable pub add_member_to :
      SvalinGroupId → KeyPackage M → Call (Processor G) MessageToServerTransport
  unfolding add_member
  add_member_to id added = add_member G (to_group_id hex id) added

  -- The information is encoded by postcard.
  unfoldable pub send_meta_info :
      SpkiHash → Option Bytes → Call (Processor G) MessageToServerTransport
  unfolding create_message
  send_meta_info h info = do
    encoded ← given (ok_or info postcard)
    create_message G (to_group_id hex (device_meta_group h)) encoded
