-- ===== src/Mls/Agent.antt =====
-- svalin_pki/src/mls/agent.rs: the group of a device, as its agent has it.
pub mod Laws
pub mod Accepted
use svalin.Prelude.{ℕ, not, Bool, true, false, Option, none, some, List, [], ◌∷◌}
use svalin.Prelude.Tests.{if◌then◌else◌, ◌==◌}
use svalin.Prelude.Result.{Result, Done, ok, err, panicked, ok_or, map_err, fail_if}
use svalin.Bytes.{Bytes}
use svalin.Platform.{SpkiHash}
use svalin.Certificate.Kind.{CertificateType, agent, type_eq}
use svalin.Certificate.Defs.{Certificate}
use svalin.Verifier.{Verifier}
use svalin.Mls.GroupId.{
  Hex, SvalinGroupId, global_group, device_group, device_meta_group, from_group_id, to_group_id,
}
use svalin.Mls.OpenMls.{OpenMls, MemberGroups}
use svalin.Mls.Call.{
  MlsError, Call, ◌>>=◌, resume, given, tls_codec, group_id_error, not_a_commit, unexpected_group,
  postcard, unexpected_certificate_type,
}
use svalin.Mls.Harness.{KeyRetriever, check_commit}
use svalin.Mls.Transport.{MessageToServerTransport, MessageToMemberTransport}
use svalin.Mls.Unpack.{
  MessageToMember, welcome, group_message, add_to_group, MemberWire, unpack_to_member,
}
use svalin.Mls.Processor.{
  Processor, MemberContent, message_content, staged_content, commit, create_message,
  process_message,
}
use svalin.Mls.Creation.{member_harness, create_group_if_not_exists}

-- `PartialEq` of group ids
abbrev pub id_eq : SvalinGroupId → SvalinGroupId → Bool
id_eq global_group global_group = true
id_eq (device_group a) (device_group b) = a == b
id_eq (device_meta_group a) (device_meta_group b) = a == b
id_eq _ _ = false

abbrev pub staged_of : {M : OpenMls} → MemberContent M → Result MlsError M.StagedCommit
staged_of (message_content _) = err not_a_commit
staged_of (staged_content staged) = ok staged

-- `MlsAgent::new`: the hash of the agent
unfoldable pub new_agent : Certificate → Result MlsError SpkiHash
new_agent cert =
    if type_eq cert.certificate_type agent
    then ok cert.spki_hash
    else err (unexpected_certificate_type cert.certificate_type)

module _ {M : OpenMls} (G : MemberGroups M) (hex : Hex) (retriever : KeyRetriever M)
    (verifier : Verifier) (now : ℕ) (me : SpkiHash) where
  unfoldable pub handle_add_to_group : M.ProtocolMessage → Call (Processor G) Done
  unfolding process_message check_commit commit
  handle_add_to_group message = do
    processed ← process_message G message
    id ← given (map_err group_id_error (from_group_id hex processed.group_id))
    staged ← given (staged_of processed.content)
    _ ← given (fail_if (not (id_eq id (device_group me))) unexpected_group)
    _ ← check_commit (member_harness G hex retriever verifier now) id staged
    commit G staged

  -- The first two are `todo!()`.
  unfoldable pub handle_unpacked : MessageToMember M G.Welcome → Call (Processor G) Done
  unfolding handle_add_to_group
  handle_unpacked (welcome _) = given panicked
  handle_unpacked (group_message _) = given panicked
  handle_unpacked (add_to_group message) = handle_add_to_group message

  -- `MlsAgent::handle_message`
  unfoldable pub handle_message :
      MemberWire M G.Welcome → MessageToMemberTransport → Call (Processor G) Done
  unfolding unpack_to_member handle_unpacked
  handle_message wire message = do
    unpacked ← given (unpack_to_member wire message)
    handle_unpacked unpacked

  -- A report is encoded by postcard.
  unfoldable pub send_report : Option Bytes → Call (Processor G) MessageToServerTransport
  unfolding create_message
  send_report report = do
    encoded ← given (ok_or report postcard)
    create_message G (to_group_id hex (device_group me)) encoded

  unfoldable pub create_device_group_if_missing :
      Call (Processor G) (Option MessageToServerTransport)
  unfolding create_group_if_not_exists
  create_device_group_if_missing =
      create_group_if_not_exists G hex retriever verifier now (device_group me) me
