-- ===== src/Mls/Server.antt =====
-- svalin_pki/src/mls/server.rs: which groups the server takes and which changes it makes to them.
pub mod Stored
pub mod Committed
pub mod Laws
use svalin.Prelude.{ℕ, not, ◌&&◌, Bool, true, false, Option, none, some, List, [], ◌∷◌}
use svalin.Prelude.Tests.{◌==◌, if◌then◌else◌}
use svalin.Prelude.Result.{Result, Done, ok, err, panicked, ok_or, map_err, fail_if}
use svalin.Bytes.{Bytes}
use svalin.HashMap.Defs.{contains}
use svalin.Platform.{SpkiHash}
use svalin.Certificate.Kind.{agent, type_eq}
use svalin.Verifier.{Verifier}
use svalin.Mls.GroupId.{
  Hex, SvalinGroupId, global_group, device_group, device_meta_group, from_group_id, to_group_id,
}
use svalin.Mls.OpenMls.{OpenMls, PublicGroups, AddProposal}
use svalin.Mls.Call.{
  MlsError, Call, ◌>>=◌, resume, given, retriever_error, invalid_group_id, wrong_members,
  unexpected_group, group_id_error, spki_hash_mismatch,
}
use svalin.Mls.KeyPackage.{KeyPackage}
use svalin.Mls.KeyPackage
use svalin.Mls.Harness.{Harness, KeyRetriever, verify_spki_hash, check_commit}
use svalin.Mls.Transport.{
  MessageToServer, received_message, received_group, received_addition, MessageToSend, NewGroup,
  Wire, MessageToServerTransport, unpack, group_bytes, add_bytes, welcome_message,
  MessageToMemberTransport,
}
use svalin.Mls.PublicProcessor.{
  PublicProcessor, ProcessedMessage, ProcessedContent, unknown, commit_content, deserialize_all,
  check_group, add_group, get_member, commit,
}
use svalin.Mls.PublicProcessor

-- `HashSet` of members: both hold the same
abbrev pub contains_all : List SpkiHash → List SpkiHash → Bool
contains_all members [] = true
contains_all members (k ∷ rest) = contains k members && contains_all members rest

abbrev pub same_members : List SpkiHash → List SpkiHash → Bool
same_members a b = contains_all a b && contains_all b a

module _ {M : OpenMls} (G : PublicGroups M) (hex : Hex) (retriever : KeyRetriever M)
    (verifier : Verifier) (now : ℕ) where
  -- `MlsServer::new`
  abbrev pub server_harness : Harness M (PublicProcessor G)
  server_harness = record {
    hex = hex;
    key_retriever = retriever;
    verifier = verifier;
    now = now;
    get_member = get_member G;
  }

  -- `MlsServer::verify_key_package`
  unfoldable pub verify_key_package : M.KeyPackageIn → SpkiHash → Result MlsError (KeyPackage M)
  verify_key_package unverified expected =
      elim (KeyPackage.verify_package M verifier now unverified) [
        | ok verified ↦
            if verified.certificate.spki_hash == expected
            then ok verified
            else err spki_hash_mismatch
        | err e ↦ err e
        | panicked ↦ panicked
      ]

  abbrev pub parse_id : Bytes → Result MlsError SvalinGroupId
  parse_id id = map_err group_id_error (from_group_id hex id)

  -- The certificate of the group's device is an agent's.
  unfoldable pub check_device : SvalinGroupId → Call (PublicProcessor G) Done
  unfolding verify_spki_hash
  check_device global_group = given (ok tt)
  check_device (device_group h) = do
    cert ← given (verify_spki_hash server_harness h)
    given (fail_if (not (type_eq cert.certificate_type agent)) invalid_group_id)
  check_device (device_meta_group h) = do
    cert ← given (verify_spki_hash server_harness h)
    given (fail_if (not (type_eq cert.certificate_type agent)) invalid_group_id)

  unfoldable pub add_svalin_group :
      NewGroup G.GroupInfo → Call (PublicProcessor G) (Option MessageToSend)
  unfolding check_group deserialize_all check_device add_group
  add_svalin_group new_group = do
    temp_group ← given (check_group G new_group)
    members ← given (deserialize_all M (G.members temp_group))
    id ← given (parse_id (G.group_id temp_group))
    _ ← check_device id
    required_members ← given (ok_or (retriever.get_required_group_members id) retriever_error)
    _ ← given (fail_if (not (same_members required_members members)) wrong_members)
    add_group G new_group

  abbrev pub check_kind : SvalinGroupId → Result MlsError Done
  check_kind global_group = err unexpected_group
  check_kind (device_group _) = ok tt
  check_kind (device_meta_group _) = ok tt

  unfoldable pub add_device_group :
      NewGroup G.GroupInfo → Call (PublicProcessor G) (Option MessageToSend)
  unfolding add_svalin_group
  add_device_group new_group = do
    svalin_id ← given (parse_id (G.info_group_id new_group.group_info))
    _ ← given (check_kind svalin_id)
    add_svalin_group new_group

  -- What is done after the check: a commit that failed it is not made, and the call goes on.
  abbrev pub if_checked :
      {A : Type 0}
      → Call (PublicProcessor G) A
      → Call (PublicProcessor G) A
      → Result MlsError Done
      → Call (PublicProcessor G) A
  if_checked made left (ok _) p = made p
  if_checked made left (err _) p = left p
  if_checked made left panicked p = (panicked, p)

  -- A commit that adds members is ignored here.
  unfoldable pub handle_content : SvalinGroupId → ProcessedContent M → Call (PublicProcessor G) Done
  unfolding check_commit commit
  handle_content id unknown p = (ok tt, p)
  handle_content id (commit_content staged) p = elim (M.add_proposals staged) [
    | _ ∷ _ ↦ (ok tt, p)
    | [] ↦
        let (checked, p') = check_commit server_harness id staged p in
        if_checked (commit G (to_group_id hex id) staged) (given (ok tt)) checked p'
  ]

  -- The new members; their credentials have been read by the check, so that an error is a panic.
  unfoldable pub new_members : List (AddProposal M.KeyPackage) → Result MlsError (List SpkiHash)
  new_members [] = ok []
  new_members (add ∷ rest) =
      let later = new_members rest in
      elim (M.deserialized (M.leaf_credential add.key_package)) [
        | none ↦ panicked
        | some k ↦ elim later [ ok ks ↦ ok (k ∷ ks) | err e ↦ err e | panicked ↦ panicked ]
      ]

  abbrev pub to_send : List SpkiHash → MessageToMemberTransport → MessageToSend
  to_send receivers message = record { receivers = receivers; message = message }

  -- The commit is made, and the welcome goes to the new members.
  unfoldable pub make_addition :
      SvalinGroupId
      → M.StagedCommit
      → List SpkiHash
      → Bytes
      → Bytes
      → Call (PublicProcessor G) (List MessageToSend)
  unfolding new_members commit
  make_addition id staged receivers commit_bytes welcome = do
    added ← given (new_members (M.add_proposals staged))
    _ ← commit G (to_group_id hex id) staged
    given (
        ok (
          to_send receivers (add_bytes commit_bytes)
          ∷ to_send added (welcome_message welcome)
          ∷ []))

  -- What is not a commit, and a commit that fails the check, is only handed on.
  unfoldable pub handle_addition :
      SvalinGroupId
      → ProcessedMessage M
      → Bytes
      → Bytes
      → Call (PublicProcessor G) (List MessageToSend)
  unfolding check_commit make_addition
  handle_addition id processed commit_bytes welcome p = elim processed.content [
    | unknown ↦ (ok (to_send processed.receivers (add_bytes commit_bytes) ∷ []), p)
    | commit_content staged ↦
        let (checked, p') = check_commit server_harness id staged p in
        if_checked (make_addition id staged processed.receivers commit_bytes welcome)
          (given (ok (to_send processed.receivers (add_bytes commit_bytes) ∷ []))) checked p'
  ]

  unfoldable pub handle_add_to_group :
      M.ProtocolMessage → Bytes → Bytes → Call (PublicProcessor G) (List MessageToSend)
  unfolding handle_addition
  handle_add_to_group message commit_bytes welcome = do
    processed ← PublicProcessor.process_message G message
    id ← given (parse_id processed.group_id)
    handle_addition id processed commit_bytes welcome

  abbrev pub option_list : {A : Type 0} → Option A → List A
  option_list none = []
  option_list (some a) = a ∷ []

  unfoldable pub process_unpacked :
      MessageToServer M G.GroupInfo → Call (PublicProcessor G) (List MessageToSend)
  unfolding handle_content add_device_group handle_add_to_group
  process_unpacked (received_message raw message) = do
    processed ← PublicProcessor.process_message G message
    id ← given (parse_id processed.group_id)
    _ ← handle_content id processed.content
    given (ok (to_send processed.receivers (group_bytes raw) ∷ []))
  process_unpacked (received_group new_group) = do
    message ← add_device_group new_group
    given (ok (option_list message))
  process_unpacked (received_addition message commit_bytes welcome) =
      handle_add_to_group message commit_bytes welcome

  -- `MlsServer::process_message`
  unfoldable pub process_message :
      Wire M G.GroupInfo → MessageToServerTransport → Call (PublicProcessor G) (List MessageToSend)
  unfolding unpack process_unpacked
  process_message wire message = do
    unpacked ← given (unpack wire message)
    process_unpacked unpacked
