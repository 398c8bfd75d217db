-- ===== src/Mls/OpenMls.antt =====
-- The library OpenMLS, as svalin_pki/src/mls calls it. It is a parameter: its types are unknown, and
-- `none` is an error that it returns.
use svalin.Prelude.{ℕ, Bool, Option, List}
use svalin.Bytes.{Bytes}
use svalin.Platform.{SpkiHash}

-- Who has made a proposal or a message: a member, by the index of its leaf, or someone outside.
pub data Sender : Type 0 where
  member : ℕ → Sender
  not_a_member : Sender

pub record RemoveProposal : Type 0 where
  pub sender : Sender
  pub removed : ℕ

pub record AddProposal (KeyPackage : Type 0) : Type 0 where
  pub sender : Sender
  pub key_package : KeyPackage

-- `ProcessedMessageContent`; a proposal alone is one of the two kinds that the program refuses.
pub data ProcessedMessageContent (StagedCommit : Type 0) : Type 0 where
  application_message : Bytes → ProcessedMessageContent StagedCommit
  proposal_message : ProcessedMessageContent StagedCommit
  staged_commit_message : StagedCommit → ProcessedMessageContent StagedCommit

-- Credentials, key packages and commits, which all parties handle. A credential holds an SPKI hash,
-- `deserialized` if its bytes are one.
pub record OpenMls : Type 1 where
  pub Credential : Type 0
  pub deserialized : Credential → Option SpkiHash
  pub KeyPackageIn : Type 0
  pub KeyPackage : Type 0
  pub validate : KeyPackageIn → Option KeyPackage
  pub into_unverified : KeyPackage → KeyPackageIn
  pub unverified_credential : KeyPackageIn → Credential
  pub leaf_credential : KeyPackage → Credential
  pub signature_key : KeyPackage → Bytes
  pub StagedCommit : Type 0
  pub credentials_to_verify : StagedCommit → List Credential
  pub remove_proposals : StagedCommit → List RemoveProposal
  pub add_proposals : StagedCommit → List (AddProposal KeyPackage)
  pub ProtocolMessage : Type 0
  pub message_group_id : ProtocolMessage → Bytes
  pub is_private : ProtocolMessage → Bool

-- Groups whose messages are not read, as the server has them. `load` gives no answer if the storage
-- fails, and `some none` if the group is not stored. Merging and creating write to the storage.
pub record PublicGroups (M : OpenMls) : Type 1 where
  pub PublicGroup : Type 0
  pub Storage : Type 0
  pub GroupInfo : Type 0
  pub load : Storage → Bytes → Option (Option PublicGroup)
  pub group_id : PublicGroup → Bytes
  pub members : PublicGroup → List M.Credential
  pub leaf : PublicGroup → ℕ → Option M.Credential
  pub process_message :
      PublicGroup → M.ProtocolMessage → Option (ProcessedMessageContent M.StagedCommit)
  pub merge_commit : Storage → PublicGroup → M.StagedCommit → Bool × PublicGroup × Storage
  pub info_group_id : GroupInfo → Bytes
  pub has_ratchet_tree : GroupInfo → Bool
  pub from_external : Storage → GroupInfo → Option PublicGroup × Storage
  -- `from_external` with a `MemoryStorage` that is then dropped
  pub from_external_temporary : GroupInfo → Option PublicGroup

-- Groups whose messages are read, as their members have them. Nearly every operation writes to the
-- storage, also when it fails.
pub record MemberGroups (M : OpenMls) : Type 1 where
  pub MlsGroup : Type 0
  pub Storage : Type 0
  pub Welcome : Type 0
  pub StagedWelcome : Type 0
  pub MessageOut : Type 0
  pub load : Storage → Bytes → Option (Option MlsGroup)
  pub members : MlsGroup → List M.Credential
  pub member_at : MlsGroup → ℕ → Option M.Credential
  -- `KeyPackage::builder`
  pub build_key_package : Storage → Option M.KeyPackage × Storage
  -- `MlsGroup::builder`
  pub build_group : Storage → Bytes → Option MlsGroup × Storage
  -- `export_group_info`, as bytes
  pub export_group_info : MlsGroup → Option Bytes
  -- `commit_builder` with all additions, up to `stage_commit`: the group info and the welcome
  pub stage_additions :
      Storage → MlsGroup → List M.KeyPackage → Option (Bytes × Bytes) × MlsGroup × Storage
  pub merge_pending_commit : Storage → MlsGroup → Bool × MlsGroup × Storage
  -- the commit and the welcome
  pub add_members :
      Storage → MlsGroup → List M.KeyPackage → Option (MessageOut × MessageOut) × MlsGroup × Storage
  pub create_message : Storage → MlsGroup → Bytes → Option MessageOut × MlsGroup × Storage
  pub process_message :
      Storage
      → MlsGroup
      → M.ProtocolMessage
      → Option (Sender × ProcessedMessageContent M.StagedCommit) × MlsGroup × Storage
  pub merge_staged_commit : Storage → MlsGroup → M.StagedCommit → Bool × MlsGroup × Storage
  pub commit_group_id : M.StagedCommit → Bytes
  -- `ProcessedWelcome::new_from_welcome` and `into_staged_welcome`
  pub stage_welcome : Storage → Welcome → Option StagedWelcome × Storage
  pub staged_group_id : StagedWelcome → Bytes
  pub staged_members : StagedWelcome → List M.Credential
  pub into_group : Storage → StagedWelcome → Option MlsGroup × Storage
  pub group_id : MlsGroup → Bytes
  -- `tls_serialize_detached`, and which kind of message it is
  pub is_private_out : MessageOut → Bool
  pub is_public_out : MessageOut → Bool
  pub welcome_out : MessageOut → Option Bytes
  pub serialize : MessageOut → Option Bytes
  pub serialized_content : M.Credential → Bytes
  pub serialize_hash : SpkiHash → Option Bytes
