-- ===== src/Mls/Harness.antt =====
-- svalin_pki/src/mls/harness.rs and svalin_pki/src/mls/key_retriever.rs: what the parties check of a
-- change to a group.
pub mod Keeps
pub mod Laws
pub mod Device
use svalin.Prelude.{ℕ, not, Bool, true, false, Option, none, some, List, [], ◌∷◌}
use svalin.Prelude.Tests.{◌==◌, if◌then◌else◌}
use svalin.Prelude.Result.{Result, Done, ok, err, panicked, ok_or, map_err, fail_if}
use svalin.Bytes.{Bytes}
use svalin.HashMap.Defs.{contains}
use svalin.Platform.{SpkiHash}
use svalin.Certificate.Kind.{CertificateType, root, user, user_session}
use svalin.Certificate.Defs.{Certificate}
use svalin.Verifier.{Verifier}
use svalin.Mls.GroupId.{Hex, SvalinGroupId, to_group_id}
use svalin.Mls.OpenMls.{OpenMls, Sender, member, not_a_member, RemoveProposal, AddProposal}
use svalin.Mls.Call.{
  MlsError, Call, ◌>>=◌, given, tls_codec, retriever_error, only_members, edit_not_allowed,
  cannot_remove_required, unexpected_certificate_type, verify_error,
}
use svalin.Mls.KeyPackage
use svalin.Mls.KeyPackage.{KeyPackage}

-- The trait `KeyRetriever`
pub record KeyRetriever (M : OpenMls) : Type 0 where
  pub get_required_group_members : SvalinGroupId → Option (List SpkiHash)
  pub get_key_packages : List SpkiHash → Option (List M.KeyPackageIn)

unfoldable pub check_edit_allowed : CertificateType → Result MlsError Done
check_edit_allowed root = ok tt
check_edit_allowed user = ok tt
check_edit_allowed user_session = ok tt
check_edit_allowed other = err (edit_not_allowed other)

-- The types of certificates that can be added
abbrev pub check_member_type : CertificateType → Result MlsError Done
check_member_type user = ok tt
check_member_type user_session = ok tt
check_member_type other = err (unexpected_certificate_type other)

-- A party has these, and the processor with the state `S`; `get_member` is the trait `AnyMlsProcessor`.
pub record Harness (M : OpenMls) (S : Type 0) : Type 0 where
  pub hex : Hex
  pub key_retriever : KeyRetriever M
  pub verifier : Verifier
  pub now : ℕ
  pub get_member : Bytes → ℕ → Call S SpkiHash

module _ {M : OpenMls} {S : Type 0} (harness : Harness M S) where
  unfoldable pub verify_spki_hash : SpkiHash → Result MlsError Certificate
  verify_spki_hash h = map_err verify_error (harness.verifier.verify_spki_hash h harness.now)

  -- The first loop of `check_commit`
  unfoldable pub verify_credentials : List M.Credential → Call S Done
  unfolding verify_spki_hash
  verify_credentials [] = given (ok tt)
  verify_credentials (to_verify ∷ rest) = do
    spki_hash ← given (ok_or (M.deserialized to_verify) tls_codec)
    _ ← given (verify_spki_hash spki_hash)
    verify_credentials rest

  -- What is asked of the sender of a proposal, in both loops
  unfoldable pub check_sender : SvalinGroupId → Sender → Call S Done
  unfolding verify_spki_hash check_edit_allowed
  check_sender id not_a_member = given (err only_members)
  check_sender id (member index) = do
    spki_hash ← harness.get_member (to_group_id harness.hex id) index
    sender ← given (verify_spki_hash spki_hash)
    given (check_edit_allowed sender.certificate_type)

  unfoldable pub check_removal : SvalinGroupId → List SpkiHash → RemoveProposal → Call S Done
  unfolding check_sender
  check_removal id required_members proposal = do
    _ ← check_sender id proposal.sender
    spki_hash ← harness.get_member (to_group_id harness.hex id) proposal.removed
    given (fail_if (contains spki_hash required_members) (cannot_remove_required spki_hash))

  unfoldable pub check_removals : SvalinGroupId → List SpkiHash → List RemoveProposal → Call S Done
  unfolding check_removal
  check_removals id required_members [] = given (ok tt)
  check_removals id required_members (proposal ∷ rest) = do
    _ ← check_removal id required_members proposal
    check_removals id required_members rest

  unfoldable pub check_addition : SvalinGroupId → AddProposal M.KeyPackage → Call S Done
  unfolding check_sender
  check_addition id proposal = do
    _ ← check_sender id proposal.sender
    verified ← given (
        KeyPackage.verify_package M harness.verifier harness.now
          (M.into_unverified proposal.key_package))
    given (check_member_type verified.certificate.certificate_type)

  unfoldable pub check_additions : SvalinGroupId → List (AddProposal M.KeyPackage) → Call S Done
  unfolding check_addition
  check_additions id [] = given (ok tt)
  check_additions id (proposal ∷ rest) = do _ ← check_addition id proposal; check_additions id rest

  unfoldable pub check_commit : SvalinGroupId → M.StagedCommit → Call S Done
  unfolding verify_credentials check_removals check_additions
  check_commit id commit = do
    _ ← verify_credentials (M.credentials_to_verify commit)
    required_members ←
        given (ok_or (harness.key_retriever.get_required_group_members id) retriever_error)
    _ ← check_removals id required_members (M.remove_proposals commit)
    check_additions id (M.add_proposals commit)
