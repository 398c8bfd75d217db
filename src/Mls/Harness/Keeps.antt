-- ===== src/Mls/Harness/Keeps.antt =====
-- svalin_pki/src/mls/harness.rs: the check of a commit changes nothing but what asking for a member
-- changes.
use svalin.Prelude.{ℕ, List, [], ◌∷◌}
use svalin.Prelude.Result.{Result}
use svalin.Bytes.{Bytes}
use svalin.Platform.{SpkiHash}
use svalin.Mls.GroupId.{SvalinGroupId}
use svalin.Mls.OpenMls.{OpenMls, Sender, member, not_a_member, RemoveProposal, AddProposal}
use svalin.Mls.Call.{MlsError, Call, resume}
use svalin.Mls.Call.Laws.{resume-Keeps}
use svalin.Mls.Harness.{
  Harness, verify_credentials, check_sender, check_removal, check_removals, check_addition,
  check_additions, check_commit,
}

-- `R` relates the state before a call to that after it.
module _ {M : OpenMls} {S : Type 0} (harness : Harness M S) (id : SvalinGroupId)
    (R : S → S → Type 0) (R-trans : (s t u : S) → R s t → R t u → R s u) (R-refl : (s : S) → R s s)
    (member-Keeps : (group : Bytes) (index : ℕ) (s : S)
      → R s (harness.get_member group index s).1) where
  then_keeps :
      {A B : Type 0} (f : A → Call S B) (r : Result MlsError A) (s t : S)
      → R s t
      → ((a : A) (s : S) → R s (f a s).1)
      → R s (resume f r t).1
  then_keeps f r s t = resume-Keeps R R-trans R-refl f r s t

  pub verify_credentials-Keeps :
      (l : List M.Credential) (s : S) → R s (verify_credentials harness l s).1
  unfolding verify_credentials
  verify_credentials-Keeps [] s = R-refl s
  verify_credentials-Keeps (c ∷ l) s =
      then_keeps _ _ s s (R-refl s)
        (λ k t. then_keeps _ _ t t (R-refl t) (λ cert. verify_credentials-Keeps l))

  pub check_sender-Keeps : (sender : Sender) (s : S) → R s (check_sender harness id sender s).1
  unfolding check_sender
  check_sender-Keeps not_a_member s = R-refl s
  check_sender-Keeps (member index) s =
      then_keeps _ _ s _ (member-Keeps _ index s)
        (λ k t. then_keeps _ _ t t (R-refl t) (λ cert u. R-refl u))

  pub check_removal-Keeps :
      (required : List SpkiHash) (p : RemoveProposal) (s : S)
      → R s (check_removal harness id required p s).1
  unfolding check_removal
  check_removal-Keeps required p s =
      then_keeps _ _ s _ (check_sender-Keeps p.sender s)
        (λ _ t. then_keeps _ _ t _ (member-Keeps _ p.removed t) (λ k u. R-refl u))

  pub check_removals-Keeps :
      (required : List SpkiHash) (l : List RemoveProposal) (s : S)
      → R s (check_removals harness id required l s).1
  unfolding check_removals
  check_removals-Keeps required [] s = R-refl s
  check_removals-Keeps required (p ∷ l) s =
      then_keeps _ _ s _ (check_removal-Keeps required p s) (λ _. check_removals-Keeps required l)

  pub check_addition-Keeps :
      (p : AddProposal M.KeyPackage) (s : S) → R s (check_addition harness id p s).1
  unfolding check_addition
  check_addition-Keeps p s =
      then_keeps _ _ s _ (check_sender-Keeps p.sender s)
        (λ _ t. then_keeps _ _ t t (R-refl t) (λ v u. R-refl u))

  check_additions-Keeps :
      (l : List (AddProposal M.KeyPackage)) (s : S) → R s (check_additions harness id l s).1
  unfolding check_additions
  check_additions-Keeps [] s = R-refl s
  check_additions-Keeps (p ∷ l) s =
      then_keeps _ _ s _ (check_addition-Keeps p s) (λ _. check_additions-Keeps l)

  pub check_commit-Keeps :
      (commit : M.StagedCommit) (s : S) → R s (check_commit harness id commit s).1
  unfolding check_commit
  check_commit-Keeps commit s =
      then_keeps _ _ s _ (verify_credentials-Keeps (M.credentials_to_verify commit) s) (λ _ t.
        then_keeps _ _ t t (R-refl t) (λ required u.
          then_keeps _ _ u _ (check_removals-Keeps required (M.remove_proposals commit) u)
            (λ _. check_additions-Keeps (M.add_proposals commit))))
