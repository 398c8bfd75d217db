-- ===== src/Mls/Harness/Laws.antt =====
-- svalin_pki/src/mls/harness.rs: which commits are accepted.
use svalin.Prelude.{ℕ, ◌≡◌, subst, ◌↔◌, refl, sym, ap, ◌∙◌, false, some, List, [], ◌∷◌}
use svalin.Prelude.Lists.{All}
use svalin.Prelude.Result.{Result, ok, ok_or_iff, fail_if_iff}
use svalin.Bytes.{Bytes}
use svalin.HashMap.Defs.{contains}
use svalin.Platform.{SpkiHash}
use svalin.Certificate.Kind.{CertificateType, root, user, user_session, agent, server, temporary}
use svalin.Certificate.Defs.{Certificate}
use svalin.Mls.GroupId.{SvalinGroupId, to_group_id}
use svalin.Mls.OpenMls.{OpenMls, Sender, member, not_a_member, RemoveProposal, AddProposal}
use svalin.Mls.Call.{MlsError}
use svalin.Mls.Call.Laws.{resume_iff}
use svalin.Mls.Harness.Keeps.{
  verify_credentials-Keeps, check_sender-Keeps, check_removal-Keeps, check_removals-Keeps,
  check_addition-Keeps,
}
use svalin.Mls.KeyPackage
use svalin.Mls.KeyPackage.{KeyPackage}
use svalin.Mls.Harness.{
  Harness, check_edit_allowed, check_member_type, verify_spki_hash, verify_credentials,
  check_sender, check_removal, check_removals, check_addition, check_additions, check_commit,
}

-- The types whose holders change a group, and those that can be added to one.
abbrev pub Edits : CertificateType → Type 0
Edits root = Unit
Edits user = Unit
Edits user_session = Unit
Edits other = ⊥

abbrev pub Joins : CertificateType → Type 0
Joins user = Unit
Joins user_session = Unit
Joins other = ⊥

check_edit_allowed_iff : (t : CertificateType) → (check_edit_allowed t ≡ ok tt) ↔ Edits t
unfolding check_edit_allowed
check_edit_allowed_iff root = (λ _. tt, λ _. refl)
check_edit_allowed_iff user = (λ _. tt, λ _. refl)
check_edit_allowed_iff user_session = (λ _. tt, λ _. refl)
check_edit_allowed_iff agent = (λ e. absurd (cc), λ h. absurd h)
check_edit_allowed_iff server = (λ e. absurd (cc), λ h. absurd h)
check_edit_allowed_iff temporary = (λ e. absurd (cc), λ h. absurd h)

check_member_type_iff : (t : CertificateType) → (check_member_type t ≡ ok tt) ↔ Joins t
check_member_type_iff root = (λ e. absurd (cc), λ h. absurd h)
check_member_type_iff user = (λ _. tt, λ _. refl)
check_member_type_iff user_session = (λ _. tt, λ _. refl)
check_member_type_iff agent = (λ e. absurd (cc), λ h. absurd h)
check_member_type_iff server = (λ e. absurd (cc), λ h. absurd h)
check_member_type_iff temporary = (λ e. absurd (cc), λ h. absurd h)

-- What a processor answers about the leaves of its groups.
abbrev pub Answers : Type 0
Answers = Bytes → ℕ → Result MlsError SpkiHash

module _ {M : OpenMls} {S : Type 0} (harness : Harness M S) (id : SvalinGroupId) where
  abbrev pub answers : S → Answers
  answers s group index = (harness.get_member group index s).0

  -- The hash is that of a certificate that the verifier accepts.
  abbrev pub IsVerified : M.Credential → Type 0
  IsVerified credential =
      (k : SpkiHash) × (cert : Certificate) × (M.deserialized credential ≡ some k)
      × (verify_spki_hash harness k ≡ ok cert)

  -- The sender is a member of the group with a certificate that changes groups.
  abbrev pub IsEditor : Answers → Sender → Type 0
  IsEditor ask not_a_member = ⊥
  IsEditor ask (member index) =
      (k : SpkiHash) × (cert : Certificate) × (ask (to_group_id harness.hex id) index ≡ ok k)
      × (verify_spki_hash harness k ≡ ok cert)
      × Edits cert.certificate_type

  abbrev pub IsRemovable : List SpkiHash → Answers → RemoveProposal → Type 0
  IsRemovable required ask p =
      IsEditor ask p.sender
      × ((k : SpkiHash) × (ask (to_group_id harness.hex id) p.removed ≡ ok k)
          × (contains k required ≡ false))

  abbrev pub IsAddable : Answers → AddProposal M.KeyPackage → Type 0
  IsAddable ask p =
      IsEditor ask p.sender
      × ((verified : KeyPackage M) × (KeyPackage.verify_package M harness.verifier harness.now
              (M.into_unverified p.key_package)
            ≡ ok verified)
          × Joins verified.certificate.certificate_type)

  -- What is asked of a commit
  abbrev pub IsAllowed : Answers → M.StagedCommit → Type 0
  IsAllowed ask commit =
      All IsVerified (M.credentials_to_verify commit)
      × ((required : List SpkiHash) × (harness.key_retriever.get_required_group_members id
            ≡ some required)
          × All (IsRemovable required ask) (M.remove_proposals commit)
          × All (IsAddable ask) (M.add_proposals commit))

  verify_credentials_iff :
      (l : List M.Credential) (s : S)
      → ((verify_credentials harness l s).0 ≡ ok tt) ↔ All IsVerified l
  unfolding verify_credentials
  verify_credentials_iff [] s = (λ _. tt, λ _. refl)
  verify_credentials_iff (c ∷ l) s = (
    λ e.
        let (k, a, e1) = (resume_iff _ _ s _).0 e in
        let (cert, b, e2) = (resume_iff _ _ s _).0 e1 in
        ((k, cert, (ok_or_iff _ _ k).0 a, b), (verify_credentials_iff l s).0 e2),
    λ h.
        let (k, cert, a, b) = h.0 in
        (resume_iff _ _ s _).1 (
          k,
          (ok_or_iff _ _ k).1 a,
          (resume_iff _ _ s _).1 (cert, b, (verify_credentials_iff l s).1 h.1),
        ),
  )

  check_sender_iff :
      (sender : Sender) (s : S)
      → ((check_sender harness id sender s).0 ≡ ok tt) ↔ IsEditor (answers s) sender
  unfolding check_sender
  check_sender_iff not_a_member s = (λ e. absurd (cc), λ h. absurd h)
  check_sender_iff (member index) s = (
    λ e.
        let (k, a, e1) = (resume_iff _ _ _ _).0 e in
        let (cert, b, e2) = (resume_iff _ _ _ _).0 e1 in
        (k, cert, a, b, (check_edit_allowed_iff cert.certificate_type).0 e2),
    λ h.
        let (k, cert, a, b, c) = h in
        (resume_iff _ _ _ _).1 (
          k,
          a,
          (resume_iff _ _ _ _).1 (cert, b, (check_edit_allowed_iff cert.certificate_type).1 c),
        ),
  )

  module _
      (steady : (group : Bytes) (index : ℕ) (s : S)
        → answers (harness.get_member group index s).1 ≡ answers s) where
    abbrev Steady : S → S → Type 0
    Steady s t = answers t ≡ answers s

    Steady-trans : (s t u : S) → Steady s t → Steady t u → Steady s u
    Steady-trans s t u h k = k ∙ h

    moved :
        {C : Type 0} (P : Answers → Type 0) (s t : S)
        → Steady s t
        → C ↔ P (answers t)
        → C ↔ P (answers s)
    moved {C} P s t same h = subst (λ ask. C ↔ P ask) same h

    check_removal_iff :
        (required : List SpkiHash) (p : RemoveProposal) (s : S)
        → ((check_removal harness id required p s).0 ≡ ok tt) ↔ IsRemovable required (answers s) p
    unfolding check_removal
    check_removal_iff required p s =
        let same : (harness.get_member (to_group_id harness.hex id) p.removed
              (check_sender harness id p.sender s).1).0
            ≡ answers s (to_group_id harness.hex id) p.removed =
          ap (λ ask. ask (to_group_id harness.hex id) p.removed)
            (check_sender-Keeps harness id Steady Steady-trans (λ t. refl) steady p.sender s) in
        (
          λ e.
              let (_, a, e1) = (resume_iff _ _ _ _).0 e in
              let (k, b, e2) = (resume_iff _ _ _ _).0 e1 in
              ((check_sender_iff p.sender s).0 a, (k, sym same ∙ b, (fail_if_iff _ _).0 e2)),
          λ h.
              let (k, b, c) = h.1 in
              (resume_iff _ _ _ _).1 (
                tt,
                (check_sender_iff p.sender s).1 h.0,
                (resume_iff _ _ _ _).1 (k, same ∙ b, (fail_if_iff _ _).1 c),
              ),
        )

    check_addition_iff :
        (p : AddProposal M.KeyPackage) (s : S)
        → ((check_addition harness id p s).0 ≡ ok tt) ↔ IsAddable (answers s) p
    unfolding check_addition
    check_addition_iff p s = (
      λ e.
          let (_, a, e1) = (resume_iff _ _ _ _).0 e in
          let (v, b, e2) = (resume_iff _ _ _ _).0 e1 in
          (
            (check_sender_iff p.sender s).0 a,
            (v, b, (check_member_type_iff v.certificate.certificate_type).0 e2),
          ),
      λ h.
          let (v, b, c) = h.1 in
          (resume_iff _ _ _ _).1 (
            tt,
            (check_sender_iff p.sender s).1 h.0,
            (resume_iff _ _ _ _).1
                (v, b, (check_member_type_iff v.certificate.certificate_type).1 c),
          ),
    )

    check_removals_iff :
        (required : List SpkiHash) (l : List RemoveProposal) (s : S)
        → ((check_removals harness id required l s).0 ≡ ok tt)
          ↔ All (IsRemovable required (answers s)) l
    unfolding check_removals
    check_removals_iff required [] s = (λ _. tt, λ _. refl)
    check_removals_iff required (p ∷ l) s =
        let rest =
          moved (λ ask. All (IsRemovable required ask) l) s _
            (check_removal-Keeps harness id Steady Steady-trans (λ t. refl) steady required p s)
            (check_removals_iff required l _) in
        (
          λ e.
              let (_, a, e1) = (resume_iff _ _ _ _).0 e in
              ((check_removal_iff required p s).0 a, rest.0 e1),
          λ h. (resume_iff _ _ _ _).1 (tt, (check_removal_iff required p s).1 h.0, rest.1 h.1),
        )

    check_additions_iff :
        (l : List (AddProposal M.KeyPackage)) (s : S)
        → ((check_additions harness id l s).0 ≡ ok tt) ↔ All (IsAddable (answers s)) l
    unfolding check_additions
    check_additions_iff [] s = (λ _. tt, λ _. refl)
    check_additions_iff (p ∷ l) s =
        let rest =
          moved (λ ask. All (IsAddable ask) l) s _
            (check_addition-Keeps harness id Steady Steady-trans (λ t. refl) steady p s)
            (check_additions_iff l _) in
        (
          λ e.
              let (_, a, e1) = (resume_iff _ _ _ _).0 e in
              ((check_addition_iff p s).0 a, rest.0 e1),
          λ h. (resume_iff _ _ _ _).1 (tt, (check_addition_iff p s).1 h.0, rest.1 h.1),
        )

    -- A commit passes the check exactly if all its credentials are verified, the required members of
    -- the group are known, each member that it removes is not required, each that it adds has a
    -- verified package and is a user or a session, and the sender of each such proposal is a member
    -- whose verified certificate is of the root, a user or a session. It is assumed that asking for a
    -- member does not change what is answered.
    pub check_commit_iff :
        (commit : M.StagedCommit) (s : S)
        → ((check_commit harness id commit s).0 ≡ ok tt) ↔ IsAllowed (answers s) commit
    unfolding check_commit
    check_commit_iff commit s =
        let same =
          verify_credentials-Keeps harness id Steady Steady-trans (λ t. refl) steady
            (M.credentials_to_verify commit) s in
        let removes : (required : List SpkiHash) → _ = λ required.
          moved (λ ask. All (IsRemovable required ask) (M.remove_proposals commit)) s _ same
            (check_removals_iff required (M.remove_proposals commit) _) in
        let adds : (required : List SpkiHash) → _ = λ required.
          moved (λ ask. All (IsAddable ask) (M.add_proposals commit)) s _
            (check_removals-Keeps harness id Steady Steady-trans (λ t. refl) steady required
                (M.remove_proposals commit) _
              ∙ same)
            (check_additions_iff (M.add_proposals commit) _) in
        (
          λ e.
              let (_, a, e1) = (resume_iff _ _ _ _).0 e in
              let (required, b, e2) = (resume_iff _ _ _ _).0 e1 in
              let (_, c, e3) = (resume_iff _ _ _ _).0 e2 in
              (
                (verify_credentials_iff (M.credentials_to_verify commit) s).0 a,
                (required, (ok_or_iff _ _ _).0 b, (removes required).0 c, (adds required).0 e3),
              ),
          λ h.
              let (required, b, c, d) = h.1 in
              (resume_iff _ _ _ _).1 (
                tt,
                (verify_credentials_iff (M.credentials_to_verify commit) s).1 h.0,
                (resume_iff _ _ _ _).1 (
                  required,
                  (ok_or_iff _ _ _).1 b,
                  (resume_iff _ _ _ _).1 (tt, (removes required).1 c, (adds required).1 d),
                ),
              ),
        )
