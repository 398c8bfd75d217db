-- ===== src/Mls/Server/Committed.antt =====
-- svalin_pki/src/mls/server.rs: which commits the server makes.
use svalin.Prelude.{ℕ, ◌≡◌, ◌⊎◌, refl, ap, ◌∙◌, subst, List, [], ◌∷◌, inl, inr}
use svalin.Prelude.Result.{Result, Done, ok, err, panicked}
use svalin.Bytes.{Bytes}
use svalin.Platform.{SpkiHash}
use svalin.Verifier.{Verifier}
use svalin.Mls.GroupId.{Hex, SvalinGroupId, to_group_id}
use svalin.Mls.OpenMls.{OpenMls, PublicGroups}
use svalin.Mls.Call.{MlsError, Call, given}
use svalin.Mls.Call.Laws.{resume-leaves}
use svalin.Mls.Harness.{KeyRetriever, check_commit}
use svalin.Mls.Harness.Laws.{IsAllowed, check_commit_iff}
use svalin.Mls.Harness.Keeps.{check_commit-Keeps}
use svalin.Mls.Transport.{add_bytes}
use svalin.Mls.PublicProcessor.{
  PublicProcessor, ProcessedMessage, ProcessedContent, unknown, commit_content, commit,
}
use svalin.Mls.PublicProcessor.Laws.{
  Quiet, Quiet-trans, Quiet-refl, get_member-Quiet, asked, IsKept,
}
use svalin.Mls.Server.Stored.{harness}
use svalin.Mls.Server.{if_checked, handle_content, make_addition, handle_addition, to_send}

list_cases {ℓ} : {A : Type ℓ} (l : List A) → (l ≡ []) ⊎ ((a : A) × (rest : List A) × (l ≡ a ∷ rest))
list_cases [] = inl refl
list_cases (a ∷ rest) = inr (a, rest, refl)

content_cases :
    {M : OpenMls} (c : ProcessedContent M)
    → (c ≡ unknown) ⊎ ((staged : M.StagedCommit) × (c ≡ commit_content staged))
content_cases unknown = inl refl
content_cases (commit_content staged) = inr (staged, refl)

module _ {M : OpenMls} (G : PublicGroups M) (hex : Hex) (retriever : KeyRetriever M)
    (verifier : Verifier) (now : ℕ) where
  -- An allowed commit was made, on the groups as they were before.
  abbrev pub IsCommitted :
      SvalinGroupId → M.StagedCommit → PublicProcessor G → PublicProcessor G → Type 0
  IsCommitted id staged p q =
      IsAllowed (harness G hex retriever verifier now) id (asked G p) staged
      × ((u : PublicProcessor G) × Quiet G p u × (q ≡ (commit G (to_group_id hex id) staged u).1))

  -- Of a processed message with the id and the content
  abbrev pub IsCommittedFrom :
      SvalinGroupId → ProcessedContent M → PublicProcessor G → PublicProcessor G → Type 0
  IsCommittedFrom id content p q =
      (staged : M.StagedCommit) × (content ≡ commit_content staged) × IsCommitted id staged p q

  checked-Quiet :
      (id : SvalinGroupId) (staged : M.StagedCommit) (q : PublicProcessor G)
      → Quiet G q (check_commit (harness G hex retriever verifier now) id staged q).1
  checked-Quiet id staged q =
      check_commit-Keeps (harness G hex retriever verifier now) id (Quiet G) (Quiet-trans G)
        (Quiet-refl G) (get_member-Quiet G) staged q

  checked-IsAllowed :
      (id : SvalinGroupId) (staged : M.StagedCommit) (p q : PublicProcessor G)
      → asked G q ≡ asked G p
      → (check_commit (harness G hex retriever verifier now) id staged q).0 ≡ ok tt
      → IsAllowed (harness G hex retriever verifier now) id (asked G p) staged
  checked-IsAllowed id staged p q same h =
      subst (λ ask. IsAllowed (harness G hex retriever verifier now) id ask staged) same
        ((check_commit_iff (harness G hex retriever verifier now) id
            (λ j i t. (get_member-Quiet G j i t).1) staged q).0
          h)

  -- `made` makes the commit or changes nothing, and `left` changes nothing.
  module _ {A : Type 0} (made left : Call (PublicProcessor G) A) (id : SvalinGroupId)
      (staged : M.StagedCommit) (left_is : (t : PublicProcessor G) → (left t).1 ≡ t)
      (made_is : (t : PublicProcessor G)
        → ((made t).1 ≡ t) ⊎ ((made t).1 ≡ (commit G (to_group_id hex id) staged t).1)) where
    if_checked-IsCommitted :
        (p u : PublicProcessor G) (r : Result MlsError Done)
        → Quiet G p u
        → (r ≡ ok tt → IsAllowed (harness G hex retriever verifier now) id (asked G p) staged)
        → IsKept G p (if_checked G hex retriever verifier now made left r u).1
          ⊎ IsCommitted id staged p (if_checked G hex retriever verifier now made left r u).1
    if_checked-IsCommitted p u (ok _) quiet k = elim (made_is u) [
      | inl kept ↦ inl (ap (λ t. t.storage) kept ∙ quiet.0)
      | inr done ↦ inr (k refl, (u, quiet, done))
    ]
    if_checked-IsCommitted p u (err e) quiet k = inl (ap (λ t. t.storage) (left_is u) ∙ quiet.0)
    if_checked-IsCommitted p u panicked quiet k = inl quiet.0

    checked-IsCommitted :
        (p q : PublicProcessor G) (content : ProcessedContent M)
        → content ≡ commit_content staged
        → Quiet G p q
        → IsKept G p
            (if_checked G hex retriever verifier now made left
              (check_commit (harness G hex retriever verifier now) id staged q).0
              (check_commit (harness G hex retriever verifier now) id staged q).1).1
          ⊎ IsCommittedFrom id content p
              (if_checked G hex retriever verifier now made left
                (check_commit (harness G hex retriever verifier now) id staged q).0
                (check_commit (harness G hex retriever verifier now) id staged q).1).1
    checked-IsCommitted p q content is quiet =
        elim (if_checked-IsCommitted p
          (check_commit (harness G hex retriever verifier now) id staged q).1
          (check_commit (harness G hex retriever verifier now) id staged q).0
          (Quiet-trans G p q _ quiet (checked-Quiet id staged q))
          (checked-IsAllowed id staged p q quiet.1)) [
            | inl kept ↦ inl kept
            | inr done ↦ inr (staged, is, done)
          ]

  pub handle_content-IsCommitted :
      (id : SvalinGroupId) (content : ProcessedContent M) (p q : PublicProcessor G)
      → Quiet G p q
      → IsKept G p (handle_content G hex retriever verifier now id content q).1
        ⊎ IsCommittedFrom id content p (handle_content G hex retriever verifier now id content q).1
  unfolding handle_content
  handle_content-IsCommitted id unknown p q quiet = inl quiet.0
  handle_content-IsCommitted id (commit_content staged) p q quiet =
      elim (list_cases (M.add_proposals staged)) [
        | inl none_added ↦
            rw (none_added, handle_content)
              (checked-IsCommitted (commit G (to_group_id hex id) staged) (given (ok tt)) id staged
                (λ t. refl) (λ t. inr refl) p q (commit_content staged) refl quiet)
        | inr (add, rest, added) ↦ rw (added, handle_content) (inl quiet.0)
      ]

  make_addition-state :
      (id : SvalinGroupId) (staged : M.StagedCommit) (receivers : List SpkiHash)
      (commit_bytes welcome : Bytes) (t : PublicProcessor G)
      → ((make_addition G hex retriever verifier now id staged receivers commit_bytes welcome t).1
          ≡ t)
        ⊎ ((make_addition G hex retriever verifier now id staged receivers commit_bytes welcome t).1
            ≡ (commit G (to_group_id hex id) staged t).1)
  unfolding make_addition
  make_addition-state id staged receivers commit_bytes welcome t =
      let Q =
        λ (q : PublicProcessor G). (q ≡ t) ⊎ (q ≡ (commit G (to_group_id hex id) staged t).1) in
      resume-leaves Q _ _ t (inl refl)
        (λ added _. resume-leaves Q _ _ _ (inr refl) (λ _ _. inr refl))

  pub handle_addition-IsCommitted :
      (id : SvalinGroupId) (processed : ProcessedMessage M) (commit_bytes welcome : Bytes)
      (p q : PublicProcessor G)
      → Quiet G p q
      → IsKept G p
          (handle_addition G hex retriever verifier now id processed commit_bytes welcome q).1
        ⊎ IsCommittedFrom id processed.content p
            (handle_addition G hex retriever verifier now id processed commit_bytes welcome q).1
  unfolding handle_addition
  handle_addition-IsCommitted id processed commit_bytes welcome p q quiet =
      elim (content_cases processed.content) [
        | inl e ↦ rw (e, handle_addition) (inl quiet.0)
        | inr (staged, e) ↦
            rw (e, handle_addition)
              (checked-IsCommitted
                (make_addition G hex retriever verifier now id staged processed.receivers
                  commit_bytes welcome)
                (given (
                  ok (
                    to_send G hex retriever verifier now processed.receivers
                      (add_bytes commit_bytes)
                    ∷ [])))
                id staged (λ t. refl)
                (make_addition-state id staged processed.receivers commit_bytes welcome) p q
                (commit_content staged) refl quiet)
      ]
