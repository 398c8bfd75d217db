-- ===== src/Mls/Client/Steps.antt =====
-- svalin_pki/src/mls/client.rs: when a client joins a group or makes a commit.
use svalin.Prelude.{ℕ, ◌≡◌, ◌⊎◌, refl, true, some, List, inl, inr}
use svalin.Prelude.Tests.{not-false}
use svalin.Prelude.Result.{Result, ok, err, panicked, map_err_iff, fail_if_iff, ok_or_iff}
use svalin.Platform.{SpkiHash}
use svalin.Verifier.{Verifier}
use svalin.Mls.GroupId.{Hex, SvalinGroupId, from_group_id}
use svalin.Mls.OpenMls.{OpenMls, MemberGroups}
use svalin.Mls.Call.{MlsError, given, resume}
use svalin.Mls.Call.Laws.{resume-cases}
use svalin.Mls.Harness.{KeyRetriever, check_commit}
use svalin.Mls.Harness.Keeps.{check_commit-Keeps}
use svalin.Mls.PublicProcessor.{deserialize_all}
use svalin.Mls.Processor.{
  Processor, staged_content, MemberMessage, process_message, stage_join, join_group, commit,
}
use svalin.Mls.Processor.Lookups.{
  IsLookedUp, IsLookedUp-trans, IsLookedUp-refl, get_member-IsLookedUp,
}
use svalin.Mls.Server.{contains_all}
use svalin.Mls.Agent.Laws.{staged_of-ok}
use svalin.Mls.Client.Accepted.{harness, IsAdmitted, check_device-IsAdmitted, check_device-state}
use svalin.Mls.Client.{handle_welcome, handle_add_to_group}

-- One thing of a call that succeeds, another of one that fails
abbrev pub IfOk {ℓ} : {A : Type 0} → (A → Type ℓ) → Type ℓ → Result MlsError A → Type ℓ
IfOk P F (ok a) = P a
IfOk P F (err _) = F
IfOk P F panicked = F

-- A result that is only changed in form leaves the state.
module _ {S A B : Type 0} (P : A → S → Type 0) (F : S → Type 0) (P' : B → S → Type 0) where
  pub give-IfOk :
      (f : A → B) (r : Result MlsError A) (t : S)
      → ((a : A) → P a t → P' (f a) t)
      → IfOk (λ a. P a t) (F t) r
      → IfOk
          (λ b. P' b (resume (λ a. given (ok (f a))) r t).1)
          (F (resume (λ a. given (ok (f a))) r t).1)
          (resume (λ a. given (ok (f a))) r t).0
  unfolding resume
  give-IfOk f (ok a) t k h = k a h
  give-IfOk f (err e) t k h = h
  give-IfOk f panicked t k h = h

module _ {M : OpenMls} (G : MemberGroups M) (hex : Hex) (retriever : KeyRetriever M)
    (verifier : Verifier) (now : ℕ) where
  -- The group of the invitation was joined: it is the global one or that of a verified device, and no
  -- required member is missing in it.
  abbrev pub IsJoined : G.Welcome → SvalinGroupId → Processor G → Processor G → Type 0
  IsJoined invitation id p q =
      (staged : G.StagedWelcome) × (members : List SpkiHash) × (required : List SpkiHash)
      × ((stage_join G invitation p).0 ≡ ok staged)
      × (from_group_id hex (G.staged_group_id staged) ≡ ok id)
      × IsAdmitted G hex retriever verifier now id
      × (retriever.get_required_group_members id ≡ some required)
      × (deserialize_all M (G.staged_members staged) ≡ ok members)
      × (contains_all members required ≡ true)
      × (q ≡ (join_group G staged (stage_join G invitation p).1).1)

  -- The invitation was read by OpenMLS, or the group was joined and that failed.
  abbrev pub IsNotJoined : G.Welcome → Processor G → Processor G → Type 0
  IsNotJoined invitation p q =
      (q ≡ (stage_join G invitation p).1) ⊎ ((id : SvalinGroupId) × IsJoined invitation id p q)

  pub handle_welcome-IsJoined :
      (me : SpkiHash) (invitation : G.Welcome) (p : Processor G)
      → IfOk
          (λ id.
            IsJoined invitation id p
              (handle_welcome G hex retriever verifier now me invitation p).1)
          (IsNotJoined invitation p (handle_welcome G hex retriever verifier now me invitation p).1)
          (handle_welcome G hex retriever verifier now me invitation p).0
  unfolding handle_welcome
  handle_welcome-IsJoined me invitation p =
      let p' = (stage_join G invitation p).1 in
      let Q = λ (o : Result MlsError SvalinGroupId × Processor G).
        IfOk (λ id. IsJoined invitation id p o.1) (IsNotJoined invitation p o.1) o.0 in
      resume-cases Q _ _ p' (λ _ _. inl refl) (λ _. inl refl)
        (λ staged e1.
          resume-cases Q _ _ p' (λ _ _. inl refl) (λ _. inl refl)
            (λ id e2.
              let same = check_device-state G hex retriever verifier now me id p' in
              resume-cases Q _ _ _ (λ _ _. inl same) (λ _. inl same)
                (λ _ e3.
                  resume-cases Q _ _ _ (λ _ _. inl same) (λ _. inl same)
                    (λ required e4.
                      resume-cases Q _ _ _ (λ _ _. inl same) (λ _. inl same)
                        (λ members e5.
                          resume-cases Q _ _ _ (λ _ _. inl same) (λ _. inl same)
                            (λ _ e6.
                              let joined : IsJoined invitation id p (join_group G staged p').1 = (
                                staged,
                                members,
                                required,
                                e1,
                                (map_err_iff _ _ _).0 e2,
                                check_device-IsAdmitted G hex retriever verifier now me id p' e3,
                                (ok_or_iff _ _ _).0 e4,
                                e5,
                                not-false _ ((fail_if_iff _ _).0 e6),
                                refl,
                              ) in
                              rw same (
                                resume-cases Q _ _ _ (λ _ _. inr (id, joined))
                                  (λ _. inr (id, joined)) (λ _ _. joined))))))))

  -- The commit of the message, which passes the check, was made.
  abbrev pub IsMade : SvalinGroupId → M.ProtocolMessage → Processor G → Processor G → Type 0
  IsMade id message p q =
      (processed : MemberMessage M) × (staged : M.StagedCommit) × ((process_message G message p).0
        ≡ ok processed)
      × (from_group_id hex processed.group_id ≡ ok id)
      × (processed.content ≡ staged_content staged)
      × ((check_commit (harness G hex retriever verifier now) id staged
            (process_message G message p).1).0
          ≡ ok tt)
      × (q
          ≡ (commit G staged
              (check_commit (harness G hex retriever verifier now) id staged
                (process_message G message p).1).1).1)

  -- The message was read by OpenMLS and groups were looked up, or the commit was made and that failed.
  abbrev pub IsNotMade : M.ProtocolMessage → Processor G → Processor G → Type 0
  IsNotMade message p q =
      IsLookedUp G (process_message G message p).1 q
      ⊎ ((id : SvalinGroupId) × IsMade id message p q)

  pub handle_add_to_group-IsMade :
      (me : SpkiHash) (message : M.ProtocolMessage) (p : Processor G)
      → IfOk
          (λ id.
            IsMade id message p (handle_add_to_group G hex retriever verifier now me message p).1)
          (IsNotMade message p (handle_add_to_group G hex retriever verifier now me message p).1)
          (handle_add_to_group G hex retriever verifier now me message p).0
  unfolding handle_add_to_group
  handle_add_to_group-IsMade me message p =
      let p' = (process_message G message p).1 in
      let Q = λ (o : Result MlsError SvalinGroupId × Processor G).
        IfOk (λ id. IsMade id message p o.1) (IsNotMade message p o.1) o.0 in
      let none_made = IsLookedUp-refl G p' in
      resume-cases Q _ _ p' (λ _ _. inl none_made) (λ _. inl none_made)
        (λ processed e1.
          resume-cases Q _ _ p' (λ _ _. inl none_made) (λ _. inl none_made)
            (λ id e2.
              resume-cases Q _ _ p' (λ _ _. inl none_made) (λ _. inl none_made)
                (λ staged e3.
                  let looked =
                    check_commit-Keeps (harness G hex retriever verifier now) id (IsLookedUp G)
                      (IsLookedUp-trans G) (IsLookedUp-refl G) (get_member-IsLookedUp G) staged
                      p' in
                  resume-cases Q _ _ _ (λ _ _. inl looked) (λ _. inl looked)
                    (λ _ e4.
                      let made : IsMade id message p
                          (commit G staged
                            (check_commit (harness G hex retriever verifier now) id staged
                              p').1).1 =
                        (
                          processed,
                          staged,
                          e1,
                          (map_err_iff _ _ _).0 e2,
                          staged_of-ok processed.content staged e3,
                          e4,
                          refl,
                        ) in
                      resume-cases Q _ _ _ (λ _ _. inr (id, made)) (λ _. inr (id, made))
                        (λ _ _. made)))))
