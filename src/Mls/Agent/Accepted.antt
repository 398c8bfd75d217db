-- ===== src/Mls/Agent/Accepted.antt =====
-- svalin_pki/src/mls/agent.rs: what an agent accepts, and what it does to its group.
use svalin.Prelude.{ℕ, ◌≡◌, ◌⊎◌, refl, subst, inl, inr}
use svalin.Prelude.Tests.{not-false}
use svalin.Prelude.Result.{Result, Done, ok, err, panicked, map_err_iff, fail_if_iff}
use svalin.Platform.{SpkiHash}
use svalin.Verifier.{Verifier}
use svalin.Mls.GroupId.{Hex, device_group}
use svalin.Mls.OpenMls.{OpenMls, MemberGroups}
use svalin.Mls.Call.{MlsError, resume, tls_codec}
use svalin.Mls.Call.Laws.{resume-cases, resume-ok}
use svalin.Mls.Harness.{KeyRetriever, check_commit}
use svalin.Mls.Harness.Keeps.{check_commit-Keeps}
use svalin.Mls.Processor.{Processor, process_message, commit}
use svalin.Mls.Processor.Lookups.{
  IsLookedUp, IsLookedUp-trans, IsLookedUp-refl, get_member-IsLookedUp,
}
use svalin.Mls.Transport.{MessageToMemberTransport}
use svalin.Mls.Unpack.{
  MessageToMember, welcome, group_message, add_to_group, MemberWire, unpack_to_member,
  unpack_to_member-cases,
}
use svalin.Mls.Client.Accepted.{harness}
use svalin.Mls.Client.Steps.{IfOk, IsMade}
use svalin.Mls.Agent.Laws.{id_eq_sound, staged_of-ok}
use svalin.Mls.Agent.{handle_add_to_group, handle_unpacked, handle_message}

module _ {M : OpenMls} (G : MemberGroups M) (hex : Hex) (retriever : KeyRetriever M)
    (verifier : Verifier) (now : ℕ) (me : SpkiHash) where
  -- The commit of the message, which is to the agent's group and passes the check, was made.
  abbrev pub IsOwn : M.ProtocolMessage → Processor G → Processor G → Type 0
  IsOwn message p q = IsMade G hex retriever verifier now (device_group me) message p q

  handle_add_to_group-IsOwn :
      (message : M.ProtocolMessage) (p : Processor G)
      → IfOk
          (λ _. IsOwn message p (handle_add_to_group G hex retriever verifier now me message p).1)
          (IsLookedUp G
              (process_message G message p).1
              (handle_add_to_group G hex retriever verifier now me message p).1
            ⊎ IsOwn message p (handle_add_to_group G hex retriever verifier now me message p).1)
          (handle_add_to_group G hex retriever verifier now me message p).0
  unfolding handle_add_to_group
  handle_add_to_group-IsOwn message p =
      let p' = (process_message G message p).1 in
      let Q = λ (o : Result MlsError Done × Processor G).
        IfOk (λ _. IsOwn message p o.1) (IsLookedUp G p' o.1 ⊎ IsOwn message p o.1) o.0 in
      let none_made = IsLookedUp-refl G p' in
      resume-cases Q _ _ p' (λ _ _. inl none_made) (λ _. inl none_made)
        (λ processed e1.
          resume-cases Q _ _ p' (λ _ _. inl none_made) (λ _. inl none_made)
            (λ id e2.
              resume-cases Q _ _ p' (λ _ _. inl none_made) (λ _. inl none_made)
                (λ staged e3.
                  resume-cases Q _ _ p' (λ _ _. inl none_made) (λ _. inl none_made)
                    (λ _ e4.
                      let mine : id ≡ device_group me =
                        id_eq_sound id (device_group me) (not-false _ ((fail_if_iff _ _).0 e4)) in
                      let looked =
                        check_commit-Keeps (harness G hex retriever verifier now) id (IsLookedUp G)
                          (IsLookedUp-trans G) (IsLookedUp-refl G) (get_member-IsLookedUp G) staged
                          p' in
                      resume-cases Q _ _ _ (λ _ _. inl looked) (λ _. inl looked)
                        (λ _ e5.
                          committed
                            (commit G staged
                              (check_commit (harness G hex retriever verifier now) id staged
                                p').1).0
                            _
                            (subst
                              (λ i.
                                IsMade G hex retriever verifier now i message p
                                  (commit G staged
                                    (check_commit (harness G hex retriever verifier now) id staged
                                      p').1).1)
                              mine
                              (
                                processed,
                                staged,
                                e1,
                                (map_err_iff _ _ _).0 e2,
                                staged_of-ok processed.content staged e3,
                                e5,
                                refl,
                              )))))))
    where
      committed :
          (r : Result MlsError Done) (q : Processor G)
          → IsOwn message p q
          → IfOk
              (λ _. IsOwn message p q)
              (IsLookedUp G (process_message G message p).1 q ⊎ IsOwn message p q)
              r
      committed (ok _) q made = made
      committed (err e) q made = inr made
      committed panicked q made = inr made

  -- What the result says, and what was done to the groups
  abbrev pub IsAccepted :
      MessageToMember M G.Welcome → Processor G → Result MlsError Done × Processor G → Type 0
  IsAccepted (welcome _) p o = o ≡ (panicked, p)
  IsAccepted (group_message _) p o = o ≡ (panicked, p)
  IsAccepted (add_to_group message) p (r, q) =
      IfOk (λ _. IsOwn message p q)
        (IsLookedUp G (process_message G message p).1 q ⊎ IsOwn message p q) r

  handle_unpacked-IsAccepted :
      (unpacked : MessageToMember M G.Welcome) (p : Processor G)
      → IsAccepted unpacked p (handle_unpacked G hex retriever verifier now me unpacked p)
  unfolding handle_unpacked
  handle_unpacked-IsAccepted (welcome _) p = refl
  handle_unpacked-IsAccepted (group_message _) p = refl
  handle_unpacked-IsAccepted (add_to_group message) p = handle_add_to_group-IsOwn message p

  -- An agent that is sent a message that it cannot read fails and changes nothing, and one that is sent
  -- an invitation or a group message panics and changes nothing. Of the messages that add members, it
  -- makes only the commit of one to its own group that passes the check, and its call succeeds only
  -- then; before that, only OpenMLS's processing of the message and the looking up of groups change its
  -- state.
  pub handle_message-IsAccepted :
      (wire : MemberWire M G.Welcome) (message : MessageToMemberTransport) (p : Processor G)
      → ((unpack_to_member wire message ≡ err tls_codec)
          × (handle_message G hex retriever verifier now me wire message p ≡ (err tls_codec, p)))
        ⊎ ((unpacked : MessageToMember M G.Welcome) × (unpack_to_member wire message ≡ ok unpacked)
            × IsAccepted unpacked p (handle_message G hex retriever verifier now me wire message p))
  unfolding handle_message resume
  handle_message-IsAccepted wire message p = elim (unpack_to_member-cases wire message) [
    | inr failed ↦ inl (failed, rw failed refl)
    | inl (unpacked, read) ↦
        inr (
          unpacked,
          read,
          rw (resume-ok _ _ p unpacked read) (handle_unpacked-IsAccepted unpacked p),
        )
  ]
