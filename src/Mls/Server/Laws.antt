-- ===== src/Mls/Server/Laws.antt =====
-- svalin_pki/src/mls/server.rs: a change to the stored groups is an authorised one.
use svalin.Prelude.{ℕ, ◌≡◌, ◌⊎◌, refl, inl, inr}
use svalin.Prelude.Result.{ok}
use svalin.Verifier.{Verifier}
use svalin.Mls.GroupId.{Hex, SvalinGroupId}
use svalin.Mls.OpenMls.{OpenMls, PublicGroups}
use svalin.Mls.Call.Laws.{resume-leaves}
use svalin.Mls.Harness.{KeyRetriever}
use svalin.Mls.Transport.{
  NewGroup, Wire, MessageToServer, MessageToServerTransport, received_message, received_group,
  received_addition, unpack,
}
use svalin.Mls.PublicProcessor.{
  PublicProcessor, ProcessedMessage, ProcessedContent, unknown, commit_content, deserialize_all,
  check_group, add_group, get_member, commit, store_group,
}
use svalin.Mls.PublicProcessor
use svalin.Mls.PublicProcessor.Laws.{process_message-Quiet, IsKept}
use svalin.Mls.Server.Stored.{NamesGroups, IsStored, add_device_group-IsStored}
use svalin.Mls.Server.Committed.{
  IsCommittedFrom, handle_content-IsCommitted, handle_addition-IsCommitted,
}
use svalin.Mls.Server.{
  parse_id, add_device_group, handle_content, handle_add_to_group, process_unpacked,
  process_message,
}

module _ {M : OpenMls} (G : PublicGroups M) (hex : Hex) (retriever : KeyRetriever M)
    (verifier : Verifier) (now : ℕ) where
  -- The message carries a message of a group, with or without a welcome.
  abbrev pub Carries : MessageToServer M G.GroupInfo → M.ProtocolMessage → Type 0
  Carries (received_message raw m) message = m ≡ message
  Carries (received_group new_group) message = ⊥
  Carries (received_addition m commit_bytes welcome) message = m ≡ message

  -- Nothing was stored; or the group of the message was stored, which is one for a device and has the
  -- required members; or the commit of the message was made, which is allowed.
  abbrev pub IsAuthorised :
      MessageToServer M G.GroupInfo → PublicProcessor G → PublicProcessor G → Type 0
  IsAuthorised unpacked p q =
      IsKept G p q
      ⊎ ((new_group : NewGroup G.GroupInfo) × (unpacked ≡ received_group new_group)
          × IsStored G hex retriever verifier now new_group p q)
      ⊎ ((message : M.ProtocolMessage) × (processed : ProcessedMessage M) × (id : SvalinGroupId)
          × Carries unpacked message
          × ((PublicProcessor.process_message G message p).0 ≡ ok processed)
          × (parse_id G hex retriever verifier now processed.group_id ≡ ok id)
          × IsCommittedFrom G hex retriever verifier now id processed.content p q)

  process_unpacked-IsAuthorised :
      NamesGroups G
      → (unpacked : MessageToServer M G.GroupInfo) (p : PublicProcessor G)
      → IsAuthorised unpacked p (process_unpacked G hex retriever verifier now unpacked p).1
  unfolding process_unpacked handle_add_to_group
  process_unpacked-IsAuthorised names (received_message raw m) p =
      let Q = λ (q : PublicProcessor G). IsAuthorised (received_message raw m) p q in
      let quiet = process_message-Quiet G m p in
      resume-leaves Q _ _ _ (inl quiet.0) (λ processed e1.
        resume-leaves Q _ _ _ (inl quiet.0) (λ id e2.
          let handled : Q
              (handle_content G hex retriever verifier now id processed.content
                (PublicProcessor.process_message G m p).1).1 =
            elim (handle_content-IsCommitted G hex retriever verifier now id processed.content p _
              quiet) [
                | inl kept ↦ inl kept
                | inr done ↦ inr (inr (m, processed, id, refl, e1, e2, done))
              ] in
          resume-leaves Q _ _ _ handled (λ _ _. handled)))
  process_unpacked-IsAuthorised names (received_group new_group) p =
      let Q = λ (q : PublicProcessor G). IsAuthorised (received_group new_group) p q in
      let added : Q (add_device_group G hex retriever verifier now new_group p).1 =
        elim (add_device_group-IsStored G hex retriever verifier now new_group p names) [
          | inl kept ↦ inl kept
          | inr stored ↦ inr (inl (new_group, refl, stored))
        ] in
      resume-leaves Q _ _ _ added (λ _ _. added)
  process_unpacked-IsAuthorised names (received_addition m commit_bytes welcome) p =
      let Q =
        λ (q : PublicProcessor G). IsAuthorised (received_addition m commit_bytes welcome) p q in
      let quiet = process_message-Quiet G m p in
      resume-leaves Q _ _ _ (inl quiet.0) (λ processed e1.
        resume-leaves Q _ _ _ (inl quiet.0) (λ id e2.
          elim (handle_addition-IsCommitted G hex retriever verifier now id processed commit_bytes
            welcome p _ quiet) [
              | inl kept ↦ inl kept
              | inr done ↦ inr (inr (m, processed, id, refl, e1, e2, done))
            ]))

  -- A group that OpenMLS makes from a group info has the id in it. Then processing a message that is
  -- read leaves the stored groups as they were, or stores the group of the message, whose id is that of
  -- a device group or a device meta group, never the global group's, the device having a verified agent
  -- certificate, and which has exactly the required members, or makes the commit of the message, which
  -- passes the check. A message that is not read changes nothing.
  pub process_message-IsAuthorised :
      NamesGroups G
      → (wire : Wire M G.GroupInfo) (message : MessageToServerTransport) (p : PublicProcessor G)
      → ((process_message G hex retriever verifier now wire message p).1 ≡ p)
        ⊎ ((unpacked : MessageToServer M G.GroupInfo) × (unpack wire message ≡ ok unpacked)
            × IsAuthorised unpacked p
                (process_message G hex retriever verifier now wire message p).1)
  unfolding process_message
  process_message-IsAuthorised names wire message p =
      let Q = λ (q : PublicProcessor G).
        (q ≡ p)
        ⊎ ((unpacked : MessageToServer M G.GroupInfo) × (unpack wire message ≡ ok unpacked)
            × IsAuthorised unpacked p q) in
      resume-leaves Q _ _ p (inl refl)
        (λ unpacked e. inr (unpacked, e, process_unpacked-IsAuthorised names unpacked p))
