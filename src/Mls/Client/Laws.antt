-- ===== src/Mls/Client/Laws.antt =====
-- svalin_pki/src/mls/client.rs: what a client accepts, and what it does to its groups.
use svalin.Prelude.{ℕ, ◌≡◌, ◌⊎◌, refl, sym, subst, ap, ◌∙◌, Option, some, inl, inr}
use svalin.Prelude.Result.{Result, ok, err, panicked, map_err, ok_or, map_err_iff, ok_or_iff}
use svalin.Bytes.{Bytes}
use svalin.Platform.{SpkiHash}
use svalin.Verifier.{Verifier}
use svalin.Mls.GroupId.{Hex, SvalinGroupId, from_group_id}
use svalin.Mls.OpenMls.{OpenMls, MemberGroups}
use svalin.Mls.Call.{MlsError, resume, tls_codec, group_id_error, postcard}
use svalin.Mls.Call.Laws.{resume-cases, resume-ok}
use svalin.Mls.Harness.{KeyRetriever}
use svalin.Mls.Processor.{Processor, message_content, MemberMessage, process_message}
use svalin.Mls.Transport.{MessageToMemberTransport}
use svalin.Mls.Unpack.{
  MessageToMember, welcome, group_message, add_to_group, MemberWire, unpack_to_member,
  unpack_to_member-cases,
}
use svalin.Mls.Client.Accepted.{IsSent, deliver-IsSent, bytes_of-ok}
use svalin.Mls.Client.{
  SvalinMessage, MessageData, internal, deliver, bytes_of, handle_group_message, handle_unpacked,
  handle_message, internal_data,
}
use svalin.Mls.Client.Steps.{
  IfOk, give-IfOk, IsJoined, IsNotJoined, IsMade, IsNotMade, handle_welcome-IsJoined,
  handle_add_to_group-IsMade,
}

module _ {M : OpenMls} (G : MemberGroups M) (hex : Hex) (retriever : KeyRetriever M)
    (verifier : Verifier) (now : ℕ) where
  module _ {Report MetaInfo : Type 0}
      (decode : Bytes → Option (SvalinMessage Report MetaInfo)) where
    -- The message was encrypted by a member of the group, for which its content is meant.
    abbrev pub IsMessage : M.ProtocolMessage → MessageData Report MetaInfo → Processor G → Type 0
    IsMessage message out p =
        (processed : MemberMessage M) × (bytes : Bytes) × (sent : SvalinMessage Report MetaInfo)
        × ((process_message G message p).0 ≡ ok processed)
        × (from_group_id hex processed.group_id ≡ ok out.group)
        × (processed.content ≡ message_content bytes)
        × (decode bytes ≡ some sent)
        × IsSent out.group processed.sender sent out.content

    handle_group_message-IsMessage :
        (me : SpkiHash) (message : M.ProtocolMessage) (p : Processor G)
        → ((handle_group_message G hex retriever verifier now me decode message p).1
            ≡ (process_message G message p).1)
          × IfOk
              (λ out. IsMessage message out p)
              Unit
              (handle_group_message G hex retriever verifier now me decode message p).0
    unfolding handle_group_message
    handle_group_message-IsMessage me message p =
        let p' = (process_message G message p).1 in
        let Q = λ (o : Result MlsError (MessageData Report MetaInfo) × Processor G).
          (o.1 ≡ p') × IfOk (λ out. IsMessage message out p) Unit o.0 in
        resume-cases Q _ _ p' (λ _ _. (refl, tt)) (λ _. (refl, tt))
          (λ processed e1.
            resume-cases Q _ _ p' (λ _ _. (refl, tt)) (λ _. (refl, tt))
              (λ id e2.
                resume-cases Q _ _ p' (λ _ _. (refl, tt)) (λ _. (refl, tt))
                  (λ bytes e3.
                    resume-cases Q _ _ p' (λ _ _. (refl, tt)) (λ _. (refl, tt))
                      (λ sent e4. (
                        refl,
                        delivered id processed bytes sent e1 e2 e3 e4
                            (deliver id processed.sender sent) refl,
                      )))))
      where
        delivered :
            (id : SvalinGroupId) (processed : MemberMessage M) (bytes : Bytes)
            (sent : SvalinMessage Report MetaInfo)
            → (process_message G message p).0 ≡ ok processed
            → map_err group_id_error (from_group_id hex processed.group_id) ≡ ok id
            → bytes_of processed.content ≡ ok bytes
            → ok_or (decode bytes) postcard ≡ ok sent
            → (r : Result MlsError (MessageData Report MetaInfo))
            → deliver id processed.sender sent ≡ r
            → IfOk (λ out. IsMessage message out p) Unit r
        delivered id processed bytes sent e1 e2 e3 e4 (ok out) e =
            let (same, is) = deliver-IsSent id processed.sender sent out e in
            (
              processed,
              bytes,
              sent,
              e1,
              (map_err_iff _ _ _).0 e2 ∙ ap ok (sym same),
              bytes_of-ok processed.content bytes e3,
              (ok_or_iff _ _ _).0 e4,
              subst (λ i. IsSent i processed.sender sent out.content) (sym same) is,
            )
        delivered id processed bytes sent e1 e2 e3 e4 (err x) e = tt
        delivered id processed bytes sent e1 e2 e3 e4 panicked e = tt

    -- What the result says, and what was done to the groups
    abbrev pub IsDelivered :
        MessageToMember M G.Welcome
        → Processor G
        → Result MlsError (MessageData Report MetaInfo) × Processor G
        → Type 0
    IsDelivered (welcome invitation) p (r, q) =
        IfOk
          (λ out.
            (out.content ≡ internal)
            × IsJoined G hex retriever verifier now invitation out.group p q)
          (IsNotJoined G hex retriever verifier now invitation p q) r
    IsDelivered (group_message message) p (r, q) =
        (q ≡ (process_message G message p).1) × IfOk (λ out. IsMessage message out p) Unit r
    IsDelivered (add_to_group message) p (r, q) =
        IfOk
          (λ out.
            (out.content ≡ internal) × IsMade G hex retriever verifier now out.group message p q)
          (IsNotMade G hex retriever verifier now message p q) r

    handle_unpacked-IsDelivered :
        (me : SpkiHash) (unpacked : MessageToMember M G.Welcome) (p : Processor G)
        → IsDelivered unpacked p (handle_unpacked G hex retriever verifier now me decode unpacked p)
    unfolding handle_unpacked
    handle_unpacked-IsDelivered me (welcome invitation) p =
        give-IfOk (λ id. IsJoined G hex retriever verifier now invitation id p)
          (IsNotJoined G hex retriever verifier now invitation p)
          (λ out q.
            (out.content ≡ internal)
            × IsJoined G hex retriever verifier now invitation out.group p q)
          (internal_data G hex retriever verifier now me decode) _ _ (λ id joined. (refl, joined))
          (handle_welcome-IsJoined G hex retriever verifier now me invitation p)
    handle_unpacked-IsDelivered me (group_message message) p =
        handle_group_message-IsMessage me message p
    handle_unpacked-IsDelivered me (add_to_group message) p =
        give-IfOk (λ id. IsMade G hex retriever verifier now id message p)
          (IsNotMade G hex retriever verifier now message p)
          (λ out q.
            (out.content ≡ internal) × IsMade G hex retriever verifier now out.group message p q)
          (internal_data G hex retriever verifier now me decode) _ _ (λ id made. (refl, made))
          (handle_add_to_group-IsMade G hex retriever verifier now me message p)

    -- A message that cannot be read is an error and changes nothing. Otherwise a client joins a group
    -- only after the checks, whether the call then succeeds or not: the group is the global one or that
    -- of a device with a verified agent certificate, and no required member is missing in it; before
    -- that, only OpenMLS's reading of the invitation changes its state. It makes only a commit that
    -- passes the check; before that, only OpenMLS's processing of the message and the looking up of
    -- groups change its state. Of the messages of a group, it takes a report only from the device of
    -- the group, and the meta information of a device only in the device's meta group, from any of its
    -- members, and only OpenMLS's processing changes its state.
    pub handle_message-IsDelivered :
        (wire : MemberWire M G.Welcome) (me : SpkiHash) (message : MessageToMemberTransport)
        (p : Processor G)
        → ((unpack_to_member wire message ≡ err tls_codec)
            × (handle_message G hex retriever verifier now me decode wire message p
                ≡ (err tls_codec, p)))
          ⊎ ((unpacked : MessageToMember M G.Welcome) × (unpack_to_member wire message
                ≡ ok unpacked)
              × IsDelivered unpacked p
                  (handle_message G hex retriever verifier now me decode wire message p))
    unfolding handle_message resume
    handle_message-IsDelivered wire me message p = elim (unpack_to_member-cases wire message) [
      | inr failed ↦ inl (failed, rw failed refl)
      | inl (unpacked, read) ↦ inr (
        unpacked,
        read,
        rw (resume-ok _ _ p unpacked read) (handle_unpacked-IsDelivered me unpacked p),
      )
    ]
