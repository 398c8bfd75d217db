-- ===== src/Messaging/Laws.antt =====
-- svalin/src/message_streaming/server.rs: who is to get what a member has sent.
use svalin.Prelude.{
  ℕ, suc, ◌≤◌, ◌<◌, ◌≡◌, ◌≢◌, ◌⊎◌, refl, sym, subst, ap, ◌∙◌, List, [], ◌∷◌, arith, inl, inr,
}
use svalin.Prelude.Lists.{All, All-map}
use svalin.Prelude.Result.{Result, Done, ok, Result-cases}
use svalin.Platform.{SpkiHash}
use svalin.Verifier.{Verifier}
use svalin.ServerStore.Messages.{MessageCodec, pending}
use svalin.ServerStore.Subscriptions.{Channels}
use svalin.Mls.GroupId.{Hex}
use svalin.Mls.OpenMls.{OpenMls, PublicGroups}
use svalin.Mls.Call.{MlsError}
use svalin.Mls.Harness.{KeyRetriever}
use svalin.Mls.Transport.{
  Wire, MessageToServerTransport, MessageToMemberTransport, MessageToSend, remove_receiver,
  retain_others,
}
use svalin.Mls.PublicProcessor.{PublicProcessor}
use svalin.Mls.Server.{process_message}
use svalin.Messaging.Rows.{
  rows, pending-All, and_then-cases, store_message-sender, store_message-le, store_message-groups,
  store_message-cases,
}
use svalin.Messaging.Table.{IsWritten, message_table, store_message-IsWritten, store_messages-IsIn}
use svalin.Messaging.{
  MlsMessageHandler, MlsHandleError, store_message, store_messages, handle_mls_message,
}

module _ {M : OpenMls} (G : PublicGroups M) (codec : MessageCodec MessageToMemberTransport)
    (channels : Channels) (now : ℕ) where
  -- The messages are in the table, and stand for their receivers but the sender.
  abbrev pub IsHanded : (ℕ → ℕ) → ℕ → SpkiHash → List MessageToSend → MlsMessageHandler G → Type 0
  IsHanded ids n sender [] t = Unit
  IsHanded ids n sender (m ∷ rest) t =
      IsWritten G codec channels now (ids n) m (message_table t)
      × All (λ k. 0 < pending (ids n) k (rows t)) (retain_others sender m.receivers)
      × IsHanded ids (suc n) sender rest t

  store_messages-sender :
      (ids : ℕ → ℕ) (n i : ℕ) (sender : SpkiHash) (l : List MessageToSend) (s : MlsMessageHandler G)
      → pending i sender (rows (store_messages G codec channels now ids n sender l s).1)
        ≡ pending i sender (rows s)
  unfolding store_messages
  store_messages-sender ids n i sender [] s = refl
  store_messages-sender ids n i sender (m ∷ l) s =
      let s' = (store_message G codec channels now (ids n) (remove_receiver sender m) s).1 in
      let kept = store_message-sender G codec channels now (ids n) i sender m s in
      let later = store_messages-sender ids (suc n) i sender l s' in
      let first_stored =
        (store_message G codec channels now (ids n) (remove_receiver sender m) s).0 in
      elim (and_then-cases G codec channels now first_stored s'
        (store_messages G codec channels now ids (suc n) sender l s')) [
          | inl (_, is) ↦ ap (λ o. pending i sender (rows o.1)) is ∙ later ∙ kept
          | inr (_, is) ↦ ap (λ t. pending i sender (rows t)) is ∙ kept
        ]

  store_messages-le :
      (ids : ℕ → ℕ) (n i : ℕ) (k sender : SpkiHash) (l : List MessageToSend)
      (s : MlsMessageHandler G)
      → pending i k (rows s)
        ≤ pending i k (rows (store_messages G codec channels now ids n sender l s).1)
  unfolding store_messages
  store_messages-le ids n i k sender [] s = omega arith
  store_messages-le ids n i k sender (m ∷ l) s =
      let s' = (store_message G codec channels now (ids n) (remove_receiver sender m) s).1 in
      let first = store_message-le G codec channels now (ids n) i k (remove_receiver sender m) s in
      let later = store_messages-le ids (suc n) i k sender l s' in
      let first_stored =
        (store_message G codec channels now (ids n) (remove_receiver sender m) s).0 in
      elim (and_then-cases G codec channels now first_stored s'
        (store_messages G codec channels now ids (suc n) sender l s')) [
          | inl (_, is) ↦ omega (arith, first, later, ap (λ o. pending i k (rows o.1)) is)
          | inr (_, is) ↦ omega (arith, first, ap (λ t. pending i k (rows t)) is)
        ]

  -- What was stored is still there at the end.
  handed :
      (id : ℕ) (sender : SpkiHash) (m : MessageToSend) (s t : MlsMessageHandler G)
      → (store_message G codec channels now id (remove_receiver sender m) s).0 ≡ ok tt
      → ((i : ℕ) (k : SpkiHash)
          → pending i k
              (rows (store_message G codec channels now id (remove_receiver sender m) s).1)
            ≤ pending i k (rows t))
      → All (λ k. 0 < pending id k (rows t)) (retain_others sender m.receivers)
  unfolding remove_receiver
  handed id sender m s t done le =
      elim (store_message-cases G codec channels now id (remove_receiver sender m) s) [
        | inr (failed, _) ↦ absurd (failed done)
        | inl (_, there) ↦
            All-map (λ k here. omega (arith, here, le id k, ap (pending id k) there))
              (retain_others sender m.receivers)
              (pending-All id (retain_others sender m.receivers) (rows s))
      ]

  store_messages-IsHanded :
      (ids : ℕ → ℕ) (n : ℕ) (sender : SpkiHash) (l : List MessageToSend) (s : MlsMessageHandler G)
      → (store_messages G codec channels now ids n sender l s).0 ≡ ok tt
      → IsHanded ids n sender l (store_messages G codec channels now ids n sender l s).1
  unfolding store_messages
  store_messages-IsHanded ids n sender [] s h = tt
  store_messages-IsHanded ids n sender (m ∷ l) s h =
      let m' = remove_receiver sender m in
      let s' = (store_message G codec channels now (ids n) m' s).1 in
      let rest = store_messages G codec channels now ids (suc n) sender l s' in
      elim (and_then-cases G codec channels now (store_message G codec channels now (ids n) m' s).0
        s' rest) [
          | inr (failed, _) ↦ absurd (failed h)
          | inl (done, is) ↦
              subst
                (λ (o : Result MlsHandleError Done × MlsMessageHandler G).
                  IsHanded ids n sender (m ∷ l) o.1)
                (sym is)
                (
                  (let (d, e, here) =
                        store_message-IsWritten G codec channels now (ids n) sender m s done in
                      (
                        d,
                        e,
                        store_messages-IsIn G codec channels now _ ids (suc n) sender l s' here,
                      )),
                  handed (ids n) sender m s rest.1 done
                      (λ i k. store_messages-le ids (suc n) i k sender l s'),
                  store_messages-IsHanded ids (suc n) sender l s' (sym (ap (λ o. o.0) is) ∙ h),
                )
        ]

  store_messages-groups :
      (ids : ℕ → ℕ) (n : ℕ) (sender : SpkiHash) (l : List MessageToSend) (s : MlsMessageHandler G)
      → (store_messages G codec channels now ids n sender l s).1.mls_server ≡ s.mls_server
  unfolding store_messages
  store_messages-groups ids n sender [] s = refl
  store_messages-groups ids n sender (m ∷ l) s =
      let s' = (store_message G codec channels now (ids n) (remove_receiver sender m) s).1 in
      let first_stored =
        (store_message G codec channels now (ids n) (remove_receiver sender m) s).0 in
      let kept = store_message-groups G codec channels now (ids n) (remove_receiver sender m) s in
      elim (and_then-cases G codec channels now first_stored s'
        (store_messages G codec channels now ids (suc n) sender l s')) [
          | inl (_, is) ↦
              ap (λ o. o.1.mls_server) is ∙ store_messages-groups ids (suc n) sender l s' ∙ kept
          | inr (_, is) ↦ ap (λ t. t.mls_server) is ∙ kept
        ]

  module _ (hex : Hex) (retriever : KeyRetriever M) (verifier : Verifier)
      (wire : Wire M G.GroupInfo) where
    abbrev processed :
        MessageToServerTransport
        → MlsMessageHandler G
        → Result MlsError (List MessageToSend) × PublicProcessor G
    processed message s = process_message G hex retriever verifier now wire message s.mls_server

    -- When the server has handled a message of a member, its groups are as the processing of the
    -- message left them, also if it fails. If it succeeds, each message that the processing gave is in
    -- the table of messages, encoded, under the id that its place in the list was given, and has a row under that id for
    -- each of its receivers but the sender. The sender has no message more to wait for than
    -- before, under any id, whether it succeeds or not.
    pub handle_mls_message-IsHanded :
        (ids : ℕ → ℕ) (i : ℕ) (sender : SpkiHash) (message : MessageToServerTransport)
        (s : MlsMessageHandler G)
        → ((handle_mls_message G codec channels now hex retriever verifier wire ids sender message
              s).1.mls_server
            ≡ (processed message s).1)
          × (((handle_mls_message G codec channels now hex retriever verifier wire ids sender
                  message s).0
                ≢ ok tt)
              ⊎ ((to_send : List MessageToSend) × ((processed message s).0 ≡ ok to_send)
                  × IsHanded ids 0 sender to_send
                      (handle_mls_message G codec channels now hex retriever verifier wire ids
                        sender message s).1))
          × (pending i sender (
                rows
                  (handle_mls_message G codec channels now hex retriever verifier wire ids sender
                    message s).1)
              ≡ pending i sender (rows s))
    unfolding handle_mls_message
    handle_mls_message-IsHanded ids i sender message s =
        let s' : MlsMessageHandler G = record s { mls_server = (processed message s).1 } in
        elim (Result-cases (processed message s).0) [
          | inr (inl (e, failed)) ↦
              rw (failed, handle_mls_message) (refl, inl (λ h. absurd (cc h)), refl)
          | inr (inr failed) ↦
              rw (failed, handle_mls_message) (refl, inl (λ h. absurd (cc h)), refl)
          | inl (to_send, made) ↦
              rw (made, handle_mls_message)
                (
                  store_messages-groups ids 0 sender to_send s',
                  elim (Result-cases
                      (store_messages G codec channels now ids 0 sender to_send s').0) [
                        | inl (_, done) ↦
                            inr
                              (to_send, refl, store_messages-IsHanded ids 0 sender to_send s' done)
                        | inr (inl (e, failed)) ↦ inl (λ h. absurd (cc (h, failed)))
                        | inr (inr failed) ↦ inl (λ h. absurd (cc (h, failed)))
                      ],
                  store_messages-sender ids 0 i sender to_send s',
                )
        ]
