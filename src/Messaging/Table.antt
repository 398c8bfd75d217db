-- ===== src/Messaging/Table.antt =====
-- svalin/src/message_streaming/server.rs: the rows of the messages that are stored.
use svalin.Prelude.{ℕ, suc, ◌≡◌, ◌≢◌, ◌⊎◌, refl, sym, subst, some, List, [], ◌∷◌, arith, inl, inr}
use svalin.Prelude.Tests.{Bool-cases, Option-cases}
use svalin.Prelude.Result.{ok}
use svalin.Bytes.{Bytes}
use svalin.Platform.{SpkiHash}
use svalin.ServerStore.Messages.{MessageCodec, MessageRow, add_message, has_message}
use svalin.ServerStore.Subscriptions.{Channels}
use svalin.Mls.OpenMls.{OpenMls, PublicGroups}
use svalin.Mls.Transport.{MessageToMemberTransport, MessageToSend, remove_receiver}
use svalin.Messaging.Rows.{and_then-cases}
use svalin.Messaging.{MlsMessageHandler, store_message, store_messages}

-- The row is in the table.
abbrev pub IsIn : MessageRow → List MessageRow → Type 0
IsIn r [] = ⊥
IsIn r (m ∷ table) = (m ≡ r) ⊎ IsIn r table

abbrev pub message_table :
    {M : OpenMls} {G : PublicGroups M} → MlsMessageHandler G → List MessageRow
message_table s = s.message_store.messages

module _ {M : OpenMls} (G : PublicGroups M) (codec : MessageCodec MessageToMemberTransport)
    (channels : Channels) (now : ℕ) where
  -- The encoded message has a row, under the id and at the time of the call.
  abbrev pub IsWritten : ℕ → MessageToSend → List MessageRow → Type 0
  IsWritten id m table =
      (d : Bytes) × (codec.to_stdvec m.message ≡ some d)
      × IsIn (record { id = id; content = d; received_at = now }) table

  -- Storing adds the row of the message, or fails and leaves the table.
  store_message-table :
      (id : ℕ) (m : MessageToSend) (s : MlsMessageHandler G)
      → ((d : Bytes) × (codec.to_stdvec m.message ≡ some d)
          × (message_table (store_message G codec channels now id m s).1
              ≡ record { id = id; content = d; received_at = now } ∷ message_table s))
        ⊎ (((store_message G codec channels now id m s).0 ≢ ok tt)
            × (message_table (store_message G codec channels now id m s).1 ≡ message_table s))
  unfolding store_message add_message
  store_message-table id m s = elim (Option-cases (codec.to_stdvec m.message)) [
    | inl none_ ↦ inr (ground arith, ground arith)
    | inr (d, e) ↦ elim (Bool-cases s.message_store.answers) [
      | inr down ↦ inr (ground arith, ground arith)
      | inl up ↦ elim (Bool-cases (has_message id s.message_store.messages)) [
        | inl known ↦ inr (ground arith, ground arith)
        | inr new ↦ inl (d, e, ground arith)
      ]
    ]
  ]

  pub store_message-IsWritten :
      (id : ℕ) (sender : SpkiHash) (m : MessageToSend) (s : MlsMessageHandler G)
      → (store_message G codec channels now id (remove_receiver sender m) s).0 ≡ ok tt
      → IsWritten id m
          (message_table (store_message G codec channels now id (remove_receiver sender m) s).1)
  unfolding remove_receiver
  store_message-IsWritten id sender m s done =
      elim (store_message-table id (remove_receiver sender m) s) [
        | inl (d, e, there) ↦ (d, e, rw there (inl refl))
        | inr (failed, _) ↦ absurd (failed done)
      ]

  store_message-IsIn :
      (r : MessageRow) (id : ℕ) (m : MessageToSend) (s : MlsMessageHandler G)
      → IsIn r (message_table s)
      → IsIn r (message_table (store_message G codec channels now id m s).1)
  store_message-IsIn r id m s h = elim (store_message-table id m s) [
    | inl (d, e, there) ↦ rw there (inr h)
    | inr (_, same) ↦ rw same h
  ]

  -- A row that is in the table stays there.
  pub store_messages-IsIn :
      (r : MessageRow) (ids : ℕ → ℕ) (n : ℕ) (sender : SpkiHash) (l : List MessageToSend)
      (s : MlsMessageHandler G)
      → IsIn r (message_table s)
      → IsIn r (message_table (store_messages G codec channels now ids n sender l s).1)
  unfolding store_messages
  store_messages-IsIn r ids n sender [] s h = h
  store_messages-IsIn r ids n sender (m ∷ l) s h =
      let m' = remove_receiver sender m in
      let s' = (store_message G codec channels now (ids n) m' s).1 in
      let here = store_message-IsIn r (ids n) m' s h in
      elim (and_then-cases G codec channels now (store_message G codec channels now (ids n) m' s).0
        s' (store_messages G codec channels now ids (suc n) sender l s')) [
          | inl (_, is) ↦
              subst (λ o. IsIn r (message_table o.1)) (sym is)
                (store_messages-IsIn r ids (suc n) sender l s' here)
          | inr (_, is) ↦ subst (λ t. IsIn r (message_table t)) (sym is) here
        ]
