-- ===== src/Messaging.antt =====
-- svalin/src/message_streaming/server.rs: a message of a member on the server, from the groups to the
-- stored messages and the connected receivers.
pub mod Rows
pub mod Table
pub mod Stream
pub mod Missed
pub mod Laws
use svalin.Prelude.{ℕ, suc, List, [], ◌∷◌}
use svalin.Prelude.Result.{Result, Done, ok, err, panicked}
use svalin.Platform.{SpkiHash}
use svalin.Verifier.{Verifier}
use svalin.ServerStore.Messages.{MessageStore, MessageCodec, MessageStoreError, add_message}
use svalin.ServerStore.Subscriptions.{Channels, Subscriptions, distribute, handle_request}
use svalin.Mls.GroupId.{Hex}
use svalin.Mls.OpenMls.{OpenMls, PublicGroups}
use svalin.Mls.Call.{MlsError}
use svalin.Mls.Harness.{KeyRetriever}
use svalin.Mls.Transport.{
  Wire, MessageToServerTransport, MessageToMemberTransport, MessageToSend, remove_receiver,
}
use svalin.Mls.PublicProcessor.{PublicProcessor}
use svalin.Mls.Server
use svalin.Mls.Server.{process_message}

pub data MlsHandleError : Type 0 where
  mls_error : MlsError → MlsHandleError
  store_error : MessageStoreError → MlsHandleError

pub record MlsMessageHandler {M : OpenMls} (G : PublicGroups M) : Type 0 where
  pub mls_server : PublicProcessor G
  pub message_store : MessageStore
  pub subscriptions : Subscriptions

module _ {M : OpenMls} (G : PublicGroups M) (codec : MessageCodec MessageToMemberTransport)
    (channels : Channels) (now : ℕ) where
  -- `MessageStore::add_message`, with the distribution
  unfoldable pub store_message :
      ℕ → MessageToSend → MlsMessageHandler G → Result MlsHandleError Done × MlsMessageHandler G
  unfolding add_message handle_request
  store_message id m s =
      let (added, store) = add_message codec s.message_store m.message m.receivers id now in
      elim added [
        | err e ↦ (err (store_error e), record s { message_store = store })
        | panicked ↦ (panicked, record s { message_store = store })
        | ok _ ↦ (
          ok tt,
          record s {
            message_store = store;
            subscriptions = handle_request channels s.subscriptions (distribute id m.receivers);
          },
        )
      ]

  -- `?` on a stored message
  unfoldable pub and_then :
      Result MlsHandleError Done
      → MlsMessageHandler G
      → Result MlsHandleError Done × MlsMessageHandler G
      → Result MlsHandleError Done × MlsMessageHandler G
  and_then (ok _) s rest = rest
  and_then (err e) s rest = (err e, s)
  and_then panicked s rest = (panicked, s)

  -- The loop over the messages to send; the message at `n` gets the id `ids n`.
  unfoldable pub store_messages :
      (ℕ → ℕ)
      → ℕ
      → SpkiHash
      → List MessageToSend
      → MlsMessageHandler G
      → Result MlsHandleError Done × MlsMessageHandler G
  unfolding store_message remove_receiver and_then
  store_messages ids n sender [] s = (ok tt, s)
  store_messages ids n sender (to_send ∷ rest) s =
      let (stored, s') = store_message (ids n) (remove_receiver sender to_send) s in
      and_then stored s' (store_messages ids (suc n) sender rest s')

  module _ (hex : Hex) (retriever : KeyRetriever M) (verifier : Verifier)
      (wire : Wire M G.GroupInfo) where
    -- `MlsMessageHandler::handle`
    unfoldable pub handle_mls_message :
        (ℕ → ℕ)
        → SpkiHash
        → MessageToServerTransport
        → MlsMessageHandler G
        → Result MlsHandleError Done × MlsMessageHandler G
    unfolding process_message store_messages
    handle_mls_message ids sender message s =
        let (processed, mls) =
          process_message G hex retriever verifier now wire message s.mls_server in
        elim processed [
          | err e ↦ (err (mls_error e), record s { mls_server = mls })
          | panicked ↦ (panicked, record s { mls_server = mls })
          | ok messages_to_send ↦
              store_messages ids 0 sender messages_to_send (record s { mls_server = mls })
        ]
