-- ===== src/Messaging/Stream.antt =====
-- svalin/src/message_streaming/with_client.rs: the stream of messages to one that is connected.
use svalin.Prelude.{ℕ, Bool, true, false, List, [], ◌∷◌, ◌++◌}
use svalin.Prelude.Result.{Result, Done, ok, err, panicked}
use svalin.Platform.{SpkiHash}
use svalin.ServerStore.Messages.{
  MessageCodec, MessageStoreError, acknowledge_single_message, load_all_for,
}
use svalin.ServerStore.Subscriptions.{Sender, Channels, subscribe, handle_request}
use svalin.Mls.OpenMls.{OpenMls, PublicGroups}
use svalin.Mls.Transport.{MessageToMemberTransport}
use svalin.Messaging.{MlsMessageHandler}

pub data StreamError : Type 0 where
  load_error acknowledge_error : MessageStoreError → StreamError
  not_confirmed : StreamError

-- How the stream ended, what it handed to the client, and the state of the server then
pub record Streamed {M : OpenMls} (G : PublicGroups M) : Type 0 where
  pub result : Result StreamError Done
  pub handed : List (ℕ × MessageToMemberTransport)
  pub state : MlsMessageHandler G

module _ {M : OpenMls} (G : PublicGroups M) (codec : MessageCodec MessageToMemberTransport)
    (channels : Channels) where
  -- The body of both loops: a message is handed to the client, and acknowledged once the client
  -- confirms it.
  unfoldable pub hand_over :
      (ℕ → Bool) → SpkiHash → List (ℕ × MessageToMemberTransport) → MlsMessageHandler G → Streamed G
  unfolding acknowledge_single_message
  hand_over confirms k [] s = record { result = ok tt; handed = []; state = s }
  hand_over confirms k (m ∷ rest) s = elim (confirms m.0) [
    | false ↦ record { result = err not_confirmed; handed = m ∷ []; state = s }
    | true ↦
        let (acknowledged, store) = acknowledge_single_message s.message_store k m.0 in
        let s' : MlsMessageHandler G = record s { message_store = store } in
        elim acknowledged [
          | err e ↦ record { result = err (acknowledge_error e); handed = m ∷ []; state = s' }
          | panicked ↦ record { result = panicked; handed = m ∷ []; state = s' }
          | ok _ ↦
              let later = hand_over confirms k rest s' in
              record { result = later.result; handed = m ∷ later.handed; state = later.state }
        ]
  ]

  -- `stream_mls_messages_inner`. Between the loading and the subscription the other tasks run;
  -- `received` is what the channel gives then.
  unfoldable pub stream_mls_messages_inner :
      (MlsMessageHandler G → MlsMessageHandler G)
      → (ℕ → Bool)
      → (MlsMessageHandler G → List (ℕ × MessageToMemberTransport))
      → SpkiHash
      → Sender
      → MlsMessageHandler G
      → Streamed G
  unfolding load_all_for handle_request hand_over
  stream_mls_messages_inner others confirms received k sender s =
      elim (load_all_for codec s.message_store k) [
        | err e ↦ record { result = err (load_error e); handed = []; state = s }
        | panicked ↦ record { result = panicked; handed = []; state = s }
        | ok current ↦
            let s' = others s in
            let subscribed : MlsMessageHandler G = record s' {
              subscriptions = handle_request channels s'.subscriptions (subscribe k sender);
            } in
            let first = hand_over confirms k current subscribed in
            elim first.result [
              | err e ↦ first
              | panicked ↦ first
              | ok _ ↦
                  let second = hand_over confirms k (received first.state) first.state in
                  record {
                    result = second.result;
                    handed = first.handed ++ second.handed;
                    state = second.state;
                  }
            ]
      ]
