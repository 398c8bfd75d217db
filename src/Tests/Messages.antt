-- ===== src/Tests/Messages.antt =====
-- A new group, whose members are told of it.
use svalin.Prelude.{ℕ, suc, ◌<◌, arith, ◌≡◌, ◌≢◌, ◌⊎◌, refl, true, false, some, List, [], ◌∷◌}
use svalin.Prelude.Result.{Result, Done, ok}
use svalin.Bytes.{Bytes}
use svalin.ServerStore.Messages.{MessageCodec, pending}
use svalin.ServerStore.Subscriptions.{Channels}
use svalin.Mls.GroupId.{device_group, to_group_id}
use svalin.Mls.Transport.{
  Wire, MessageToServerTransport, MessageToMemberTransport, MessageToSend, new_device_group,
  welcome_message,
}
use svalin.Mls.Server.{process_message}
use svalin.Messaging.{MlsMessageHandler, MlsHandleError, store_message, handle_mls_message}
use svalin.Messaging.Rows.{rows}
use svalin.Messaging.Stream.{Streamed, stream_mls_messages_inner}
use svalin.Messaging.Missed.{message_missed}
use svalin.ServerStore.Messages.Counts.{count_id}
use svalin.ServerStore.Messages.Load.{IsMessages}
use svalin.Messaging.Laws.{IsHanded, handle_mls_message-IsHanded}
use svalin.Tests.GroupFixtures.{demo_hex, demo_verifier, demo_public, demo_retriever, demo_wire}

-- It writes the message's bytes.
abbrev message_bytes : MessageToMemberTransport → Bytes
message_bytes (welcome_message b) = 0 ∷ b
message_bytes _ = []

abbrev demo_messages : MessageCodec MessageToMemberTransport
demo_messages = record {
  to_stdvec = λ m. some (message_bytes m);
  from_bytes = λ b. some (welcome_message b);
}

abbrev demo_channels : Channels
demo_channels = record { is_closed = λ c. false; sends = λ c. true }

abbrev empty_handler : MlsMessageHandler demo_public
empty_handler = record {
  mls_server = record { storage = []; group_cache = [] };
  message_store = record { answers = true; messages = []; receivers = [] };
  subscriptions = record { subscribed = []; sent = [] };
}

abbrev ids_from_ten : ℕ → ℕ
ids_from_ten n = suc (suc (suc (suc (suc (suc (suc (suc (suc (suc n)))))))))

-- The root makes the group, with a welcome.
abbrev creation : MessageToServerTransport
creation = new_device_group [] (some (3 ∷ []))

abbrev handled : Result MlsHandleError Done × MlsMessageHandler demo_public
handled =
    handle_mls_message demo_public demo_messages demo_channels 2000 demo_hex demo_retriever
      demo_verifier demo_wire ids_from_ten 1 creation empty_handler

handle_mls_message-IsHanded_example :
    (handled.1.mls_server
      ≡ (process_message demo_public demo_hex demo_retriever demo_verifier 2000 demo_wire creation
          empty_handler.mls_server).1)
    × ((handled.0 ≢ ok tt)
        ⊎ ((to_send : List MessageToSend) × ((process_message demo_public demo_hex demo_retriever
                demo_verifier 2000 demo_wire creation empty_handler.mls_server).0
              ≡ ok to_send)
            × IsHanded demo_public demo_messages demo_channels 2000 ids_from_ten 0 1 to_send
                handled.1))
    × (pending 10 1 (rows handled.1) ≡ pending 10 1 (rows empty_handler))
handle_mls_message-IsHanded_example =
    handle_mls_message-IsHanded demo_public demo_messages demo_channels 2000 demo_hex demo_retriever
      demo_verifier demo_wire ids_from_ten 10 1 creation empty_handler

-- The agent is to get the welcome.
handled_test : rows handled.1 ≡ (10, 5) ∷ []
unfolding handle_mls_message svalin.Messaging.store_messages svalin.Messaging.store_message
    svalin.Messaging.and_then svalin.ServerStore.Messages.add_message
    svalin.ServerStore.Messages.has_message svalin.Mls.Transport.remove_receiver
    svalin.Mls.Transport.retain_others process_message svalin.Mls.Server.process_unpacked
    svalin.Mls.Server.add_device_group svalin.Mls.Server.add_svalin_group
    svalin.Mls.Server.check_device svalin.Mls.PublicProcessor.check_group
    svalin.Mls.PublicProcessor.add_group svalin.Mls.PublicProcessor.store_group
    svalin.Mls.PublicProcessor.deserialize_all svalin.Mls.Harness.verify_spki_hash
    svalin.Certificate.Kind.type_eq svalin.Mls.Transport.unpack svalin.Mls.Call.resume
    svalin.Mls.GroupId.to_group_id svalin.Mls.GroupId.from_group_id svalin.Mls.GroupId.to_hex
    svalin.Mls.GroupId.from_hex svalin.Mls.GroupId.split svalin.Mls.GroupId.from_slice
    svalin.Bytes.to_be_bytes svalin.Bytes.from_be_bytes
handled_test = refl

-- svalin/src/message_streaming/with_client.rs: a stream for the agent, which is not connected
abbrev agent_welcome : MessageToSend
agent_welcome = record { receivers = 1 ∷ 5 ∷ []; message = welcome_message (3 ∷ []) }

abbrev agent_stream : Streamed demo_public
agent_stream =
    stream_mls_messages_inner demo_public demo_messages demo_channels
      (λ t. (store_message demo_public demo_messages demo_channels 2000 10 agent_welcome t).1)
      (λ _. true) (λ _. []) 5 8 empty_handler

empty_handler-IsMessages : IsMessages demo_messages empty_handler.message_store
unfolding pending svalin.ServerStore.Messages.Counts.count_row
empty_handler-IsMessages = record {
  answers = refl;
  unique = λ id. omega arith;
  readable = tt;
  covered = λ id k h. absurd (omega arith);
}

message_missed_example :
    ((store_message demo_public demo_messages demo_channels 2000 10 agent_welcome empty_handler).0
      ≡ ok tt)
    × (count_id 10 agent_stream.handed ≡ 0)
    × (0 < pending 10 5 (rows agent_stream.state))
unfolding svalin.ServerStore.Messages.has_message
message_missed_example =
    message_missed demo_public demo_messages demo_channels 2000 10 agent_welcome (0 ∷ 3 ∷ []) 5 8
      (λ _. true) (λ _. []) empty_handler empty_handler-IsMessages refl refl (omega arith) refl refl
      (λ _. omega arith)
