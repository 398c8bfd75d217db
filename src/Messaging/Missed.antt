-- ===== src/Messaging/Missed.antt =====
-- svalin/src/message_streaming/with_client.rs: a message that comes while a stream is set up.
use svalin.Prelude.{
  ℕ, ◌+◌, ◌<◌, ◌≤◌, ◌≡◌, refl, ap, ◌∙◌, Bool, true, false, none, some, List, [], ◌∷◌, ◌++◌, arith,
  inl, inr,
}
use svalin.Prelude.Tests.{◌==◌, Bool-cases}
use svalin.Prelude.Result.{Result, Done, ok, Result-cases}
use svalin.Bytes.{Bytes}
use svalin.Platform.{SpkiHash}
use svalin.HashMap.{lookup}
use svalin.ServerStore.Messages.{
  MessageCodec, MessageStore, has_message, pending, acknowledge, acknowledge_single_message,
  load_all_for,
}
use svalin.ServerStore.Messages.Counts.{count_id, count_key, pending-drop_receiver, pending-new}
use svalin.ServerStore.Messages.Load.{IsMessages, load_all_for-pending}
use svalin.ServerStore.Messages.Delivery.{has_message-count, add_message_new}
use svalin.ServerStore.Subscriptions.{Sender, Channels, subscribe, handle_request}
use svalin.ServerStore.Subscriptions.Laws.{count_sent, distribute-sent, is_reachable}
use svalin.Mls.OpenMls.{OpenMls, PublicGroups}
use svalin.Mls.Transport.{MessageToMemberTransport, MessageToSend}
use svalin.Messaging.{MlsMessageHandler, MlsHandleError, store_message}
use svalin.Messaging.Rows.{rows}
use svalin.Messaging.Stream.{Streamed, hand_over, stream_mls_messages_inner}

count_id-append :
    {A : Type 0} (id : ℕ) (l m : List (ℕ × A))
    → count_id id (l ++ m) ≡ count_id id l + count_id id m
count_id-append id [] m = omega arith
count_id-append id (e ∷ l) m = ground (arith, count_id-append id l m)

module _ {M : OpenMls} (G : PublicGroups M) (codec : MessageCodec MessageToMemberTransport)
    (channels : Channels) (id : ℕ) (k : SpkiHash) where
  -- What is handed over does not have the id, and the rows of the message and the channels are left.
  record Spared (s : MlsMessageHandler G) (out : Streamed G) : Type 0 where
    handed : count_id id out.handed ≡ 0
    waits : pending id k (rows out.state) ≡ pending id k (rows s)
    sent : out.state.subscriptions ≡ s.subscriptions

  -- Acknowledging another message
  acknowledge-pending :
      (j : ℕ) (s : MessageStore)
      → (j == id) ≡ false
      → pending id k (acknowledge_single_message s k j).1.receivers ≡ pending id k s.receivers
  unfolding acknowledge_single_message acknowledge
  acknowledge-pending j s other = elim (Bool-cases s.answers) [
    | inl up ↦ ground (arith, up, pending-drop_receiver j id k k s.receivers, other)
    | inr down ↦ ground (arith, down)
  ]

  hand_over-Spared :
      (confirms : ℕ → Bool) (l : List (ℕ × MessageToMemberTransport)) (s : MlsMessageHandler G)
      → count_id id l ≡ 0
      → Spared s (hand_over G codec channels confirms k l s)
  unfolding hand_over
  hand_over-Spared confirms [] s h = record { handed = refl; waits = refl; sent = refl }
  hand_over-Spared confirms ((j, m) ∷ l) s h =
      let other : (j == id) ≡ false = ground (arith, h) in
      let one : count_id id ((j, m) ∷ []) ≡ 0 = ground (arith, other) in
      let waits = acknowledge-pending j s.message_store other in
      elim (Bool-cases (confirms j)) [
        | inr refused ↦ rw (refused, hand_over) (record { handed = one; waits = refl; sent = refl })
        | inl confirmed ↦ elim (Result-cases (acknowledge_single_message s.message_store k j).0) [
          | inr (inl (e, failed)) ↦
              rw (confirmed, hand_over)
                (rw (failed, hand_over) (record { handed = one; waits = waits; sent = refl }))
          | inr (inr failed) ↦
              rw (confirmed, hand_over)
                (rw (failed, hand_over) (record { handed = one; waits = waits; sent = refl }))
          | inl (_, done) ↦
              let s' : MlsMessageHandler G = record s {
                message_store = (acknowledge_single_message s.message_store k j).1;
              } in
              let later = hand_over-Spared confirms l s' (ground (arith, h, other)) in
              rw (confirmed, hand_over)
                (rw (done, hand_over)
                  (record {
                    handed = ground (arith, other, later.handed);
                    waits = later.waits ∙ waits;
                    sent = later.sent;
                  }))
        ]
      ]

  -- A new message for a receiver that is not connected
  record Missed (stored : Result MlsHandleError Done × MlsMessageHandler G) : Type 0 where
    fine : stored.0 ≡ ok tt
    waits : 0 < pending id k (rows stored.1)
    unsent : count_sent k id stored.1.subscriptions.sent ≡ 0

  store_message-Missed :
      (now : ℕ) (m : MessageToSend) (d : Bytes) (s : MlsMessageHandler G)
      → s.message_store.answers ≡ true
      → codec.to_stdvec m.message ≡ some d
      → has_message id s.message_store.messages ≡ false
      → 0 < count_key k m.receivers
      → lookup k s.subscriptions.subscribed ≡ none
      → count_sent k id s.subscriptions.sent ≡ 0
      → Missed (store_message G codec channels now id m s)
  unfolding store_message
  store_message-Missed now m d s up written new asked apart unsent =
      let unreached : is_reachable channels s.subscriptions k ≡ false = ground (arith, apart) in
      rw
        (
          add_message_new codec s.message_store m.message m.receivers id now d up written new,
          store_message,
        )
        (record {
          fine = refl;
          waits = ground (arith, pending-new id id k m.receivers s.message_store.receivers, asked);
          unsent = ground (
            arith,
            distribute-sent channels s.subscriptions id id m.receivers k,
            unreached,
            unsent,
          );
        })

  module _ (others : MlsMessageHandler G → MlsMessageHandler G) (confirms : ℕ → Bool)
      (received : MlsMessageHandler G → List (ℕ × MessageToMemberTransport)) (sender : Sender) where
    -- The stream has not handed over the message, which still stands for the receiver.
    abbrev pub IsMissed : Streamed G → Type 0
    IsMissed out = (count_id id out.handed ≡ 0) × (0 < pending id k (rows out.state))

    stream-Missed :
        (s : MlsMessageHandler G) (current : List (ℕ × MessageToMemberTransport))
        → load_all_for codec s.message_store k ≡ ok current
        → count_id id current ≡ 0
        → 0 < pending id k (rows (others s))
        → count_sent k id (others s).subscriptions.sent ≡ 0
        → ((t : MlsMessageHandler G)
            → count_id id (received t) ≤ count_sent k id t.subscriptions.sent)
        → IsMissed (stream_mls_messages_inner G codec channels others confirms received k sender s)
    unfolding stream_mls_messages_inner handle_request
    stream-Missed s current loaded absent waits unsent channel =
        let s' = others s in
        let subscribed : MlsMessageHandler G = record s' {
          subscriptions = handle_request channels s'.subscriptions (subscribe k sender);
        } in
        let out = hand_over G codec channels confirms k current subscribed in
        let first = hand_over-Spared confirms current subscribed absent in
        let still : 0 < pending id k (rows out.state) = omega (arith, first.waits, waits) in
        let none_sent : count_sent k id out.state.subscriptions.sent ≡ 0 =
          ap (λ x. count_sent k id x.sent) first.sent ∙ unsent in
        let none_received : count_id id (received out.state) ≡ 0 =
          omega (arith, channel out.state, none_sent) in
        let second = hand_over-Spared confirms (received out.state) out.state none_received in
        elim (Result-cases out.result) [
          | inr (inl (e, failed)) ↦
              rw (loaded, stream_mls_messages_inner) (rw failed (first.handed, still))
          | inr (inr failed) ↦
              rw (loaded, stream_mls_messages_inner) (rw failed (first.handed, still))
          | inl (_, done) ↦
              rw (loaded, stream_mls_messages_inner)
                (rw done (
                  omega (
                    arith,
                    count_id-append id out.handed
                        (hand_over G codec channels confirms k (received out.state)
                          out.state).handed,
                    first.handed,
                    second.handed,
                  ),
                  omega (arith, second.waits, still),
                ))
        ]

-- The server's tables of messages are in order and its database answers. A stream is opened for one
-- that is not connected, and while it is set up, between its loading of the stored messages and its
-- subscription, the other tasks do one thing: they store a message for the same receiver, under a new
-- id, which postcard can write and which was not sent before. A channel gives only what was sent to the
-- receiver. Then storing the message succeeds, but the stream does not hand the message over, not
-- later either, and the message stands for the receiver when the stream ends.
pub message_missed :
    {M : OpenMls} (G : PublicGroups M) (codec : MessageCodec MessageToMemberTransport)
    (channels : Channels) (now id : ℕ) (m : MessageToSend) (d : Bytes) (k : SpkiHash)
    (sender : Sender) (confirms : ℕ → Bool)
    (received : MlsMessageHandler G → List (ℕ × MessageToMemberTransport)) (s : MlsMessageHandler G)
    → IsMessages codec s.message_store
    → codec.to_stdvec m.message ≡ some d
    → has_message id s.message_store.messages ≡ false
    → 0 < count_key k m.receivers
    → lookup k s.subscriptions.subscribed ≡ none
    → count_sent k id s.subscriptions.sent ≡ 0
    → ((t : MlsMessageHandler G) → count_id id (received t) ≤ count_sent k id t.subscriptions.sent)
    → ((store_message G codec channels now id m s).0 ≡ ok tt)
      × (count_id id
            (stream_mls_messages_inner G codec channels
              (λ t. (store_message G codec channels now id m t).1)
              confirms
              received
              k
              sender
              s).handed
          ≡ 0)
      × (0
          < pending id k (
              rows
                (stream_mls_messages_inner G codec channels
                  (λ t. (store_message G codec channels now id m t).1)
                  confirms
                  received
                  k
                  sender
                  s).state))
message_missed G codec channels now id m d k sender confirms received s here written new asked apart
      unsent channel =
    let (current, loaded, counts) = load_all_for-pending codec s.message_store k here in
    let absent = has_message-count codec id s.message_store.messages new in
    let missed =
      store_message-Missed G codec channels id k now m d s here.answers written new asked apart
        unsent in
    let (unhanded, waits) =
      stream-Missed G codec channels id k (λ t. (store_message G codec channels now id m t).1)
        confirms received sender s current loaded
        (ground (arith, counts id, absent, here.covered id k)) missed.waits missed.unsent channel in
    (missed.fine, unhanded, waits)
