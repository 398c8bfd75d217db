-- ===== src/ServerStore/Messages/Delivery.antt =====
-- svalin_store/src/server_store/message_store.rs: a message is loaded until it is acknowledged.
use svalin.Prelude.{
  ℕ, ◌+◌, ◌<◌, ◌≡◌, ◌≢◌, inl, inr, refl, sym, ◌∙◌, true, false, ◌&&◌, some, List, [], ◌∷◌, ◌++◌,
  map, arith,
}
use svalin.Prelude.Tests.{◌==◌, ==_iff, if◌then◌else◌, Bool-cases}
use svalin.Prelude.Result.{ok}
use svalin.Bytes.{Bytes}
use svalin.Platform.{SpkiHash}
use svalin.ServerStore.Messages.{
  MessageRow, MessageStore, MessageCodec, has_message, pending, drop_receiver, has_receiver,
  drop_message, acknowledge, add_message, load_all_for,
}
use svalin.ServerStore.Messages.Counts.{
  count_id, count_key, count_row, pending-drop_receiver, pending-new, has_receiver-pending,
}
use svalin.Prelude.Lists.{All}
use svalin.ServerStore.Messages.Contents.{
  IsContent, acknowledge-All, has_message-All, Carries, load_all_for-Carries,
}
use svalin.ServerStore.Messages.Load.{Readable, IsMessages, load_all_for-pending}

module _ {Message : Type 0} (codec : MessageCodec Message) where
  pub has_message-count :
      (id : ℕ) (rows : List MessageRow) → has_message id rows ≡ false → count_row id rows ≡ 0
  unfolding has_message count_row
  has_message-count id [] h = refl
  has_message-count id (m ∷ rows) h = ground (arith, has_message-count id rows)

  count-drop_message :
      (id j : ℕ) (rows : List MessageRow)
      → count_row j (drop_message id rows) ≡ (if id == j then 0 else count_row j rows)
  unfolding drop_message count_row
  count-drop_message id j [] = ground arith
  count-drop_message id j (m ∷ rows) = ground (arith, count-drop_message id j rows)

  Readable-drop :
      (id : ℕ) (rows : List MessageRow)
      → Readable codec rows
      → Readable codec (drop_message id rows)
  unfolding drop_message
  Readable-drop id [] h = tt
  Readable-drop id (m ∷ rows) h = elim (Bool-cases (m.id == id)) [
    | inl e ↦ rw e (Readable-drop id rows h.1)
    | inr e ↦ rw e (h.0, Readable-drop id rows h.1)
  ]

  -- An acknowledgement takes the message from this receiver and from no other, and keeps it exactly
  -- if it stands for another.
  pub acknowledge-IsMessages :
      (s : MessageStore) (k : SpkiHash) (id : ℕ)
      → IsMessages codec s
      → IsMessages codec (acknowledge k id s)
        × ((j : ℕ) (l : SpkiHash)
            → pending j l (acknowledge k id s).receivers
              ≡ (if id == j && k == l then 0 else pending j l s.receivers))
  unfolding acknowledge
  acknowledge-IsMessages s k id here =
      let left = drop_receiver id k s.receivers in
      let less = λ (j : ℕ) (l : SpkiHash). pending-drop_receiver id j k l s.receivers in
      elim (Bool-cases (has_receiver id left)) [
        | inl kept ↦ (
          record {
            answers = here.answers;
            unique = rw (kept, acknowledge) here.unique;
            readable = rw (kept, acknowledge) here.readable;
            covered = λ j l h. rw kept (here.covered j l (ground (arith, less j l, h)));
          },
          less,
        )
        | inr gone ↦ (
          record {
            answers = here.answers;
            unique =
                λ j. rw gone (ground (arith, count-drop_message id j s.messages, here.unique j));
            readable = rw (gone, acknowledge) (Readable-drop id s.messages here.readable);
            covered = λ j l h.
                let before = here.covered j l (ground (arith, less j l, h)) in
                elim (Bool-cases (id == j)) [
                  | inl same ↦
                      let same : j ≡ id = sym ((==_iff id j).0 same) in
                      absurd (cc (gone, has_receiver-pending id l left (rw same at h)))
                  | inr other ↦ rw gone (count-drop_message id j s.messages ∙ (rw other before))
                ];
          },
          less,
        )
      ]

  pub add_message_new :
      (s : MessageStore) (message : Message) (keys : List SpkiHash) (id now : ℕ) (d : Bytes)
      → s.answers ≡ true
      → codec.to_stdvec message ≡ some d
      → has_message id s.messages ≡ false
      → add_message codec s message keys id now ≡ (
        ok tt,
        record s {
          messages = record { id = id; content = d; received_at = now } ∷ s.messages;
          receivers = map (λ k. (id, k)) keys ++ s.receivers;
        },
      )
  unfolding add_message
  add_message_new s message keys id now d up written new = ground arith

  -- A message that postcard writes and reads back is added under a new id, for each receiver that
  -- it names.
  pub add_message-IsMessages :
      (s : MessageStore) (message : Message) (keys : List SpkiHash) (id now : ℕ) (d : Bytes)
      → IsMessages codec s
      → codec.to_stdvec message ≡ some d
      → codec.from_bytes d ≡ some message
      → has_message id s.messages ≡ false
      → ((add_message codec s message keys id now).0 ≡ ok tt)
        × IsMessages codec (add_message codec s message keys id now).1
        × ((j : ℕ) (l : SpkiHash)
            → pending j l (add_message codec s message keys id now).1.receivers
              ≡ (if id == j then count_key l keys else 0) + pending j l s.receivers)
  unfolding count_row
  add_message-IsMessages s message keys id now d here written back new =
      let absent = has_message-count id s.messages new in
      let more = λ (j : ℕ) (l : SpkiHash). pending-new id j l keys s.receivers in
      rw (add_message_new s message keys id now d here.answers written new) (
        refl,
        record {
          answers = here.answers;
          unique = λ j. elim (Bool-cases (id == j)) [
            | inl same ↦
                let same_id : id ≡ j = (==_iff id j).0 same in
                let none_yet : count_row j s.messages ≡ 0 = rw same_id at absent in
                rw same (omega (arith, none_yet))
            | inr other ↦ rw other (here.unique j)
          ];
          readable = ((message, back), here.readable);
          covered = λ j l h. elim (Bool-cases (id == j)) [
            | inl same ↦
                let same_id : id ≡ j = (==_iff id j).0 same in
                let none_yet : count_row j s.messages ≡ 0 = rw same_id at absent in
                rw same (omega (arith, none_yet))
            | inr other ↦
                let h' : pending j l (map (λ k. (id, k)) keys ++ s.receivers)
                    ≡ pending j l s.receivers =
                  ground (arith, more j l, other) in
                rw other (here.covered j l (rw h' at h))
          ];
        },
        more,
      )

  -- The tables are in order, and a message that postcard writes and reads back is added for a
  -- receiver under a new id. Then it is loaded for the receiver: what is loaded under the id is this
  -- message. It is loaded as often, and it alone under the id, also after another receiver acknowledged
  -- it. Nothing is loaded under the id any more once the receiver itself did.
  pub message_until_acknowledged :
      (s : MessageStore) (message : Message) (keys : List SpkiHash) (id now : ℕ) (d : Bytes)
      (k other : SpkiHash)
      → IsMessages codec s
      → codec.to_stdvec message ≡ some d
      → codec.from_bytes d ≡ some message
      → has_message id s.messages ≡ false
      → 0 < count_key k keys
      → other ≢ k
      → (before after gone : List (ℕ × Message)) × (load_all_for codec
            (add_message codec s message keys id now).1
            k
          ≡ ok before)
        × (load_all_for codec (acknowledge other id (add_message codec s message keys id now).1) k
            ≡ ok after)
        × (load_all_for codec
              (acknowledge k id (acknowledge other id (add_message codec s message keys id now).1))
              k
            ≡ ok gone)
        × (0 < count_id id before)
        × Carries codec id message before
        × (count_id id after ≡ count_id id before)
        × Carries codec id message after
        × (count_id id gone ≡ 0)
  message_until_acknowledged s message keys id now d k other here written back new asked apart =
      let (_, here1, pend1) =
        add_message-IsMessages s message keys id now d here written back new in
      let s1 = (add_message codec s message keys id now).1 in
      let written1 : All (IsContent id d) s1.messages =
        rw (add_message_new s message keys id now d here.answers written new)
          (inr refl, has_message-All id d s.messages new) in
      let (here2, pend2) = acknowledge-IsMessages s1 other id here1 in
      let s2 = acknowledge other id s1 in
      let (here3, pend3) = acknowledge-IsMessages s2 k id here2 in
      let s3 = acknowledge k id s2 in
      let (before, e1, c1) = load_all_for-pending codec s1 k here1 in
      let (after, e2, c2) = load_all_for-pending codec s2 k here2 in
      let (gone, e3, c3) = load_all_for-pending codec s3 k here3 in
      (
        before,
        after,
        gone,
        e1,
        e2,
        e3,
        (ground (arith, c1 id, pend1 id k)),
        load_all_for-Carries codec id message d s1 k before back written1 e1,
        (ground (arith, c1 id, c2 id, pend2 id k, apart)),
        load_all_for-Carries codec id message d s2 k after back
            (acknowledge-All id d other id s1 written1) e2,
        (ground (arith, c3 id, pend3 id k)),
      )
