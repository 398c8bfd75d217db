-- ===== src/ServerStore/Messages/Contents.antt =====
-- svalin_store/src/server_store/message_store.rs: the message that is loaded under an id.
use svalin.Prelude.{ℕ, zero, suc, ◌≡◌, ◌≢◌, ◌⊎◌, false, some, List, [], ◌∷◌, ◌++◌, arith, inl, inr}
use svalin.Prelude.Tests.{ltb, ◌==◌, Bool-cases, Option-cases}
use svalin.Prelude.Lists.{All}
use svalin.Prelude.Result.{ok, Result-cases}
use svalin.Bytes.{Bytes}
use svalin.Platform.{SpkiHash}
use svalin.ServerStore.Messages.{
  MessageRow, MessageStore, MessageCodec, has_message, has_receiver, drop_receiver, drop_message,
  pending, insert_by_time, order_by_time, copies, join_receivers, acknowledge, read_rows,
  load_all_for,
}

-- A row under the id has the content.
abbrev pub IsContent : ℕ → Bytes → MessageRow → Type 0
IsContent id d r = (r.id ≢ id) ⊎ (r.content ≡ d)

module _ (id : ℕ) (d : Bytes) where
  insert_by_time-All :
      (m : MessageRow) (rows : List MessageRow)
      → IsContent id d m
      → All (IsContent id d) rows
      → All (IsContent id d) (insert_by_time m rows)
  unfolding insert_by_time
  insert_by_time-All m [] h hs = (h, tt)
  insert_by_time-All m (q ∷ rows) h hs = elim (Bool-cases (ltb q.received_at m.received_at)) [
    | inl e ↦ rw e (hs.0, insert_by_time-All m rows h hs.1)
    | inr e ↦ rw e (h, hs)
  ]

  order_by_time-All :
      (rows : List MessageRow)
      → All (IsContent id d) rows
      → All (IsContent id d) (order_by_time rows)
  unfolding order_by_time
  order_by_time-All [] h = tt
  order_by_time-All (m ∷ rows) h =
      insert_by_time-All m (order_by_time rows) h.0 (order_by_time-All rows h.1)

  copies-All :
      (n : ℕ) (m : MessageRow) (rest : List MessageRow)
      → IsContent id d m
      → All (IsContent id d) rest
      → All (IsContent id d) (copies n m ++ rest)
  unfolding copies
  copies-All zero m rest h hs = hs
  copies-All (suc n) m rest h hs = (h, copies-All n m rest h hs)

  join_receivers-All :
      (k : SpkiHash) (receivers : List (ℕ × SpkiHash)) (rows : List MessageRow)
      → All (IsContent id d) rows
      → All (IsContent id d) (join_receivers k receivers rows)
  unfolding join_receivers
  join_receivers-All k receivers [] h = tt
  join_receivers-All k receivers (m ∷ rows) h =
      copies-All (pending m.id k receivers) m (join_receivers k receivers rows) h.0
        (join_receivers-All k receivers rows h.1)

  drop_message-All :
      (j : ℕ) (rows : List MessageRow)
      → All (IsContent id d) rows
      → All (IsContent id d) (drop_message j rows)
  unfolding drop_message
  drop_message-All j [] h = tt
  drop_message-All j (m ∷ rows) h = elim (Bool-cases (m.id == j)) [
    | inl e ↦ rw e (drop_message-All j rows h.1)
    | inr e ↦ rw e (h.0, drop_message-All j rows h.1)
  ]

  -- An acknowledgement changes no message.
  pub acknowledge-All :
      (k : SpkiHash) (j : ℕ) (s : MessageStore)
      → All (IsContent id d) s.messages
      → All (IsContent id d) (acknowledge k j s).messages
  unfolding acknowledge
  acknowledge-All k j s h = elim (Bool-cases (has_receiver j (drop_receiver j k s.receivers))) [
    | inl e ↦ rw (e, acknowledge) h
    | inr e ↦ rw (e, acknowledge) (drop_message-All j s.messages h)
  ]

  pub has_message-All :
      (rows : List MessageRow) → has_message id rows ≡ false → All (IsContent id d) rows
  unfolding has_message
  has_message-All [] h = tt
  has_message-All (m ∷ rows) h = elim (Bool-cases (m.id == id)) [
    | inl e ↦ absurd (ground (arith, h, e))
    | inr e ↦ (inl (ground (arith, e)), has_message-All rows (rw (e, has_message) at h))
  ]

module _ {Message : Type 0} (codec : MessageCodec Message) (id : ℕ) (message : Message) where
  -- What stands under the id in the list is the message.
  abbrev pub Carries : List (ℕ × Message) → Type 0
  Carries = All (λ e. (e.0 ≢ id) ⊎ (e.1 ≡ message))

  read_rows-Carries :
      (d : Bytes) (rows : List MessageRow) (all : List (ℕ × Message))
      → codec.from_bytes d ≡ some message
      → All (IsContent id d) rows
      → read_rows codec rows ≡ ok all
      → Carries all
  unfolding read_rows
  read_rows-Carries d [] all back h e = let none_read : all ≡ [] = cc (e) in rw none_read tt
  read_rows-Carries d (m ∷ rows) all back h e = elim (Option-cases (codec.from_bytes m.content)) [
    | inl unread ↦ absurd (ground (arith, e, unread))
    | inr (x, read) ↦ elim (Result-cases (read_rows codec rows)) [
      | inr (inl (y, failed)) ↦ absurd (ground (arith, e, read, failed))
      | inr (inr failed) ↦ absurd (ground (arith, e, read, failed))
      | inl (later, done) ↦
          let is : all ≡ (m.id, x) ∷ later = ground (arith, e, read, done) in
          rw is (
            elim h.0 [ inl other ↦ inl other | inr same ↦ inr (cc (same, read, back)) ],
            read_rows-Carries d rows later back h.1 done,
          )
    ]
  ]

  -- What is loaded under the id of a row is its message.
  pub load_all_for-Carries :
      (d : Bytes) (s : MessageStore) (k : SpkiHash) (all : List (ℕ × Message))
      → codec.from_bytes d ≡ some message
      → All (IsContent id d) s.messages
      → load_all_for codec s k ≡ ok all
      → Carries all
  unfolding load_all_for
  load_all_for-Carries d s k all back h e = elim (Bool-cases s.answers) [
    | inr down ↦ absurd (ground (arith, e, down))
    | inl up ↦
        read_rows-Carries d (join_receivers k s.receivers (order_by_time s.messages)) all back
          (join_receivers-All id d k s.receivers (order_by_time s.messages)
            (order_by_time-All id d s.messages h))
          (rw up at e)
  ]
