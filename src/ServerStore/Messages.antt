-- ===== src/ServerStore/Messages.antt =====
-- svalin_store/src/server_store/message_store.rs: messages until all receivers acknowledged them.
pub mod Counts
pub mod Load
pub mod Contents
pub mod Delivery
use svalin.Prelude.{
  ℕ, zero, suc, not, Bool, true, false, ◌&&◌, Option, none, some, List, [], ◌∷◌, ◌++◌, map,
}
use svalin.Prelude.Tests.{ltb, ◌==◌, if◌then◌else◌}
use svalin.Prelude.Result.{Result, Done, ok, err, panicked, ◌>>=◌}
use svalin.Bytes.{Bytes}
use svalin.Platform.{SpkiHash}

-- A row of `mls_messages`; the id is a UUID, as a number.
pub record MessageRow : Type 0 where
  pub id : ℕ
  pub content : Bytes
  pub received_at : ℕ

-- The rows of `mls_message_receivers` are pairs of the id of a message and a receiver.
pub record MessageStore : Type 0 where
  pub answers : Bool
  pub messages : List MessageRow
  pub receivers : List (ℕ × SpkiHash)

pub data MessageStoreError : Type 0 where
  db_error postcard_error : MessageStoreError

-- postcard
pub record MessageCodec (Message : Type 0) : Type 0 where
  pub to_stdvec : Message → Option Bytes
  pub from_bytes : Bytes → Option Message

unfoldable pub has_message : ℕ → List MessageRow → Bool
has_message id [] = false
has_message id (m ∷ rows) = if m.id == id then true else has_message id rows

-- How often the message stands for the receiver.
unfoldable pub pending : ℕ → SpkiHash → List (ℕ × SpkiHash) → ℕ
pending id k [] = 0
pending id k ((i, j) ∷ rows) =
    let rest = pending id k rows in if i == id && j == k then suc rest else rest

-- `DELETE FROM mls_message_receivers WHERE message_id = ? AND spki_hash = ?`
unfoldable pub drop_receiver : ℕ → SpkiHash → List (ℕ × SpkiHash) → List (ℕ × SpkiHash)
drop_receiver id k [] = []
drop_receiver id k ((i, j) ∷ rows) =
    let rest = drop_receiver id k rows in if i == id && j == k then rest else (i, j) ∷ rest

-- `SELECT 1 FROM mls_message_receivers WHERE message_id = ?`
unfoldable pub has_receiver : ℕ → List (ℕ × SpkiHash) → Bool
has_receiver id [] = false
has_receiver id ((i, j) ∷ rows) = if i == id then true else has_receiver id rows

unfoldable pub drop_message : ℕ → List MessageRow → List MessageRow
drop_message id [] = []
drop_message id (m ∷ rows) =
    let rest = drop_message id rows in if m.id == id then rest else m ∷ rest

-- `ORDER BY m.received_at ASC`; what stands first of two rows of one time is not said by SQL.
unfoldable pub insert_by_time : MessageRow → List MessageRow → List MessageRow
insert_by_time m [] = m ∷ []
insert_by_time m (q ∷ rows) =
    let later = insert_by_time m rows in
    if ltb q.received_at m.received_at then q ∷ later else m ∷ q ∷ rows

unfoldable pub order_by_time : List MessageRow → List MessageRow
unfolding insert_by_time
order_by_time [] = []
order_by_time (m ∷ rows) = insert_by_time m (order_by_time rows)

unfoldable pub copies : ℕ → MessageRow → List MessageRow
copies zero m = []
copies (suc n) m = m ∷ copies n m

-- The join of the messages with the rows of the receiver.
unfoldable pub join_receivers : SpkiHash → List (ℕ × SpkiHash) → List MessageRow → List MessageRow
unfolding pending copies
join_receivers k receivers [] = []
join_receivers k receivers (m ∷ rows) =
    copies (pending m.id k receivers) m ++ join_receivers k receivers rows

-- The two statements that acknowledge a message.
unfoldable pub acknowledge : SpkiHash → ℕ → MessageStore → MessageStore
unfolding drop_receiver has_receiver drop_message
acknowledge k id s =
    let left = drop_receiver id k s.receivers in
    record s {
      receivers = left;
      messages = if has_receiver id left then s.messages else drop_message id s.messages;
    }

-- `aknowledge_single_message`
unfoldable pub acknowledge_single_message :
    MessageStore → SpkiHash → ℕ → Result MessageStoreError Done × MessageStore
unfolding acknowledge
acknowledge_single_message s k id =
    if s.answers then (ok tt, acknowledge k id s) else (err db_error, s)

unfoldable pub acknowledge_all : SpkiHash → List ℕ → MessageStore → MessageStore
unfolding acknowledge
acknowledge_all k [] s = s
acknowledge_all k (id ∷ ids) s = acknowledge_all k ids (acknowledge k id s)

-- `aknowledge_messages`, in one transaction
unfoldable pub acknowledge_messages :
    MessageStore → SpkiHash → List ℕ → Result MessageStoreError Done × MessageStore
unfolding acknowledge_all
acknowledge_messages s k ids =
    if s.answers then (ok tt, acknowledge_all k ids s) else (err db_error, s)

module _ {Message : Type 0} (codec : MessageCodec Message) where
  -- `add_message` up to the distribution, in one transaction, at the time `now` under a new id.
  unfoldable pub add_message :
      MessageStore → Message → List SpkiHash → ℕ → ℕ → Result MessageStoreError Done × MessageStore
  unfolding has_message
  add_message s message receivers id now = elim (codec.to_stdvec message) [
    | none ↦ (err postcard_error, s)
    | some d ↦
        if not s.answers
        then (err db_error, s)
        else if has_message id s.messages
        then (err db_error, s)
        else (
          ok tt,
          record s {
            messages = record { id = id; content = d; received_at = now } ∷ s.messages;
            receivers = map (λ k. (id, k)) receivers ++ s.receivers;
          },
        )
  ]

  unfoldable pub read_rows : List MessageRow → Result MessageStoreError (List (ℕ × Message))
  read_rows [] = ok []
  read_rows (m ∷ rows) =
      let rest = read_rows rows in
      elim (codec.from_bytes m.content) [
        | none ↦ err postcard_error
        | some message ↦ do read ← rest; ok ((m.id, message) ∷ read)
      ]

  -- `load_all_for`
  unfoldable pub load_all_for :
      MessageStore → SpkiHash → Result MessageStoreError (List (ℕ × Message))
  unfolding read_rows join_receivers order_by_time
  load_all_for s k =
      if s.answers
      then read_rows (join_receivers k s.receivers (order_by_time s.messages))
      else err db_error
