-- ===== src/TransactionStore/Defs.antt =====
-- svalin_store/src/trust_store_transaction_store.rs and svalin_store/src/server_store/
-- trust_store_transaction_store.rs. A method returns its result and the store after it.
use svalin.Prelude.{ℕ, Bool, ◌&&◌, not, ◌≡◌, Option, none, some, List, [], ◌∷◌, ◌++◌}
use svalin.Prelude.Tests.{ltb, leb, ◌==◌, if◌then◌else◌}
use svalin.Prelude.Lists.{bytes_eq, get_last?}
use svalin.Prelude.Result.{Result, Done, ok, err, panicked, ◌>>=◌, ok_or}
use svalin.Bytes.{Bytes}
use svalin.Platform.{Platform}
use svalin.SecureChain.Block.{UncheckedBlock, CheckedBlock, block_digest, next_sequence}
use svalin.TrustStore.State.{Transaction, trust_state}
use svalin.TransactionStore.Table.{
  Table, as_i64, as_u64, select_data, select_after, select_max, insert_data,
}

abbrev pub Block : Type 0
Block = UncheckedBlock Transaction

-- postcard: `to_stdvec` and `from_bytes`
pub record Codec : Type 0 where
  pub to_stdvec : Block → Option Bytes
  pub from_bytes : Bytes → Option Block

-- What was written is read back.
pub record RoundTrips (codec : Codec) : Type 0 where
  pub from-to : (b : Block) (d : Bytes) → codec.to_stdvec b ≡ some d → codec.from_bytes d ≡ some b

-- `SequenceMismatch` of the server carries what was expected and what was given.
pub data TransactionStoreError : Type 0 where
  sqlx_error postcard_error broadcast_error : TransactionStoreError
  sequence_mismatch : Option (ℕ × ℕ) → TransactionStoreError

pub data LoadTransactionError : Type 0 where
  sqlx postcard : LoadTransactionError

-- Both stores have a pool and a sequence.
pub record TransactionStore : Type 0 where
  pub pool : Table
  pub current_sequence : ℕ

-- `TrustStoreTransactionStore::open`, of both stores; `none` is an error of the database.
unfoldable pub open_store : Table → Option TransactionStore
open_store pool = elim (select_max pool) [
  | none ↦ none
  | some (some m) ↦ some (record { pool = pool; current_sequence = as_u64 m })
  | some none ↦ some (record { pool = pool; current_sequence = 1 })
]

-- `PartialEq for UncheckedBlock`
unfoldable pub block_eq : Platform → Block → Block → Bool
block_eq p a b =
    block_digest p (trust_state p) a == block_digest p (trust_state p) b
    && bytes_eq a.signature b.signature

module _ (codec : Codec) where
  -- The two statements that store a block, and the new sequence after them.
  unfoldable pub insert_block :
      TransactionStore → Block → Result TransactionStoreError Done × TransactionStore
  insert_block s b = elim (codec.to_stdvec b) [
    | none ↦ (err postcard_error, s)
    | some d ↦ elim (insert_data s.pool (as_i64 b.sequence) d) [
      | none ↦ (err sqlx_error, s)
      | some pool ↦ (ok tt, record { pool = pool; current_sequence = b.sequence })
    ]
  ]

  unfoldable pub decode_all : List Bytes → Result LoadTransactionError (List Block)
  decode_all [] = ok []
  decode_all (d ∷ ds) =
      let rest = decode_all ds in
      elim (codec.from_bytes d) [ none ↦ err postcard | some b ↦ do bs ← rest; ok (b ∷ bs) ]

  -- `load_all_after` at an agent or client
  unfoldable pub load_all_after : TransactionStore → ℕ → Result LoadTransactionError (List Block)
  unfolding decode_all
  load_all_after s after = do ds ← ok_or (select_after s.pool (as_i64 after)) sqlx; decode_all ds

  -- The block that is stored under the sequence, as it is read before a block is stored again.
  unfoldable pub stored_block : TransactionStore → ℕ → Result TransactionStoreError Block
  stored_block s sequence = do
    d ← ok_or (select_data s.pool (as_i64 sequence)) sqlx_error
    ok_or (codec.from_bytes d) postcard_error

  -- `add` at an agent or client
  unfoldable pub add_block :
      Platform
      → TransactionStore
      → CheckedBlock Transaction
      → Result TransactionStoreError Done × TransactionStore
  unfolding insert_block stored_block
  add_block p s b =
      if ltb (next_sequence s.current_sequence) b.sequence
      then (err (sequence_mismatch none), s)
      else if leb b.sequence s.current_sequence
      then elim (stored_block s b.sequence) [
        | ok stored ↦
            if block_eq p stored b.as_unchecked then (ok tt, s) else insert_block s b.as_unchecked
        | err e ↦ (err e, s)
        | panicked ↦ (panicked, s)
      ]
      else insert_block s b.as_unchecked

  -- `add_and_broadcast` at the server. The flag says whether the channel has a receiver, without
  -- which sending is an error.
  unfoldable pub add_and_broadcast :
      TransactionStore
      → CheckedBlock Transaction
      → Bool
      → Result TransactionStoreError Done × TransactionStore
  unfolding insert_block
  add_and_broadcast s b has_receivers =
      if not (b.sequence == next_sequence s.current_sequence)
      then (err (sequence_mismatch (some (next_sequence s.current_sequence, b.sequence))), s)
      else (let (inserted, after) = insert_block s b.as_unchecked in
          elim inserted [
            | ok _ ↦ (if has_receivers then ok tt else err broadcast_error, after)
            | err e ↦ (err e, after)
            | panicked ↦ (panicked, after)
          ])

-- `transactions.last().map(|b| b.sequence()).unwrap_or(after)`
unfoldable pub last_sequence : ℕ → List Block → ℕ
last_sequence after blocks = elim (get_last? blocks) [ none ↦ after | some b ↦ b.sequence ]

-- The loop over `try_recv`: blocks that were loaded too are passed over, and the loop ends with the
-- first new one. The list is what the channel hands out before it is empty or fails.
unfoldable pub receive_newer : ℕ → List Block → List Block → List Block × List Block
receive_newer last blocks [] = (blocks, [])
receive_newer last blocks (b ∷ pending) =
    let rest = receive_newer last blocks pending in
    if ltb last b.sequence then (blocks ++ b ∷ [], pending) else rest

-- `load_all_after` at the server, with the blocks that arrive on its receiver while it loads. It
-- gives the blocks, and what the receiver still holds.
unfoldable pub load_and_subscribe :
    Codec
    → TransactionStore
    → ℕ
    → List Block
    → Result LoadTransactionError (List Block × List Block)
unfolding load_all_after receive_newer last_sequence
load_and_subscribe codec s after pending = do
  blocks ← load_all_after codec s after
  ok (receive_newer (last_sequence after blocks) blocks pending)
