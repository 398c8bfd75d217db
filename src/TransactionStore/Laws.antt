-- ===== src/TransactionStore/Laws.antt =====
-- svalin_store/src/trust_store_transaction_store.rs: the store as a log of consecutive blocks.
use svalin.Prelude.{
  ℕ, suc, ◌+◌, ◌<◌, ◌≤◌, ◌≡◌, ◌≢◌, ◌⊎◌, inl, inr, refl, sym, ap, true, none, some, List, [], ◌∷◌,
  ◌++◌, arith,
}
use svalin.Prelude.Tests.{Bool-cases, Option-cases}
use svalin.Prelude.Lists.{length, length-append}
use svalin.Prelude.Result.{Result, Done, ok}
use svalin.Bytes.{Bytes}
use svalin.TransactionStore.Table.{
  as_i64, select_data, select_after, insert_data, select_rows, insert_data_down, insert_data_new,
}
use svalin.TransactionStore.Rows.{
  i64_limit, Consecutive, Holds, Consecutive-append, insert_row-Holds, select_rows-missing,
  select_rows-found, decode-rows_after,
}
use svalin.TransactionStore.Defs.{
  Block, Codec, RoundTrips, TransactionStore, TransactionStoreError, insert_block, load_all_after,
  stored_block,
}

-- The store holds the blocks, whose sequences run from `first` to its current sequence.
pub record IsLog (codec : Codec) (first : ℕ) (bs : List Block) (s : TransactionStore) : Type 0 where
  pub rows : Holds codec s.pool.rows bs
  pub numbered : Consecutive first bs
  pub current : suc s.current_sequence ≡ first + length bs
  pub fits : first + length bs ≤ i64_limit

-- The transactions that postcard can write, in a store whose database answers.
pub record CanStore (codec : Codec) (s : TransactionStore) (b : Block) : Type 0 where
  pub answers : s.pool.answers ≡ true
  pub bytes : Bytes
  pub written : codec.to_stdvec b ≡ some bytes

module _ (codec : Codec) (laws : RoundTrips codec) (first : ℕ) (bs : List Block)
    (s : TransactionStore) (log : IsLog codec first bs s) where
  -- A block of the next sequence is stored behind the others, and if it is not stored the store is
  -- as before.
  abbrev pub Stored : Block → Result TransactionStoreError Done × TransactionStore → Type 0
  Stored b out =
      ((out.0 ≡ ok tt)
        × IsLog codec first (bs ++ b ∷ []) out.1
        × (out.1.pool.answers ≡ s.pool.answers)
        × (out.1.current_sequence ≡ b.sequence))
      ⊎ ((out.0 ≢ ok tt) × (out.1 ≡ s))

  pub insert_block-Stored :
      (b : Block)
      → b.sequence ≡ suc s.current_sequence
      → b.sequence < i64_limit
      → Stored b (insert_block codec s b)
  unfolding insert_block insert_data
  insert_block-Stored b next small = elim (Option-cases (codec.to_stdvec b)) [
    | inl e ↦ rw (e, insert_block) (inr (λ h. cc h, refl))
    | inr (d, e) ↦ elim (Bool-cases s.pool.answers) [
      | inr down ↦
          rw (e, insert_block)
            (rw (insert_data_down s.pool (as_i64 b.sequence) d down) (inr (λ h. cc h, refl)))
      | inl up ↦
          let new : select_rows (as_i64 b.sequence) s.pool.rows ≡ none =
            select_rows-missing codec first b.sequence s.pool.rows bs log.rows log.numbered
              (inr (omega (arith, log.current))) small log.fits in
          let last : first + length bs ≡ b.sequence = omega (arith, log.current) in
          rw (e, insert_block)
            (rw (insert_data_new s.pool (as_i64 b.sequence) d up new) (
              inl (
                refl,
                record {
                  rows =
                      insert_row-Holds codec first s.pool.rows bs b d log.rows log.numbered last
                        small (laws.from-to b d e);
                  numbered = Consecutive-append first bs (b ∷ []) log.numbered (sym last, tt);
                  current = omega (arith, length-append bs (b ∷ []), log.current);
                  fits = omega (arith, length-append bs (b ∷ []), log.current);
                },
                refl,
                refl,
              )))
    ]
  ]

  pub insert_block_total :
      (b : Block)
      → b.sequence ≡ suc s.current_sequence
      → b.sequence < i64_limit
      → CanStore codec s b
      → (insert_block codec s b).0 ≡ ok tt
  unfolding insert_block insert_data
  insert_block_total b next small can =
      let new : select_rows (as_i64 b.sequence) s.pool.rows ≡ none =
        select_rows-missing codec first b.sequence s.pool.rows bs log.rows log.numbered
          (inr (omega (arith, log.current))) small log.fits in
      rw (can.written, insert_block)
        (rw (insert_data_new s.pool (as_i64 b.sequence) can.bytes can.answers new) refl)

  pub stored_block-answers :
      s.pool.answers ≡ true
      → (older : List Block) (b : Block) (newer : List Block) → bs ≡ older ++ b ∷ newer
      → stored_block codec s b.sequence ≡ ok b
  unfolding stored_block select_data
  stored_block-answers up older b newer e =
      let fits = log.fits in
      let (d, found, dec) =
        select_rows-found codec first s.pool.rows older b newer (rw e at (log.rows))
          (rw e at (log.numbered))
          (omega (arith, ap length e, length-append older (b ∷ newer), log.fits)) in
      rw up (rw found (rw dec refl))

  -- While the database answers, loading from a log of consecutive blocks gives exactly the blocks
  -- behind the given sequence, in their order.
  pub load_all_after-newer :
      (after : ℕ) (older newer : List Block)
      → s.pool.answers ≡ true
      → bs ≡ older ++ newer
      → first + length older ≡ suc after
      → load_all_after codec s after ≡ ok newer
  unfolding load_all_after select_after
  load_all_after-newer after older newer up e split =
      let fits : first + length (older ++ newer) ≤ i64_limit =
        omega (arith, log.fits, ap length e) in
      rw up (
        decode-rows_after codec first after s.pool.rows older newer (rw e at (log.rows))
          (rw e at (log.numbered)) split fits)
