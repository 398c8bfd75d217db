-- ===== src/TransactionStore/Add.antt =====
-- svalin_store/src/trust_store_transaction_store.rs: `add`, as a log sees it.
use svalin.Prelude.{
  ℕ, suc, ◌+◌, ◌<◌, ◌≤◌, ◌≡◌, ◌≢◌, ◌⊎◌, inl, inr, refl, sym, ap, ◌∙◌, true, false, none, some, List,
  [], ◌∷◌, ◌++◌, arith,
}
use svalin.Prelude.Tests.{ltb, leb, ◌==◌, Bool-cases, ==_self}
use svalin.Prelude.Lists.{length, length-append, bytes_eq_self}
use svalin.Prelude.Result.{Result, Done, ok, err}
use svalin.Platform.{Platform}
use svalin.SecureChain.Block.{CheckedBlock, next_sequence, block_digest}
use svalin.TrustStore.State.{Transaction, trust_state}
use svalin.TransactionStore.Table.{as_i64, select_data, insert_data, select_rows}
use svalin.TransactionStore.Rows.{i64_limit, Consecutive, select_rows-missing, select_rows-found}
use svalin.TransactionStore.Defs.{
  Block, Codec, RoundTrips, TransactionStore, TransactionStoreError, block_eq, insert_block,
  stored_block, add_block,
}
use svalin.TransactionStore.Laws.{
  IsLog, CanStore, Stored, insert_block-Stored, insert_block_total, stored_block-answers,
}

-- In consecutive blocks there is one for each sequence of their range.
at_sequence :
    (first q : ℕ) (bs : List Block)
    → Consecutive first bs
    → first ≤ q
    → q < first + length bs
    → (older : List Block) × (c : Block) × (newer : List Block) × (bs ≡ older ++ c ∷ newer)
      × (c.sequence ≡ q)
at_sequence first q [] n low high = absurd (omega arith)
at_sequence first q (b ∷ bs) n low high = elim (Bool-cases (first == q)) [
  | inl this ↦ ([], b, bs, refl, n.0 ∙ (ground arith))
  | inr later ↦
      let (older, c, newer, e, s) = at_sequence (suc first) q bs n.1 (ground arith) (omega arith) in
      (b ∷ older, c, newer, ap (λ l. b ∷ l) e, s)
]

pub block_eq_self : (p : Platform) (b : Block) → block_eq p b b ≡ true
unfolding block_eq
block_eq_self p b =
    ground (arith, ==_self (block_digest p (trust_state p) b), bytes_eq_self b.signature)

module _ (p : Platform) (codec : Codec) (laws : RoundTrips codec) (first : ℕ) (bs : List Block)
    (s : TransactionStore) (log : IsLog codec first bs s) where
  -- A block of the log that `==` cannot tell from the given one.
  abbrev pub Known : Block → Type 0
  Known b =
      (older : List Block) × (c : Block) × (newer : List Block) × (bs ≡ older ++ c ∷ newer)
      × (c.sequence ≡ b.sequence)
      × (block_eq p c b ≡ true)

  abbrev pub Added : Block → Result TransactionStoreError Done × TransactionStore → Type 0
  Added b out = Stored codec laws first bs s log b out ⊎ ((out.0 ≡ ok tt) × (out.1 ≡ s) × Known b)

  insert_block_twice :
      (older : List Block) (c : Block) (newer : List Block) (b : Block)
      → bs ≡ older ++ c ∷ newer
      → c.sequence ≡ b.sequence
      → ((insert_block codec s b).0 ≢ ok tt) × ((insert_block codec s b).1 ≡ s)
  unfolding insert_block insert_data
  insert_block_twice older c newer b e same =
      let (d, found, dec) =
        select_rows-found codec first s.pool.rows older c newer (rw e at (log.rows))
          (rw e at (log.numbered))
          (omega (arith, ap length e, length-append older (c ∷ newer), log.fits)) in
      let taken : select_rows (as_i64 b.sequence) s.pool.rows ≡ some d =
        ap (λ q. select_rows (as_i64 q) s.pool.rows) (sym same) ∙ found in
      ground (arith, taken)

  stored_block_missing :
      (q : ℕ)
      → (s.pool.answers ≡ false) ⊎ (q < first)
      → q < i64_limit
      → (stored_block codec s q ≡ err TransactionStoreError.sqlx_error)
  unfolding stored_block select_data
  stored_block_missing q (inl down) small = rw down refl
  stored_block_missing q (inr old) small =
      let missing : select_rows (as_i64 q) s.pool.rows ≡ none =
        select_rows-missing codec first q s.pool.rows bs log.rows log.numbered (inl old) small
          log.fits in
      ground (arith, missing)

  add_known :
      (older : List Block) (c : Block) (newer : List Block) (b : CheckedBlock Transaction)
      → bs ≡ older ++ c ∷ newer
      → c.sequence ≡ b.sequence
      → s.pool.answers ≡ true
      → leb b.sequence s.current_sequence ≡ true
      → ltb (next_sequence s.current_sequence) b.sequence ≡ false
      → Added b.as_unchecked (add_block codec p s b)
  unfolding add_block
  add_known older c newer b e same up le lt =
      let found : stored_block codec s b.sequence ≡ ok c =
        ap (stored_block codec s) (sym same)
        ∙ stored_block-answers codec laws first bs s log up older c newer e in
      elim (Bool-cases (block_eq p c b.as_unchecked)) [
        | inl eq ↦
            rw lt (rw le (rw found (rw eq (inr (refl, refl, (older, c, newer, e, same, eq))))))
        | inr ne ↦ rw lt (
            rw le (
              rw found
                (rw ne (inl (inr (insert_block_twice older c newer b.as_unchecked e same))))))
      ]

  -- Adding a block to a log of consecutive blocks either stores it behind them, and says so, or
  -- says that it is there already, and then a block of the same sequence, digest and signature is,
  -- or is an error and leaves the log as it is.
  pub add_block-Added :
      (b : CheckedBlock Transaction)
      → b.sequence < i64_limit
      → Added b.as_unchecked (add_block codec p s b)
  unfolding add_block
  add_block-Added b small = elim (Bool-cases (ltb (next_sequence s.current_sequence) b.sequence)) [
    | inl far ↦ rw far (inl (inr (λ h. cc h, refl)))
    | inr near ↦ elim (Bool-cases (leb b.sequence s.current_sequence)) [
      | inr new ↦ rw near (
          rw new (
            inl (
              insert_block-Stored codec laws first bs s log b.as_unchecked
                (ground (arith, log.current, log.fits)) small)))
      | inl old ↦ elim (Bool-cases (ltb b.sequence first)) [
        | inl before ↦ rw near (
            rw old (
              rw (stored_block_missing b.sequence (inr (ground arith)) small)
                (inl (inr (λ h. cc h, refl)))))
        | inr within ↦ elim (Bool-cases s.pool.answers) [
          | inr down ↦ rw near (
              rw old (
                rw (stored_block_missing b.sequence (inl down) small)
                  (inl (inr (λ h. cc h, refl)))))
          | inl up ↦
              let (older, c, newer, e, same) =
                at_sequence first b.sequence bs log.numbered (ground arith)
                  (ground (arith, log.current)) in
              unfold add_block in add_known older c newer b e same up old near
        ]
      ]
    ]
  ]

  -- A block of the next sequence that can be stored is.
  pub add_block_next :
      (b : CheckedBlock Transaction)
      → b.sequence ≡ suc s.current_sequence
      → b.sequence < i64_limit
      → CanStore codec s b.as_unchecked
      → (add_block codec p s b).0 ≡ ok tt
  unfolding add_block
  add_block_next b next small can =
      let near : ltb (next_sequence s.current_sequence) b.sequence ≡ false = ground arith in
      let new : leb b.sequence s.current_sequence ≡ false = ground arith in
      rw near (rw new (insert_block_total codec laws first bs s log b.as_unchecked next small can))

  -- A block of the next sequence is never known, so it is stored or refused.
  pub add_block_next-Stored :
      (b : CheckedBlock Transaction)
      → b.sequence ≡ suc s.current_sequence
      → b.sequence < i64_limit
      → Stored codec laws first bs s log b.as_unchecked (add_block codec p s b)
  unfolding add_block
  add_block_next-Stored b next small =
      let near : ltb (next_sequence s.current_sequence) b.sequence ≡ false = ground arith in
      let new : leb b.sequence s.current_sequence ≡ false = ground arith in
      rw near (rw new (insert_block-Stored codec laws first bs s log b.as_unchecked next small))
