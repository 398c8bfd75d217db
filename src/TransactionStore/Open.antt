-- ===== src/TransactionStore/Open.antt =====
-- svalin_store/src/trust_store_transaction_store.rs: opening a store, and adding a block again.
use svalin.Prelude.{
  ℕ, ◌+◌, ◌<◌, ◌≡◌, inl, inr, refl, sym, ap, ◌∙◌, true, false, List, [], ◌∷◌, ◌++◌, some, arith,
}
use mathlib.Core.Path.{subst}
use svalin.Prelude.Tests.{ltb, leb}
use svalin.Prelude.Lists.{length, length-append}
use svalin.Prelude.Result.{ok}
use svalin.Platform.{Platform}
use svalin.SecureChain.Block.{CheckedBlock, next_sequence}
use svalin.TrustStore.State.{Transaction}
use svalin.TransactionStore.Table.{select_max}
use svalin.TransactionStore.Rows.{i64_limit, max_key-Holds}
use svalin.TransactionStore.Defs.{
  Block, Codec, RoundTrips, TransactionStore, open_store, stored_block, add_block,
}
use svalin.TransactionStore.Laws.{IsLog, stored_block-answers}
use svalin.TransactionStore.Add.{block_eq_self, add_block-Added}

-- Opening the table of a log that holds a block gives back the store.
pub open_store-log :
    (codec : Codec) (first : ℕ) (b : Block) (bs : List Block) (s : TransactionStore)
    → IsLog codec first (b ∷ bs) s
    → s.pool.answers ≡ true
    → open_store s.pool ≡ some s
unfolding open_store select_max
open_store-log codec first b bs s log up =
    let (k, last, same) =
      max_key-Holds codec first s.pool.rows bs b log.rows log.numbered (omega (arith, log.fits)) in
    let current : s.current_sequence ≡ first + length bs = omega (arith, log.current) in
    ground (arith, last, same, current)

-- A store that is opened on a table without rows takes no block but the one of sequence 2.
pub add_block-opened_empty :
    (p : Platform) (codec : Codec) (s : TransactionStore) (b : CheckedBlock Transaction)
    → RoundTrips codec
    → open_store (record { answers = true; rows = [] }) ≡ some s
    → b.sequence < i64_limit
    → (add_block codec p s b).0 ≡ ok tt
    → b.sequence ≡ 2
unfolding open_store select_max
add_block-opened_empty p codec s b laws opened small added =
    let this : s ≡ record { pool = record { answers = true; rows = [] }; current_sequence = 1 } =
      ground arith in
    let log : IsLog codec 2 [] s =
      rw this (record { rows = tt; numbered = tt; current = refl; fits = omega arith }) in
    elim (add_block-Added p codec laws 2 [] s log b small) [
      | inl (inl (_, after, _, _)) ↦ after.numbered.0
      | inl (inr (failed, _)) ↦ absurd (failed added)
      | inr (_, _, (older, c, newer, e, _, _)) ↦
          absurd (omega (arith, ap length e, length-append older (c ∷ newer)))
    ]

-- Adding a block that was just added changes nothing and succeeds, as long as the database answers:
-- an agent may repeat an interrupted step.
pub add_block_again :
    (p : Platform) (codec : Codec) (first : ℕ) (bs : List Block) (s after : TransactionStore)
    (b : CheckedBlock Transaction)
    → RoundTrips codec
    → IsLog codec first bs s
    → b.sequence < i64_limit
    → add_block codec p s b ≡ (ok tt, after)
    → after.pool.answers ≡ true
    → add_block codec p after b ≡ (ok tt, after)
unfolding add_block
add_block_again p codec first bs s after b laws log small h up =
    let added : (add_block codec p s b).0 ≡ ok tt = ap (λ x. x.0) h in
    let same : (add_block codec p s b).1 ≡ after = ap (λ x. x.1) h in
    elim (add_block-Added p codec laws first bs s log b small) [
      | inl (inr (failed, _)) ↦ absurd (failed added)
      | inr (_, kept, _) ↦ subst (λ x. add_block codec p x b ≡ (ok tt, after)) (sym kept ∙ same) h
      | inl (inl (_, stored, _, current)) ↦
          let log_after : IsLog codec first (bs ++ b.as_unchecked ∷ []) after = rw same at stored in
          let at_end : after.current_sequence ≡ b.sequence = rw same at current in
          let found : stored_block codec after b.sequence ≡ ok b.as_unchecked =
            stored_block-answers codec laws first (bs ++ b.as_unchecked ∷ []) after log_after up bs
              b.as_unchecked [] refl in
          let near : ltb (next_sequence after.current_sequence) b.sequence ≡ false = ground arith in
          let old : leb b.sequence after.current_sequence ≡ true = ground arith in
          rw (near, add_block)
            (rw (old, add_block) (rw (found, add_block) (rw (block_eq_self p b.as_unchecked) refl)))
    ]
