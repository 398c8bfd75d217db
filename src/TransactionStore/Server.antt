-- ===== src/TransactionStore/Server.antt =====
-- svalin_store/src/server_store/trust_store_transaction_store.rs: the server's log and its channel.
use svalin.Prelude.{
  ℕ, suc, ◌+◌, ◌<◌, ◌≤◌, ◌≡◌, ◌≢◌, ◌⊎◌, inl, inr, refl, ap, ◌∙◌, Bool, true, false, List, [], ◌∷◌,
  ◌++◌, arith,
}
use mathlib.Core.List.{append_assoc}
use svalin.Prelude.Tests.{ltb, ◌==◌, if◌then◌else◌, Bool-cases}
use svalin.Prelude.Lists.{All, length, length-append}
use svalin.Prelude.Result.{Result, Done, ok, err}
use svalin.SecureChain.Block.{CheckedBlock, next_sequence}
use svalin.TrustStore.State.{Transaction}
use svalin.TransactionStore.Rows.{i64_limit, Consecutive, Consecutive-suffix}
use svalin.TransactionStore.Defs.{
  Block, Codec, RoundTrips, TransactionStore, TransactionStoreError, broadcast_error,
  add_and_broadcast, load_and_subscribe, receive_newer, last_sequence,
}
use svalin.TransactionStore.Laws.{
  IsLog, CanStore, insert_block-Stored, insert_block_total, load_all_after-newer,
}

last_sequence-cons :
    (after first : ℕ) (b : Block) (bs : List Block)
    → Consecutive first (b ∷ bs)
    → last_sequence after (b ∷ bs) ≡ first + length bs
unfolding last_sequence
last_sequence-cons after first b [] n = n.0 ∙ (omega arith)
last_sequence-cons after first b (c ∷ bs) n =
    last_sequence-cons after (suc first) c bs n.1 ∙ (omega arith)

last_sequence-Consecutive :
    (after : ℕ) (bs : List Block)
    → Consecutive (suc after) bs
    → last_sequence after bs ≡ after + length bs
unfolding last_sequence
last_sequence-Consecutive after [] n = omega arith
last_sequence-Consecutive after (b ∷ bs) n =
    last_sequence-cons after (suc after) b bs n ∙ (omega arith)

-- Of what the channel hands out, only blocks that were loaded are passed over.
receive_newer-append :
    (last : ℕ) (blocks seen rest : List Block)
    → All (λ b. b.sequence ≤ last) seen
    → Consecutive (suc last) rest
    → (receive_newer last blocks (seen ++ rest)).0 ++ (receive_newer last blocks (seen ++ rest)).1
      ≡ blocks ++ rest
unfolding receive_newer
receive_newer-append last blocks [] [] old n = refl
receive_newer-append last blocks [] (b ∷ rest) old n =
    let new : ltb last b.sequence ≡ true = ground (arith, n.0) in
    rw new (append_assoc blocks (b ∷ []) rest)
receive_newer-append last blocks (b ∷ seen) rest old n =
    let passed : ltb last b.sequence ≡ false = ground (arith, old.0) in
    rw passed (receive_newer-append last blocks seen rest old.1 n)

module _ (codec : Codec) (laws : RoundTrips codec) (first : ℕ) (bs : List Block)
    (s : TransactionStore) (log : IsLog codec first bs s) where
  -- What adding a block may do.
  abbrev pub Broadcast :
      Block → Bool → Result TransactionStoreError Done × TransactionStore → Type 0
  Broadcast b has_receivers out =
      ((b.sequence ≡ suc s.current_sequence)
        × IsLog codec first (bs ++ b ∷ []) out.1
        × (out.1.pool.answers ≡ s.pool.answers)
        × (out.1.current_sequence ≡ b.sequence)
        × (out.0 ≡ (if has_receivers then ok tt else err broadcast_error)))
      ⊎ ((out.1 ≡ s) × (out.0 ≢ ok tt))

  -- Adding a block at the server either stores it behind a log of consecutive blocks, of which it
  -- is the next, and is then an error exactly if nobody listens, or is an error and leaves the log
  -- as it is.
  pub add_and_broadcast-Broadcast :
      (b : CheckedBlock Transaction) (has_receivers : Bool)
      → b.sequence < i64_limit
      → Broadcast b.as_unchecked has_receivers (add_and_broadcast codec s b has_receivers)
  unfolding add_and_broadcast
  add_and_broadcast-Broadcast b has_receivers small =
      elim (Bool-cases (b.sequence == next_sequence s.current_sequence)) [
        | inr other ↦ rw other (inr (refl, λ h. cc h))
        | inl this ↦
            let next : b.sequence ≡ suc s.current_sequence =
              ground (arith, log.current, log.fits) in
            elim (insert_block-Stored codec laws first bs s log b.as_unchecked next small) [
              | inl (stored, after, up, current) ↦
                  rw this (rw stored (inl (next, after, up, current, refl)))
              | inr (failed, same) ↦ ground (arith, this, same, failed)
            ]
      ]

  -- A block of the next sequence that can be stored is stored, whoever listens.
  pub add_and_broadcast_next :
      (b : CheckedBlock Transaction) (has_receivers : Bool)
      → b.sequence ≡ suc s.current_sequence
      → b.sequence < i64_limit
      → CanStore codec s b.as_unchecked
      → ((add_and_broadcast codec s b has_receivers).0
          ≡ (if has_receivers then ok tt else err broadcast_error))
        × IsLog codec first
            (bs ++ b.as_unchecked ∷ [])
            (add_and_broadcast codec s b has_receivers).1
        × ((add_and_broadcast codec s b has_receivers).1.current_sequence ≡ b.sequence)
  unfolding add_and_broadcast
  add_and_broadcast_next b has_receivers next small can =
      let this : (b.sequence == next_sequence s.current_sequence) ≡ true = ground arith in
      let stored = insert_block_total codec laws first bs s log b.as_unchecked next small can in
      elim (insert_block-Stored codec laws first bs s log b.as_unchecked next small) [
        | inl (_, after, _, current) ↦ rw this (rw stored (refl, after, current))
        | inr (failed, _) ↦ absurd (failed stored)
      ]

  -- While the database answers: the blocks that are loaded, followed by those that the receiver
  -- still holds, are the blocks of the log behind the given sequence followed by those that came
  -- after the log was read, each once and in order. Blocks that came in between stand in the log
  -- and in the channel.
  pub load_and_subscribe_complete :
      (after : ℕ) (older newer seen rest : List Block)
      → s.pool.answers ≡ true
      → bs ≡ older ++ newer
      → first + length older ≡ suc after
      → All (λ b. b.sequence ≤ s.current_sequence) seen
      → Consecutive (suc s.current_sequence) rest
      → (blocks : List Block) × (held : List Block) × (load_and_subscribe codec s after
            (seen ++ rest)
          ≡ ok (blocks, held))
        × (blocks ++ held ≡ newer ++ rest)
  unfolding load_and_subscribe
  load_and_subscribe_complete after older newer seen rest up e split old n =
      let loaded = load_all_after-newer codec laws first bs s log after older newer up e split in
      let behind : Consecutive (first + length older) newer =
        Consecutive-suffix first older newer (rw e at (log.numbered)) in
      let last : last_sequence after newer ≡ s.current_sequence =
        last_sequence-Consecutive after newer (rw split at behind)
        ∙ (omega (arith, log.current, ap length e, length-append older newer)) in
      let received = receive_newer s.current_sequence newer (seen ++ rest) in
      (
        received.0,
        received.1,
        (rw loaded (rw last refl)),
        receive_newer-append s.current_sequence newer seen rest old n,
      )
