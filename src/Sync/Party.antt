-- ===== src/Sync/Party.antt =====
-- svalin/src/shared/commands/update_trust_store.rs: one block at an agent, a client or the server.
use svalin.Prelude.{
  ℕ, suc, ◌<◌, ◌≡◌, ◌≤◌, ◌≢◌, ◌⊎◌, inl, inr, refl, sym, ap, ◌∙◌, true, none, some, List, [], ◌∷◌,
  ◌++◌, arith,
}
use svalin.Prelude.Tests.{Option-cases}
use svalin.Prelude.Result.{Result, Done, ok, err, panicked, Result-cases}
use svalin.Bytes.{Bytes}
use svalin.Platform.{Platform}
use svalin.Certificate.Defs.{RootCertificate}
use svalin.SecureChain.Block.{CheckedBlock}
use svalin.SecureChain.Chain
use svalin.SecureChain.Check.{Extends}
use svalin.TrustStore.State.{Transaction, trust_state}
use svalin.TrustStore.Laws.{IsParsed, IsParsedTransaction}
use svalin.TrustStore.Store
use svalin.TrustStore.Store.{TrustStore, sequence}
use svalin.TrustStore.Replica.{Step, Reaches, Reaches-IsProperState, Step-Stepped}
use svalin.TransactionStore.Rows.{i64_limit}
use svalin.TransactionStore.Defs.{
  Block, Codec, RoundTrips, TransactionStore, TransactionStoreError, add_block, add_and_broadcast,
}
use svalin.TransactionStore.Laws.{IsLog, CanStore, Stored}
use svalin.TransactionStore.Add.{add_block_next, add_block_next-Stored}
use svalin.TransactionStore.Server.{add_and_broadcast-Broadcast}
use svalin.Sync.Defs.{Party, SyncError, apply_stored, apply_block, handle_block}
use svalin.Sync.Follow.{
  Follows, Reaches-Follows, check-Follows, apply-Follows, checked-Follows, checked_block,
  check_leaves,
}

-- A block that postcard can write, of a sequence that the database can hold.
pub record Storable (codec : Codec) (b : CheckedBlock Transaction) : Type 0 where
  pub bytes : Bytes
  pub written : codec.to_stdvec b.as_unchecked ≡ some bytes
  pub small : b.sequence < i64_limit

-- The party has the content of the blocks, newest first, and its log is level with it.
pub record InStep (p : Platform) (codec : Codec) (root : RootCertificate) (first : ℕ)
    (logged : List Block) (bs : List (CheckedBlock Transaction)) (s : Party) : Type 0 where
  pub follows : Follows p root bs s.trust_store
  pub log : IsLog codec first logged s.transactions
  pub level : s.transactions.current_sequence ≡ sequence s.trust_store
  pub answers : s.transactions.pool.answers ≡ true

sequence-last :
    (t : TrustStore) (b : CheckedBlock Transaction)
    → t.chain.last_block ≡ some b
    → sequence t ≡ b.sequence
unfolding sequence Chain.sequence
sequence-last t b e = rw (e, sequence) refl

module _ (p : Platform) (codec : Codec) (laws : RoundTrips codec) (root : RootCertificate)
    (parsed : IsParsed p root.to_unverified) (first : ℕ) (logged : List Block)
    (bs : List (CheckedBlock Transaction)) (s : Party)
    (here : InStep p codec root first logged bs s) (reached after : TrustStore)
    (b : CheckedBlock Transaction) (r : Reaches p root bs reached)
    (st : Step p root reached b after) where
  pub next_number : b.sequence ≡ suc s.transactions.current_sequence
  unfolding sequence Chain.sequence
  next_number =
      let proper = Reaches-IsProperState p root parsed bs reached r in
      let d = Step-Stepped p root parsed reached after b proper.0 st in
      let same = Reaches-Follows p root parsed bs reached s.trust_store r here.follows in
      let extends : Extends p (trust_state p) s.trust_store.chain.last_block b.as_unchecked =
        rw (← same.last) d.extends in
      elim (Option-cases s.trust_store.chain.last_block) [
        | inl e ↦
            let extends : Extends p (trust_state p) none b.as_unchecked = rw e at extends in
            let none_yet : sequence s.trust_store ≡ 0 = rw (e, sequence) refl in
            omega (arith, extends.0, here.level, none_yet)
        | inr (l, e) ↦
            let extends : Extends p (trust_state p) (some l) b.as_unchecked = rw e at extends in
            let at_last : sequence s.trust_store ≡ l.sequence = rw (e, sequence) refl in
            omega (arith, extends.0, at_last, here.level, here.log.current, here.log.fits)
      ]

  -- A party in step takes the next block of another, as soon as its clock has reached the time of
  -- the block and its database takes it, and is in step again with one block more.
  pub apply_block_next :
      (now : ℕ)
      → b.time ≤ now
      → Storable codec b
      → ((apply_block p codec s b.as_unchecked now).0 ≡ ok tt)
        × InStep p codec root first
            (logged ++ b.as_unchecked ∷ [])
            (b ∷ bs)
            (apply_block p codec s b.as_unchecked now).1
  unfolding apply_block sequence Chain.sequence
  apply_block_next now not_future can =
      let checked =
        check-Follows p root parsed bs reached after s.trust_store b now r st here.follows
          not_future in
      let (next, applied, follows, last) =
        apply-Follows p root parsed bs reached after s.trust_store b now r st here.follows
          not_future in
      let stores : CanStore codec s.transactions b.as_unchecked = record {
        answers = here.answers;
        bytes = can.bytes;
        written = can.written;
      } in
      let added =
        add_block_next p codec laws first logged s.transactions here.log b next_number can.small
          stores in
      elim (add_block_next-Stored p codec laws first logged s.transactions here.log b next_number
        can.small) [
          | inr (failed, _) ↦ absurd (failed added)
          | inl (_, log, answers, current) ↦
              let at_end : sequence next ≡ b.sequence = sequence-last next b last in
              rw (checked, apply_block)
                (rw (added, apply_block)
                  (rw (applied, apply_stored)
                    (
                      refl,
                      record {
                        follows = follows;
                        log = log;
                        level = current ∙ sym at_end;
                        answers = answers ∙ here.answers;
                      },
                    )))
        ]

module _ (p : Platform) (codec : Codec) (laws : RoundTrips codec) (root : RootCertificate)
    (parsed : IsParsed p root.to_unverified) (first : ℕ) (logged : List Block)
    (bs : List (CheckedBlock Transaction)) (s : Party)
    (here : InStep p codec root first logged bs s) (b : Block) (now : ℕ)
    (value : IsParsedTransaction p b.transaction) (small : b.sequence < i64_limit) where
  -- The party is in step with one block more, or says that it is not and is in step as before.
  abbrev pub Kept : Result SyncError Done × Party → Type 0
  Kept out =
      ((out.0 ≡ ok tt)
        × InStep p codec root first (logged ++ b ∷ []) (record { as_unchecked = b } ∷ bs) out.1)
      ⊎ ((out.0 ≢ ok tt) × InStep p codec root first logged bs out.1)

  left_InStep :
      InStep p codec root first logged bs
        (record s { trust_store = (Store.check p s.trust_store b now).1 })
  unfolding sequence Chain.sequence
  left_InStep =
      let (follows, last) = check_leaves p root parsed bs s.trust_store b now here.follows value in
      record {
        follows = follows;
        log = here.log;
        level = here.level ∙ ap (λ o. elim o [ none ↦ 0 | some l ↦ l.sequence ]) (sym last);
        answers = here.answers;
      }

  apply_stored-Kept :
      (added : Result TransactionStoreError Done) (tx : TransactionStore)
      → (Store.check p s.trust_store b now).0 ≡ ok (record { as_unchecked = b })
      → Stored codec laws first logged s.transactions here.log b (added, tx)
      → Kept (
          apply_stored p codec
            (record { as_unchecked = b })
            added
            (record { trust_store = (Store.check p s.trust_store b now).1; transactions = tx }))
  unfolding apply_stored
  apply_stored-Kept (err e) tx h (inl (fine, _, _, _)) = absurd (cc fine)
  apply_stored-Kept panicked tx h (inl (fine, _, _, _)) = absurd (cc fine)
  apply_stored-Kept (ok _) tx h (inr (failed, _)) = absurd (failed refl)
  apply_stored-Kept (err e) tx h (inr (failed, kept)) = rw kept (inr (λ h. cc h, left_InStep))
  apply_stored-Kept panicked tx h (inr (failed, kept)) = rw kept (inr (λ h. cc h, left_InStep))
  apply_stored-Kept (ok _) tx h (inl (_, log, answers, current)) =
      let (reached, after, r, st) =
        checked-Follows p root parsed bs s.trust_store (record { as_unchecked = b }) now
          here.follows value h in
      let (next, applied, follows, last) =
        apply-Follows p root parsed bs reached after s.trust_store (record { as_unchecked = b }) now
          r st here.follows
          (checked_block p root parsed s.trust_store b (record { as_unchecked = b }) now h).1 in
      let at_end : sequence next ≡ b.sequence =
        sequence-last next (record { as_unchecked = b }) last in
      rw (applied, apply_stored)
        (inl (
          refl,
          record {
            follows = follows;
            log = log;
            level = current ∙ sym at_end;
            answers = answers ∙ here.answers;
          },
        ))

  same_checked :
      (c : CheckedBlock Transaction)
      → (Store.check p s.trust_store b now).0 ≡ ok c
      → (Store.check p s.trust_store b now).0 ≡ ok (record { as_unchecked = b })
  same_checked c h =
      let (e, _) = checked_block p root parsed s.trust_store b c now h in
      h ∙ ap ok (λ i. record { as_unchecked = e i })

  added_Stored :
      (Store.check p s.trust_store b now).0 ≡ ok (record { as_unchecked = b })
      → Stored codec laws first logged s.transactions here.log b
          (add_block codec p s.transactions (record { as_unchecked = b }))
  added_Stored checked =
      let c : CheckedBlock Transaction = record { as_unchecked = b } in
      let (reached, after, r, st) =
        checked-Follows p root parsed bs s.trust_store c now here.follows value checked in
      add_block_next-Stored p codec laws first logged s.transactions here.log c
        (next_number p codec laws root parsed first logged bs s here reached after c r st) small

  -- The same for an agent or client that is in step, and a block that a server sends.
  pub apply_block-Kept : Kept (apply_block p codec s b now)
  unfolding apply_block
  apply_block-Kept = elim (Result-cases (Store.check p s.trust_store b now).0) [
    | inr (inl (e, h)) ↦ rw (h, apply_block) (inr (λ h. cc h, left_InStep))
    | inr (inr h) ↦ rw (h, apply_block) (inr (λ h. cc h, left_InStep))
    | inl (c, h) ↦
        let checked = same_checked c h in
        let c : CheckedBlock Transaction = record { as_unchecked = b } in
        rw (checked, apply_block)
          (apply_stored-Kept (add_block codec p s.transactions c).0
            (add_block codec p s.transactions c).1 checked (added_Stored checked))
  ]

  -- A client sends a block whose sequence is below 2 ^ 63, the bound of the column in the database,
  -- and whose certificates are parsed ones, as those of all blocks that are read. Then a server that is
  -- in step, and to whose channel somebody listens, either takes the block, says so, and is in step
  -- with one block more, or fails and is in step as before. The coding of blocks round-trips, and the
  -- root certificate is a parsed one.
  pub handle_block-Kept : Kept (handle_block p codec s b now true)
  unfolding handle_block
  handle_block-Kept = elim (Result-cases (Store.check p s.trust_store b now).0) [
    | inr (inl (e, h)) ↦ rw (h, handle_block) (inr (λ h. cc h, left_InStep))
    | inr (inr h) ↦ rw (h, handle_block) (inr (λ h. cc h, left_InStep))
    | inl (c, h) ↦
        let checked = same_checked c h in
        let c : CheckedBlock Transaction = record { as_unchecked = b } in
        rw (checked, handle_block)
          (apply_stored-Kept (add_and_broadcast codec s.transactions c true).0
            (add_and_broadcast codec s.transactions c true).1 checked
            (elim (add_and_broadcast-Broadcast codec laws first logged s.transactions here.log c
              true small) [
                | inl (_, log, answers, current, fine) ↦ inl (fine, log, answers, current)
                | inr (kept, failed) ↦ inr (failed, kept)
              ]))
  ]
