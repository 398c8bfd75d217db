-- ===== src/Sync/Unheard.antt =====
-- svalin/src/message_streaming/with_client.rs: a block that comes while nobody listens.
use svalin.Prelude.{
  ℕ, suc, ◌<◌, ◌≡◌, ◌≤◌, ◌≢◌, inl, inr, refl, sym, ap, ◌∙◌, Bool, false, Option, none, some, List,
  [], ◌∷◌, ◌++◌, arith,
}
use svalin.Prelude.Lists.{All}
use svalin.Prelude.Result.{ok, err, Result-cases}
use svalin.Platform.{Platform}
use svalin.Certificate.Defs.{RootCertificate}
use svalin.SecureChain.Block.{CheckedBlock, next_sequence}
use svalin.SecureChain.Chain
use svalin.SecureChain.Check.{Extends, check_iff}
use svalin.TrustStore.State.{Transaction, trust_state}
use svalin.TrustStore.Laws.{IsParsed, IsParsedTransaction}
use svalin.TrustStore.Store
use svalin.TrustStore.Store.{TrustStore, sequence}
use svalin.TrustStore.Replica.{check-Chain, Step, Reaches}
use svalin.TransactionStore.Rows.{i64_limit}
use svalin.TransactionStore.Defs.{Block, Codec, RoundTrips, broadcast_error, add_and_broadcast}
use svalin.TransactionStore.Laws.{IsLog}
use svalin.TransactionStore.Server.{add_and_broadcast-Broadcast, add_and_broadcast_next}
use svalin.Sync.Defs.{Party, store_failed, apply_stored, handle_block}
use svalin.Sync.Follow.{Follows, check-Follows, check_leaves}
use svalin.Sync.Party.{InStep, Storable, next_number}

Extends-sequence :
    (p : Platform) (last : Option (CheckedBlock Transaction)) (b : Block)
    → Extends p (trust_state p) last b
    → b.sequence ≡ next_sequence (elim last [ none ↦ 0 | some l ↦ l.sequence ])
Extends-sequence p none b e = e.0
Extends-sequence p (some l) b e = e.0

module _ (p : Platform) (codec : Codec) (laws : RoundTrips codec) (root : RootCertificate)
    (parsed : IsParsed p root.to_unverified) where
  -- The sequence that a check asks for.
  check-sequence :
      (t : TrustStore) (b : Block) (now : ℕ) (c : CheckedBlock Transaction)
      → (Store.check p t b now).0 ≡ ok c
      → c.sequence ≡ next_sequence (sequence t)
  unfolding sequence Chain.sequence
  check-sequence t b now c h =
      let (cert, checked, left) = check-Chain p root t b now c h in
      let (same, a) = (check_iff p (trust_state p) t.chain b cert now c).0 checked in
      ap (λ x. x.sequence) same ∙ Extends-sequence p t.chain.last_block b a.extends

  -- The log is one block ahead of the trust store.
  record Ahead (first : ℕ) (logged : List Block) (bs : List (CheckedBlock Transaction)) (s : Party)
      : Type 0 where
    follows : Follows p root bs s.trust_store
    log : IsLog codec first logged s.transactions
    ahead : s.transactions.current_sequence ≡ suc (sequence s.trust_store)

  -- A block that passes the check is behind the log.
  refuses :
      (first : ℕ) (logged : List Block) (bs : List (CheckedBlock Transaction)) (s : Party)
      (b : Block) (now : ℕ) (has_receivers : Bool) (c : CheckedBlock Transaction)
      → Ahead first logged bs s
      → (Store.check p s.trust_store b now).0 ≡ ok c
      → ((add_and_broadcast codec s.transactions c has_receivers).1 ≡ s.transactions)
        × ((add_and_broadcast codec s.transactions c has_receivers).0 ≢ ok tt)
  refuses first logged bs s b now has_receivers c here h =
      let asked = check-sequence s.trust_store b now c h in
      let small : c.sequence < i64_limit =
        omega (arith, asked, here.ahead, here.log.current, here.log.fits) in
      elim (add_and_broadcast-Broadcast codec laws first logged s.transactions here.log c
        has_receivers small) [
          | inr (kept, failed) ↦ (kept, failed)
          | inl (next, _, _, _, _) ↦
              absurd (omega (arith, next, asked, here.ahead, here.log.current, here.log.fits))
        ]

  -- The log stays one block ahead, whatever the check answers.
  stays-Ahead :
      (first : ℕ) (logged : List Block) (bs : List (CheckedBlock Transaction)) (s : Party)
      (b : Block) (now : ℕ)
      → Ahead first logged bs s
      → IsParsedTransaction p b.transaction
      → Ahead first logged bs (record s { trust_store = (Store.check p s.trust_store b now).1 })
  unfolding sequence Chain.sequence
  stays-Ahead first logged bs s b now here value =
      let (follows, last) = check_leaves p root parsed bs s.trust_store b now here.follows value in
      record {
        follows = follows;
        log = here.log;
        ahead =
            here.ahead ∙ ap suc (ap (λ o. elim o [ none ↦ 0 | some l ↦ l.sequence ]) (sym last));
      }

  handle_block_refused :
      (first : ℕ) (logged : List Block) (bs : List (CheckedBlock Transaction)) (s : Party)
      (b : Block) (now : ℕ) (has_receivers : Bool)
      → Ahead first logged bs s
      → IsParsedTransaction p b.transaction
      → ((handle_block p codec s b now has_receivers).0 ≢ ok tt)
        × Ahead first logged bs (handle_block p codec s b now has_receivers).1
  unfolding handle_block apply_stored
  handle_block_refused first logged bs s b now has_receivers here value =
      let stays = stays-Ahead first logged bs s b now here value in
      elim (Result-cases (Store.check p s.trust_store b now).0) [
        | inr (inl (e, h)) ↦ rw (h, handle_block) (λ h. cc h, stays)
        | inr (inr h) ↦ rw (h, handle_block) (λ h. cc h, stays)
        | inl (c, h) ↦
            let (kept, failed) = refuses first logged bs s b now has_receivers c here h in
            elim (Result-cases (add_and_broadcast codec s.transactions c has_receivers).0) [
              | inl (u, e) ↦ absurd (failed e)
              | inr (inl (x, e)) ↦
                  rw (h, handle_block) (rw (e, apply_stored) (rw kept (λ h. cc h, stays)))
              | inr (inr e) ↦
                  rw (h, handle_block) (rw (e, apply_stored) (rw kept (λ h. cc h, stays)))
            ]
      ]

  -- Every one of the blocks that come, at their times, is an error, whoever listens.
  abbrev pub AllRefused : List (Block × ℕ × Bool) → Party → Type 0
  AllRefused [] s = Unit
  AllRefused ((b, now, has_receivers) ∷ later) s =
      ((handle_block p codec s b now has_receivers).0 ≢ ok tt)
      × AllRefused later (handle_block p codec s b now has_receivers).1

  abbrev pub AllParsed : List (Block × ℕ × Bool) → Type 0
  AllParsed = All (λ e. IsParsedTransaction p e.0.transaction)

  all_refused :
      (first : ℕ) (logged : List Block) (bs : List (CheckedBlock Transaction)) (s : Party)
      (later : List (Block × ℕ × Bool))
      → Ahead first logged bs s
      → AllParsed later
      → AllRefused later s
  all_refused first logged bs s [] here values = tt
  all_refused first logged bs s ((b, now, has_receivers) ∷ later) here values =
      let (failed, next) =
        handle_block_refused first logged bs s b now has_receivers here values.0 in
      (
        failed,
        all_refused first logged bs (handle_block p codec s b now has_receivers).1 later next
            values.1,
      )

  handle_block_left :
      (s : Party) (b : CheckedBlock Transaction) (now : ℕ)
      → (Store.check p s.trust_store b.as_unchecked now).0 ≡ ok b
      → (add_and_broadcast codec s.transactions b false).0 ≡ err broadcast_error
      → handle_block p codec s b.as_unchecked now false ≡ (
        err (store_failed broadcast_error),
        record {
          trust_store = (Store.check p s.trust_store b.as_unchecked now).1;
          transactions = (add_and_broadcast codec s.transactions b false).1;
        },
      )
  unfolding handle_block apply_stored
  handle_block_left s b now checked failed =
      rw (checked, handle_block) (rw (failed, apply_stored) refl)

  -- A server is in step, and a block that is the next one for its trust store, whose time has come and
  -- which the database can store, comes while nobody listens to its channel. Then the block is stored
  -- in the log, but the client is told of an error, and the trust store is left without the block.
  -- Every block that comes after it, in any number, at any time and whoever listens then, is an error;
  -- their certificates are parsed ones, as those of all blocks that are read. The coding of blocks
  -- round-trips, and the root certificate is a parsed one.
  pub handle_block_unheard :
      (first : ℕ) (logged : List Block) (bs : List (CheckedBlock Transaction)) (s : Party)
      (reached after : TrustStore) (b : CheckedBlock Transaction) (now : ℕ)
      (later : List (Block × ℕ × Bool))
      → InStep p codec root first logged bs s
      → Reaches p root bs reached
      → Step p root reached b after
      → b.time ≤ now
      → Storable codec b
      → AllParsed later
      → ((handle_block p codec s b.as_unchecked now false).0 ≡ err (store_failed broadcast_error))
        × IsLog codec first
            (logged ++ b.as_unchecked ∷ [])
            (handle_block p codec s b.as_unchecked now false).1.transactions
        × Follows p root bs (handle_block p codec s b.as_unchecked now false).1.trust_store
        × AllRefused later (handle_block p codec s b.as_unchecked now false).1
  unfolding sequence Chain.sequence
  handle_block_unheard first logged bs s reached after b now later here r st not_future can values =
      let checked =
        check-Follows p root parsed bs reached after s.trust_store b now r st here.follows
          not_future in
      let (follows, last) =
        check_leaves p root parsed bs s.trust_store b.as_unchecked now here.follows st.parsed in
      let number =
        next_number p codec laws root parsed first logged bs s here reached after b r st in
      let (failed, log, current) =
        add_and_broadcast_next codec laws first logged s.transactions here.log b false number
          can.small (record { answers = here.answers; bytes = can.bytes; written = can.written }) in
      let left : Party = record {
        trust_store = (Store.check p s.trust_store b.as_unchecked now).1;
        transactions = (add_and_broadcast codec s.transactions b false).1;
      } in
      let ahead : Ahead first (logged ++ b.as_unchecked ∷ []) bs left = record {
        follows = follows;
        log = log;
        ahead =
            current
            ∙ number
            ∙ ap suc (here.level ∙ ap (λ o. elim o [ none ↦ 0 | some l ↦ l.sequence ]) (sym last));
      } in
      rw (handle_block_left s b now checked failed) (
        refl,
        log,
        follows,
        all_refused first (logged ++ b.as_unchecked ∷ []) bs left later ahead values,
      )
