-- ===== src/Sync/CatchUp.antt =====
-- svalin/src/shared/commands/update_trust_store.rs: an agent or client catches up with the server.
use svalin.Prelude.{
  ℕ, ◌+◌, ◌≡◌, ◌≤◌, refl, ap, ◌∙◌, true, none, some, List, [], ◌∷◌, ◌++◌, map, arith,
}
use mathlib.Core.List.{append-nil, append_assoc, map-append}
use svalin.Prelude.Tests.{◌==◌, ==_self}
use svalin.Prelude.Lists.{All, length, length-append}
use svalin.Prelude.Result.{ok}
use svalin.Platform.{Platform}
use svalin.Certificate.Defs.{RootCertificate}
use svalin.SecureChain.Block.{CheckedBlock}
use svalin.SecureChain.Chain
use svalin.SecureChain.Chain.{ExportedChain}
use svalin.TrustStore.State.{Transaction}
use svalin.TrustStore.Laws.{IsParsed}
use svalin.TrustStore.Store.{TrustStore, sequence, digest}
use svalin.TrustStore.Replica.{Step, Reaches, step}
use svalin.TransactionStore.Defs.{Block, Codec, RoundTrips, load_and_subscribe}
use svalin.TransactionStore.Server.{load_and_subscribe_complete}
use svalin.Sync.Defs.{
  Party, TrustStoreUpdate, transaction, up_to_date, Event, arrived, apply_block, catch_up, announce,
}
use svalin.Sync.Follow.{SameStore, Follows-Same, digest-SameStore}
use svalin.Sync.Party.{InStep, Storable, apply_block_next}

-- The blocks behind the others, oldest first, put on the list of all, newest first.
abbrev pub extend :
    List (CheckedBlock Transaction)
    → List (CheckedBlock Transaction)
    → List (CheckedBlock Transaction)
extend bs [] = bs
extend bs (b ∷ news) = extend (b ∷ bs) news

abbrev pub unchecked : List (CheckedBlock Transaction) → List Block
unchecked bs = map (λ b. b.as_unchecked) bs

sequence-Same : (s t : TrustStore) → SameStore s t → sequence s ≡ sequence t
unfolding sequence Chain.sequence
sequence-Same s t same = ap (λ o. elim o [ none ↦ 0 | some l ↦ l.sequence ]) same.last

module _ (p : Platform) (root : RootCertificate) where
  Reaches-last :
      (bs : List (CheckedBlock Transaction)) (b : CheckedBlock Transaction) (s : TrustStore)
      → Reaches p root (b ∷ bs) s
      → (before : TrustStore) × Reaches p root bs before × Step p root before b s
  Reaches-last _ _ _ (step bs b before s r st) = (before, r, st)

  Reaches-extend :
      (bs news : List (CheckedBlock Transaction)) (s : TrustStore)
      → Reaches p root (extend bs news) s
      → (before : TrustStore) × Reaches p root bs before
  Reaches-extend bs [] s r = (s, r)
  Reaches-extend bs (b ∷ news) s r =
      let (after, q) = Reaches-extend (b ∷ bs) news s r in
      let (before, q, st) = Reaches-last bs b after q in (before, q)

  -- The step by the first of the further blocks.
  pub Reaches-first :
      (bs news : List (CheckedBlock Transaction)) (b : CheckedBlock Transaction) (s : TrustStore)
      → Reaches p root (extend (b ∷ bs) news) s
      → (before after : TrustStore) × Reaches p root bs before × Step p root before b after
  Reaches-first bs news b s r =
      let (after, q) = Reaches-extend (b ∷ bs) news s r in
      let (before, q, st) = Reaches-last bs b after q in (before, after, q, st)

abbrev pub arrivals : (TrustStoreUpdate → ℕ) → List TrustStoreUpdate → List Event
arrivals clock updates = map (λ u. arrived (clock u) u) updates

module _ (p : Platform) (codec : Codec) (laws : RoundTrips codec) (root : RootCertificate)
    (parsed : IsParsed p root.to_unverified) where
  -- The time of each block has come when it arrives.
  abbrev pub InTime : (TrustStoreUpdate → ℕ) → List (CheckedBlock Transaction) → Type 0
  InTime clock news = All (λ b. b.time ≤ clock (transaction b.as_unchecked)) news

  catch_up_blocks :
      (first : ℕ) (logged : List Block) (bs news : List (CheckedBlock Transaction)) (s : Party)
      (reached : TrustStore) (clock : TrustStoreUpdate → ℕ) (later : List Event)
      → InStep p codec root first logged bs s
      → Reaches p root (extend bs news) reached
      → All (Storable codec) news
      → InTime clock news
      → (after : Party) × (catch_up p codec s
            (arrivals clock (map transaction (unchecked news)) ++ later)
          ≡ catch_up p codec after later)
        × InStep p codec root first (logged ++ unchecked news) (extend bs news) after
  unfolding catch_up
  catch_up_blocks first logged bs [] s reached clock later here r can in_time =
      (s, refl, rw append-nil here)
  catch_up_blocks first logged bs (b ∷ news) s reached clock later here r can in_time =
      let (before, then_after, q, st) = Reaches-first p root bs news b reached r in
      let now = clock (transaction b.as_unchecked) in
      let (applied, next) =
        apply_block_next p codec laws root parsed first logged bs s here before then_after b q st
          now in_time.0 can.0 in
      let (after, caught, done) =
        catch_up_blocks first (logged ++ b.as_unchecked ∷ []) (b ∷ bs) news
          (apply_block p codec s b.as_unchecked now).1 reached clock later next r can.1 in_time.1 in
      (
        after,
        (rw (applied, catch_up) caught),
        (rw (append_assoc logged (b.as_unchecked ∷ []) (unchecked news)) at done),
      )

  -- The positions of the new blocks in the log of a server that is in step.
  positions :
      (first first' : ℕ) (logged older : List Block) (news : List (CheckedBlock Transaction))
      (bs : List (CheckedBlock Transaction)) (after server : Party)
      → InStep p codec root first (logged ++ unchecked news) (extend bs news) after
      → InStep p codec root first' (older ++ unchecked news) (extend bs news) server
      → first' + length older ≡ first + length logged
  positions first first' logged older news bs after server here there =
      let same =
        Follows-Same p root parsed (extend bs news) after.trust_store server.trust_store
          here.follows there.follows in
      let equal : sequence after.trust_store ≡ sequence server.trust_store =
        sequence-Same after.trust_store server.trust_store same in
      omega (
        arith,
        here.log.current,
        there.log.current,
        here.level,
        there.level,
        equal,
        length-append logged (unchecked news),
        length-append older (unchecked news),
      )

  announce_lem :
      (server : Party) (request : ℕ) (pending blocks held all : List Block)
      → load_and_subscribe codec server.transactions request pending ≡ ok (blocks, held)
      → blocks ++ held ≡ all
      → announce p codec server request pending
        ≡ ok (map transaction all ++ up_to_date (digest p server.trust_store) ∷ [])
  unfolding announce
  announce_lem server request pending blocks held all loaded e =
      rw (loaded, announce)
        (rw (← e) (rw (map-append transaction blocks held) (rw append_assoc refl)))

  -- An agent or client and a server are in step, and the server's log holds the blocks that the other
  -- lacks. The other's clock has reached the time of each of these blocks when it arrives, and its
  -- database can store each of them; what was sent to the server's channel meanwhile is in the
  -- server's log too. Then the server answers the request so that the first loop of the dispatcher ends
  -- well, and both are in step with the same blocks and have one digest. The coding of blocks
  -- round-trips, and the root certificate is a parsed one.
  pub catch_up-announce :
      (first first' : ℕ) (logged older : List Block) (bs news : List (CheckedBlock Transaction))
      (s server : Party) (clock : TrustStoreUpdate → ℕ) (later : List Event) (seen : List Block)
      → InStep p codec root first logged bs s
      → InStep p codec root first' (older ++ unchecked news) (extend bs news) server
      → All (Storable codec) news
      → InTime clock news
      → All (λ b. b.sequence ≤ server.transactions.current_sequence) seen
      → (updates : List TrustStoreUpdate) × (announce p codec server (sequence s.trust_store) seen
          ≡ ok updates)
        × (after : Party) × (catch_up p codec s (arrivals clock updates ++ later)
            ≡ (some (ok later), after))
        × InStep p codec root first (logged ++ unchecked news) (extend bs news) after
        × (digest p after.trust_store ≡ digest p server.trust_store)
  unfolding announce catch_up
  catch_up-announce first first' logged older bs news s server clock later seen here there can
        in_time old =
      let current = map transaction (unchecked news) in
      let final = up_to_date (digest p server.trust_store) in
      let (after, caught, done) =
        catch_up_blocks first logged bs news s there.follows.reached clock
          (arrived (clock final) final ∷ later) here there.follows.reaches can in_time in
      let place = positions first first' logged older news bs after server done there in
      let (blocks, held, loaded, all) =
        load_and_subscribe_complete codec laws first' (older ++ unchecked news) server.transactions
          there.log (sequence s.trust_store) older (unchecked news) seen [] there.answers refl
          (omega (arith, place, here.log.current, here.level)) old tt in
      let one_digest = digest-SameStore p after.trust_store server.trust_store (
        Follows-Same p root parsed (extend bs news) after.trust_store server.trust_store
          done.follows there.follows) in
      let agreed : (digest p server.trust_store == digest p after.trust_store) ≡ true =
        rw one_digest (==_self (digest p server.trust_store)) in
      (
        current ++ final ∷ [],
        announce_lem server (sequence s.trust_store) seen blocks held (unchecked news)
            (rw append-nil at loaded) (all ∙ append-nil (unchecked news)),
        after,
        (simp (map-append, append_assoc) (caught ∙ (rw (agreed, catch_up) refl))),
        done,
        one_digest,
      )
