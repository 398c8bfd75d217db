-- ===== src/Sync/Recover.antt =====
-- svalin/src/util/trust_store.rs: a party starts again from its file and its log.
use svalin.Prelude.{ℕ, suc, ◌+◌, ◌≡◌, ◌≤◌, refl, List, [], ◌∷◌, ◌++◌, map}
use svalin.Prelude.Lists.{All, length}
use svalin.Prelude.Result.{ok}
use svalin.Platform.{Platform}
use svalin.Certificate.Defs.{RootCertificate}
use svalin.SecureChain.Block.{CheckedBlock}
use svalin.SecureChain.Chain.{ExportedChain}
use svalin.TrustStore.State.{Transaction, ExportedState}
use svalin.TrustStore.Laws.{IsParsed}
use svalin.TrustStore.Store
use svalin.TrustStore.Store.{TrustStore, sequence}
use svalin.TrustStore.Replica.{Reaches}
use svalin.TransactionStore.Defs.{Block, Codec, RoundTrips, load_all_after}
use svalin.TransactionStore.Laws.{load_all_after-newer}
use svalin.Sync.Defs.{Party, replay, load_trust_store}
use svalin.Sync.Follow.{SameStore, Follows, Follows-Same, check-Follows, apply-Follows}
use svalin.Sync.Party.{InStep}
use svalin.Sync.CatchUp.{extend, unchecked, Reaches-first}

module _ (p : Platform) (codec : Codec) (laws : RoundTrips codec) (root : RootCertificate)
    (parsed : IsParsed p root.to_unverified) where
  replay-Follows :
      (bs news : List (CheckedBlock Transaction)) (t reached : TrustStore) (clock : Block → ℕ)
      → Follows p root bs t
      → Reaches p root (extend bs news) reached
      → All (λ b. b.time ≤ clock b.as_unchecked) news
      → (after : TrustStore) × (replay p codec t (map (λ b. (clock b, b)) (unchecked news))
          ≡ ok after)
        × Follows p root (extend bs news) after
  unfolding replay
  replay-Follows bs [] t reached clock f r in_time = (t, refl, f)
  replay-Follows bs (b ∷ news) t reached clock f r in_time =
      let (before, then_after, q, st) = Reaches-first p root bs news b reached r in
      let now = clock b.as_unchecked in
      let checked = check-Follows p root parsed bs before then_after t b now q st f in_time.0 in
      let (next, applied, follows, last) =
        apply-Follows p root parsed bs before then_after t b now q st f in_time.0 in
      let (after, replayed, done) =
        replay-Follows (b ∷ bs) news next reached clock follows r in_time.1 in
      (after, (rw (checked, replay) (rw (applied, replay) replayed)), done)

  -- A party was in step when it stopped, the import of its file succeeds and gives a store of its past,
  -- and its clock has reached the time of each block that it had stored since. Then it loads from its
  -- log exactly these blocks, opening succeeds, and the store has the content that it had when the party
  -- stopped. The coding of blocks round-trips, and the root certificate is a parsed one.
  pub load_trust_store-Same :
      (first : ℕ) (older : List Block) (bs news : List (CheckedBlock Transaction)) (s : Party)
      (exported : ExportedChain ExportedState Transaction) (t : TrustStore) (clock : Block → ℕ)
      → InStep p codec root first (older ++ unchecked news) (extend bs news) s
      → Store.import p exported ≡ ok t
      → Follows p root bs t
      → first + length older ≡ suc (sequence t)
      → All (λ b. b.time ≤ clock b.as_unchecked) news
      → (load_all_after codec s.transactions (sequence t) ≡ ok (unchecked news))
        × (after : TrustStore) × (load_trust_store p codec exported s.transactions clock ≡ ok after)
        × SameStore after s.trust_store
  unfolding load_trust_store
  load_trust_store-Same first older bs news s exported t clock here imported f place in_time =
      let loaded =
        load_all_after-newer codec laws first (older ++ unchecked news) s.transactions here.log
          (sequence t) older (unchecked news) here.answers refl place in
      let (after, replayed, done) =
        replay-Follows bs news t here.follows.reached clock f here.follows.reaches in_time in
      (
        loaded,
        after,
        (rw (imported, load_trust_store) (rw (loaded, load_trust_store) replayed)),
        Follows-Same p root parsed (extend bs news) after s.trust_store done here.follows,
      )
