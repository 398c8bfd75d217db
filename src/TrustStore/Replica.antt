-- ===== src/TrustStore/Replica.antt =====
-- svalin_pki/src/trust_store.rs: the stores that parties reach by checking and applying blocks.
pub mod Accept
use svalin.Prelude.{
  ℕ, ◌≡◌, ◌<◌, ◌⊎◌, refl, sym, ap, ◌∙◌, Option, none, some, List, [], ◌∷◌, arith, inl, inr,
}
use svalin.Prelude.Tests.{Option-cases, Bool-cases, ◌==◌, if◌then◌else◌}
use svalin.Prelude.Lists.{length, head?}
use svalin.Prelude.Result.{ok}
use svalin.Platform.{SpkiHash, Platform}
use svalin.HashMap.{lookup, insert, lookup-insert, map_laws}
use svalin.Certificate.Defs.{Certificate, RootCertificate}
use svalin.SecureChain.Block.{UncheckedBlock, CheckedBlock, block_digest}
use svalin.SecureChain.Chain
use svalin.SecureChain.Chain.{Chain, Credential}
use svalin.SecureChain.Check.{Extends, Accepts, check_iff, check_keeps, apply_checked}
use svalin.SecureChain.History.{IsHistory, AllInRange, SameHistory, Collision, history_binds}
use svalin.TrustStore.State.{State, Transaction, initialize_state, apply_state, trust_state}
use svalin.TrustStore.Same.{SameState, apply_state-Same}
use svalin.TrustStore.Laws.{
  IsParsed, IsParsedTransaction, IsProperState, apply_state-IsProper, trust_state_laws,
}
use svalin.TrustStore.Store
use svalin.TrustStore.Store.{TrustStore, get}

module _ (p : Platform) (root : RootCertificate) where
  -- One step of a party: a block is checked, and applied to what the check leaves.
  pub record Step (store : TrustStore) (b : CheckedBlock Transaction) (after : TrustStore)
      : Type 0 where
    pub now : ℕ
    pub parsed : IsParsedTransaction p b.transaction
    pub checked : (Store.check p store b.as_unchecked now).0 ≡ ok b
    pub applied : Store.apply p (Store.check p store b.as_unchecked now).1 b ≡ some after

  -- The stores that start with the root, with the blocks that led there, newest first.
  pub data Reaches : List (CheckedBlock Transaction) → TrustStore → Type 0 where
    start : Reaches [] (Store.initialize root)
    step :
        (bs : List (CheckedBlock Transaction)) (b : CheckedBlock Transaction)
        (store after : TrustStore)
        → Reaches bs store
        → Step store b after
        → Reaches (b ∷ bs) after

  -- What a check on the store is on its chain.
  pub check-Chain :
      (store : TrustStore) (block : UncheckedBlock Transaction) (now : ℕ)
      (b : CheckedBlock Transaction)
      → (Store.check p store block now).0 ≡ ok b
      → (c : Certificate) × ((Chain.check p (trust_state p) store.chain block c now).0 ≡ ok b)
        × ((Store.check p store block now).1.chain
            ≡ (Chain.check p (trust_state p) store.chain block c now).1)
  unfolding Store.check
  check-Chain store block now b h = elim (Option-cases (get store block.signer)) [
    | inl e ↦ absurd (ground arith)
    | inr (c, e) ↦ (c, (rw (e, Store.check) at h), rw (e, Store.check) refl)
  ]

  pub apply-Chain :
      (chain : Chain State Transaction) (b : CheckedBlock Transaction)
      (after : Chain State Transaction)
      → Chain.apply p (trust_state p) chain b ≡ some after
      → (apply_state p chain.state b.signer b.time b.transaction ≡ some after.state)
        × (after.last_block ≡ some b)
  unfolding Chain.apply
  apply-Chain chain b after h =
      elim (Option-cases (apply_state p chain.state b.signer b.time b.transaction)) [
        | inl e ↦ absurd (ground arith)
        | inr (s, e) ↦
            let result : after ≡ record { last_block = some b; state = s } = ground arith in
            rw result (e, refl)
      ]

  pub store_apply-Chain :
      (store after : TrustStore) (b : CheckedBlock Transaction)
      → Store.apply p store b ≡ some after
      → Chain.apply p (trust_state p) store.chain b ≡ some after.chain
  unfolding Store.apply
  store_apply-Chain store after b h =
      elim (Option-cases (Chain.apply p (trust_state p) store.chain b)) [
        | inl e ↦ absurd (ground arith)
        | inr (c, e) ↦ ground arith
      ]

  module _ (parsed : IsParsed p root.to_unverified) where
    initialize-IsProper : IsProperState p (initialize_state root)
    unfolding initialize_state
    initialize-IsProper = record {
      parsed = λ k c found. elim (Bool-cases (root.spki_hash == k)) [
        | inl same ↦
            let this : c ≡ root.to_certificate = ground arith in rw this (parsed, ground arith)
        | inr other ↦ absurd (ground arith)
      ];
    }

    -- What a step does to the state and the last block of the chain.
    pub record Stepped (store : TrustStore) (b : CheckedBlock Transaction) (after : TrustStore)
        : Type 0 where
      pub before : State
      pub same : SameState before store.chain.state
      pub applied : apply_state p before b.signer b.time b.transaction ≡ some after.chain.state
      pub last : after.chain.last_block ≡ some b
      pub extends : Extends p (trust_state p) store.chain.last_block b.as_unchecked

    pub Step-Stepped :
        (store after : TrustStore) (b : CheckedBlock Transaction)
        → IsProperState p store.chain.state
        → Step store b after
        → Stepped store b after
    unfolding Store.apply
    Step-Stepped store after b proper s =
        let (c, checked, left) = check-Chain store b.as_unchecked s.now b s.checked in
        let kept =
          check_keeps p (trust_state p) store.chain b.as_unchecked c s.now (trust_state_laws p)
            proper s.parsed in
        let accepted =
          (check_iff p (trust_state p) store.chain b.as_unchecked c s.now b).0 checked in
        let chain_applied : Chain.apply p (trust_state p)
              (Store.check p store b.as_unchecked s.now).1.chain b
            ≡ some after.chain =
          store_apply-Chain _ after b s.applied in
        let (applied, last) = apply-Chain _ b after.chain chain_applied in
        record {
          before = (Store.check p store b.as_unchecked s.now).1.chain.state;
          same = rw left kept.1;
          applied = applied;
          last = last;
          extends = accepted.1.extends;
        }

    pub SameState-IsProper : (s t : State) → SameState s t → IsProperState p t → IsProperState p s
    SameState-IsProper s t same proper = record {
      parsed = λ k c found. proper.parsed k c (sym (same.entries k) ∙ found);
    }

    -- In every store that a party reaches from a parsed root, each entry is a parsed certificate
    -- under its own hash, and the blocks are a history whose newest block is the last one.
    pub Reaches-IsProperState :
        (bs : List (CheckedBlock Transaction)) (store : TrustStore)
        → Reaches bs store
        → IsProperState p store.chain.state
          × (store.chain.last_block ≡ head? bs)
          × IsHistory p (trust_state p) bs
    unfolding Store.initialize Chain.initialize
    Reaches-IsProperState _ _ start = (initialize-IsProper, refl, tt)
    Reaches-IsProperState _ _ (step bs b store after r s) =
        let (proper, last, history) = Reaches-IsProperState bs store r in
        let d = Step-Stepped store after b proper s in
        (
          apply_state-IsProper p d.before after.chain.state b.signer b.time b.transaction
              (SameState-IsProper d.before store.chain.state d.same proper) s.parsed d.applied,
          d.last,
          (rw (← last) d.extends, history),
        )

    pub SameState-trans : (s t u : State) → SameState s t → SameState t u → SameState s u
    SameState-trans s t u h g = (trust_state_laws p).Same-trans s t u h g

    pub SameState-sym : (s t : State) → SameState s t → SameState t s
    SameState-sym s t h = record { root = sym h.root; entries = λ k. sym (h.entries k) }

    pub apply_state_unique :
        (s t s' t' : State) (b : CheckedBlock Transaction)
        → SameState s t
        → apply_state p s b.signer b.time b.transaction ≡ some s'
        → apply_state p t b.signer b.time b.transaction ≡ some t'
        → SameState s' t'
    apply_state_unique s t s' t' b same e f =
        let (u, g, related) = apply_state-Same p s t b.signer b.time b.transaction s' same e in
        let this : u ≡ t' = cc in rw (← this) related

    -- Two parties that start from one parsed root and applied the same blocks have the same root, and
    -- the same certificate or none under every hash.
    pub replicas_agree :
        (bs : List (CheckedBlock Transaction)) (s t : TrustStore)
        → Reaches bs s
        → Reaches bs t
        → SameState s.chain.state t.chain.state
    replicas_agree _ _ _ start start = (trust_state_laws p).Same-refl _
    replicas_agree _ _ _ (step bs b s s' r x) (step _ _ t t' q y) =
        let d = Step-Stepped s s' b (Reaches-IsProperState bs s r).0 x in
        let e = Step-Stepped t t' b (Reaches-IsProperState bs t q).0 y in
        let before : SameState d.before e.before =
          SameState-trans d.before s.chain.state e.before d.same (
            SameState-trans s.chain.state t.chain.state e.before (replicas_agree bs s t r q)
              (SameState-sym e.before t.chain.state e.same)) in
        apply_state_unique d.before e.before s'.chain.state t'.chain.state b before d.applied
          e.applied
