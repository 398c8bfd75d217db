-- ===== src/TrustStore/Replica/Accept.antt =====
-- svalin_pki/src/trust_store.rs: checking and applying a block at the parties that hold a store.
use svalin.Prelude.{ℕ, ◌≡◌, ◌≤◌, refl, sym, ap, ◌∙◌, some, List, ◌∷◌, arith, inl, inr}
use svalin.Prelude.Tests.{Option-cases}
use svalin.Prelude.Result.{ok}
use svalin.Platform.{Platform}
use svalin.Certificate.Defs.{Certificate, RootCertificate}
use svalin.SecureChain.Block.{UncheckedBlock, CheckedBlock}
use svalin.SecureChain.Chain
use svalin.SecureChain.Chain.{Chain, state_digest}
use svalin.SecureChain.Check.{Accepts, check_iff, check_keeps, apply_checked}
use svalin.TrustStore.State.{State, Transaction, trust_state}
use svalin.TrustStore.Same.{SameState, apply_state-Same, check_state-Same, digest_state-Same}
use svalin.TrustStore.Laws.{IsParsed, IsParsedTransaction, trust_state_laws}
use svalin.TrustStore.Store
use svalin.TrustStore.Store.{TrustStore, get}
use svalin.TrustStore.Replica.{
  Reaches, step, check-Chain, Reaches-IsProperState, replicas_agree, SameState-sym,
}

module _ (p : Platform) (root : RootCertificate) (parsed : IsParsed p root.to_unverified) where
  -- A party that reached its store from a parsed root applies a block of a parsed certificate that
  -- passed its check without a panic, and reaches the store with one more block.
  pub checked-Reaches :
      (bs : List (CheckedBlock Transaction)) (store : TrustStore) (b : CheckedBlock Transaction)
      (now : ℕ)
      → Reaches p root bs store
      → IsParsedTransaction p b.transaction
      → (Store.check p store b.as_unchecked now).0 ≡ ok b
      → (after : TrustStore) × (Store.apply p (Store.check p store b.as_unchecked now).1 b
          ≡ some after)
        × Reaches p root (b ∷ bs) after
  unfolding Store.apply
  checked-Reaches bs store b now r value h =
      let (c, checked, left) = check-Chain p root store b.as_unchecked now b h in
      let proper = (Reaches-IsProperState p root parsed bs store r).0 in
      let kept =
        check_keeps p (trust_state p) store.chain b.as_unchecked c now (trust_state_laws p) proper
          value in
      let other = (Store.check p store b.as_unchecked now).1 in
      let (chain, applied, last) =
        apply_checked p (trust_state p) store.chain b.as_unchecked c now (trust_state_laws p) b
          other.chain checked (ap (λ x. x.last_block) left ∙ kept.0)
          (SameState-sym p root parsed other.chain.state store.chain.state (rw left kept.1)) in
      let done : Store.apply p other b ≡ some (record { chain = chain }) =
        rw (applied, Store.apply) refl in
      (
        record { chain = chain },
        done,
        step bs b store (record { chain = chain }) r
            (record { now = now; parsed = value; checked = h; applied = done }),
      )

  -- A block that one chain accepts is accepted by a chain with the same last block and the same state.
  pub Accepts-Same :
      (s t : Chain State Transaction) (block : UncheckedBlock Transaction) (c : Certificate)
      (now later : ℕ)
      → s.last_block ≡ t.last_block
      → SameState s.state t.state
      → block.time ≤ later
      → Accepts p (trust_state p) s block c now
      → Accepts p (trust_state p) t block c later
  unfolding state_digest
  Accepts-Same s t block c now later same_last same not_future a =
      let (applied, applied_eq, after_same) =
        apply_state-Same p s.state t.state block.signer block.time block.transaction a.applied same
          a.applied_eq in
      record {
        extends = rw (← same_last) a.extends;
        not_in_future = not_future;
        by_certificate = a.by_certificate;
        signed = a.signed;
        allowed =
            sym (check_state-Same p s.state t.state block.signer block.time block.transaction same)
            ∙ a.allowed;
        applied = applied;
        applied_eq = applied_eq;
        result = a.result ∙ ap p.sha512 (digest_state-Same a.applied applied after_same);
      }

  -- Of two parties that start from one parsed root and applied the same blocks, if one accepts a
  -- block, so does the other, as soon as its clock has reached the time of the block.
  pub replicas_accept :
      (bs : List (CheckedBlock Transaction)) (s t : TrustStore) (block : UncheckedBlock Transaction)
      (b : CheckedBlock Transaction) (now later : ℕ)
      → Reaches p root bs s
      → Reaches p root bs t
      → block.time ≤ later
      → (Store.check p s block now).0 ≡ ok b
      → (Store.check p t block later).0 ≡ ok b
  unfolding Store.check get
  replicas_accept bs s t block b now later r q not_future h =
      elim (Option-cases (get s block.signer)) [
        | inl e ↦ absurd (ground arith)
        | inr (c, e) ↦
            let same = replicas_agree p root parsed bs s t r q in
            let last =
              (Reaches-IsProperState p root parsed bs s r).1
              ∙ sym (Reaches-IsProperState p root parsed bs t q).1 in
            let checked : (Chain.check p (trust_state p) s.chain block c now).0 ≡ ok b =
              rw (e, Store.check) at h in
            let (b_eq, a) = (check_iff p (trust_state p) s.chain block c now b).0 checked in
            let there : get t block.signer ≡ some c = sym (same.entries block.signer) ∙ e in
            rw (there, Store.check)
              ((check_iff p (trust_state p) t.chain block c later b).1
                (b_eq, Accepts-Same s.chain t.chain block c now later last same not_future a))
      ]
