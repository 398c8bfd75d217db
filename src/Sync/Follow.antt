-- ===== src/Sync/Follow.antt =====
-- svalin_pki/src/trust_store.rs: trust stores that have the content of one that was reached, whatever
-- they were built from, such as an imported one.
use svalin.Prelude.{ℕ, ◌≡◌, ◌≤◌, refl, sym, ap, ◌∙◌, some, List, ◌∷◌, arith, inl, inr}
use svalin.Prelude.Tests.{Option-cases}
use svalin.Prelude.Result.{ok}
use svalin.Platform.{Platform}
use svalin.Certificate.Defs.{RootCertificate}
use svalin.SecureChain.Block.{UncheckedBlock, CheckedBlock}
use svalin.SecureChain.Chain
use svalin.SecureChain.Chain.{Chain}
use svalin.SecureChain.Check.{check_iff, check_keeps, apply_checked}
use svalin.TrustStore.State.{Transaction, trust_state}
use svalin.TrustStore.Same.{SameState, digest_state-Same}
use svalin.TrustStore.Laws.{IsParsed, IsParsedTransaction, IsProperState, trust_state_laws}
use svalin.TrustStore.Store
use svalin.TrustStore.Store.{TrustStore, get, digest}
use svalin.TrustStore.Replica.{
  Step, Reaches, step, check-Chain, Reaches-IsProperState, replicas_agree, SameState-sym,
  SameState-trans, SameState-IsProper, Step-Stepped, apply-Chain, apply_state_unique,
}
use svalin.TrustStore.Replica.Accept.{Accepts-Same, checked-Reaches}

-- The same certificates under the same root, and the same last block.
pub record SameStore (s t : TrustStore) : Type 0 where
  pub state : SameState s.chain.state t.chain.state
  pub last : s.chain.last_block ≡ t.chain.last_block

module _ (p : Platform) (root : RootCertificate) where
  -- The store has the content of one that is reached by the blocks, newest first.
  pub record Follows (bs : List (CheckedBlock Transaction)) (store : TrustStore) : Type 0 where
    pub reached : TrustStore
    pub reaches : Reaches p root bs reached
    pub same : SameStore reached store

pub digest-SameStore : (p : Platform) (s t : TrustStore) → SameStore s t → digest p s ≡ digest p t
unfolding digest Chain.digest
digest-SameStore p s t same =
    cc (same.last, digest_state-Same s.chain.state t.chain.state same.state)

module _ (p : Platform) (root : RootCertificate) (parsed : IsParsed p root.to_unverified) where
  pub Reaches-Follows :
      (bs : List (CheckedBlock Transaction)) (s t : TrustStore)
      → Reaches p root bs s
      → Follows p root bs t
      → SameStore s t
  Reaches-Follows bs s t r f = record {
    state =
        SameState-trans p root parsed s.chain.state f.reached.chain.state t.chain.state
          (replicas_agree p root parsed bs s f.reached r f.reaches) f.same.state;
    last =
        (Reaches-IsProperState p root parsed bs s r).1
        ∙ sym (Reaches-IsProperState p root parsed bs f.reached f.reaches).1
        ∙ f.same.last;
  }

  -- A check depends on the content of the store alone, and on the clock no more than that the time
  -- of the block has come.
  pub check-SameStore :
      (s t : TrustStore) (block : UncheckedBlock Transaction) (b : CheckedBlock Transaction)
      (now later : ℕ)
      → SameStore s t
      → block.time ≤ later
      → (Store.check p s block now).0 ≡ ok b
      → (Store.check p t block later).0 ≡ ok b
  unfolding Store.check get
  check-SameStore s t block b now later same not_future h =
      elim (Option-cases (get s block.signer)) [
        | inl e ↦ absurd (ground arith)
        | inr (c, e) ↦
            let there : get t block.signer ≡ some c = sym (same.state.entries block.signer) ∙ e in
            let checked : (Chain.check p (trust_state p) s.chain block c now).0 ≡ ok b =
              rw (e, Store.check) at h in
            let (b_eq, a) = (check_iff p (trust_state p) s.chain block c now b).0 checked in
            rw (there, Store.check)
              ((check_iff p (trust_state p) t.chain block c later b).1 (
                b_eq,
                Accepts-Same p root parsed s.chain t.chain block c now later same.last same.state
                    not_future a,
              ))
      ]

  -- A checked block is the block, and its time has come.
  pub checked_block :
      (t : TrustStore) (block : UncheckedBlock Transaction) (b : CheckedBlock Transaction) (now : ℕ)
      → (Store.check p t block now).0 ≡ ok b
      → (b.as_unchecked ≡ block) × (block.time ≤ now)
  checked_block t block b now h =
      let (c, checked, left) = check-Chain p root t block now b h in
      let (b_eq, a) = (check_iff p (trust_state p) t.chain block c now b).0 checked in
      (b_eq, a.not_in_future)

  proper_of :
      (bs : List (CheckedBlock Transaction)) (t : TrustStore)
      → Follows p root bs t
      → IsProperState p t.chain.state
  proper_of bs t f =
      SameState-IsProper p root parsed t.chain.state f.reached.chain.state
        (SameState-sym p root parsed f.reached.chain.state t.chain.state f.same.state)
        (Reaches-IsProperState p root parsed bs f.reached f.reaches).0

  -- Whatever a check answers, the store keeps its content.
  pub check_leaves :
      (bs : List (CheckedBlock Transaction)) (t : TrustStore) (block : UncheckedBlock Transaction)
      (now : ℕ)
      → Follows p root bs t
      → IsParsedTransaction p block.transaction
      → Follows p root bs (Store.check p t block now).1
        × ((Store.check p t block now).1.chain.last_block ≡ t.chain.last_block)
  unfolding Store.check
  check_leaves bs t block now f value = elim (Option-cases (get t block.signer)) [
    | inl e ↦ rw (e, Store.check) (f, refl)
    | inr (c, e) ↦
        let kept =
          check_keeps p (trust_state p) t.chain block c now (trust_state_laws p) (proper_of bs t f)
            value in
        let left = (Chain.check p (trust_state p) t.chain block c now).1 in
        rw (e, Store.check)
          (
            record {
              reached = f.reached;
              reaches = f.reaches;
              same = record {
                state =
                    SameState-trans p root parsed f.reached.chain.state t.chain.state left.state
                      f.same.state (SameState-sym p root parsed left.state t.chain.state kept.1);
                last = f.same.last ∙ sym kept.0;
              };
            },
            kept.0,
          )
  ]

  module _ (bs : List (CheckedBlock Transaction)) (s after t : TrustStore)
      (b : CheckedBlock Transaction) (now : ℕ) (r : Reaches p root bs s)
      (st : Step p root s b after) (f : Follows p root bs t) (not_future : b.time ≤ now) where
    -- The block that one party took passes the check of a party with the same content, as soon as
    -- its clock has reached the time of the block.
    pub check-Follows : (Store.check p t b.as_unchecked now).0 ≡ ok b
    check-Follows =
        check-SameStore s t b.as_unchecked b st.now now (Reaches-Follows bs s t r f) not_future
          st.checked

    -- What the check leaves applies the block, and has then the content of one block more.
    pub apply-Follows :
        (next : TrustStore) × (Store.apply p (Store.check p t b.as_unchecked now).1 b ≡ some next)
        × Follows p root (b ∷ bs) next
        × (next.chain.last_block ≡ some b)
    unfolding Store.apply
    apply-Follows =
        let same = Reaches-Follows bs s t r f in
        let (c, checked, left) = check-Chain p root t b.as_unchecked now b check-Follows in
        let proper = proper_of bs t f in
        let kept =
          check_keeps p (trust_state p) t.chain b.as_unchecked c now (trust_state_laws p) proper
            st.parsed in
        let other = (Store.check p t b.as_unchecked now).1 in
        let other_last : other.chain.last_block ≡ t.chain.last_block =
          ap (λ x. x.last_block) left ∙ kept.0 in
        let other_same : SameState t.chain.state other.chain.state =
          SameState-sym p root parsed other.chain.state t.chain.state (rw left kept.1) in
        let (chain, applied, last) =
          apply_checked p (trust_state p) t.chain b.as_unchecked c now (trust_state_laws p) b
            other.chain checked other_last other_same in
        let next : TrustStore = record { chain = chain } in
        let d =
          Step-Stepped p root parsed s after b (Reaches-IsProperState p root parsed bs s r).0 st in
        let before : SameState d.before other.chain.state =
          SameState-trans p root parsed d.before s.chain.state other.chain.state d.same (
            SameState-trans p root parsed s.chain.state t.chain.state other.chain.state same.state
              other_same) in
        let state : SameState after.chain.state chain.state =
          apply_state_unique p root parsed d.before other.chain.state after.chain.state chain.state
            b before d.applied (apply-Chain p root other.chain b chain applied).0 in
        (
          next,
          (rw (applied, Store.apply) refl),
          record {
            reached = after;
            reaches = step bs b s after r st;
            same = record { state = state; last = d.last ∙ sym last };
          },
          last,
        )

  -- A block that passes the check is a step of a store that was reached.
  pub checked-Follows :
      (bs : List (CheckedBlock Transaction)) (t : TrustStore) (b : CheckedBlock Transaction)
      (now : ℕ)
      → Follows p root bs t
      → IsParsedTransaction p b.transaction
      → (Store.check p t b.as_unchecked now).0 ≡ ok b
      → (reached after : TrustStore) × Reaches p root bs reached × Step p root reached b after
  checked-Follows bs t b now f value h =
      let back : SameStore t f.reached = record {
        state = SameState-sym p root parsed f.reached.chain.state t.chain.state f.same.state;
        last = sym f.same.last;
      } in
      let there =
        check-SameStore t f.reached b.as_unchecked b now now back
          (checked_block t b.as_unchecked b now h).1 h in
      let (after, applied, reaches) =
        checked-Reaches p root parsed bs f.reached b now f.reaches value there in
      (
        f.reached,
        after,
        f.reaches,
        record { now = now; parsed = value; checked = there; applied = applied },
      )

  -- Stores with the content of the same blocks have the same content.
  pub Follows-Same :
      (bs : List (CheckedBlock Transaction)) (s t : TrustStore)
      → Follows p root bs s
      → Follows p root bs t
      → SameStore s t
  Follows-Same bs s t f g =
      let same = Reaches-Follows bs f.reached t f.reaches g in
      let r = f.reached.chain.state in
      record {
        state =
            SameState-trans p root parsed s.chain.state r t.chain.state
              (SameState-sym p root parsed r s.chain.state f.same.state) same.state;
        last = sym f.same.last ∙ same.last;
      }
