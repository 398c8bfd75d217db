-- ===== src/SecureChain/Check.antt =====
-- svalin_pki/src/secure_chain.rs: the meaning of `Chain::check`, and `Chain::apply` after it.
use svalin.Prelude.{
  ℕ, ◌≤◌, ◌≡◌, ◌≢◌, ◌↔◌, ◌⊎◌, inl, inr, refl, sym, ap, ◌∙◌, true, Option, none, some, arith,
}
use svalin.Prelude.Tests.{Option-cases}
use svalin.Prelude.Result.{Result, ok, panicked, Result-cases}
use svalin.Bytes.{to_be_bytes}
use svalin.Platform.{Platform}
use svalin.Certificate.Defs.{Certificate}
use svalin.SecureChain.Interface.{ChainState, ChainStateLaws, CheckBlockError}
use svalin.SecureChain.Block.{
  UncheckedBlock, CheckedBlock, empty_digest, next_sequence, block_digest,
}
use svalin.SecureChain.Chain.{
  Chain, state_digest, check_position, check_block, check_result, check, apply,
}

module _ {State Tx Error Exported InnerError : Type 0} (p : Platform)
    (C : ChainState State Tx Error Exported InnerError) where
  -- The block stands directly behind the last block.
  abbrev pub Extends : Option (CheckedBlock Tx) → UncheckedBlock Tx → Type 0
  Extends none block = (block.sequence ≡ 1) × (block.previous_block_hash ≡ empty_digest)
  Extends (some last) block =
      (block.sequence ≡ next_sequence last.sequence)
      × (block.previous_block_hash ≡ block_digest p C last.as_unchecked)
      × (last.time ≤ block.time)

  -- The block may be appended to the chain under the certificate, at the time `now`.
  pub record Accepts (chain : Chain State Tx) (block : UncheckedBlock Tx)
      (certificate : Certificate) (now : ℕ) : Type 0 where
    pub extends : Extends chain.last_block block
    pub not_in_future : block.time ≤ now
    pub by_certificate : block.signer ≡ certificate.spki_hash
    pub signed :
        p.verify certificate.public_key (to_be_bytes 64 (block_digest p C block)) block.signature
        ≡ true
    pub allowed : C.check chain.state block.signer block.time block.transaction ≡ ok tt
    pub applied : State
    pub applied_eq : C.apply chain.state block.signer block.time block.transaction ≡ some applied
    pub result : block.resulting_state ≡ state_digest p C applied

  check_position_iff :
      (last : Option (CheckedBlock Tx)) (block : UncheckedBlock Tx)
      → (check_position p C last block ≡ ok tt) ↔ Extends last block
  unfolding check_position
  check_position_iff none block = ground arith
  check_position_iff (some last) block = ground arith

  check_position_total :
      (last : Option (CheckedBlock Tx)) (block : UncheckedBlock Tx)
      → check_position p C last block ≢ panicked
  unfolding check_position
  check_position_total none block = ground arith
  check_position_total (some last) block = ground arith

  module _ (chain : Chain State Tx) (block : UncheckedBlock Tx) (certificate : Certificate)
      (now : ℕ) where
    check_position_ok :
        {b : CheckedBlock Tx}
        → (check p C chain block certificate now).0 ≡ ok b
        → check_position p C chain.last_block block ≡ ok tt
    unfolding check check_block check_result
    check_position_ok h = ground (arith, check_position_total chain.last_block block)

    check-Accepts :
        (b : CheckedBlock Tx)
        → (check p C chain block certificate now).0 ≡ ok b
        → (b.as_unchecked ≡ block) × Accepts chain block certificate now
    unfolding check check_block check_result
    check-Accepts b h =
        elim (Option-cases (C.apply chain.state block.signer block.time block.transaction)) [
          | inl e ↦ absurd (ground arith)
          | inr (applied, e) ↦ (
            ground arith,
            record {
              extends = (check_position_iff chain.last_block block).0 (check_position_ok h);
              not_in_future = ground arith;
              by_certificate = ground arith;
              signed = ground arith;
              allowed = ground arith;
              applied = applied;
              applied_eq = e;
              result = ground arith;
            },
          )
        ]

    pub Accepts-check :
        Accepts chain block certificate now
        → (check p C chain block certificate now).0 ≡ ok (record { as_unchecked = block })
    unfolding check check_block check_result
    Accepts-check a = ground (
      arith,
      a.applied_eq,
      a.result,
      a.allowed,
      a.signed,
      a.by_certificate,
      a.not_in_future,
      (check_position_iff chain.last_block block).1 a.extends,
    )

    -- A chain accepts a block exactly if it extends the last block, is not from the future, is
    -- signed by the certificate, is allowed by the state, and names the digest of the state that
    -- results; the checked block is the block.
    pub check_iff :
        (b : CheckedBlock Tx)
        → ((check p C chain block certificate now).0 ≡ ok b)
          ↔ ((b.as_unchecked ≡ block) × Accepts chain block certificate now)
    check_iff b =
        (check-Accepts b, λ h. Accepts-check h.1 ∙ ap ok (λ i. record { as_unchecked = sym h.0 i }))

    allowed_by :
        (block_ok : check_block p C chain block certificate now ≡ ok tt)
        → C.check chain.state block.signer block.time block.transaction ≡ ok tt
    unfolding check_block
    allowed_by block_ok = ground (arith, check_position_total chain.last_block block)

    panics_by :
        (panic : check_block p C chain block certificate now ≡ panicked)
        → C.check chain.state block.signer block.time block.transaction ≡ panicked
    unfolding check_block
    panics_by panic = ground (arith, check_position_total chain.last_block block)

    module _ (L : ChainStateLaws C) where
      abbrev Keeps : Result (CheckBlockError Error) (CheckedBlock Tx) × Chain State Tx → Type 0
      Keeps (r, after) =
          (after.last_block ≡ chain.last_block)
          × L.Same after.state chain.state
          × ((r ≢ panicked)
              ⊎ (C.check chain.state block.signer block.time block.transaction ≡ panicked))

      check_result-Keeps :
          L.IsProper chain.state
          → L.IsValue block.transaction
          → C.check chain.state block.signer block.time block.transaction ≡ ok tt
          → Keeps (check_result p C chain block)
      unfolding check_result
      check_result-Keeps proper value allowed =
          let (applied, e) =
            L.apply_total chain.state block.signer block.time block.transaction proper allowed in
          rw (e, check_result)
            (
              refl,
              L.revert-apply chain.state applied block.signer block.time block.transaction proper
                  value allowed e,
              inl (λ h. absurd (ground arith)),
            )

      -- Over a proper state with the laws of the interface, and for a transaction that the program
      -- can build: whatever a check answers, the last block stays and the state is the same as
      -- before, and the check panics only if the check of the state does.
      pub check_keeps :
          L.IsProper chain.state
          → L.IsValue block.transaction
          → ((check p C chain block certificate now).1.last_block ≡ chain.last_block)
            × L.Same (check p C chain block certificate now).1.state chain.state
            × (((check p C chain block certificate now).0 ≢ panicked)
                ⊎ (C.check chain.state block.signer block.time block.transaction ≡ panicked))
      unfolding check
      check_keeps proper value = elim (Result-cases (check_block p C chain block certificate now)) [
        | inl (_, e) ↦ rw (e, check) (check_result-Keeps proper value (allowed_by e))
        | inr (inl (_, e)) ↦ rw (e, check) (refl, L.Same-refl chain.state, inl (λ h. absurd (cc h)))
        | inr (inr e) ↦ rw (e, check) (refl, L.Same-refl chain.state, inr (panics_by e))
      ]

      -- Over a state with the laws of the interface, a block that was accepted is applied without a
      -- panic to every chain with the same last block and the same state, and is then the last
      -- block.
      pub apply_checked :
          (b : CheckedBlock Tx) (other : Chain State Tx)
          → (check p C chain block certificate now).0 ≡ ok b
          → other.last_block ≡ chain.last_block
          → L.Same chain.state other.state
          → (after : Chain State Tx) × (apply p C other b ≡ some after)
            × (after.last_block ≡ some b)
      unfolding apply
      apply_checked b other h same_last same =
          let (b_eq, a) = check-Accepts b h in
          let (applied, e, after_same) =
            L.apply-Same chain.state other.state block.signer block.time block.transaction a.applied
              same a.applied_eq in
          (
            record { last_block = some b; state = applied },
            ground (arith, a.result, L.digest-Same a.applied applied after_same),
            refl,
          )
