-- ===== src/SecureChain/Package.antt =====
-- svalin_pki/src/secure_chain.rs: `Chain::package` against `Chain::check`.
use svalin.Prelude.{ℕ, ◌≤◌, ◌≡◌, sym, ap, ◌∙◌, none, some, Option, arith, inl, inr}
use svalin.Prelude.Tests.{Option-cases}
use svalin.Prelude.Result.{ok}
use svalin.Bytes.{to_be_bytes}
use svalin.Platform.{SpkiHash, InnerDigest, Platform, SignsCorrectly}
use svalin.SecureChain.Interface.{ChainState, ChainStateLaws}
use svalin.SecureChain.Block.{UncheckedBlock, CheckedBlock, block_digest}
use svalin.SecureChain.Chain.{
  Chain, Credential, state_digest, last_digest, draft, package_applied, package_block, check,
}
use svalin.SecureChain.Check.{Extends, Accepts, Accepts-check}

-- The last block, if there is one, is not from after the time.
abbrev pub IsNotAfter : {T : Type 0} → Option (CheckedBlock T) → ℕ → Type 0
IsNotAfter none time = Unit
IsNotAfter (some b) time = b.time ≤ time

module _ {State Tx Error Exported InnerError : Type 0} (p : Platform)
    (C : ChainState State Tx Error Exported InnerError) where
  draft-Extends :
      (last : Option (CheckedBlock Tx)) (block : UncheckedBlock Tx) (timestamp : ℕ)
      (new_digest : InnerDigest) (signer : SpkiHash) (transaction : Tx)
      → IsNotAfter last block.time
      → block.sequence ≡ (draft p C last timestamp new_digest signer transaction).sequence
      → block.previous_block_hash ≡ last_digest p C last
      → Extends p C last block
  unfolding draft
  draft-Extends none block t n k x h s d = (s, d)
  draft-Extends (some b) block t n k x h s d = (s, d, h)

  -- The signature is no part of what is signed.
  unsigned :
      (b c : UncheckedBlock Tx)
      → c ≡ record b { signature = c.signature }
      → block_digest p C c ≡ block_digest p C b
  unfolding block_digest
  unsigned b c e = rw e

  module _ (chain : Chain State Tx) (transaction : Tx) (credential : Credential) (timestamp : ℕ)
      (b : CheckedBlock Tx)
      (h : (package_block p C chain transaction credential timestamp).0 ≡ ok b) where
    -- What a packaged block is.
    record Packaged : Type 0 where
      applied : State
      allowed : C.check chain.state credential.certificate.spki_hash timestamp transaction ≡ ok tt
      applied_eq :
          C.apply chain.state credential.certificate.spki_hash timestamp transaction ≡ some applied
      contents :
          b.as_unchecked
          ≡ record (draft p C chain.last_block timestamp
              (state_digest p C applied)
              credential.certificate.spki_hash
              transaction) { signature = b.signature }
      signature_eq :
          b.signature
          ≡ p.sign credential.keypair (
              to_be_bytes 64 (
                block_digest p C (
                  draft p C chain.last_block timestamp
                    (state_digest p C applied)
                    credential.certificate.spki_hash
                    transaction)))

    package-Packaged : Packaged
    unfolding package_block package_applied
    package-Packaged =
        elim (Option-cases
          (C.apply chain.state credential.certificate.spki_hash timestamp transaction)) [
            | inl e ↦ absurd (ground arith)
            | inr (applied, e) ↦ record {
              applied = applied;
              allowed = ground arith;
              applied_eq = e;
              contents = ground arith;
              signature_eq = ground arith;
            }
          ]

    module _ (L : ChainStateLaws C) (signs : SignsCorrectly p) (other : Chain State Tx)
        (now : ℕ) where
      packaged-Accepts :
          credential.certificate.public_key ≡ p.public_key_of credential.keypair
          → other.last_block ≡ chain.last_block
          → L.Same chain.state other.state
          → IsNotAfter chain.last_block timestamp
          → timestamp ≤ now
          → Accepts p C other b.as_unchecked credential.certificate now
      unfolding draft state_digest
      packaged-Accepts key same_last same not_after not_future =
          let k = package-Packaged in
          let drafted =
            draft p C chain.last_block timestamp (state_digest p C k.applied)
              credential.certificate.spki_hash transaction in
          let digest_eq = unsigned drafted b.as_unchecked k.contents in
          let time_eq : b.time ≡ timestamp = ap (λ c. c.time) k.contents in
          let signer_eq : b.signer ≡ credential.certificate.spki_hash =
            ap (λ c. c.signer) k.contents in
          let transaction_eq : b.transaction ≡ transaction = ap (λ c. c.transaction) k.contents in
          let result_eq : b.resulting_state ≡ state_digest p C k.applied =
            ap (λ c. c.resulting_state) k.contents in
          let (applied, applied_eq, after_same) =
            L.apply-Same chain.state other.state credential.certificate.spki_hash timestamp
              transaction k.applied same k.applied_eq in
          let check_eq =
            L.check-Same chain.state other.state credential.certificate.spki_hash timestamp
              transaction same in
          record {
            extends = rw same_last (
                draft-Extends chain.last_block b.as_unchecked timestamp (state_digest p C k.applied)
                  credential.certificate.spki_hash transaction (rw time_eq not_after)
                  (ap (λ c. c.sequence) k.contents) (ap (λ c. c.previous_block_hash) k.contents));
            not_in_future = rw time_eq not_future;
            by_certificate = signer_eq;
            signed = rw (key, digest_eq, k.signature_eq) (signs.verify-sign credential.keypair _);
            allowed = rw (signer_eq, time_eq, transaction_eq) (sym check_eq ∙ k.allowed);
            applied = applied;
            applied_eq = rw (signer_eq, time_eq, transaction_eq) applied_eq;
            result = result_eq ∙ ap p.sha512 (L.digest-Same k.applied applied after_same);
          }

      -- Where signatures verify under their keys and the state has the laws of the interface, a
      -- block packaged with a key pair and its certificate passes the check of every chain with the
      -- same last block and the same state, if its time is neither before the last block's nor
      -- after the checker's clock.
      pub package_check :
          credential.certificate.public_key ≡ p.public_key_of credential.keypair
          → other.last_block ≡ chain.last_block
          → L.Same chain.state other.state
          → IsNotAfter chain.last_block timestamp
          → timestamp ≤ now
          → (check p C other b.as_unchecked credential.certificate now).0 ≡ ok b
      package_check key same_last same not_after not_future =
          Accepts-check p C other b.as_unchecked credential.certificate now
            (packaged-Accepts key same_last same not_after not_future)
