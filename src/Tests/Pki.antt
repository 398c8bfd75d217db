-- ===== src/Tests/Pki.antt =====
-- The theorems on the secure chain and the trust store, at concrete inputs.
use svalin.Prelude.{◌≡◌, ◌≢◌, ◌↔◌, ◌⊎◌, refl, none, some, [], ◌∷◌, arith}
use svalin.Prelude.Result.{ok, panicked}
use svalin.Bytes.{Bytes}
use svalin.Certificate.Kind.{
  CertificateType, root, temporary, user, user_session, agent, server, to_string, from_str,
  should_be_ca, is_user, type_eq, may_be_parent_of,
}
use svalin.Certificate.Defs.{mark_as_trusted, check_validity_at, verify_signature}
use svalin.SecureChain.Block.{CheckedBlock, block_digest}
use svalin.SecureChain.Chain
use svalin.SecureChain.Chain.{Chain, package_block}
use svalin.SecureChain.Check.{Accepts, check_iff, check_keeps, apply_checked}
use svalin.SecureChain.Package.{package_check}
use svalin.SecureChain.History.{IsInRange, Collision, SameHistory, history_binds}
use svalin.TrustStore.State.{
  State, Transaction, add, remove_expired, check_state, apply_state, revert_state, digest_state,
  trust_state,
}
use svalin.TrustStore.Same.{SameState}
use svalin.TrustStore.Laws.{revert_state-apply, trust_state_laws}
use svalin.Tests.Fixtures.{
  demo, demo_signs, demo_user, demo_root, demo_state, demo_chain, user_state, root_credential,
  first_block, demo_user-IsParsed, demo_state-IsProper,
}

-- svalin_pki/src/secure_chain.rs
first_block_packaged :
    (package_block demo (trust_state demo) demo_chain (add demo_user) root_credential 2000).0
    ≡ ok first_block
unfolding package_block check_state svalin.TrustStore.State.check_add verify_signature
    may_be_parent_of check_validity_at svalin.Certificate.Kind.validity_duration
    Chain.package_applied apply_state
first_block_packaged = refl

package_check_example :
    (Chain.check demo
      (trust_state demo)
      demo_chain
      first_block.as_unchecked
      demo_root.to_certificate
      2000).0
    ≡ ok first_block
package_check_example =
    package_check demo (trust_state demo) demo_chain (add demo_user) root_credential 2000
      first_block first_block_packaged (trust_state_laws demo) demo_signs demo_chain 2000 refl refl
      (record { root = refl; entries = λ k. refl }) tt (omega arith)

check_iff_example :
    ((Chain.check demo
        (trust_state demo)
        demo_chain
        first_block.as_unchecked
        demo_root.to_certificate
        2000).0
      ≡ ok first_block)
    ↔ ((first_block.as_unchecked ≡ first_block.as_unchecked)
        × Accepts demo
            (trust_state demo)
            demo_chain
            first_block.as_unchecked
            demo_root.to_certificate
            2000)
check_iff_example =
    check_iff demo (trust_state demo) demo_chain first_block.as_unchecked demo_root.to_certificate
      2000 first_block

check_keeps_example :
    ((Chain.check demo
        (trust_state demo)
        demo_chain
        first_block.as_unchecked
        demo_root.to_certificate
        2000).1.last_block
      ≡ none)
    × SameState
        (Chain.check demo
          (trust_state demo)
          demo_chain
          first_block.as_unchecked
          demo_root.to_certificate
          2000).1.state
        demo_state
    × (((Chain.check demo
            (trust_state demo)
            demo_chain
            first_block.as_unchecked
            demo_root.to_certificate
            2000).0
          ≢ panicked)
        ⊎ (check_state demo demo_state 1 2000 (add demo_user) ≡ panicked))
unfolding Chain.draft
check_keeps_example =
    check_keeps demo (trust_state demo) demo_chain first_block.as_unchecked demo_root.to_certificate
      2000 (trust_state_laws demo) demo_state-IsProper demo_user-IsParsed

apply_checked_example :
    (after : Chain State Transaction) × (Chain.apply demo (trust_state demo) demo_chain first_block
      ≡ some after)
    × (after.last_block ≡ some first_block)
apply_checked_example =
    apply_checked demo (trust_state demo) demo_chain first_block.as_unchecked
      demo_root.to_certificate 2000 (trust_state_laws demo) first_block demo_chain
      package_check_example refl (record { root = refl; entries = λ k. refl })

-- Two blocks that differ in the signature.
abbrev plain_block : Bytes → CheckedBlock Transaction
plain_block signature = record {
  as_unchecked = record {
    sequence = 1;
    time = 2000;
    previous_block_hash = 0;
    resulting_state = 4;
    signer = 1;
    transaction = add demo_user;
    signature = signature;
  };
}

plain_block-IsInRange : (signature : Bytes) → IsInRange (plain_block signature).as_unchecked
plain_block-IsInRange signature = record {
  sequence = refl;
  time = refl;
  previous = refl;
  state = refl;
  signer = refl;
}

same_digest :
    block_digest demo (trust_state demo) (plain_block []).as_unchecked
    ≡ block_digest demo (trust_state demo) (plain_block (7 ∷ [])).as_unchecked
unfolding block_digest
same_digest = refl

history_binds_example :
    SameHistory demo (trust_state demo) (plain_block [] ∷ []) (plain_block (7 ∷ []) ∷ [])
    ⊎ Collision demo
history_binds_example =
    history_binds demo (trust_state demo) (plain_block []) (plain_block (7 ∷ [])) [] []
      ((refl, refl), tt) ((refl, refl), tt) (plain_block-IsInRange [], tt)
      (plain_block-IsInRange (7 ∷ []), tt) (omega arith) (omega arith) same_digest

-- svalin_pki/src/trust_store.rs
revert_state-apply_example : SameState (revert_state user_state (add demo_user)) demo_state
unfolding check_state svalin.TrustStore.State.check_add verify_signature may_be_parent_of
    check_validity_at svalin.Certificate.Kind.validity_duration apply_state
revert_state-apply_example =
    revert_state-apply demo demo_state user_state 1 2000 (add demo_user) demo_state-IsProper
      demo_user-IsParsed refl refl

-- The same entries in another order.
abbrev shuffled_state : State
shuffled_state = record {
  root = demo_root;
  certificates = (1, demo_root.to_certificate) ∷ (2, mark_as_trusted demo_user) ∷ [];
}

shuffled-SameState : SameState user_state shuffled_state
shuffled-SameState = record { root = refl; entries = λ k. ground arith }
