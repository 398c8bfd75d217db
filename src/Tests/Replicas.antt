-- ===== src/Tests/Replicas.antt =====
-- The theorems on the parties that hold a trust store, at concrete inputs.
use svalin.Prelude.{◌≡◌, refl, some, [], ◌∷◌, arith}
use svalin.Prelude.Result.{ok}
use svalin.SecureChain.Block.{CheckedBlock}
use svalin.SecureChain.Chain
use svalin.SecureChain.History.{IsHistory}
use svalin.TrustStore.State.{Transaction, trust_state}
use svalin.TrustStore.Laws.{IsProperState}
use svalin.TrustStore.Store
use svalin.TrustStore.Store.{TrustStore}
use svalin.TrustStore.Replica.{Reaches, start, step, Step, Reaches-IsProperState}
use svalin.TrustStore.Replica.Accept.{checked-Reaches, replicas_accept}
use svalin.Tests.Fixtures.{
  demo, demo_root, demo_chain, user_state, first_block, demo_root-IsParsed, demo_user-IsParsed,
}

abbrev root_store : TrustStore
root_store = record { chain = demo_chain }

abbrev pub next_store : TrustStore
next_store = record { chain = record { last_block = some first_block; state = user_state } }

root_store-Reaches : Reaches demo demo_root [] root_store
unfolding Store.initialize Chain.initialize svalin.TrustStore.State.initialize_state
root_store-Reaches = start

first_block_checked : (Store.check demo root_store first_block.as_unchecked 2000).0 ≡ ok first_block
unfolding Store.check Store.apply Chain.apply Chain.draft Chain.check Chain.check_block
    svalin.Bytes.to_be_bytes svalin.Bytes.to_le_bytes Chain.state_digest
    svalin.TrustStore.State.digest_state svalin.HashMap.Order.sort_keys
    svalin.TrustStore.State.tx_digest svalin.TrustStore.State.check_state
    svalin.TrustStore.State.check_add svalin.Certificate.Defs.verify_signature
    svalin.Certificate.Kind.may_be_parent_of svalin.Certificate.Defs.check_validity_at
    svalin.Certificate.Kind.validity_duration Chain.check_result
    svalin.SecureChain.Block.block_digest svalin.SecureChain.Block.encode Chain.check_position
    Chain.last_digest svalin.TrustStore.State.apply_state
    svalin.TrustStore.State.digest_certificates svalin.TrustStore.State.revert_state Store.get
first_block_checked = refl

first_block-Step : Step demo demo_root root_store first_block next_store
unfolding Store.check Store.apply Chain.apply Chain.draft Chain.check Chain.check_block
    svalin.Bytes.to_be_bytes svalin.Bytes.to_le_bytes Chain.state_digest
    svalin.TrustStore.State.digest_state svalin.HashMap.Order.sort_keys
    svalin.TrustStore.State.tx_digest svalin.TrustStore.State.check_state
    svalin.TrustStore.State.check_add svalin.Certificate.Defs.verify_signature
    svalin.Certificate.Kind.may_be_parent_of svalin.Certificate.Defs.check_validity_at
    svalin.Certificate.Kind.validity_duration Chain.check_result
    svalin.SecureChain.Block.block_digest svalin.SecureChain.Block.encode Chain.check_position
    Chain.last_digest svalin.TrustStore.State.apply_state
    svalin.TrustStore.State.digest_certificates svalin.TrustStore.State.revert_state Store.get
first_block-Step = record {
  now = 2000;
  parsed = demo_user-IsParsed;
  checked = refl;
  applied = refl;
}

pub next_store-Reaches : Reaches demo demo_root (first_block ∷ []) next_store
next_store-Reaches = step [] first_block root_store next_store root_store-Reaches first_block-Step

Reaches-IsProperState_example :
    IsProperState demo user_state
    × (next_store.chain.last_block ≡ some first_block)
    × IsHistory demo (trust_state demo) (first_block ∷ [])
Reaches-IsProperState_example =
    Reaches-IsProperState demo demo_root demo_root-IsParsed (first_block ∷ []) next_store
      next_store-Reaches

checked-Reaches_example :
    (after : TrustStore) × (Store.apply demo
        (Store.check demo root_store first_block.as_unchecked 2000).1
        first_block
      ≡ some after)
    × Reaches demo demo_root (first_block ∷ []) after
unfolding Chain.draft
checked-Reaches_example =
    checked-Reaches demo demo_root demo_root-IsParsed [] root_store first_block 2000
      root_store-Reaches demo_user-IsParsed first_block_checked

replicas_accept_example :
    (Store.check demo root_store first_block.as_unchecked 3000).0 ≡ ok first_block
unfolding Chain.draft
replicas_accept_example =
    replicas_accept demo demo_root demo_root-IsParsed [] root_store root_store
      first_block.as_unchecked first_block 2000 3000 root_store-Reaches root_store-Reaches
      (omega arith) first_block_checked
