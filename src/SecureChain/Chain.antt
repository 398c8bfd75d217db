-- ===== src/SecureChain/Chain.antt =====
-- svalin_pki/src/secure_chain.rs: `Chain`. A method returns its result and the chain after it.
use svalin.Prelude.{ℕ, not, Option, none, some, ◌++◌, []}
use svalin.Prelude.Tests.{ltb, ◌==◌, if◌then◌else◌}
use svalin.Prelude.Result.{Result, Done, ok, err, panicked, ◌>>=◌, ◌>>◌, map_err, fail_if}
use svalin.Bytes.{Bytes, to_be_bytes}
use svalin.Platform.{SpkiHash, InnerDigest, Platform}
use svalin.Certificate.Defs.{Certificate}
use svalin.SecureChain.Interface.{
  ChainState, CheckBlockError, CreateBlockError, ImportError, sequence_mismatch,
  previous_block_hash_mismatch, time_to_early, incorrect_certificate, signature_verification_failed,
  resulting_state_mismatch, time_in_future, import_error, incorrect_state_digest,
}
use svalin.SecureChain.Block.{
  UncheckedBlock, CheckedBlock, empty_digest, next_sequence, block_digest,
}

pub record Chain (State Tx : Type 0) : Type 0 where
  pub last_block : Option (CheckedBlock Tx)
  pub state : State

pub record ExportedChain (Exported Tx : Type 0) : Type 0 where
  pub state : Exported
  pub last_block : Option (UncheckedBlock Tx)

-- svalin_pki/src/credential.rs: the key pair, by its secret, and the certificate.
pub record Credential : Type 0 where
  pub keypair : Bytes
  pub certificate : Certificate

unfoldable pub initialize : {State Tx : Type 0} → State → Chain State Tx
initialize state = record { last_block = none; state = state }

unfoldable pub sequence : {State Tx : Type 0} → Chain State Tx → ℕ
sequence chain = elim chain.last_block [ none ↦ 0 | some b ↦ b.sequence ]

module _ {State Tx Error Exported InnerError : Type 0} (p : Platform)
    (C : ChainState State Tx Error Exported InnerError) where
  unfoldable pub state_digest : State → InnerDigest
  state_digest s = p.sha512 (C.digest s)

  -- The digest of the last block, and the empty one before the first.
  unfoldable pub last_digest : Option (CheckedBlock Tx) → InnerDigest
  unfolding block_digest
  last_digest none = empty_digest
  last_digest (some b) = block_digest p C b.as_unchecked

  -- The sequence, the previous hash and the time against the last block.
  unfoldable pub check_position :
      Option (CheckedBlock Tx) → UncheckedBlock Tx → Result (CheckBlockError Error) Done
  unfolding last_digest
  check_position (some last) block = do
    fail_if (not (block.sequence == next_sequence last.sequence)) sequence_mismatch
    fail_if (not (block.previous_block_hash == last_digest (some last)))
        previous_block_hash_mismatch
    fail_if (ltb block.time last.time) (time_to_early block.time last.time)
  check_position none block = do
    fail_if (not (block.sequence == 1)) sequence_mismatch
    fail_if (not (block.previous_block_hash == empty_digest)) previous_block_hash_mismatch

  -- All checks that come before the state is touched. `now` is the clock.
  unfoldable pub check_block :
      Chain State Tx → UncheckedBlock Tx → Certificate → ℕ → Result (CheckBlockError Error) Done
  unfolding check_position
  check_block chain block certificate now = do
    check_position chain.last_block block
    fail_if (ltb now block.time) time_in_future
    fail_if (not (block.signer == certificate.spki_hash)) incorrect_certificate
    fail_if
        (not (
          p.verify certificate.public_key (to_be_bytes 64 (block_digest p C block))
            block.signature))
        signature_verification_failed
    map_err CheckBlockError.invalid_transaction
        (C.check chain.state block.signer block.time block.transaction)

  -- The transaction is applied, digested and reverted.
  unfoldable pub check_result :
      Chain State Tx
      → UncheckedBlock Tx
      → Result (CheckBlockError Error) (CheckedBlock Tx) × Chain State Tx
  unfolding state_digest
  check_result chain block = elim (C.apply chain.state block.signer block.time block.transaction) [
    | none ↦ (panicked, chain)
    | some applied ↦ (
      (if block.resulting_state == state_digest applied
          then ok (record { as_unchecked = block })
          else err resulting_state_mismatch),
      record chain { state = C.revert applied block.transaction },
    )
  ]

  unfoldable pub check :
      Chain State Tx
      → UncheckedBlock Tx
      → Certificate
      → ℕ
      → Result (CheckBlockError Error) (CheckedBlock Tx) × Chain State Tx
  check chain block certificate now = elim (check_block chain block certificate now) [
    | ok _ ↦ check_result chain block
    | err e ↦ (err e, chain)
    | panicked ↦ (panicked, chain)
  ]

  -- The block before it is signed.
  unfoldable pub draft :
      Option (CheckedBlock Tx) → ℕ → InnerDigest → SpkiHash → Tx → UncheckedBlock Tx
  unfolding last_digest
  draft last timestamp new_digest signer transaction = record {
    sequence = elim last [ some b ↦ next_sequence b.sequence | none ↦ 1 ];
    time = timestamp;
    previous_block_hash = last_digest last;
    resulting_state = new_digest;
    signer = signer;
    transaction = transaction;
    signature = [];
  }

  unfoldable pub package_applied :
      Chain State Tx
      → Tx
      → Credential
      → ℕ
      → Result (CreateBlockError Error) (CheckedBlock Tx) × Chain State Tx
  unfolding state_digest draft
  package_applied chain transaction credential timestamp =
      let signer = credential.certificate.spki_hash in
      elim (C.apply chain.state signer timestamp transaction) [
        | none ↦ (panicked, chain)
        | some applied ↦
            let block =
              draft chain.last_block timestamp (state_digest applied) signer transaction in
            let signature = p.sign credential.keypair (to_be_bytes 64 (block_digest p C block)) in
            (
              ok (record { as_unchecked = record block { signature = signature } }),
              record chain { state = C.revert applied transaction },
            )
      ]

  unfoldable pub package_block :
      Chain State Tx
      → Tx
      → Credential
      → ℕ
      → Result (CreateBlockError Error) (CheckedBlock Tx) × Chain State Tx
  package_block chain transaction credential timestamp =
      elim (C.check chain.state credential.certificate.spki_hash timestamp transaction) [
        | ok _ ↦ package_applied chain transaction credential timestamp
        | err reason ↦ (err (CreateBlockError.invalid_transaction reason), chain)
        | panicked ↦ (panicked, chain)
      ]

  -- `none` is a panic.
  unfoldable pub apply : Chain State Tx → CheckedBlock Tx → Option (Chain State Tx)
  unfolding state_digest
  apply chain block = elim (C.apply chain.state block.signer block.time block.transaction) [
    | none ↦ none
    | some applied ↦
        if block.resulting_state == state_digest applied
        then some (record { last_block = some block; state = applied })
        else none
  ]

  unfoldable pub digest : Chain State Tx → InnerDigest
  unfolding last_digest
  digest chain = p.sha512 (to_be_bytes 64 (last_digest chain.last_block) ++ C.digest chain.state)

  unfoldable pub export : Chain State Tx → ExportedChain Exported Tx
  export chain = record {
    state = C.export chain.state;
    last_block = elim chain.last_block [ none ↦ none | some b ↦ some b.as_unchecked ];
  }

  unfoldable pub import :
      ExportedChain Exported Tx → Result (ImportError InnerError) (Chain State Tx)
  unfolding state_digest
  import exported = do
    state ← map_err import_error (C.import exported.state)
    elim exported.last_block [
      | some last_block ↦
          if last_block.resulting_state == state_digest state
          then ok
              (record { last_block = some (record { as_unchecked = last_block }); state = state })
          else err incorrect_state_digest
      | none ↦ ok (record { last_block = none; state = state })
    ]
