-- ===== src/SecureChain/Interface.antt =====
-- svalin_pki/src/secure_chain.rs: the traits `ChainState` and `Transaction`, what a chain relies on
-- of a state, and the errors.
use svalin.Prelude.{ℕ, ◌≡◌, Option, some}
use svalin.Prelude.Result.{Result, Done, ok}
use svalin.Bytes.{Bytes}
use svalin.Platform.{SpkiHash}

-- The operations. `none` of `apply` is a panic; `digest` and `tx_digest` are the bytes that are
-- fed to the hasher.
pub record ChainState (State Tx Error Exported ImportError : Type 0) : Type 0 where
  pub check : State → SpkiHash → ℕ → Tx → Result Error Done
  pub apply : State → SpkiHash → ℕ → Tx → Option State
  pub revert : State → Tx → State
  pub digest : State → Bytes
  pub tx_digest : Tx → Bytes
  pub export : State → Exported
  pub import : Exported → Result ImportError State

-- The laws. States that nothing can tell apart are `Same`. `IsValue` and `IsProper` hold of the
-- transactions and states that the program can build.
pub record ChainStateLaws {State Tx Error Exported ImportError : Type 0}
    (C : ChainState State Tx Error Exported ImportError) : Type 1 where
  pub Same : State → State → Type 0
  pub IsValue : Tx → Type 0
  pub IsProper : State → Type 0
  pub apply-IsProper :
      (s s' : State) (k : SpkiHash) (time : ℕ) (x : Tx)
      → IsProper s
      → IsValue x
      → C.apply s k time x ≡ some s'
      → IsProper s'
  pub Same-refl : (s : State) → Same s s
  pub Same-trans : (s t u : State) → Same s t → Same t u → Same s u
  pub check-Same :
      (s t : State) (k : SpkiHash) (time : ℕ) (x : Tx)
      → Same s t
      → C.check s k time x ≡ C.check t k time x
  pub apply-Same :
      (s t : State) (k : SpkiHash) (time : ℕ) (x : Tx) (s' : State)
      → Same s t
      → C.apply s k time x ≡ some s'
      → (t' : State) × (C.apply t k time x ≡ some t') × Same s' t'
  pub digest-Same : (s t : State) → Same s t → C.digest s ≡ C.digest t
  pub apply_total :
      (s : State) (k : SpkiHash) (time : ℕ) (x : Tx)
      → IsProper s
      → C.check s k time x ≡ ok tt
      → (s' : State) × (C.apply s k time x ≡ some s')
  pub revert-apply :
      (s s' : State) (k : SpkiHash) (time : ℕ) (x : Tx)
      → IsProper s
      → IsValue x
      → C.check s k time x ≡ ok tt
      → C.apply s k time x ≡ some s'
      → Same (C.revert s' x) s

pub data CheckBlockError (Error : Type 0) : Type 0 where
  sequence_mismatch previous_block_hash_mismatch : CheckBlockError Error
  time_to_early : ℕ → ℕ → CheckBlockError Error
  incorrect_certificate signature_verification_failed : CheckBlockError Error
  invalid_transaction : Error → CheckBlockError Error
  resulting_state_mismatch time_in_future : CheckBlockError Error

pub data CreateBlockError (Error : Type 0) : Type 0 where
  invalid_transaction : Error → CreateBlockError Error

pub data ImportError (Inner : Type 0) : Type 0 where
  import_error : Inner → ImportError Inner
  incorrect_state_digest : ImportError Inner
