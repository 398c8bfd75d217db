-- ===== src/TrustStore/Store.antt =====
-- svalin_pki/src/trust_store.rs: `TrustStore`. A method returns its result and the store after it.
use svalin.Prelude.{ℕ, zero, suc, Option, none, some}
use svalin.Prelude.Lists.{length}
use svalin.Prelude.Result.{Result, ok, err, panicked, ◌>>=◌}
use svalin.Platform.{SpkiHash, InnerDigest, Platform}
use svalin.HashMap.{lookup, keys}
use svalin.Certificate.Defs.{Certificate, RootCertificate}
use svalin.CertificateChain.Builder.{
  CertificateChainBuilder, UnverifiedCertificateChain, AddCertificateError, requested_issuer,
  push_parent, finish,
}
use svalin.SecureChain.Interface.{CheckBlockError, CreateBlockError, ImportError}
use svalin.SecureChain.Block.{UncheckedBlock, CheckedBlock}
use svalin.SecureChain.Chain
use svalin.SecureChain.Chain.{Chain, ExportedChain, Credential}
use svalin.TrustStore.State.{
  State, Transaction, add, Error, signer_not_known, ExportedState, InnerImportError,
  initialize_state, trust_state,
}

pub record TrustStore : Type 0 where
  pub chain : Chain State Transaction

unfoldable pub initialize : RootCertificate → TrustStore
initialize root = record { chain = Chain.initialize (initialize_state root) }

unfoldable pub get : TrustStore → SpkiHash → Option Certificate
get store spki_hash = lookup spki_hash store.chain.state.certificates

unfoldable pub root_of : TrustStore → RootCertificate
root_of store = store.chain.state.root

unfoldable pub sequence : TrustStore → ℕ
sequence store = Chain.sequence store.chain

module _ (p : Platform) where
  unfoldable pub check :
      TrustStore
      → UncheckedBlock Transaction
      → ℕ
      → Result (CheckBlockError Error) (CheckedBlock Transaction) × TrustStore
  unfolding get
  check store block now = elim (get store block.signer) [
    | none ↦ (err (CheckBlockError.invalid_transaction signer_not_known), store)
    | some certificate ↦
        let (checked, chain) = Chain.check p (trust_state p) store.chain block certificate now in
        (checked, record { chain = chain })
  ]

  -- `none` is a panic.
  unfoldable pub apply : TrustStore → CheckedBlock Transaction → Option TrustStore
  apply store block = elim (Chain.apply p (trust_state p) store.chain block) [
    | none ↦ none
    | some chain ↦ some (record { chain = chain })
  ]

  -- `TrustStore::add`
  unfoldable pub add_certificate :
      TrustStore
      → Certificate
      → Credential
      → ℕ
      → Result (CreateBlockError Error) (CheckedBlock Transaction) × TrustStore
  add_certificate store certificate credential timestamp =
      let (created, chain) =
        Chain.package_block p (trust_state p) store.chain (add certificate.to_unverified) credential
          timestamp in
      (created, record { chain = chain })

  unfoldable pub export : TrustStore → ExportedChain ExportedState Transaction
  export store = Chain.export p (trust_state p) store.chain

  unfoldable pub import :
      ExportedChain ExportedState Transaction → Result (ImportError InnerImportError) TrustStore
  import exported = do
    chain ← Chain.import p (trust_state p) exported
    ok (record { chain = chain })

  unfoldable pub digest : TrustStore → InnerDigest
  digest store = Chain.digest p (trust_state p) store.chain

pub data CompleteCertChainError : Type 0 where
  not_found : SpkiHash → CompleteCertChainError
  add_certificate_error : AddCertificateError → CompleteCertChainError

-- The loop, on fuel; `none` means that the fuel ran out.
unfoldable pub complete_loop :
    ℕ
    → State
    → CertificateChainBuilder
    → Option (Result CompleteCertChainError UnverifiedCertificateChain)
complete_loop zero s cert_chain = none
complete_loop (suc fuel) s cert_chain =
    elim (requested_issuer {E = AddCertificateError} cert_chain) [
      | panicked ↦ some panicked
      | err e ↦ some (err (add_certificate_error e))
      | ok none ↦ some (elim (finish cert_chain) [
        | ok chain ↦ ok chain
        | err _ ↦ panicked
        | panicked ↦ panicked
      ])
      | ok (some issuer_spki) ↦ elim (lookup issuer_spki s.certificates) [
        | none ↦ some (err (not_found issuer_spki))
        | some issuer ↦ elim (push_parent cert_chain issuer.to_unverified) [
          | ok longer ↦ complete_loop fuel s longer
          | err e ↦ some (err (add_certificate_error e))
          | panicked ↦ some panicked
        ]
      ]
    ]

-- No certificate is pushed twice, so the loop makes at most one round more than there are entries.
unfoldable pub complete_certificate_chain :
    TrustStore
    → CertificateChainBuilder
    → Option (Result CompleteCertChainError UnverifiedCertificateChain)
unfolding complete_loop
complete_certificate_chain store cert_chain =
    let s = store.chain.state in complete_loop (suc (length (keys s.certificates))) s cert_chain
