-- ===== src/Retriever/Local.antt =====
-- svalin/src/server/local_key_retriever.rs: the members that the server requires of a group.
use svalin.Prelude.{ℕ, Option, none, some, List, [], ◌∷◌, map}
use svalin.Prelude.Lists.{length, take}
use svalin.Prelude.Result.{Result, ok, panicked, ◌>>=◌, ok_or, map_err}
use svalin.Platform.{SpkiHash, Platform}
use svalin.Certificate.Defs.{Certificate, RootCertificate}
use svalin.CertificateChain.Builder
use svalin.CertificateChain.Builder.{UnverifiedCertificateChain}
use svalin.CertificateChain.Verify
use svalin.CertificateChain.Verify.{CertificateChain, VerifyChainError}
use svalin.TrustStore.Store
use svalin.TrustStore.Store.{TrustStore, CompleteCertChainError, complete_certificate_chain}
use svalin.Mls.GroupId.{SvalinGroupId, global_group, device_group, device_meta_group}

pub data RetrieverError : Type 0 where
  agent_not_found incorrect_chain server_error : RetrieverError
  complete_error : CompleteCertChainError → RetrieverError
  verify_error : VerifyChainError → RetrieverError

-- The store behind the lock, as it is at the call
pub record LocalKeyRetriever : Type 0 where
  pub root : RootCertificate
  pub trust_store : TrustStore

abbrev pub hash_of : Certificate → SpkiHash
hash_of cert = cert.spki_hash

-- `chain.iter().take(chain.iter().len() - 1)`; the subtraction overflows if the chain is empty.
abbrev pub without_leaf : List Certificate → Result RetrieverError (List Certificate)
without_leaf [] = panicked
without_leaf (first ∷ rest) = ok (take (length rest) (first ∷ rest))

-- The loop that completes a chain ends; if its fuel ran out, that would be a panic here.
abbrev pub completed :
    Option (Result CompleteCertChainError UnverifiedCertificateChain)
    → Result RetrieverError UnverifiedCertificateChain
completed none = panicked
completed (some r) = map_err complete_error r

module _ (p : Platform) where
  unfoldable pub device_chain :
      LocalKeyRetriever → ℕ → SpkiHash → Result RetrieverError CertificateChain
  unfolding complete_certificate_chain
  device_chain me timestamp spki_hash = do
    agent ← ok_or (Store.get me.trust_store spki_hash) agent_not_found
    chain ← completed (complete_certificate_chain me.trust_store (Builder.new agent.to_unverified))
    map_err verify_error (Verify.verify p chain me.root timestamp)

  unfoldable pub get_required_group_members :
      LocalKeyRetriever → ℕ → SvalinGroupId → Result RetrieverError (List SpkiHash)
  unfolding device_chain
  get_required_group_members me timestamp (device_group spki_hash) = do
    chain ← device_chain me timestamp spki_hash
    ok (map hash_of chain.certificates)
  get_required_group_members me timestamp (device_meta_group spki_hash) = do
    chain ← device_chain me timestamp spki_hash
    rest ← without_leaf chain.certificates
    ok (map hash_of rest)
  get_required_group_members me timestamp global_group = ok (me.root.spki_hash ∷ [])
