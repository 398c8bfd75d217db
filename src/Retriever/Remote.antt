-- ===== src/Retriever/Remote.antt =====
-- svalin/src/remote_key_retriever.rs, with the checks of the answers in
-- svalin/src/shared/commands/load_certificate_chain.rs and
-- svalin/src/shared/commands/get_key_packages.rs. What the server writes is read as it was written.
use svalin.Prelude.{ℕ, not, Bool, false, Option, none, some, List, [], ◌∷◌, map}
use svalin.Prelude.Tests.{◌==◌, ltb, if◌then◌else◌}
use svalin.Prelude.Lists.{length, get_last?}
use svalin.Prelude.Result.{Result, Done, ok, err, ◌>>=◌, ok_or, map_err, fail_if}
use svalin.HashMap.Defs.{contains}
use svalin.Platform.{SpkiHash, Platform}
use svalin.Certificate.Defs.{UnverifiedCertificate, RootCertificate}
use svalin.CertificateChain.Builder.{UnverifiedCertificateChain}
use svalin.CertificateChain.Verify
use svalin.CertificateChain.Verify.{CertificateChain}
use svalin.ServerStore.Sessions.{LoadChainError}
use svalin.Mls.GroupId.{SvalinGroupId, global_group, device_group, device_meta_group}
use svalin.Mls.OpenMls.{OpenMls}
use svalin.Mls.Call.{MlsError}
use svalin.Mls.KeyPackage.{unverified_spki_hash}
use svalin.Retriever.Local.{
  RetrieverError, incorrect_chain, server_error, verify_error, hash_of, without_leaf,
}

-- What `LoadCertificateChainHandler::handle` writes: the chain, or that there is none
abbrev pub chain_answer :
    Option (Result LoadChainError (Option UnverifiedCertificateChain))
    → Option UnverifiedCertificateChain
chain_answer (some (ok (some chain))) = some chain
chain_answer _ = none

abbrev is_leaf : SpkiHash → Option UnverifiedCertificate → Bool
is_leaf requested none = false
is_leaf requested (some cert) = cert.spki_hash == requested

-- `ChainRequest::dispatch`, of what was read
unfoldable pub dispatch_chain :
    SpkiHash → Option UnverifiedCertificateChain → Result RetrieverError UnverifiedCertificateChain
dispatch_chain requested chain_result = do
  chain ← ok_or chain_result server_error
  _ ← fail_if (not (is_leaf requested (get_last? chain.certificates))) incorrect_chain
  ok chain

module _ (p : Platform) (answer : SpkiHash → Option UnverifiedCertificateChain) where
  unfoldable pub remote_chain :
      RootCertificate → ℕ → SpkiHash → Result RetrieverError CertificateChain
  unfolding dispatch_chain
  remote_chain root timestamp spki_hash = do
    chain ← dispatch_chain spki_hash (answer spki_hash)
    map_err verify_error (Verify.verify p chain root timestamp)

  -- `RemoteKeyRetriever::get_required_group_members`
  unfoldable pub remote_required :
      RootCertificate → ℕ → SvalinGroupId → Result RetrieverError (List SpkiHash)
  unfolding remote_chain
  remote_required root timestamp (device_group spki_hash) = do
    chain ← remote_chain root timestamp spki_hash
    ok (map hash_of chain.certificates)
  remote_required root timestamp (device_meta_group spki_hash) = do
    chain ← remote_chain root timestamp spki_hash
    rest ← without_leaf chain.certificates
    ok (map hash_of rest)
  remote_required root timestamp global_group = ok (root.spki_hash ∷ [])

pub data GetKeyPackagesDispatcherError : Type 0 where
  packages_not_sent too_many_key_packages : GetKeyPackagesDispatcherError
  missing_key_package : SpkiHash → GetKeyPackagesDispatcherError
  package_error : MlsError → GetKeyPackagesDispatcherError

-- Collected into a set
abbrev pub insert_once : SpkiHash → List SpkiHash → List SpkiHash
insert_once h set = if contains h set then set else h ∷ set

module _ (M : OpenMls) where
  unfoldable pub collect_hashes : List M.KeyPackageIn → Result MlsError (List SpkiHash)
  unfolding unverified_spki_hash
  collect_hashes [] = ok []
  collect_hashes (first ∷ rest) = do
    h ← unverified_spki_hash M first
    set ← collect_hashes rest
    ok (insert_once h set)

  abbrev pub all_received :
      List SpkiHash → List SpkiHash → Result GetKeyPackagesDispatcherError Done
  all_received [] received = ok tt
  all_received (requested ∷ rest) received =
      if contains requested received
      then all_received rest received
      else err (missing_key_package requested)

  -- `GetKeyPackages::dispatch`, of what was read
  unfoldable pub dispatch_packages :
      List SpkiHash
      → Option (List M.KeyPackageIn)
      → Result GetKeyPackagesDispatcherError (List M.KeyPackageIn)
  unfolding collect_hashes
  dispatch_packages requested none = err packages_not_sent
  dispatch_packages requested (some packages) = do
    received ← map_err package_error (collect_hashes packages)
    _ ← fail_if (ltb (length packages) (length received)) too_many_key_packages
    _ ← all_received requested received
    ok packages
