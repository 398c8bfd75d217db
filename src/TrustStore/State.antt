-- ===== src/TrustStore/State.antt =====
-- svalin_pki/src/trust_store.rs: the state behind the chain, and its transactions.
use svalin.Prelude.{ℕ, Bool, true, false, not, Option, none, some, List, [], ◌∷◌, ◌++◌, map}
use svalin.Prelude.Tests.{◌==◌, if◌then◌else◌}
use svalin.Prelude.Result.{Result, Done, ok, err, panicked, ◌>>=◌, ◌>>◌, ok_or, map_err, fail_if}
use svalin.Bytes.{Bytes, codes}
use svalin.Platform.{SpkiHash, Platform}
use svalin.HashMap.{HashMap, lookup, contains_key, insert, erase, keys, sort_keys}
use svalin.Certificate.Defs.{
  UnverifiedCertificate, Certificate, RootCertificate, SignatureVerificationError, UseAsRootError,
  cert_eq, mark_as_trusted, check_validity_at, verify_signature, use_as_root,
}
use svalin.SecureChain.Interface.{ChainState}

pub record State : Type 0 where
  pub root : RootCertificate
  pub certificates : HashMap Certificate

pub data Transaction : Type 0 where
  add remove_expired : UnverifiedCertificate → Transaction

pub data Error : Type 0 where
  signer_not_known issuer_is_not_signer certificate_already_exists : Error
  certificate_invalid : SignatureVerificationError → Error
  certificate_not_expired certificate_not_found certificate_does_not_match : Error

pub record ExportedState : Type 0 where
  pub root : UnverifiedCertificate
  pub certificates : List UnverifiedCertificate

pub data InnerImportError : Type 0 where
  root_error : UseAsRootError → InnerImportError
  missing_issuers : List SpkiHash → InnerImportError

unfoldable pub initialize_state : RootCertificate → State
initialize_state root = record {
  root = root;
  certificates = insert root.spki_hash root.to_certificate [];
}

-- `impl secure_chain::Transaction`
unfoldable pub tx_digest : Transaction → Bytes
tx_digest (add certificate) = codes "add" ++ certificate.der
tx_digest (remove_expired certificate) = codes "remove_expired" ++ certificate.der

-- What is asked of a new certificate, given its signer.
unfoldable pub check_add :
    Platform → State → Certificate → ℕ → UnverifiedCertificate → Result Error Done
check_add p s signer time certificate = do
  fail_if (contains_key certificate.spki_hash s.certificates) certificate_already_exists
  fail_if (not (signer.spki_hash == certificate.issuer)) issuer_is_not_signer
  _ ← map_err certificate_invalid (verify_signature p certificate signer time)
  ok tt

-- `is_ok` of the dates; a date before 1970 panics.
abbrev still_valid : {E : Type 0} → UnverifiedCertificate → ℕ → Result E Bool
still_valid certificate time = elim (check_validity_at certificate time) [
  | ok _ ↦ ok true
  | err _ ↦ ok false
  | panicked ↦ panicked
]

unfoldable pub check_remove : State → ℕ → UnverifiedCertificate → Result Error Done
check_remove s time certificate = do
  found ← ok_or (lookup certificate.spki_hash s.certificates) certificate_not_found
  fail_if (not (cert_eq found.to_unverified certificate)) certificate_does_not_match
  valid ← still_valid certificate time
  fail_if valid certificate_not_expired

unfoldable pub check_state : Platform → State → SpkiHash → ℕ → Transaction → Result Error Done
check_state p s signer time (add certificate) = do
  signer_certificate ← ok_or (lookup signer s.certificates) signer_not_known
  check_add p s signer_certificate time certificate
check_state p s signer time (remove_expired certificate) = do
  _ ← ok_or (lookup signer s.certificates) signer_not_known
  check_remove s time certificate

-- `none` is one of the two `expect`s.
unfoldable pub apply_state : Platform → State → SpkiHash → ℕ → Transaction → Option State
apply_state p s _signer time (add unverified) = elim (lookup unverified.issuer s.certificates) [
  | none ↦ none
  | some signer ↦ elim (verify_signature p unverified signer time) [
    | ok certificate ↦
        some (record s { certificates = insert certificate.spki_hash certificate s.certificates })
    | err _ ↦ none
    | panicked ↦ none
  ]
]
apply_state p s _signer time (remove_expired certificate) =
    some (record s { certificates = erase certificate.spki_hash s.certificates })

unfoldable pub revert_state : State → Transaction → State
revert_state s (add certificate) = record s {
  certificates = erase certificate.spki_hash s.certificates;
}
revert_state s (remove_expired certificate) = record s {
  certificates = insert certificate.spki_hash (mark_as_trusted certificate) s.certificates;
}

-- The encodings of the certificates with the keys, in their order; a key of the map is found.
unfoldable pub digest_certificates : HashMap Certificate → List SpkiHash → Bytes
digest_certificates m [] = []
digest_certificates m (k ∷ ks) =
    elim (lookup k m) [ none ↦ [] | some c ↦ c.der ] ++ digest_certificates m ks

unfoldable pub digest_state : State → Bytes
unfolding digest_certificates
digest_state s = s.root.der ++ digest_certificates s.certificates (sort_keys (keys s.certificates))

abbrev pub entry_value : SpkiHash × Certificate → UnverifiedCertificate
entry_value (_, c) = c.to_unverified

unfoldable pub export_state : State → ExportedState
export_state s = record {
  root = s.root.to_unverified;
  certificates = map entry_value s.certificates;
}

-- The map of the SPKI hashes met: `true` for a certificate, `false` for one met as an issuer only.
unfoldable pub collect_seen : HashMap Bool → List UnverifiedCertificate → HashMap Bool
collect_seen seen [] = seen
collect_seen seen (cert ∷ rest) =
    let seen' = insert cert.spki_hash true seen in
    collect_seen (if contains_key cert.issuer seen' then seen' else insert cert.issuer false seen')
      rest

unfoldable pub missing_in : HashMap Bool → List SpkiHash
missing_in [] = []
missing_in ((k, seen) ∷ m) = let rest = missing_in m in if seen then rest else k ∷ rest

-- `collect` into a map: a later certificate with the same hash replaces an earlier one.
unfoldable pub collect_certificates :
    HashMap Certificate → List UnverifiedCertificate → HashMap Certificate
collect_certificates m [] = m
collect_certificates m (cert ∷ rest) =
    collect_certificates (insert cert.spki_hash (mark_as_trusted cert) m) rest

unfoldable pub import_state : ExportedState → Result InnerImportError State
unfolding collect_seen missing_in collect_certificates
import_state exported = do
  root ← map_err root_error (use_as_root exported.root)
  elim (missing_in (collect_seen [] exported.certificates)) [
    | [] ↦ ok (record { root = root; certificates = collect_certificates [] exported.certificates })
    | k ∷ ks ↦ err (missing_issuers (k ∷ ks))
  ]

-- `impl ChainState for State`
abbrev pub trust_state :
    Platform → ChainState State Transaction Error ExportedState InnerImportError
trust_state p = record {
  check = check_state p;
  apply = apply_state p;
  revert = revert_state;
  digest = digest_state;
  tx_digest = tx_digest;
  export = export_state;
  import = import_state;
}
