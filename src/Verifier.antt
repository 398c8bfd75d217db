-- ===== src/Verifier.antt =====
-- svalin_pki/src/verifier.rs and svalin_pki/src/verifier/: a verifier is its two methods.
pub mod Laws
use svalin.Prelude.{ℕ, Bool, true, false, Option, none, some, List, [], ◌∷◌}
use svalin.Prelude.Tests.{◌==◌, if◌then◌else◌}
use svalin.Prelude.Result.{Result, ok, err, panicked, ◌>>=◌, ok_or, map_err}
use svalin.Platform.{SpkiHash, Platform}
use svalin.HashMap.{HashMap, lookup, insert}
use svalin.Certificate.Kind.{CertificateType, root, temporary, user, user_session, agent, server}
use svalin.Certificate.Defs.{
  UnverifiedCertificate, Certificate, ValidityError, SignatureVerificationError, cert_eq,
  check_validity_at, verify_signature,
}
use svalin.TrustStore.Store.{TrustStore, get}

-- `VerifyError`, as far as the verifiers here make it.
pub data VerifyError : Type 0 where
  unknown_certificate certificate_mismatch incorrect_certificate_type : VerifyError
  timerange_error : ValidityError → VerifyError
  signature_error : SignatureVerificationError → VerifyError
  spki_hash_collission : SpkiHash → UnverifiedCertificate → Certificate → VerifyError

pub record Verifier : Type 0 where
  pub verify_spki_hash : SpkiHash → ℕ → Result VerifyError Certificate
  pub verify_known_certificate : UnverifiedCertificate → ℕ → Result VerifyError Certificate

-- The method that the trait provides.
unfoldable pub default_known :
    (SpkiHash → ℕ → Result VerifyError Certificate)
    → UnverifiedCertificate
    → ℕ
    → Result VerifyError Certificate
default_known verify_hash cert time = do
  loaded_cert ← verify_hash cert.spki_hash time
  if cert_eq cert loaded_cert.to_unverified
      then ok loaded_cert
      else err (spki_hash_collission cert.spki_hash cert loaded_cert)

-- A found certificate, if it is valid at the time.
abbrev if_valid : Certificate → ℕ → Result VerifyError Certificate
if_valid cert time = do
  _ ← map_err timerange_error (check_validity_at cert.to_unverified time)
  ok cert

-- verifier/exact.rs
unfoldable pub exact_spki_hash : Certificate → SpkiHash → ℕ → Result VerifyError Certificate
exact_spki_hash expected spki_hash time =
    if spki_hash == expected.spki_hash then if_valid expected time else err certificate_mismatch

unfoldable pub exact : Certificate → Verifier
unfolding exact_spki_hash default_known
exact expected = record {
  verify_spki_hash = exact_spki_hash expected;
  verify_known_certificate = default_known (exact_spki_hash expected);
}

-- verifier/one_of.rs
unfoldable pub one_of_new : HashMap Certificate → List Certificate → HashMap Certificate
one_of_new m [] = m
one_of_new m (cert ∷ rest) = one_of_new (insert cert.spki_hash cert m) rest

unfoldable pub one_of_spki_hash :
    HashMap Certificate → SpkiHash → ℕ → Result VerifyError Certificate
one_of_spki_hash expected spki_hash time = do
  cert ← ok_or (lookup spki_hash expected) certificate_mismatch
  if_valid cert time

unfoldable pub one_of : List Certificate → Verifier
unfolding one_of_new one_of_spki_hash default_known
one_of expected =
    let m = one_of_new [] expected in
    record {
      verify_spki_hash = one_of_spki_hash m;
      verify_known_certificate = default_known (one_of_spki_hash m);
    }

-- verifier/trust_store.rs
unfoldable pub trust_store_spki_hash : TrustStore → SpkiHash → ℕ → Result VerifyError Certificate
trust_store_spki_hash store spki_hash time = do
  cert ← ok_or (get store spki_hash) unknown_certificate
  if_valid cert time

-- A certificate that the store is to know itself.
unfoldable pub trust_store_listed :
    TrustStore → UnverifiedCertificate → ℕ → Result VerifyError Certificate
unfolding trust_store_spki_hash
trust_store_listed store cert time = do
  correct_cert ← trust_store_spki_hash store cert.spki_hash time
  if cert_eq correct_cert.to_unverified cert
      then ok correct_cert
      else err incorrect_certificate_type

unfoldable pub trust_store_session :
    Platform → TrustStore → UnverifiedCertificate → ℕ → Result VerifyError Certificate
unfolding trust_store_spki_hash
trust_store_session p store cert time = do
  issuer ← trust_store_spki_hash store cert.issuer time
  map_err signature_error (verify_signature p cert issuer time)

-- The `match` on the certificate's type.
unfoldable pub known_by_type :
    CertificateType
    → Platform
    → TrustStore
    → UnverifiedCertificate
    → ℕ
    → Result VerifyError Certificate
unfolding trust_store_listed trust_store_session
known_by_type temporary p store cert time = err incorrect_certificate_type
known_by_type root p store cert time = trust_store_listed store cert time
known_by_type agent p store cert time = trust_store_listed store cert time
known_by_type server p store cert time = trust_store_listed store cert time
known_by_type user p store cert time = trust_store_listed store cert time
known_by_type user_session p store cert time = trust_store_session p store cert time

unfoldable pub trust_store_known :
    Platform → TrustStore → UnverifiedCertificate → ℕ → Result VerifyError Certificate
unfolding known_by_type
trust_store_known p store cert time = known_by_type cert.certificate_type p store cert time

unfoldable pub trust_store : Platform → TrustStore → Verifier
unfolding trust_store_spki_hash trust_store_known
trust_store p store = record {
  verify_spki_hash = trust_store_spki_hash store;
  verify_known_certificate = trust_store_known p store;
}

-- verifier/type_limited.rs
unfoldable pub limited_spki_hash :
    Verifier → (CertificateType → Bool) → SpkiHash → ℕ → Result VerifyError Certificate
limited_spki_hash inner allowed spki_hash time = do
  cert ← inner.verify_spki_hash spki_hash time
  if allowed cert.certificate_type then ok cert else err incorrect_certificate_type

abbrev is_server : CertificateType → Bool
is_server server = true
is_server _ = false

-- `Limit::server_only`
unfoldable pub server_only : Verifier → Verifier
unfolding limited_spki_hash default_known
server_only inner = record {
  verify_spki_hash = limited_spki_hash inner is_server;
  verify_known_certificate = default_known (limited_spki_hash inner is_server);
}
