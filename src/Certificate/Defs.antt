-- ===== src/Certificate/Defs.antt =====
-- svalin_pki/src/certificate.rs: the three kinds of certificate, validity and signatures.
use svalin.Prelude.{ℕ, Bool, Option, none, some}
use svalin.Prelude.Tests.{ltb, if◌then◌else◌}
use svalin.Prelude.Lists.{bytes_eq}
use svalin.Prelude.Result.{Result, Done, ok, err, panicked, ◌>>=◌, ◌>>◌, ok_or, map_err}
use svalin.Bytes.{Bytes}
use svalin.Platform.{ℤ, pos, negsuc, SpkiHash, Platform}
use svalin.Certificate.Kind.{CertificateType, root, temporary, may_be_parent_of, type_eq}

pub record Validity : Type 0 where
  pub not_before : ℤ
  pub not_after : ℤ

pub record CertificateData : Type 0 where
  pub der : Bytes
  pub certificate_type : CertificateType
  pub public_key : Bytes
  pub spki_hash : SpkiHash
  pub is_ca : Bool
  pub issuer : SpkiHash
  pub validity : Validity

-- The `Arc` of the data is never written to, so it is the data.
abbrev pub UnverifiedCertificate : Type 0
UnverifiedCertificate = CertificateData

pub record Certificate : Type 0 where
  pub to_unverified : UnverifiedCertificate
  pub open to_unverified use *

pub record RootCertificate : Type 0 where
  pub to_certificate : Certificate
  pub open to_certificate use *

-- `PartialEq`, between any two of the three kinds
abbrev pub cert_eq : UnverifiedCertificate → UnverifiedCertificate → Bool
cert_eq a b = bytes_eq a.der b.der

pub data ValidityError : Type 0 where
  not_yet_valid expired : ValidityError

-- `i64` to `u64` by `try_into().unwrap()`
abbrev pub to_u64 {ℓ} : {E : Type ℓ} → ℤ → Result E ℕ
to_u64 (pos n) = ok n
to_u64 (negsuc n) = panicked

unfoldable pub check_validity_at : UnverifiedCertificate → ℕ → Result ValidityError Done
check_validity_at c time = do
  not_before ← to_u64 c.validity.not_before
  if ltb time not_before then err not_yet_valid else do
    not_after ← to_u64 c.validity.not_after
    if ltb not_after time then err expired else ok tt

pub data SignatureVerificationError : Type 0 where
  x509_parser_error x509_verification_error : SignatureVerificationError
  invalid_certificate_type : CertificateType → CertificateType → SignatureVerificationError
  validity_error : ValidityError → SignatureVerificationError

abbrev pub mark_as_trusted : UnverifiedCertificate → Certificate
mark_as_trusted c = record { to_unverified = c }

-- Is the certificate with the first encoding signed by the key of the second?
abbrev pub check_signature : Platform → Bytes → Bytes → Result SignatureVerificationError Done
check_signature p der issuer_der = do
  cert ← ok_or (p.parse_x509 der) x509_parser_error
  issuer_cert ← ok_or (p.parse_x509 issuer_der) x509_parser_error
  if p.signature_valid cert issuer_cert then ok tt else err x509_verification_error

unfoldable pub verify_signature :
    Platform
    → UnverifiedCertificate
    → Certificate
    → ℕ
    → Result SignatureVerificationError Certificate
verify_signature p c issuer time =
    if may_be_parent_of issuer.certificate_type c.certificate_type
    then (do
      check_signature p c.der issuer.der
      map_err validity_error (check_validity_at c time)
      ok (mark_as_trusted c))
    else err (
        SignatureVerificationError.invalid_certificate_type issuer.certificate_type
          c.certificate_type)

unfoldable pub use_as_temporary : UnverifiedCertificate → Option Certificate
use_as_temporary c = if type_eq c.certificate_type temporary then some (mark_as_trusted c) else none

pub data UseAsRootError : Type 0 where
  invalid_certificate_type : UseAsRootError

unfoldable pub use_as_root : UnverifiedCertificate → Result UseAsRootError RootCertificate
use_as_root c =
    if type_eq c.certificate_type root
    then ok (record { to_certificate = mark_as_trusted c })
    else err UseAsRootError.invalid_certificate_type
