-- ===== src/Certificate/Parse.antt =====
-- svalin_pki/src/certificate.rs: `UnverifiedCertificate::from_der`.
pub mod Laws
use svalin.Prelude.{ℕ, Bool, true, false, not, ◌&&◌, Option}
use svalin.Prelude.Tests.{◌==◌}
use svalin.Prelude.Lists.{bytes_eq}
use svalin.Prelude.Result.{Result, Done, ok, ◌>>=◌, ◌>>◌, ok_or, map_err, fail_if}
use svalin.Bytes.{Bytes}
use svalin.Platform.{SpkiHash, Platform}
use svalin.Certificate.Kind.{
  CertificateType, CertificateTypeError, root, temporary, from_str, should_be_ca, validity_duration,
  type_eq,
}
use svalin.Certificate.Hex.{display, parse_issuer}
use svalin.Certificate.Defs.{UnverifiedCertificate}

pub data CertificateParseError : Type 0 where
  x509_parser_error x509_error missing_common_name missing_organizational_unit :
      CertificateParseError
  invalid_certificate_type : CertificateTypeError → CertificateParseError
  issuer_missing_common_name spki_hash_mismatch : CertificateParseError
  should_not_be_ca should_be_a_ca : CertificateType → CertificateParseError
  self_signed_not_root_or_temp broken_validity : CertificateParseError
  incorrect_validity_duration : CertificateType → ℕ → ℕ → CertificateParseError
  invalid_issuer : Bytes → CertificateParseError

-- `.next().ok_or_else(…)?.as_str()?` on a name attribute
abbrev first_name :
    Option (Option Bytes) → CertificateParseError → Result CertificateParseError Bytes
first_name attribute missing = do found ← ok_or attribute missing; ok_or found x509_error

-- The comparison of the CA flag with what the type asks for.
abbrev check_ca : CertificateType → Bool → Result CertificateParseError Done
check_ca t true = fail_if (not (should_be_ca t)) (should_not_be_ca t)
check_ca t false = fail_if (should_be_ca t) (should_be_a_ca t)

abbrev check_self_signed : CertificateType → Bool → Result CertificateParseError Done
check_self_signed t issuer_is_subject =
    fail_if (issuer_is_subject && not (type_eq t root) && not (type_eq t temporary))
      self_signed_not_root_or_temp

unfoldable pub compute_spki_hash : Platform → Bytes → SpkiHash
compute_spki_hash p spki_der = p.sha512_256 spki_der

unfoldable pub from_der : Platform → Bytes → Result CertificateParseError UnverifiedCertificate
from_der p der = do
  cert ← ok_or (p.parse_x509 der) x509_parser_error
  let spki_hash = compute_spki_hash p cert.spki
  cn ← first_name cert.common_name missing_common_name
  unit ← first_name cert.organizational_unit missing_organizational_unit
  certificate_type ← map_err invalid_certificate_type (from_str unit)
  fail_if (not (bytes_eq (display spki_hash) cn)) spki_hash_mismatch
  validity_time ← ok_or (p.lifetime cert.not_before cert.not_after) broken_validity
  let expected_validity = validity_duration certificate_type
  fail_if (not (validity_time == expected_validity))
      (incorrect_validity_duration certificate_type expected_validity validity_time)
  issuer_str ← first_name cert.issuer_common_name missing_common_name
  issuer ← map_err invalid_issuer (parse_issuer issuer_str)
  check_self_signed certificate_type cert.issuer_is_subject
  check_ca certificate_type cert.is_ca
  ok (record {
    der = der;
    certificate_type = certificate_type;
    public_key = cert.subject_public_key;
    spki_hash = spki_hash;
    is_ca = cert.is_ca;
    issuer = issuer;
    validity = record { not_before = cert.not_before; not_after = cert.not_after };
  })
