-- ===== src/Certificate/Laws.antt =====
-- svalin_pki/src/certificate.rs: the meaning of `check_validity_at` and `verify_signature`.
use svalin.Prelude.{ℕ, ◌≤◌, ◌≡◌, ◌↔◌, ◌⊎◌, true, false, arith}
use svalin.Prelude.Result.{ok, is_ok}
use svalin.Platform.{ℤ, pos, negsuc, Platform}
use svalin.Certificate.Kind.{may_be_parent_of}
use svalin.Certificate.Defs.{
  UnverifiedCertificate, Certificate, mark_as_trusted, check_signature, check_validity_at,
  verify_signature,
}

abbrev pub IsNatural : ℤ → Type 0
IsNatural (pos n) = Unit
IsNatural (negsuc n) = ⊥

abbrev pub StartsBy : ℤ → ℕ → Type 0
StartsBy (pos n) time = n ≤ time
StartsBy (negsuc n) time = ⊥

abbrev pub EndsFrom : ℤ → ℕ → Type 0
EndsFrom (pos n) time = time ≤ n
EndsFrom (negsuc n) time = ⊥

-- The time lies in the validity range of the certificate, which starts at the epoch or later.
abbrev pub IsValidAt : UnverifiedCertificate → ℕ → Type 0
IsValidAt c time = StartsBy c.validity.not_before time × EndsFrom c.validity.not_after time

-- Both dates are at or after the epoch, so that no conversion panics.
abbrev pub HasDates : UnverifiedCertificate → Type 0
HasDates c = IsNatural c.validity.not_before × IsNatural c.validity.not_after

-- The check of the dates passes exactly in the validity range.
pub check_validity_at_iff :
    (c : UnverifiedCertificate) (time : ℕ) → (check_validity_at c time ≡ ok tt) ↔ IsValidAt c time
unfolding check_validity_at
check_validity_at_iff c time = ground arith

-- A certificate verifies exactly if the issuer may sign its type, the signature holds and the time
-- lies in its validity range; the result is the same certificate, marked as trusted.
pub verify_signature_iff :
    (p : Platform) (c : UnverifiedCertificate) (issuer d : Certificate) (time : ℕ)
    → (verify_signature p c issuer time ≡ ok d) ↔ (
        (d ≡ mark_as_trusted c)
        × (may_be_parent_of issuer.certificate_type c.certificate_type ≡ true)
        × (check_signature p c.der issuer.der ≡ ok tt)
        × IsValidAt c time)
unfolding verify_signature
verify_signature_iff p c issuer d time = grind (arith, check_validity_at_iff c time)

-- A certificate that verifies is returned unchanged.
pub verify_signature-cases :
    (p : Platform) (c : UnverifiedCertificate) (issuer : Certificate) (time : ℕ)
    → (verify_signature p c issuer time ≡ ok (mark_as_trusted c))
      ⊎ (is_ok (verify_signature p c issuer time) ≡ false)
unfolding verify_signature
verify_signature-cases p c issuer time = ground arith
