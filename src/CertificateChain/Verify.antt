-- ===== src/CertificateChain/Verify.antt =====
-- svalin_pki/src/certificate_chain.rs: `UnverifiedCertificateChain::verify`.
pub mod Laws
use svalin.Prelude.{ℕ, Bool, true, false, not, Option, none, some, List, [], ◌∷◌, ◌++◌}
use svalin.Prelude.Tests.{◌==◌, if◌then◌else◌}
use svalin.Prelude.Lists.{length, drop, get_last?, head?}
use svalin.Prelude.Result.{Result, ok, err, ◌>>=◌, ◌>>◌, ok_or, map_err, fail_if}
use svalin.Platform.{Platform}
use svalin.Certificate.Defs.{
  UnverifiedCertificate, Certificate, RootCertificate, SignatureVerificationError, ValidityError,
  cert_eq, verify_signature,
}
use svalin.CertificateChain.Builder.{UnverifiedCertificateChain}

pub record CertificateChain : Type 0 where
  pub certificates : List Certificate

pub data VerifyChainError : Type 0 where
  empty_chain : VerifyChainError
  wrong_root : RootCertificate → UnverifiedCertificate → VerifyChainError
  signature_verification_failed : SignatureVerificationError → VerifyChainError
  validity_error : ValidityError → VerifyChainError

abbrev pub or_default {ℓ} : {A : Type ℓ} → Option A → A → A
or_default none d = d
or_default (some a) d = a

-- The loop over the certificates behind the root.
unfoldable pub verify_loop :
    Platform
    → RootCertificate
    → ℕ
    → List Certificate
    → List UnverifiedCertificate
    → Result VerifyChainError (List Certificate)
verify_loop p root time verified [] = ok verified
verify_loop p root time verified (current ∷ rest) = do
  let parent = or_default (get_last? verified) root.to_certificate
  verified_cert ← map_err signature_verification_failed (verify_signature p current parent time)
  verify_loop p root time (verified ++ verified_cert ∷ []) rest

unfoldable pub verify :
    Platform
    → UnverifiedCertificateChain
    → RootCertificate
    → ℕ
    → Result VerifyChainError CertificateChain
unfolding verify_loop
verify p chain root timestamp = do
  chain_root ← ok_or (head? chain.certificates) empty_chain
  fail_if (not (cert_eq chain_root root.to_unverified)) (wrong_root root chain_root)
  let start = root.to_certificate ∷ []
  verified ←
      (if length chain.certificates == 1
        then ok start
        else verify_loop p root timestamp start (drop 1 chain.certificates))
  ok (record { certificates = verified })

-- `CertificateChain::leaf`, and `take_leaf`; a verified chain is not empty
unfoldable pub leaf : CertificateChain → Option Certificate
leaf chain = get_last? chain.certificates
