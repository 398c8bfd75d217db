-- ===== src/CertificateChain/Builder.antt =====
-- svalin_pki/src/certificate_chain.rs: `CertificateChainBuilder`.
pub mod Laws
use mathlib.Core.List.{reverse}
use svalin.Prelude.{Bool, true, false, not, Option, none, some, List, [], ◌∷◌, ◌++◌}
use svalin.Prelude.Tests.{◌==◌, if◌then◌else◌}
use svalin.Prelude.Lists.{get_last?}
use svalin.Prelude.Result.{Result, Done, ok, err, panicked, ◌>>=◌, ◌>>◌, fail_if}
use svalin.Platform.{SpkiHash}
use svalin.Certificate.Kind.{root, type_eq}
use svalin.Certificate.Defs.{UnverifiedCertificate}
use svalin.HashMap.Defs.{contains}

-- The known hashes are kept as printed; a hash can be read back from its print, so this is the
-- set of the hashes.
pub record CertificateChainBuilder : Type 0 where
  pub certificates : List UnverifiedCertificate
  pub known_spki_hashes : List SpkiHash

pub record UnverifiedCertificateChain : Type 0 where
  pub certificates : List UnverifiedCertificate

pub data AddCertificateError : Type 0 where
  signature_loop : List UnverifiedCertificate → AddCertificateError
  wrong_parent : SpkiHash → SpkiHash → AddCertificateError
  already_finished : AddCertificateError

unfoldable pub new : UnverifiedCertificate → CertificateChainBuilder
new leaf = record { certificates = leaf ∷ []; known_spki_hashes = leaf.spki_hash ∷ [] }

-- `.last().expect(…)`
abbrev pub last_cert : {E : Type 0} → CertificateChainBuilder → Result E UnverifiedCertificate
last_cert b = elim (get_last? b.certificates) [ none ↦ panicked | some c ↦ ok c ]

-- The first hash of the error is the one that the code passes, the child's own.
unfoldable pub push_parent :
    CertificateChainBuilder
    → UnverifiedCertificate
    → Result AddCertificateError CertificateChainBuilder
push_parent b parent = do
  last ← last_cert b
  fail_if (type_eq last.certificate_type root) already_finished
  fail_if (not (last.issuer == parent.spki_hash)) (wrong_parent last.spki_hash parent.spki_hash)
  fail_if (contains parent.spki_hash b.known_spki_hashes)
      (signature_loop (b.certificates ++ parent ∷ []))
  ok (record {
    certificates = b.certificates ++ parent ∷ [];
    known_spki_hashes = parent.spki_hash ∷ b.known_spki_hashes;
  })

unfoldable pub requested_issuer :
    {E : Type 0} → CertificateChainBuilder → Result E (Option SpkiHash)
requested_issuer b = do
  last ← last_cert b
  ok (if type_eq last.certificate_type root then none else some last.issuer)

unfoldable pub is_finished : {E : Type 0} → CertificateChainBuilder → Result E Bool
is_finished b = do last ← last_cert b; ok (type_eq last.certificate_type root)

unfoldable pub finish : CertificateChainBuilder → Result Done UnverifiedCertificateChain
unfolding is_finished
finish b = do
  finished ← is_finished b
  if finished then ok (record { certificates = reverse b.certificates }) else err tt
