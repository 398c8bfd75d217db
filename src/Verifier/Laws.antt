-- ===== src/Verifier/Laws.antt =====
-- svalin_pki/src/verifier/: what a verifier's answer means.
use svalin.Prelude.{ℕ, ◌≡◌, ◌↔◌, sym, ap, ◌∙◌, true, some, arith, inl, inr}
use svalin.Prelude.Tests.{Option-cases}
use svalin.Prelude.Lists.{bytes_eq_sound, bytes_eq_self}
use svalin.Prelude.Result.{ok, Result-cases}
use svalin.Platform.{SpkiHash, Platform}
use svalin.Certificate.Kind.{CertificateType, temporary, user_session, server, may_be_parent_of}
use svalin.Certificate.Defs.{
  UnverifiedCertificate, Certificate, mark_as_trusted, check_signature, verify_signature,
}
use svalin.Certificate.Laws.{IsValidAt, check_validity_at_iff, verify_signature_iff}
use svalin.TrustStore.Store.{TrustStore, get}
use svalin.Verifier.{
  Verifier, exact, trust_store_spki_hash, trust_store_listed, trust_store_session, known_by_type,
  trust_store_known, server_only,
}

-- The store has a certificate for the hash, which is valid at the time.
abbrev IsKnown : TrustStore → SpkiHash → ℕ → Certificate → Type 0
IsKnown store k time c = (get store k ≡ some c) × IsValidAt c.to_unverified time

trust_store_spki_hash_iff :
    (store : TrustStore) (k : SpkiHash) (time : ℕ) (c : Certificate)
    → (trust_store_spki_hash store k time ≡ ok c) ↔ IsKnown store k time c
unfolding trust_store_spki_hash
trust_store_spki_hash_iff store k time c = elim (Option-cases (get store k)) [
  | inl e ↦ (λ h. absurd (ground arith), λ h. absurd (ground arith))
  | inr (d, e) ↦ ground (arith, check_validity_at_iff d.to_unverified time)
]

listed-IsKnown :
    (store : TrustStore) (cert : UnverifiedCertificate) (time : ℕ) (c : Certificate)
    → trust_store_listed store cert time ≡ ok c
    → IsKnown store cert.spki_hash time c × (c.der ≡ cert.der)
unfolding trust_store_listed
listed-IsKnown store cert time c h =
    elim (Result-cases (trust_store_spki_hash store cert.spki_hash time)) [
      | inl (d, e) ↦
          let same : d ≡ c = ground arith in
          (
            (trust_store_spki_hash_iff store cert.spki_hash time c).0 (e ∙ ap ok same),
            bytes_eq_sound c.der cert.der (ground arith),
          )
      | inr (inl (_, e)) ↦ absurd (ground arith)
      | inr (inr e) ↦ absurd (ground arith)
    ]

-- A session that a known and valid certificate has signed.
abbrev IsSession : Platform → TrustStore → UnverifiedCertificate → ℕ → Certificate → Type 0
IsSession p store cert time c =
    (issuer : Certificate) × IsKnown store cert.issuer time issuer
    × (may_be_parent_of issuer.certificate_type cert.certificate_type ≡ true)
    × (check_signature p cert.der issuer.der ≡ ok tt)
    × IsValidAt cert time
    × (c ≡ mark_as_trusted cert)

trust_store_session-IsSession :
    (p : Platform) (store : TrustStore) (cert : UnverifiedCertificate) (time : ℕ) (c : Certificate)
    → trust_store_session p store cert time ≡ ok c
    → IsSession p store cert time c
unfolding trust_store_session
trust_store_session-IsSession p store cert time c h =
    elim (Result-cases (trust_store_spki_hash store cert.issuer time)) [
      | inl (issuer, e) ↦
          let verified : verify_signature p cert issuer time ≡ ok c = ground arith in
          let (same, parent, signed, valid) =
            (verify_signature_iff p cert issuer c time).0 verified in
          (
            issuer,
            (trust_store_spki_hash_iff store cert.issuer time issuer).0 e,
            parent,
            signed,
            valid,
            same,
          )
      | inr (inl (_, e)) ↦ absurd (ground arith)
      | inr (inr e) ↦ absurd (ground arith)
    ]

-- What the trust store's verifier may accept of each type: nothing temporary; a session that a
-- known and valid certificate has signed; else the store's own certificate, of the same encoding.
abbrev pub TrustedAs :
    CertificateType → Platform → TrustStore → UnverifiedCertificate → ℕ → Certificate → Type 0
TrustedAs temporary p store cert time c = ⊥
TrustedAs user_session p store cert time c = IsSession p store cert time c
TrustedAs _ p store cert time c = IsKnown store cert.spki_hash time c × (c.der ≡ cert.der)

known_by_type-TrustedAs :
    (t : CertificateType) (p : Platform) (store : TrustStore) (cert : UnverifiedCertificate)
    (time : ℕ) (c : Certificate)
    → known_by_type t p store cert time ≡ ok c
    → TrustedAs t p store cert time c
unfolding known_by_type
known_by_type-TrustedAs temporary p store cert time c h = absurd (ground arith)
known_by_type-TrustedAs user_session p store cert time c h =
    trust_store_session-IsSession p store cert time c h
known_by_type-TrustedAs _ p store cert time c h = listed-IsKnown store cert time c h

-- What the trust store's verifier accepts is never temporary; it is a session that a known and valid
-- certificate has signed, or the store's own valid certificate, of the same encoding.
pub trust_store_known-TrustedAs :
    (p : Platform) (store : TrustStore) (cert : UnverifiedCertificate) (time : ℕ) (c : Certificate)
    → trust_store_known p store cert time ≡ ok c
    → TrustedAs cert.certificate_type p store cert time c
unfolding trust_store_known
trust_store_known-TrustedAs p store cert time c h =
    known_by_type-TrustedAs cert.certificate_type p store cert time c h

-- Restricted to servers, a verifier accepts only what the inner one answers for the hash, and of
-- that only server certificates of the encoding that was shown.
pub server_only_sound :
    (inner : Verifier) (cert : UnverifiedCertificate) (time : ℕ) (c : Certificate)
    → (server_only inner).verify_known_certificate cert time ≡ ok c
    → (inner.verify_spki_hash cert.spki_hash time ≡ ok c)
      × (c.certificate_type ≡ server)
      × (c.der ≡ cert.der)
unfolding server_only
server_only_sound inner cert time c h =
    elim (Result-cases (inner.verify_spki_hash cert.spki_hash time)) [
      | inl (d, e) ↦
          let same : d ≡ c = ground arith in
          (e ∙ ap ok same, ground arith, sym (bytes_eq_sound cert.der c.der (ground arith)))
      | inr (inl (_, e)) ↦ absurd (ground arith)
      | inr (inr e) ↦ absurd (ground arith)
    ]

-- The exact verifier accepts a certificate exactly if it has the expected hash and encoding and the
-- expected certificate is valid at the time; it answers with the expected one.
pub exact_iff :
    (expected : Certificate) (cert : UnverifiedCertificate) (time : ℕ) (c : Certificate)
    → ((exact expected).verify_known_certificate cert time ≡ ok c) ↔ (
        (c ≡ expected)
        × (cert.spki_hash ≡ expected.spki_hash)
        × (cert.der ≡ expected.der)
        × IsValidAt expected.to_unverified time)
unfolding exact
exact_iff expected cert time c = ground (
  arith,
  check_validity_at_iff expected.to_unverified time,
  bytes_eq_sound cert.der expected.der,
  bytes_eq_self expected.der,
)
