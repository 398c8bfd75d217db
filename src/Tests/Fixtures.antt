-- ===== src/Tests/Fixtures.antt =====
-- A small platform, and certificates, a store and a block on it.
use svalin.Prelude.{
  ℕ, ◌+◌, ◌-◌, true, Option, none, some, [], ◌∷◌, ◌++◌, ◌≡◌, refl, arith, inl, inr,
}
use svalin.Prelude.Tests.{◌==◌, if◌then◌else◌, Bool-cases}
use svalin.Prelude.Lists.{bytes_eq, bytes_eq_self}
use svalin.Bytes.{Bytes, to_be_bytes}
use svalin.Platform.{ℤ, pos, X509, Platform, SignsCorrectly}
use svalin.Certificate.Kind.{
  CertificateType, root, user, user_session, server, to_string, from_str, should_be_ca,
  validity_duration, type_eq,
}
use svalin.Certificate.Hex.{display, parse_issuer}
use svalin.Certificate.Defs.{CertificateData, RootCertificate, mark_as_trusted}
use svalin.Certificate.Parse.{from_der, compute_spki_hash}
use svalin.SecureChain.Block.{UncheckedBlock, CheckedBlock, block_digest}
use svalin.SecureChain.Chain.{Chain, Credential, draft, state_digest}
use svalin.TrustStore.State.{State, Transaction, add, trust_state}
use svalin.TrustStore.Laws.{IsParsed, IsProperState}
use svalin.TrustStore.Store.{TrustStore}

-- The X.509 certificate of the type whose key is the byte, and whose issuer's key is the other.
abbrev demo_x509 : ℕ → CertificateType → ℕ → X509
demo_x509 k t issuer = record {
  spki = k ∷ [];
  subject_public_key = k ∷ [];
  common_name = some (some (display k));
  organizational_unit = some (some (to_string t));
  issuer_common_name = some (some (display issuer));
  issuer_is_subject = type_eq t root;
  is_ca = should_be_ca t;
  not_before = pos 1000;
  not_after = pos (1000 + validity_duration t);
}

abbrev demo_parse : Bytes → Option X509
demo_parse (k ∷ []) =
    if k == 1
    then some (demo_x509 1 root 1)
    else if k == 2
    then some (demo_x509 2 user 1)
    else if k == 3
    then some (demo_x509 3 user_session 2)
    else if k == 4
    then some (demo_x509 4 server 1)
    else none
demo_parse _ = none

abbrev demo_lifetime : ℤ → ℤ → Option ℕ
demo_lifetime (pos a) (pos b) = some (b - a)
demo_lifetime _ _ = none

abbrev checksum : Bytes → ℕ
checksum [] = 0
checksum (b ∷ bs) = b + checksum bs

abbrev pub demo : Platform
demo = record {
  parse_x509 = demo_parse;
  lifetime = demo_lifetime;
  signature_valid = λ _ _. true;
  sha512_256 = checksum;
  sha512 = checksum;
  public_key_of = λ k. k;
  sign = λ k m. k ++ m;
  verify = λ k m s. bytes_eq s (k ++ m);
}

abbrev pub demo_signs : SignsCorrectly demo
demo_signs = record { verify-sign = λ k m. bytes_eq_self (k ++ m) }

abbrev pub demo_certificate : ℕ → CertificateType → ℕ → CertificateData
demo_certificate k t issuer = record {
  der = k ∷ [];
  certificate_type = t;
  public_key = k ∷ [];
  spki_hash = k;
  is_ca = should_be_ca t;
  issuer = issuer;
  validity = record { not_before = pos 1000; not_after = pos (1000 + validity_duration t) };
}

abbrev pub demo_user : CertificateData
demo_user = demo_certificate 2 user 1

abbrev pub demo_session : CertificateData
demo_session = demo_certificate 3 user_session 2

abbrev pub demo_server : CertificateData
demo_server = demo_certificate 4 server 1

abbrev pub demo_root : RootCertificate
demo_root = record { to_certificate = mark_as_trusted (demo_certificate 1 root 1) }

abbrev pub demo_state : State
demo_state = record { root = demo_root; certificates = (1, demo_root.to_certificate) ∷ [] }

abbrev pub demo_chain : Chain State Transaction
demo_chain = record { last_block = none; state = demo_state }

abbrev pub user_state : State
user_state = record {
  root = demo_root;
  certificates = (2, mark_as_trusted demo_user) ∷ (1, demo_root.to_certificate) ∷ [];
}

abbrev pub user_store : TrustStore
user_store = record { chain = record { last_block = none; state = user_state } }

abbrev pub root_credential : Credential
root_credential = record { keypair = 1 ∷ []; certificate = demo_root.to_certificate }

abbrev unsigned_block : UncheckedBlock Transaction
unsigned_block =
    draft demo (trust_state demo) none 2000 (state_digest demo (trust_state demo) user_state) 1
      (add demo_user)

abbrev pub first_block : CheckedBlock Transaction
first_block = record {
  as_unchecked = record unsigned_block {
    signature = 1 ∷ to_be_bytes 64 (block_digest demo (trust_state demo) unsigned_block);
  };
}

pub demo_root-IsParsed : IsParsed demo demo_root.to_unverified
unfolding from_der compute_spki_hash display to_string from_str should_be_ca validity_duration
    parse_issuer type_eq svalin.Certificate.Hex.print_bytes to_be_bytes
    svalin.Certificate.Hex.issuer_bytes svalin.Certificate.Hex.from_str_radix
    svalin.Bytes.from_be_bytes
demo_root-IsParsed = refl

pub demo_user-IsParsed : IsParsed demo demo_user
unfolding from_der compute_spki_hash display to_string from_str should_be_ca validity_duration
    parse_issuer type_eq svalin.Certificate.Hex.print_bytes to_be_bytes
    svalin.Certificate.Hex.issuer_bytes svalin.Certificate.Hex.from_str_radix
    svalin.Bytes.from_be_bytes
demo_user-IsParsed = refl

pub demo_state-IsProper : IsProperState demo demo_state
demo_state-IsProper = record {
  parsed = λ k c found. elim (Bool-cases (1 == k)) [
    | inl same ↦
        let this : c ≡ demo_root.to_certificate = ground arith in
        rw this (demo_root-IsParsed, ground arith)
    | inr other ↦ absurd (ground arith)
  ];
}

pub user_state-IsProper : IsProperState demo user_state
user_state-IsProper = record {
  parsed = λ k c found. elim (Bool-cases (2 == k)) [
    | inl same ↦
        let this : c ≡ mark_as_trusted demo_user = ground arith in
        rw this (demo_user-IsParsed, ground arith)
    | inr other ↦ demo_state-IsProper.parsed k c (ground arith)
  ];
}
