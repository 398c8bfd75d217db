-- ===== src/Certificate/Parse/Laws.antt =====
-- svalin_pki/src/certificate.rs: the conventions that `from_der` enforces.
use svalin.Prelude.{◌≡◌, false, none, some, Option, refl, arith, ◌⊎◌, inl, inr}
use svalin.Prelude.Tests.{Option-cases}
use svalin.Prelude.Lists.{bytes_eq_sound}
use svalin.Prelude.Result.{ok}
use svalin.Bytes.{Bytes}
use svalin.Platform.{X509, Platform}
use svalin.Certificate.Kind.{root, temporary, should_be_ca, validity_duration, to_string}
use svalin.Certificate.Kind.Laws.{type_eq_sound, from_str_iff}
use svalin.Certificate.Hex.{display, parse_issuer}
use svalin.Certificate.Defs.{UnverifiedCertificate}
use svalin.Certificate.Parse.{compute_spki_hash, from_der}

-- The conventions for the certificate `c`, read from the X.509 certificate `x`.
pub record IsConventional (p : Platform) (x : X509) (c : UnverifiedCertificate) : Type 0 where
  pub hash_of_key : c.spki_hash ≡ compute_spki_hash p x.spki
  pub name_is_hash : x.common_name ≡ some (some (display c.spki_hash))
  pub unit_is_type : x.organizational_unit ≡ some (some (to_string c.certificate_type))
  pub issuer_name : Bytes
  pub issuer_named : x.issuer_common_name ≡ some (some issuer_name)
  pub issuer_read : parse_issuer issuer_name ≡ ok c.issuer
  pub lifetime_fixed :
      p.lifetime c.validity.not_before c.validity.not_after
      ≡ some (validity_duration c.certificate_type)
  pub ca_as_typed : c.is_ca ≡ should_be_ca c.certificate_type
  pub flag_kept : c.is_ca ≡ x.is_ca
  pub self_signed :
      (x.issuer_is_subject ≡ false) ⊎ (c.certificate_type ≡ root) ⊎ (c.certificate_type ≡ temporary)

-- A name attribute is a text, or `first_name` does not succeed.
abbrev Named : Option (Option Bytes) → Type 0
Named o = (name : Bytes) × (o ≡ some (some name))

Named-cases : (o : Option (Option Bytes)) → (o ≡ none) ⊎ (o ≡ some none) ⊎ Named o
Named-cases none = inl refl
Named-cases (some none) = inr (inl refl)
Named-cases (some (some name)) = inr (inr (name, refl))

module _ (p : Platform) (der : Bytes) (c : UnverifiedCertificate) (x : X509)
    (parsed : p.parse_x509 der ≡ some x) (h : from_der p der ≡ ok c) where
  subject-Named : Named x.common_name
  unfolding from_der
  subject-Named = elim (Named-cases x.common_name) [
    | inl e ↦ absurd (ground arith)
    | inr (inl e) ↦ absurd (ground arith)
    | inr (inr n) ↦ n
  ]

  unit-Named : Named x.organizational_unit
  unfolding from_der
  unit-Named = elim (Named-cases x.organizational_unit) [
    | inl e ↦ absurd (ground arith)
    | inr (inl e) ↦ absurd (ground arith)
    | inr (inr n) ↦ n
  ]

  issuer-Named : Named x.issuer_common_name
  unfolding from_der
  issuer-Named = elim (Named-cases x.issuer_common_name) [
    | inl e ↦ absurd (ground arith)
    | inr (inl e) ↦ absurd (ground arith)
    | inr (inr n) ↦ n
  ]

  parsed-IsConventional : IsConventional p x c
  unfolding from_der
  parsed-IsConventional =
      let (cn, cn_eq) = subject-Named in
      let (unit, unit_eq) = unit-Named in
      let (issuer_name, issuer_eq) = issuer-Named in
      record {
        hash_of_key = ground arith;
        name_is_hash = ground (arith, bytes_eq_sound (display (compute_spki_hash p x.spki)) cn);
        unit_is_type = ground (arith, (from_str_iff unit c.certificate_type).0);
        issuer_name = issuer_name;
        issuer_named = issuer_eq;
        issuer_read = ground arith;
        lifetime_fixed = ground (arith);
        ca_as_typed = ground arith;
        flag_kept = ground arith;
        self_signed = ground (
          arith,
          type_eq_sound c.certificate_type root,
          type_eq_sound c.certificate_type temporary,
        );
      }

-- A certificate that is parsed keeps its encoding and follows every convention: its hash and name
-- are those of its key, its type, lifetime and CA flag agree, its issuer is the one that is named,
-- and only a root or temporary certificate may name itself as its issuer.
pub from_der-IsConventional :
    (p : Platform) (der : Bytes) (c : UnverifiedCertificate)
    → from_der p der ≡ ok c
    → (x : X509) × (p.parse_x509 der ≡ some x) × (c.der ≡ der) × IsConventional p x c
unfolding from_der
from_der-IsConventional p der c h = elim (Option-cases (p.parse_x509 der)) [
  | inl e ↦ absurd (ground arith)
  | inr (x, e) ↦ (x, e, ground arith, parsed-IsConventional p der c x e h)
]
