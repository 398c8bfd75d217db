-- ===== src/CertificateChain/Builder/Laws.antt =====
-- svalin_pki/src/certificate_chain.rs: the invariant of a chain under construction.
use mathlib.Core.List.{reverse, reverse-append, reverse-reverse, map-append}
use svalin.Prelude.{
  ◌≡◌, ◌≢◌, refl, ap, sym, ◌∙◌, false, none, some, List, [], ◌∷◌, ◌++◌, map, arith, inl, inr,
}
use svalin.Prelude.Tests.{Option-cases}
use svalin.Prelude.Lists.{get_last?, get_last?-append, head?, get_last?-reverse, head?-reverse}
use svalin.Prelude.Result.{ok, panicked}
use svalin.Platform.{SpkiHash}
use svalin.Certificate.Kind.{root, type_eq}
use svalin.Certificate.Kind.Laws.{type_eq_sound}
use svalin.Certificate.Defs.{UnverifiedCertificate}
use svalin.HashMap.Defs.{contains}
use svalin.CertificateChain.Builder.{
  CertificateChainBuilder, UnverifiedCertificateChain, AddCertificateError, new, push_parent,
  requested_issuer, finish,
}

abbrev pub hash_of : UnverifiedCertificate → SpkiHash
hash_of c = c.spki_hash

-- The next certificate is the issuer of this one, which is no root.
abbrev LinksTo : UnverifiedCertificate → List UnverifiedCertificate → Type 0
LinksTo c [] = Unit
LinksTo c (d ∷ rest) = (c.issuer ≡ d.spki_hash) × (type_eq c.certificate_type root ≡ false)

abbrev pub IsLinked : List UnverifiedCertificate → Type 0
IsLinked [] = Unit
IsLinked (c ∷ rest) = LinksTo c rest × IsLinked rest

abbrev pub IsDistinct : List SpkiHash → Type 0
IsDistinct [] = Unit
IsDistinct (h ∷ rest) = (contains h rest ≡ false) × IsDistinct rest

-- The certificates lead from the leaf upwards without a repetition.
pub record IsWellFormed (b : CertificateChainBuilder) : Type 0 where
  pub not_empty : get_last? b.certificates ≢ none
  pub linked : IsLinked b.certificates
  pub known : b.known_spki_hashes ≡ reverse (map hash_of b.certificates)
  pub distinct : IsDistinct b.known_spki_hashes

-- A new builder is well formed.
pub new-IsWellFormed : (leaf : UnverifiedCertificate) → IsWellFormed (new leaf)
unfolding new
new-IsWellFormed leaf = record {
  not_empty = λ e. cc e;
  linked = (tt, tt);
  known = refl;
  distinct = (refl, tt);
}

IsLinked-append :
    (cs : List UnverifiedCertificate) (last parent : UnverifiedCertificate)
    → IsLinked cs
    → get_last? cs ≡ some last
    → last.issuer ≡ parent.spki_hash
    → type_eq last.certificate_type root ≡ false
    → IsLinked (cs ++ parent ∷ [])
IsLinked-append [] last parent l e i t = cc
IsLinked-append (c ∷ []) last parent l e i t = ground arith
IsLinked-append (c ∷ d ∷ rest) last parent l e i t =
    (l.0, IsLinked-append (d ∷ rest) last parent l.1 e i t)

known_push :
    (cs : List UnverifiedCertificate) (parent : UnverifiedCertificate)
    → reverse (map hash_of (cs ++ parent ∷ [])) ≡ parent.spki_hash ∷ reverse (map hash_of cs)
known_push cs parent = rw (map-append, reverse-append)

-- A well-formed builder stays well formed when pushing a parent succeeds: its certificates are
-- linked from the leaf upwards, and their hashes are known and distinct.
pub push_parent-IsWellFormed :
    (b c : CertificateChainBuilder) (parent : UnverifiedCertificate)
    → IsWellFormed b
    → push_parent b parent ≡ ok c
    → IsWellFormed c
unfolding push_parent
push_parent-IsWellFormed b c parent w h = elim (Option-cases (get_last? b.certificates)) [
  | inl e ↦ absurd (w.not_empty e)
  | inr (last, e) ↦
      let linked : IsLinked (b.certificates ++ parent ∷ []) =
        IsLinked-append b.certificates last parent w.linked e (ground arith) (ground arith) in
      let result : c ≡ record {
        certificates = b.certificates ++ parent ∷ [];
        known_spki_hashes = parent.spki_hash ∷ b.known_spki_hashes;
      } =
        ground arith in
      rw result (record {
        not_empty = λ e'. cc (e', get_last?-append b.certificates parent);
        linked = linked;
        known = ap (λ l. parent.spki_hash ∷ l) w.known ∙ sym (known_push b.certificates parent);
        distinct = (ground arith, w.distinct);
      })
]

pub requested_never_panics :
    (b : CertificateChainBuilder)
    → IsWellFormed b
    → requested_issuer {E = AddCertificateError} b ≢ panicked
unfolding requested_issuer
requested_never_panics b w = ground (arith, w.not_empty)

-- No operation on a well-formed builder panics.
pub builder_never_panics :
    (b : CertificateChainBuilder) (parent : UnverifiedCertificate)
    → IsWellFormed b
    → (push_parent b parent ≢ panicked)
      × (requested_issuer {E = AddCertificateError} b ≢ panicked)
      × (finish b ≢ panicked)
unfolding push_parent requested_issuer finish
builder_never_panics b parent w =
    (ground (arith, w.not_empty), ground (arith, w.not_empty), ground (arith, w.not_empty))

-- A finished chain begins with a root certificate and ends with the leaf, and each certificate in
-- it is named as the issuer by the next.
pub record IsFinished (b : CertificateChainBuilder) (chain : UnverifiedCertificateChain)
    : Type 0 where
  pub top : UnverifiedCertificate
  pub first : head? chain.certificates ≡ some top
  pub top_is_root : top.certificate_type ≡ root
  pub leaf_kept : get_last? chain.certificates ≡ head? b.certificates
  pub linked : IsLinked (reverse chain.certificates)

-- What `finish` returns for a well-formed builder begins with a root certificate and ends with the
-- builder's leaf, and each certificate in it is the issuer that the next one names.
pub finish-IsFinished :
    (b : CertificateChainBuilder) (chain : UnverifiedCertificateChain)
    → IsWellFormed b
    → finish b ≡ ok chain
    → IsFinished b chain
unfolding finish
finish-IsFinished b chain w h = elim (Option-cases (get_last? b.certificates)) [
  | inl e ↦ absurd (w.not_empty e)
  | inr (last, e) ↦
      let reversed : chain ≡ record { certificates = reverse b.certificates } = ground arith in
      rw reversed (record {
        top = last;
        first = head?-reverse b.certificates ∙ e;
        top_is_root = type_eq_sound last.certificate_type root (ground arith);
        leaf_kept = get_last?-reverse b.certificates;
        linked = rw reverse-reverse w.linked;
      })
]
