-- ===== src/Retriever/MetaGroup.antt =====
-- svalin/src/server/local_key_retriever.rs: the meta group of a device has the members of its group
-- but the device.
use svalin.Prelude.{ℕ, ◌≡◌, sym, ap, ◌∙◌, none, some, List, [], ◌∷◌, ◌++◌, map, true}
use mathlib.Core.List.{map-append}
use svalin.Prelude.Lists.{length, take, get_last?, bytes_eq, bytes_eq_self}
use svalin.Bytes.{Bytes}
use svalin.Prelude.Result.{ok, err, panicked, ok_or_iff, bind_iff, map_err_iff}
use svalin.Platform.{SpkiHash, Platform}
use svalin.Certificate.Defs.{UnverifiedCertificate, Certificate, mark_as_trusted}
use svalin.CertificateChain.Builder.{UnverifiedCertificateChain}
use svalin.CertificateChain.Verify
use svalin.CertificateChain.Verify.{CertificateChain, VerifyChainError}
use svalin.CertificateChain.Verify.Laws.{verify_iff}
use svalin.TrustStore.Laws.{IsParsed, IsParsed-unique, IsProperState}
use svalin.TrustStore.Store
use svalin.TrustStore.Store.{TrustStore, complete_certificate_chain}
use svalin.Mls.GroupId.{device_group, device_meta_group}
use svalin.Retriever.Local.{
  LocalKeyRetriever, hash_of, without_leaf, completed, device_chain, get_required_group_members,
}
use svalin.Retriever.Agreement.{leaf_of}

-- All but the last, and the last
take-last :
    {A : Type 0} (first : A) (rest : List A) (last : A)
    → get_last? (first ∷ rest) ≡ some last
    → first ∷ rest ≡ take (length rest) (first ∷ rest) ++ last ∷ []
take-last first [] last h = cc
take-last first (next ∷ rest) last h = ap (λ l. first ∷ l) (take-last next rest last h)

get_last?-mark :
    (c : UnverifiedCertificate) (rest : List UnverifiedCertificate) (last : UnverifiedCertificate)
    → get_last? (c ∷ rest) ≡ some last
    → get_last? (map mark_as_trusted (c ∷ rest)) ≡ some (mark_as_trusted last)
get_last?-mark c [] last h = cc
get_last?-mark c (d ∷ rest) last h = get_last?-mark d rest last h

without_leaf-append :
    (cs rest : List Certificate) (last : Certificate)
    → without_leaf cs ≡ ok rest
    → get_last? cs ≡ some last
    → cs ≡ rest ++ last ∷ []
without_leaf-append [] rest last h e = absurd (cc)
without_leaf-append (c ∷ cs) rest last h e =
    let is : take (length cs) (c ∷ cs) ≡ rest = cc (h) in
    take-last c cs last e ∙ ap (λ l. l ++ last ∷ []) is

only : (first leaf : UnverifiedCertificate) → get_last? (first ∷ []) ≡ some leaf → first ≡ leaf
only first leaf h = cc

bytes_eq_complete : (a b : Bytes) → a ≡ b → bytes_eq a b ≡ true
bytes_eq_complete a b e = rw e (bytes_eq_self b)

from_completed :
    (found_chain : _) (chain : UnverifiedCertificateChain)
    → completed found_chain ≡ ok chain
    → found_chain ≡ some (ok chain)
from_completed none chain h = absurd (cc)
from_completed (some (ok c)) chain h = cc
from_completed (some (err e)) chain h = absurd (cc)
from_completed (some panicked) chain h = absurd (cc)

module _ (p : Platform) (me : LocalKeyRetriever) (timestamp : ℕ)
    (proper : IsProperState p me.trust_store.chain.state)
    (root_parsed : IsParsed p me.root.to_unverified) where
  -- The last certificate of the verified chain is the last of the chain.
  verify-leaf :
      (certificates : List UnverifiedCertificate) (leaf : UnverifiedCertificate)
      (chain : CertificateChain)
      → get_last? certificates ≡ some leaf
      → IsParsed p leaf
      → Verify.verify p (record { certificates = certificates }) me.root timestamp ≡ ok chain
      → get_last? chain.certificates ≡ some (mark_as_trusted leaf)
  verify-leaf [] leaf chain last parsed h = absurd (cc)
  verify-leaf (first ∷ []) leaf chain last parsed h =
      let (der, is, _) = (verify_iff p me.root timestamp first [] chain).0.0 h in
      let same : me.root.to_unverified ≡ leaf =
        IsParsed-unique p me.root.to_unverified leaf root_parsed parsed
          (bytes_eq_complete _ _ (sym der ∙ ap (λ c. c.der) (only first leaf last))) in
      rw is (ap (λ c. some (mark_as_trusted c)) same)
  verify-leaf (first ∷ c ∷ rest) leaf chain last parsed h =
      let (der, is, _) = (verify_iff p me.root timestamp first (c ∷ rest) chain).0.0 h in
      rw is (get_last?-mark c rest leaf last)

  device_chain-leaf :
      (h : SpkiHash) (chain : CertificateChain)
      → device_chain p me timestamp h ≡ ok chain
      → (leaf : Certificate) × (get_last? chain.certificates ≡ some leaf) × (leaf.spki_hash ≡ h)
  unfolding device_chain Store.get
  device_chain-leaf h chain e =
      let (agent, e1, e2) = (bind_iff _ _ _).0 e in
      let (built, e3, e4) = (bind_iff _ _ _).0 e2 in
      let found : Store.get me.trust_store h ≡ some agent = (ok_or_iff _ _ _).0 e1 in
      let (parsed, hash) = proper.parsed h agent found in
      (
        agent,
        verify-leaf built.certificates agent.to_unverified chain
            (leaf_of p me timestamp proper agent built (from_completed _ _ e3)) parsed
            ((map_err_iff _ _ _).0 e4),
        hash,
      )

  -- When the server's trust store is proper and the root is parsed: if members are required of the
  -- meta group of a device, then the group of the device requires the same ones followed by the
  -- device.
  pub required-meta_group :
      (h : SpkiHash) (members : List SpkiHash)
      → get_required_group_members p me timestamp (device_meta_group h) ≡ ok members
      → get_required_group_members p me timestamp (device_group h) ≡ ok (members ++ h ∷ [])
  unfolding get_required_group_members
  required-meta_group h members e =
      let (chain, e1, e2) = (bind_iff _ _ _).0 e in
      let (rest, e3, e4) = (bind_iff _ _ _).0 e2 in
      let (leaf, last, hash) = device_chain-leaf h chain e1 in
      let parts : chain.certificates ≡ rest ++ leaf ∷ [] =
        without_leaf-append chain.certificates rest leaf e3 last in
      let rest_members : map hash_of rest ≡ members = cc (e4) in
      rw e1 (
        ap ok (
          ap (map hash_of) parts
          ∙ map-append hash_of rest (leaf ∷ [])
          ∙ ap (λ l. l ++ leaf.spki_hash ∷ []) rest_members
          ∙ ap (λ k. members ++ k ∷ []) hash))
