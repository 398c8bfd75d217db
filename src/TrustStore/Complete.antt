-- ===== src/TrustStore/Complete.antt =====
-- svalin_pki/src/trust_store.rs: `TrustStore::complete_certificate_chain` and its loop.
use mathlib.Core.List.{reverse}
use svalin.Prelude.{
  ℕ, zero, suc, ◌≤◌, ◌<◌, ◌≡◌, ◌≢◌, refl, true, false, Option, none, some, List, [], ◌∷◌, ◌++◌,
  arith, inl, inr,
}
use svalin.Prelude.Tests.{if◌then◌else◌, Option-cases}
use svalin.Prelude.Lists.{length, head?, get_last?}
use svalin.Prelude.Result.{Result, ok, err, panicked, Result-cases}
use svalin.Platform.{SpkiHash, Platform}
use svalin.HashMap.{lookup, keys, contains-keys}
use svalin.HashMap.Defs.{contains}
use svalin.Certificate.Defs.{UnverifiedCertificate, Certificate}
use svalin.CertificateChain.Builder.{
  CertificateChainBuilder, UnverifiedCertificateChain, AddCertificateError, requested_issuer,
  push_parent, finish,
}
use svalin.CertificateChain.Builder.Laws.{
  IsWellFormed, IsFinished, finish-IsFinished, push_parent-IsWellFormed, builder_never_panics,
  requested_never_panics,
}
use svalin.TrustStore.State.{State}
use svalin.TrustStore.Laws.{IsProperState}
use svalin.TrustStore.Store.{
  TrustStore, CompleteCertChainError, complete_loop, complete_certificate_chain,
}

-- How many of the keys are not known yet.
unknown : List SpkiHash → List SpkiHash → ℕ
unknown [] known = 0
unknown (k ∷ ks) known = let rest = unknown ks known in if contains k known then rest else suc rest

unknown-le-length : (ks known : List SpkiHash) → unknown ks known ≤ length ks
unfolding unknown
unknown-le-length [] known = omega arith
unknown-le-length (k ∷ ks) known = ground (arith, unknown-le-length ks known)

unknown_mono : (k : SpkiHash) (ks known : List SpkiHash) → unknown ks (k ∷ known) ≤ unknown ks known
unfolding unknown
unknown_mono k [] known = omega arith
unknown_mono k (j ∷ ks) known = ground (arith, unknown_mono k ks known)

-- To learn a key that was not known lowers the count.
unknown_decreases :
    (k : SpkiHash) (ks known : List SpkiHash)
    → contains k ks ≡ true
    → contains k known ≡ false
    → unknown ks (k ∷ known) < unknown ks known
unfolding unknown
unknown_decreases k [] known h n = cc
unknown_decreases k (j ∷ ks) known h n =
    ground (arith, unknown_decreases k ks known, unknown_mono k ks known)

-- What one round of the loop does to the builder.
record Pushed (b c : CertificateChainBuilder) (parent : UnverifiedCertificate) : Type 0 where
  was_unknown : contains parent.spki_hash b.known_spki_hashes ≡ false
  known : c.known_spki_hashes ≡ parent.spki_hash ∷ b.known_spki_hashes
  leaf_kept : head? c.certificates ≡ head? b.certificates

head?-push :
    (cs : List UnverifiedCertificate) (parent : UnverifiedCertificate)
    → get_last? cs ≢ none
    → head? (cs ++ parent ∷ []) ≡ head? cs
head?-push [] parent h = absurd (h refl)
head?-push (c ∷ cs) parent h = refl

push_parent-Pushed :
    (b c : CertificateChainBuilder) (parent : UnverifiedCertificate)
    → IsWellFormed b
    → push_parent b parent ≡ ok c
    → Pushed b c parent
unfolding push_parent
push_parent-Pushed b c parent w h = elim (Option-cases (get_last? b.certificates)) [
  | inl e ↦ absurd (w.not_empty e)
  | inr (last, e) ↦ record {
    was_unknown = ground arith;
    known = ground arith;
    leaf_kept = ground (arith, head?-push b.certificates parent w.not_empty);
  }
]

-- The outcome that is promised: no panic, and a chain that leads from the leaf to a root.
abbrev pub IsCompleted :
    Option UnverifiedCertificate
    → Option (Result CompleteCertChainError UnverifiedCertificateChain)
    → Type 0
IsCompleted leaf none = ⊥
IsCompleted leaf (some panicked) = ⊥
IsCompleted leaf (some (err e)) = Unit
IsCompleted leaf (some (ok chain)) =
    (b : CertificateChainBuilder) × (head? b.certificates ≡ leaf) × IsFinished b chain

-- The last certificate is a root exactly if none is requested, and then the chain can be finished.
finish_ready :
    (b : CertificateChainBuilder)
    → requested_issuer {E = AddCertificateError} b ≡ ok none
    → (chain : UnverifiedCertificateChain) × (finish b ≡ ok chain)
unfolding requested_issuer finish
finish_ready b h = (record { certificates = reverse b.certificates }, ground arith)

module _ (p : Platform) (s : State) (proper : IsProperState p s) where
  Pushed-unknown :
      (b c : CertificateChainBuilder) (issuer : SpkiHash) (parent : Certificate)
      → lookup issuer s.certificates ≡ some parent
      → Pushed b c parent.to_unverified
      → unknown (keys s.certificates) c.known_spki_hashes
        < unknown (keys s.certificates) b.known_spki_hashes
  Pushed-unknown b c issuer parent found pushed =
      let here : contains parent.spki_hash (keys s.certificates) ≡ true =
        ground
          (arith, (proper.parsed issuer parent found).1, contains-keys issuer s.certificates) in
      rw pushed.known (
        unknown_decreases parent.spki_hash (keys s.certificates) b.known_spki_hashes here
          pushed.was_unknown)

  complete_loop-IsCompleted :
      (fuel : ℕ) (b : CertificateChainBuilder)
      → IsWellFormed b
      → unknown (keys s.certificates) b.known_spki_hashes < fuel
      → IsCompleted (head? b.certificates) (complete_loop fuel s b)
  unfolding complete_loop
  complete_loop-IsCompleted zero b w h = absurd (omega arith)
  complete_loop-IsCompleted (suc fuel) b w h =
      elim (Result-cases (requested_issuer {E = AddCertificateError} b)) [
        | inr (inl (e, q)) ↦ rw (q, complete_loop) tt
        | inr (inr q) ↦ absurd (requested_never_panics b w q)
        | inl (none, q) ↦
            let (chain, finished) = finish_ready b q in
            rw (q, complete_loop) (rw finished (b, refl, finish-IsFinished b chain w finished))
        | inl (some issuer, q) ↦ elim (Option-cases (lookup issuer s.certificates)) [
          | inl missing ↦ rw (q, missing, complete_loop) tt
          | inr (parent, found) ↦ elim (Result-cases (push_parent b parent.to_unverified)) [
            | inr (inl (e, push)) ↦ rw (q, found, push, complete_loop) tt
            | inr (inr push) ↦ absurd ((builder_never_panics b parent.to_unverified w).0 push)
            | inl (c, push) ↦
                let pushed = push_parent-Pushed b c parent.to_unverified w push in
                let less = Pushed-unknown b c issuer parent found pushed in
                rw (q, found, push, complete_loop)
                  (rw (← pushed.leaf_kept) (
                    complete_loop-IsCompleted fuel c
                      (push_parent-IsWellFormed b c parent.to_unverified w push) (omega arith)))
          ]
        ]
      ]

-- In a store whose entries are parsed and stand under their own hashes, completing a well-formed
-- chain ends without a panic. If it succeeds, the chain begins with a root, ends with the leaf that
-- was given, and each certificate in it is the issuer that the next one names.
pub complete_certificate_chain-IsCompleted :
    (p : Platform) (store : TrustStore) (b : CertificateChainBuilder)
    → IsProperState p store.chain.state
    → IsWellFormed b
    → IsCompleted (head? b.certificates) (complete_certificate_chain store b)
unfolding complete_certificate_chain
complete_certificate_chain-IsCompleted p store b proper w =
    let s = store.chain.state in
    complete_loop-IsCompleted p s proper (suc (length (keys s.certificates))) b w
      (omega (arith, unknown-le-length (keys s.certificates) b.known_spki_hashes))
