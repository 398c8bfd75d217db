-- ===== src/CertificateChain/Verify/Laws.antt =====
-- svalin_pki/src/certificate_chain.rs: the meaning of `UnverifiedCertificateChain::verify`.
use mathlib.Core.List.{append_assoc, append-nil}
use svalin.Prelude.{ℕ, ◌≡◌, ◌↔◌, refl, ap, ◌∙◌, some, List, [], ◌∷◌, ◌++◌, map, arith, inl, inr}
use svalin.Prelude.Lists.{get_last?, get_last?-append, bytes_eq_sound, bytes_eq_self}
use svalin.Prelude.Result.{ok, err}
use svalin.Platform.{Platform}
use svalin.Certificate.Defs.{
  UnverifiedCertificate, Certificate, RootCertificate, mark_as_trusted, verify_signature,
}
use svalin.Certificate.Laws.{verify_signature-cases}
use svalin.CertificateChain.Verify.{CertificateChain, empty_chain, verify_loop, verify}

-- Each certificate verifies at the time, under the one before it.
abbrev pub IsVerifiedFrom : Platform → ℕ → Certificate → List UnverifiedCertificate → Type 0
IsVerifiedFrom p time parent [] = Unit
IsVerifiedFrom p time parent (c ∷ rest) =
    (verify_signature p c parent time ≡ ok (mark_as_trusted c))
    × IsVerifiedFrom p time (mark_as_trusted c) rest

module _ (p : Platform) (root : RootCertificate) (time : ℕ) where
  -- What the loop returns when every certificate verifies.
  verify_loop_complete :
      (verified : List Certificate) (parent : Certificate) (cs : List UnverifiedCertificate)
      → get_last? verified ≡ some parent
      → IsVerifiedFrom p time parent cs
      → verify_loop p root time verified cs ≡ ok (verified ++ map mark_as_trusted cs)
  unfolding verify_loop
  verify_loop_complete verified parent [] e v = rw append-nil
  verify_loop_complete verified parent (c ∷ cs) e v =
      let next : Certificate = mark_as_trusted c in
      rw (e, v.0)
        (verify_loop_complete (verified ++ next ∷ []) next cs (get_last?-append verified next) v.1
          ∙ ap ok (append_assoc verified (next ∷ []) (map mark_as_trusted cs)))

  verify_loop_sound :
      (verified out : List Certificate) (parent : Certificate) (cs : List UnverifiedCertificate)
      → get_last? verified ≡ some parent
      → verify_loop p root time verified cs ≡ ok out
      → IsVerifiedFrom p time parent cs
  unfolding verify_loop
  verify_loop_sound verified out parent [] e h = tt
  verify_loop_sound verified out parent (c ∷ cs) e h =
      let next : Certificate = mark_as_trusted c in
      elim (verify_signature-cases p c parent time) [
        | inl v ↦ (
          v,
          verify_loop_sound (verified ++ next ∷ []) out next cs (get_last?-append verified next)
              (ground arith),
        )
        | inr v ↦ absurd (ground arith)
      ]

  -- Given its first certificate, a chain verifies exactly if that certificate has the encoding of
  -- the root and every other one verifies at the time under the one before it; the verified chain
  -- is the root followed by the others. An empty chain is an error.
  pub verify_iff :
      (first : UnverifiedCertificate) (rest : List UnverifiedCertificate) (v : CertificateChain)
      → ((verify p (record { certificates = first ∷ rest }) root time ≡ ok v) ↔ (
          (first.der ≡ root.der)
          × (v.certificates ≡ root.to_certificate ∷ map mark_as_trusted rest)
          × IsVerifiedFrom p time root.to_certificate rest))
        × (verify p (record { certificates = [] }) root time ≡ err empty_chain)
  unfolding verify
  verify_iff first [] v =
      (ground (arith, bytes_eq_sound first.der root.der, bytes_eq_self root.der), refl)
  verify_iff first (c ∷ rest) v =
      let start : List Certificate = root.to_certificate ∷ [] in
      let cs : List UnverifiedCertificate = c ∷ rest in
      (
        ground (
          arith,
          bytes_eq_sound first.der root.der,
          bytes_eq_self root.der,
          verify_loop_sound start v.certificates root.to_certificate cs refl,
          verify_loop_complete start root.to_certificate cs refl,
        ),
        refl,
      )
