-- ===== src/Tests/Certificates.antt =====
-- The theorems on certificates, chains of them and verifiers, at concrete inputs.
use svalin.Prelude.{◌≡◌, ◌↔◌, refl, some, [], ◌∷◌, map}
use svalin.Prelude.Result.{ok, err}
use svalin.Bytes.{Bytes, codes}
use svalin.Certificate.Kind.{type_eq}
use svalin.Certificate.Defs.{mark_as_trusted}
use svalin.CertificateChain.Builder.{
  CertificateChainBuilder, UnverifiedCertificateChain, new, push_parent,
}
use svalin.CertificateChain.Builder.Laws.{IsWellFormed, new-IsWellFormed, push_parent-IsWellFormed}
use svalin.CertificateChain.Verify.{CertificateChain, verify, empty_chain}
use svalin.CertificateChain.Verify.Laws.{IsVerifiedFrom, verify_iff}
use svalin.TrustStore.Store.{complete_certificate_chain}
use svalin.TrustStore.Complete.{IsCompleted, complete_certificate_chain-IsCompleted}
use svalin.Verifier.{Verifier, exact}
use svalin.Tests.Fixtures.{
  demo, demo_user, demo_session, demo_server, demo_root, user_store, user_state-IsProper,
}

abbrev session_chain : CertificateChainBuilder
session_chain = record { certificates = demo_session ∷ []; known_spki_hashes = 3 ∷ [] }

session_chain-IsWellFormed : IsWellFormed session_chain
unfolding new
session_chain-IsWellFormed = new-IsWellFormed demo_session

complete_certificate_chain-IsCompleted_example :
    IsCompleted (some demo_session) (complete_certificate_chain user_store session_chain)
complete_certificate_chain-IsCompleted_example =
    complete_certificate_chain-IsCompleted demo user_store session_chain user_state-IsProper
      session_chain-IsWellFormed

-- svalin_pki/src/certificate_chain.rs
abbrev user_chain : CertificateChainBuilder
user_chain = record { certificates = demo_session ∷ demo_user ∷ []; known_spki_hashes = 2 ∷ 3 ∷ [] }

abbrev root_chain : CertificateChainBuilder
root_chain = record {
  certificates = demo_session ∷ demo_user ∷ demo_root.to_unverified ∷ [];
  known_spki_hashes = 1 ∷ 2 ∷ 3 ∷ [];
}

user_chain-IsWellFormed : IsWellFormed user_chain
unfolding push_parent type_eq
user_chain-IsWellFormed =
    push_parent-IsWellFormed session_chain user_chain demo_user session_chain-IsWellFormed refl

root_chain-IsWellFormed : IsWellFormed root_chain
unfolding push_parent type_eq
root_chain-IsWellFormed =
    push_parent-IsWellFormed user_chain root_chain demo_root.to_unverified user_chain-IsWellFormed
      refl

abbrev finished_chain : UnverifiedCertificateChain
finished_chain = record { certificates = demo_root.to_unverified ∷ demo_user ∷ demo_session ∷ [] }

abbrev verified_chain : CertificateChain
verified_chain = record {
  certificates =
      demo_root.to_certificate ∷ mark_as_trusted demo_user ∷ mark_as_trusted demo_session ∷ [];
}

verify_iff_example :
    ((verify demo finished_chain demo_root 2000 ≡ ok verified_chain) ↔ (
      (demo_root.der ≡ demo_root.der)
      × (verified_chain.certificates
          ≡ demo_root.to_certificate ∷ map mark_as_trusted (demo_user ∷ demo_session ∷ []))
      × IsVerifiedFrom demo 2000 demo_root.to_certificate (demo_user ∷ demo_session ∷ [])))
    × (verify demo (record { certificates = [] }) demo_root 2000 ≡ err empty_chain)
verify_iff_example =
    verify_iff demo demo_root 2000 demo_root.to_unverified (demo_user ∷ demo_session ∷ [])
      verified_chain

-- svalin_pki/src/certificate.rs
-- 61 times the letter `a`
abbrev filler : Bytes
filler = codes "aaaaaaaaaaaaaaaaaaaaaaaaaaaaaaaaaaaaaaaaaaaaaaaaaaaaaaaaaaaaa"

-- An `a`, the two bytes of a Latin letter with a diaeresis, and the filler.
-- svalin_pki/src/verifier
abbrev server_verifier : Verifier
server_verifier = exact (mark_as_trusted demo_server)
