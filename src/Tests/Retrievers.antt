-- ===== src/Tests/Retrievers.antt =====
-- The theorems on the members that are required of a group, and on key packages.
use svalin.Prelude.{◌≡◌, ◌↔◌, refl, true, Option, some, List, [], ◌∷◌}
use svalin.Prelude.Lists.{All}
use svalin.Prelude.Result.{ok}
use svalin.Platform.{SpkiHash}
use svalin.ServerStore.Sessions.{SessionStore, load_certificate_chain}
use svalin.Mls.GroupId.{device_group}
use svalin.Retriever.Local.{LocalKeyRetriever, get_required_group_members}
use svalin.Retriever.Remote.{chain_answer, remote_required, dispatch_packages}
use svalin.Retriever.Agreement.{remote_required-local}
use svalin.Retriever.MetaGroup.{required-meta_group}
use svalin.Retriever.Packages.{HasName, IsNamed, dispatch_packages_iff}
use svalin.Tests.Fixtures.{demo, demo_root, user_store, user_state-IsProper, demo_root-IsParsed}
use svalin.Tests.GroupFixtures.{demo_mls}

abbrev demo_local : LocalKeyRetriever
demo_local = record { root = demo_root; trust_store = user_store }

abbrev no_sessions : SessionStore
no_sessions = record { answers = true; rows = [] }

-- svalin/src/remote_key_retriever.rs
remote_required-local_example :
    (remote_required demo
        (λ k. chain_answer (load_certificate_chain demo no_sessions user_store k))
        demo_root
        2000
        (device_group 2)
      ≡ ok (1 ∷ 2 ∷ []))
    ↔ (get_required_group_members demo demo_local 2000 (device_group 2) ≡ ok (1 ∷ 2 ∷ []))
unfolding svalin.ServerStore.Sessions.get_session svalin.ServerStore.Sessions.find_session
remote_required-local_example =
    remote_required-local demo demo_local 2000 user_state-IsProper no_sessions (device_group 2)
      (1 ∷ 2 ∷ []) refl

-- svalin/src/server/local_key_retriever.rs
required-meta_group_example :
    get_required_group_members demo demo_local 2000 (device_group 2) ≡ ok (1 ∷ 2 ∷ [])
unfolding get_required_group_members svalin.Retriever.Local.device_chain svalin.TrustStore.Store.get
    svalin.TrustStore.Store.complete_certificate_chain svalin.TrustStore.Store.complete_loop
    svalin.CertificateChain.Builder.new svalin.CertificateChain.Builder.requested_issuer
    svalin.CertificateChain.Builder.push_parent svalin.CertificateChain.Builder.finish
    svalin.CertificateChain.Builder.is_finished svalin.CertificateChain.Verify.verify
    svalin.CertificateChain.Verify.verify_loop svalin.Certificate.Defs.verify_signature
    svalin.Certificate.Defs.check_validity_at svalin.Certificate.Kind.type_eq
    svalin.Certificate.Kind.may_be_parent_of svalin.Certificate.Kind.validity_duration
required-meta_group_example =
    required-meta_group demo demo_local 2000 user_state-IsProper demo_root-IsParsed 2 (1 ∷ []) refl

abbrev two_packages : List SpkiHash
two_packages = 2 ∷ 9 ∷ []

-- svalin/src/shared/commands/get_key_packages.rs: the package of 9 was not requested.
dispatch_packages_iff_example :
    (dispatch_packages demo_mls (2 ∷ []) (some two_packages) ≡ ok two_packages) ↔ (
      (◌≡◌ {A = Option (List SpkiHash)} (some two_packages) (some two_packages))
      × All (HasName demo_mls) two_packages
      × All (λ h. IsNamed demo_mls h two_packages) (2 ∷ []))
dispatch_packages_iff_example =
    dispatch_packages_iff demo_mls (2 ∷ []) (some two_packages) two_packages

dispatch_packages_test : dispatch_packages demo_mls (2 ∷ []) (some two_packages) ≡ ok two_packages
unfolding dispatch_packages svalin.Retriever.Remote.collect_hashes
    svalin.Mls.KeyPackage.unverified_spki_hash
dispatch_packages_test = refl
