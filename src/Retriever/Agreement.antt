-- ===== src/Retriever/Agreement.antt =====
-- svalin/src: the members that the server and a client require of a group.
use svalin.Prelude.{ℕ, ◌≡◌, ◌↔◌, refl, ◌∙◌, subst, Option, none, some, List, map, inl, inr}
use svalin.Prelude.Tests.{==_self, Option-cases}
use svalin.Prelude.Lists.{get_last?}
use svalin.Prelude.Result.{Result, ok, err, panicked, ◌>>=◌}
use svalin.Platform.{SpkiHash, Platform}
use svalin.Certificate.Defs.{Certificate}
use svalin.CertificateChain.Builder
use svalin.CertificateChain.Builder.{UnverifiedCertificateChain}
use svalin.CertificateChain.Builder.Laws.{new-IsWellFormed}
use svalin.CertificateChain.Verify.{CertificateChain}
use svalin.TrustStore.Laws.{IsProperState}
use svalin.TrustStore.Store
use svalin.TrustStore.Store.{TrustStore, CompleteCertChainError, complete_certificate_chain}
use svalin.TrustStore.Complete.{IsCompleted, complete_certificate_chain-IsCompleted}
use svalin.ServerStore.Sessions.{SessionStore, get_session, requested, load_certificate_chain}
use svalin.Mls.GroupId.{SvalinGroupId, global_group, device_group, device_meta_group}
use svalin.Retriever.Local.{
  RetrieverError, LocalKeyRetriever, hash_of, without_leaf, device_chain,
  get_required_group_members,
}
use svalin.Retriever.Remote.{chain_answer, dispatch_chain, remote_chain, remote_required}

abbrev known_chain :
    Option (Result CompleteCertChainError UnverifiedCertificateChain)
    → Option UnverifiedCertificateChain
known_chain (some (ok chain)) = some chain
known_chain _ = none

-- Two results with the same values are continued to the same values.
same_rest :
    {A B : Type 0} (r r' : Result RetrieverError A) (f : A → Result RetrieverError B) (b : B)
    → ((a : A) → (r ≡ ok a) ↔ (r' ≡ ok a))
    → ((r >>= f) ≡ ok b) ↔ ((r' >>= f) ≡ ok b)
same_rest (ok a) r' f b same = rw ((same a).0 refl) (λ h. h, λ h. h)
same_rest (err e) (ok a) f b same = absurd (cc ((same a).1 refl))
same_rest panicked (ok a) f b same = absurd (cc ((same a).1 refl))
same_rest (err e) (err e') f b same = (λ h. absurd (cc), λ h. absurd (cc))
same_rest (err e) panicked f b same = (λ h. absurd (cc), λ h. absurd (cc))
same_rest panicked (err e') f b same = (λ h. absurd (cc), λ h. absurd (cc))
same_rest panicked panicked f b same = (λ h. absurd (cc), λ h. absurd (cc))

module _ (p : Platform) (me : LocalKeyRetriever) (timestamp : ℕ)
    (proper : IsProperState p me.trust_store.chain.state) where
  -- The chain of a device that verifies has been completed from its certificate.
  pub leaf_of :
      (agent : Certificate) (chain : UnverifiedCertificateChain)
      → complete_certificate_chain me.trust_store (Builder.new agent.to_unverified)
        ≡ some (ok chain)
      → get_last? chain.certificates ≡ some agent.to_unverified
  unfolding Builder.new
  leaf_of agent chain e =
      let done : IsCompleted (some agent.to_unverified) (some (ok chain)) =
        subst (IsCompleted (some agent.to_unverified)) e (
          complete_certificate_chain-IsCompleted p me.trust_store (Builder.new agent.to_unverified)
            proper (new-IsWellFormed agent.to_unverified)) in
      let (b, leaf, finished) = done in finished.leaf_kept ∙ leaf

  pub own_hash :
      (h : SpkiHash) (agent : Certificate)
      → Store.get me.trust_store h ≡ some agent
      → agent.spki_hash ≡ h
  unfolding Store.get
  own_hash h agent found = (proper.parsed h agent found).1

  module _ (s : SessionStore) where
    abbrev served : SpkiHash → Option UnverifiedCertificateChain
    served k = chain_answer (load_certificate_chain p s me.trust_store k)

    load_missing :
        (h : SpkiHash)
        → get_session p s h ≡ ok none
        → Store.get me.trust_store h ≡ none
        → served h ≡ none
    unfolding load_certificate_chain requested
    load_missing h alone missing = rw (alone, missing, load_certificate_chain, requested) refl

    load_found :
        (h : SpkiHash) (agent : Certificate)
        (found_chain : Option (Result CompleteCertChainError UnverifiedCertificateChain))
        → get_session p s h ≡ ok none
        → Store.get me.trust_store h ≡ some agent
        → complete_certificate_chain me.trust_store (Builder.new agent.to_unverified) ≡ found_chain
        → served h ≡ known_chain found_chain
    unfolding load_certificate_chain requested
    load_found h agent none alone found e =
        rw (alone, found, e, load_certificate_chain, requested) refl
    load_found h agent (some panicked) alone found e =
        rw (alone, found, e, load_certificate_chain, requested) refl
    load_found h agent (some (err x)) alone found e =
        rw (alone, found, e, load_certificate_chain, requested) refl
    load_found h agent (some (ok chain)) alone found e =
        rw (alone, found, e, load_certificate_chain, requested) refl

    agreed :
        (h : SpkiHash) (agent : Certificate) (chain : CertificateChain)
        (found_chain : Option (Result CompleteCertChainError UnverifiedCertificateChain))
        → get_session p s h ≡ ok none
        → Store.get me.trust_store h ≡ some agent
        → complete_certificate_chain me.trust_store (Builder.new agent.to_unverified) ≡ found_chain
        → (remote_chain p served me.root timestamp h ≡ ok chain)
          ↔ (device_chain p me timestamp h ≡ ok chain)
    unfolding remote_chain device_chain dispatch_chain
    agreed h agent chain none alone found e =
        rw (load_found h agent none alone found e, found, e)
          (λ bad. absurd (cc), λ bad. absurd (cc))
    agreed h agent chain (some panicked) alone found e =
        rw (load_found h agent (some panicked) alone found e, found, e)
          (λ bad. absurd (cc), λ bad. absurd (cc))
    agreed h agent chain (some (err x)) alone found e =
        rw (load_found h agent (some (err x)) alone found e, found, e)
          (λ bad. absurd (cc), λ bad. absurd (cc))
    agreed h agent chain (some (ok built)) alone found e =
        rw
          (
            load_found h agent (some (ok built)) alone found e,
            found,
            e,
            leaf_of agent built e,
            own_hash h agent found,
            ==_self h,
          )
          (λ r. r, λ r. r)

    remote_chain-device_chain :
        (h : SpkiHash) (chain : CertificateChain)
        → get_session p s h ≡ ok none
        → (remote_chain p served me.root timestamp h ≡ ok chain)
          ↔ (device_chain p me timestamp h ≡ ok chain)
    unfolding remote_chain device_chain dispatch_chain
    remote_chain-device_chain h chain alone = elim (Option-cases (Store.get me.trust_store h)) [
      | inl missing ↦
          rw (load_missing h alone missing, missing) (λ bad. absurd (cc), λ bad. absurd (cc))
      | inr (agent, found) ↦ agreed h agent chain _ alone found refl
    ]

    -- The device of the group has no session.
    abbrev pub HasNoSession : SvalinGroupId → Type 0
    HasNoSession global_group = Unit
    HasNoSession (device_group h) = get_session p s h ≡ ok none
    HasNoSession (device_meta_group h) = get_session p s h ≡ ok none

    -- A client that asks the server for a chain requires the same members of a group as the server,
    -- if the two have the same root and look at the same time, the server's trust store is proper,
    -- and no session stands under the hash of the group's device.
    pub remote_required-local :
        (id : SvalinGroupId) (members : List SpkiHash)
        → HasNoSession id
        → (remote_required p served me.root timestamp id ≡ ok members)
          ↔ (get_required_group_members p me timestamp id ≡ ok members)
    unfolding remote_required get_required_group_members
    remote_required-local global_group members alone = (λ r. r, λ r. r)
    remote_required-local (device_group h) members alone =
        same_rest _ _ (λ chain. ok (map hash_of chain.certificates)) members
          (λ chain. remote_chain-device_chain h chain alone)
    remote_required-local (device_meta_group h) members alone =
        same_rest _ _ (λ chain. do rest ← without_leaf chain.certificates; ok (map hash_of rest))
          members (λ chain. remote_chain-device_chain h chain alone)
