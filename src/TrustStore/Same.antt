-- ===== src/TrustStore/Same.antt =====
-- svalin_pki/src/trust_store.rs: the operations of `State` do not depend on the order of its map.
use svalin.Prelude.{ℕ, ◌≡◌, refl, sym, ◌∙◌, some, List, [], ◌∷◌, arith, inl, inr}
use svalin.Prelude.Tests.{Option-cases}
use svalin.Platform.{SpkiHash, Platform}
use svalin.HashMap.{
  HashMap, lookup, contains_key, erase, insert, keys, sort_keys, sort_keys-ext, contains-keys,
  map_laws,
}
use svalin.Certificate.Defs.{Certificate, mark_as_trusted}
use svalin.Certificate.Laws.{verify_signature-cases}
use svalin.TrustStore.State.{
  State, Transaction, add, remove_expired, check_state, check_add, check_remove, apply_state,
  digest_certificates, digest_state,
}

-- The same root, and the same certificate for every hash.
pub record SameState (s t : State) : Type 0 where
  pub root : s.root ≡ t.root
  pub entries : (k : SpkiHash) → lookup k s.certificates ≡ lookup k t.certificates

digest_certificates-ext :
    (m n : HashMap Certificate) (ks : List SpkiHash)
    → ((k : SpkiHash) → lookup k m ≡ lookup k n)
    → digest_certificates m ks ≡ digest_certificates n ks
unfolding digest_certificates
digest_certificates-ext m n [] h = refl
digest_certificates-ext m n (k ∷ ks) h = cc (h k, digest_certificates-ext m n ks h)

-- States with the same root, and the same certificate or none under every hash, feed the same bytes
-- to the hasher, in whatever order their maps hold the entries.
pub digest_state-Same : (s t : State) → SameState s t → digest_state s ≡ digest_state t
unfolding digest_state
digest_state-Same s t h =
    let same_keys : sort_keys (keys s.certificates) ≡ sort_keys (keys t.certificates) =
      sort_keys-ext (keys s.certificates) (keys t.certificates) (λ k.
        contains-keys k s.certificates ∙ contains_ext k ∙ sym (contains-keys k t.certificates)) in
    cc (
      same_keys,
      h.root,
      digest_certificates-ext s.certificates t.certificates (sort_keys (keys s.certificates))
          h.entries,
    )
  where
    contains_ext : (k : SpkiHash) → contains_key k s.certificates ≡ contains_key k t.certificates
    contains_ext k = rw (contains_key, h.entries k)

-- States that agree under every hash check a transaction alike.
pub check_state-Same :
    (p : Platform) (s t : State) (k : SpkiHash) (time : ℕ) (x : Transaction)
    → SameState s t
    → check_state p s k time x ≡ check_state p t k time x
unfolding check_state check_add check_remove
check_state-Same p s t k time (add c) h = ground (arith, h.entries k, h.entries c.spki_hash)
check_state-Same p s t k time (remove_expired c) h =
    ground (arith, h.entries k, h.entries c.spki_hash)

lookups_insert :
    (k : SpkiHash) (c : Certificate) (m n : HashMap Certificate)
    → ((j : SpkiHash) → lookup j m ≡ lookup j n)
    → (j : SpkiHash) → lookup j (insert k c m) ≡ lookup j (insert k c n)
lookups_insert k c m n h j = simp map_laws (ground (arith, h j))

lookups_erase :
    (k : SpkiHash) (m n : HashMap Certificate)
    → ((j : SpkiHash) → lookup j m ≡ lookup j n)
    → (j : SpkiHash) → lookup j (erase k m) ≡ lookup j (erase k n)
lookups_erase k m n h j = simp map_laws (ground (arith, h j))

pub apply_state-Same :
    (p : Platform) (s t : State) (k : SpkiHash) (time : ℕ) (x : Transaction) (s' : State)
    → SameState s t
    → apply_state p s k time x ≡ some s'
    → (t' : State) × (apply_state p t k time x ≡ some t') × SameState s' t'
unfolding apply_state
apply_state-Same p s t k time (remove_expired c) s' h e =
    let result : s' ≡ record s { certificates = erase c.spki_hash s.certificates } = cc e in
    (
      record t { certificates = erase c.spki_hash t.certificates },
      refl,
      rw result (record {
        root = h.root;
        entries = lookups_erase c.spki_hash s.certificates t.certificates h.entries;
      }),
    )
apply_state-Same p s t k time (add c) s' h e =
    elim (Option-cases (lookup c.issuer s.certificates)) [
      | inl n ↦ absurd (ground arith)
      | inr (signer, found) ↦ elim (verify_signature-cases p c signer time) [
        | inr bad ↦ absurd (ground arith)
        | inl good ↦
            let new : Certificate = mark_as_trusted c in
            let result : s' ≡ record s { certificates = insert c.spki_hash new s.certificates } =
              ground arith in
            (
              record t { certificates = insert c.spki_hash new t.certificates },
              ground (arith, h.entries c.issuer),
              rw result (record {
                root = h.root;
                entries = lookups_insert c.spki_hash new s.certificates t.certificates h.entries;
              }),
            )
      ]
    ]
