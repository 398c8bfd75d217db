-- ===== src/TrustStore/Laws.antt =====
-- svalin_pki/src/trust_store.rs: `impl ChainState for State`, and the interface of a chain.
use svalin.Prelude.{ℕ, ◌≡◌, refl, sym, ap, ◌∙◌, true, none, some, arith, inl, inr}
use svalin.Prelude.Tests.{◌==◌, if◌then◌else◌, Option-cases, Bool-cases}
use svalin.Prelude.Lists.{bytes_eq_sound}
use svalin.Prelude.Result.{Result, ok}
use svalin.Platform.{SpkiHash, Platform}
use svalin.HashMap.{lookup, erase, insert, lookup-insert, lookup-erase, map_laws}
use svalin.Certificate.Parse.{CertificateParseError, from_der}
use svalin.Certificate.Defs.{UnverifiedCertificate, Certificate, cert_eq, mark_as_trusted}
use svalin.Certificate.Laws.{verify_signature-cases}
use svalin.SecureChain.Interface.{ChainStateLaws}
use svalin.TrustStore.State.{
  State, Transaction, add, remove_expired, check_state, check_add, check_remove, apply_state,
  revert_state, trust_state,
}
use svalin.TrustStore.Same.{SameState, apply_state-Same, check_state-Same, digest_state-Same}

-- Every certificate that the program holds comes from `from_der`.
abbrev pub IsParsed : Platform → UnverifiedCertificate → Type 0
IsParsed p c = from_der p c.der ≡ ok c

-- Parsed certificates with one encoding are equal.
pub IsParsed-unique :
    (p : Platform) (c d : UnverifiedCertificate)
    → IsParsed p c
    → IsParsed p d
    → cert_eq c d ≡ true
    → c ≡ d
IsParsed-unique p c d hc hd e =
    let same_der : c.der ≡ d.der = bytes_eq_sound c.der d.der e in
    let same : ◌≡◌ {A = Result CertificateParseError UnverifiedCertificate} (ok c) (ok d) =
      sym hc ∙ ap (from_der p) same_der ∙ hd in
    cc

abbrev pub IsParsedTransaction : Platform → Transaction → Type 0
IsParsedTransaction p (add c) = IsParsed p c
IsParsedTransaction p (remove_expired c) = IsParsed p c

-- Every entry is a parsed certificate under its own hash.
pub record IsProperState (p : Platform) (s : State) : Type 0 where
  pub parsed :
      (k : SpkiHash) (c : Certificate)
      → lookup k s.certificates ≡ some c
      → IsParsed p c.to_unverified × (c.spki_hash ≡ k)

-- On a proper state, a transaction that passes the check is applied without a panic.
pub apply_state_total :
    (p : Platform) (s : State) (k : SpkiHash) (time : ℕ) (x : Transaction)
    → IsProperState p s
    → check_state p s k time x ≡ ok tt
    → (s' : State) × (apply_state p s k time x ≡ some s')
unfolding check_state check_add apply_state
apply_state_total p s k time (remove_expired c) proper h =
    (record s { certificates = erase c.spki_hash s.certificates }, refl)
apply_state_total p s k time (add c) proper h = elim (Option-cases (lookup k s.certificates)) [
  | inl e ↦ absurd (ground arith)
  | inr (signer, e) ↦ elim (verify_signature-cases p c signer time) [
    | inr bad ↦ absurd (ground arith)
    | inl good ↦
        let key : c.issuer ≡ k = ground (arith, (proper.parsed k signer e).1) in
        (
          record s { certificates = insert c.spki_hash (mark_as_trusted c) s.certificates },
          ground arith,
        )
  ]
]

-- Reverting a transaction that passed the check, on the state that it led to, gives the state before
-- it: the same root, and the same certificate or none under every hash. The state is proper and the
-- transaction's certificate is parsed.
pub revert_state-apply :
    (p : Platform) (s s' : State) (k : SpkiHash) (time : ℕ) (x : Transaction)
    → IsProperState p s
    → IsParsedTransaction p x
    → check_state p s k time x ≡ ok tt
    → apply_state p s k time x ≡ some s'
    → SameState (revert_state s' x) s
unfolding check_state check_add check_remove apply_state revert_state
revert_state-apply p s s' k time (add c) proper value h e =
    elim (Option-cases (lookup c.issuer s.certificates)) [
      | inl n ↦ absurd (ground arith)
      | inr (signer, found) ↦ elim (verify_signature-cases p c signer time) [
        | inr bad ↦ absurd (ground arith)
        | inl good ↦
            let new : Certificate = mark_as_trusted c in
            let absent : lookup c.spki_hash s.certificates ≡ none = ground arith in
            let result : s' ≡ record s { certificates = insert c.spki_hash new s.certificates } =
              ground arith in
            rw result
              (record { root = refl; entries = λ j. simp map_laws (ground (arith, absent)) })
      ]
    ]
revert_state-apply p s s' k time (remove_expired c) proper value h e =
    elim (Option-cases (lookup c.spki_hash s.certificates)) [
      | inl n ↦ absurd (ground arith)
      | inr (found, there) ↦
          let same : found.to_unverified ≡ c =
            IsParsed-unique p found.to_unverified c (proper.parsed c.spki_hash found there).0 value
              (ground arith) in
          let result : s' ≡ record s { certificates = erase c.spki_hash s.certificates } = cc e in
          rw result
            (record { root = refl; entries = λ j. simp map_laws (ground (arith, there, same)) })
    ]

-- Applying a transaction of a parsed certificate to a proper state gives a proper state: every entry
-- is a parsed certificate under its own hash.
pub apply_state-IsProper :
    (p : Platform) (s s' : State) (k : SpkiHash) (time : ℕ) (x : Transaction)
    → IsProperState p s
    → IsParsedTransaction p x
    → apply_state p s k time x ≡ some s'
    → IsProperState p s'
unfolding apply_state
apply_state-IsProper p s s' k time (remove_expired c) proper value e =
    let result : s' ≡ record s { certificates = erase c.spki_hash s.certificates } = cc e in
    rw result (record {
      parsed = λ j d found.
          proper.parsed j d (ground (arith, found, lookup-erase c.spki_hash j s.certificates));
    })
apply_state-IsProper p s s' k time (add c) proper value e =
    elim (Option-cases (lookup c.issuer s.certificates)) [
      | inl n ↦ absurd (ground arith)
      | inr (signer, found) ↦ elim (verify_signature-cases p c signer time) [
        | inr bad ↦ absurd (ground arith)
        | inl good ↦
            let result : s' ≡ record s {
              certificates = insert c.spki_hash (mark_as_trusted c) s.certificates;
            } =
              ground arith in
            rw result (record { parsed = λ j d e'. insert_parsed j d (rw lookup-insert at e') })
      ]
    ]
  where
    insert_parsed :
        (j : SpkiHash) (d : Certificate)
        → (if c.spki_hash == j then some (mark_as_trusted c) else lookup j s.certificates) ≡ some d
        → IsParsed p d.to_unverified × (d.spki_hash ≡ j)
    insert_parsed j d e' = elim (Bool-cases (c.spki_hash == j)) [
      | inl same ↦ let this : d ≡ mark_as_trusted c = ground arith in rw this (value, ground arith)
      | inr other ↦ proper.parsed j d (ground arith)
    ]

-- The state of the trust store has every law that a chain relies on.
abbrev pub trust_state_laws : (p : Platform) → ChainStateLaws (trust_state p)
trust_state_laws p = record {
  Same = SameState;
  IsValue = IsParsedTransaction p;
  IsProper = IsProperState p;
  apply-IsProper = apply_state-IsProper p;
  Same-refl = λ s. record { root = refl; entries = λ k. refl };
  Same-trans =
      λ s t u h g. record { root = h.root ∙ g.root; entries = λ k. h.entries k ∙ g.entries k };
  check-Same = check_state-Same p;
  apply-Same = apply_state-Same p;
  digest-Same = digest_state-Same;
  apply_total = apply_state_total p;
  revert-apply = revert_state-apply p;
}
