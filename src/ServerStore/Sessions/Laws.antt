-- ===== src/ServerStore/Sessions/Laws.antt =====
-- svalin_store/src/server_store/session_store.rs and svalin/src/server/chain_loader.rs: the chain of
-- a certificate that the server knows.
use svalin.Prelude.{
  ◌≡◌, ◌≢◌, ◌⊎◌, inl, inr, refl, ap, ◌∙◌, true, Option, none, some, List, [], ◌∷◌, arith,
}
use svalin.Prelude.Tests.{◌==◌, Bool-cases, Option-cases}
use svalin.Prelude.Lists.{head?}
use svalin.Prelude.Result.{Result, ok, err, panicked, Result-cases}
use svalin.Platform.{SpkiHash, Platform}
use svalin.Certificate.Kind.{user_session, type_eq}
use svalin.Certificate.Defs.{UnverifiedCertificate, Certificate}
use svalin.Certificate.Parse.{from_der}
use svalin.CertificateChain.Builder
use svalin.CertificateChain.Builder.{CertificateChainBuilder, UnverifiedCertificateChain}
use svalin.CertificateChain.Builder.Laws.{IsFinished, new-IsWellFormed}
use svalin.TrustStore.Laws.{IsParsed, IsProperState}
use svalin.TrustStore.Store
use svalin.TrustStore.Store.{TrustStore, CompleteCertChainError, complete_certificate_chain}
use svalin.TrustStore.Complete.{complete_certificate_chain-IsCompleted}
use svalin.ServerStore.Sessions.{
  SessionRow, SessionStore, SessionError, find_session, add_session, parse_session, get_session,
  requested, load_certificate_chain, LoadChainError,
}

module _ (p : Platform) where
  -- Each row holds a session that can be parsed, under its own hash and that of its issuer.
  abbrev pub IsSessions : List SessionRow → Type 0
  IsSessions [] = Unit {0}
  IsSessions (r ∷ rows) =
      ((c : UnverifiedCertificate) × (from_der p r.certificate ≡ ok c)
        × (c.spki_hash ≡ r.spki_hash)
        × (c.issuer ≡ r.issuer)
        × (type_eq c.certificate_type user_session ≡ true))
      × IsSessions rows

  add_session_new :
      (s : SessionStore) (certificate : Certificate)
      → type_eq certificate.certificate_type user_session ≡ true
      → s.answers ≡ true
      → find_session certificate.spki_hash s.rows ≡ none
      → add_session s certificate ≡ (
        ok tt,
        record s {
          rows =
              record {
                spki_hash = certificate.spki_hash;
                issuer = certificate.issuer;
                certificate = certificate.der;
              }
              ∷ s.rows;
        },
      )
  unfolding add_session
  add_session_new s certificate session up new = ground arith

  get_session_first :
      (s : SessionStore) (r : SessionRow) (c : UnverifiedCertificate)
      → s.answers ≡ true
      → from_der p r.certificate ≡ ok c
      → get_session p (record s { rows = r ∷ s.rows }) r.spki_hash ≡ ok (some c)
  unfolding get_session parse_session find_session
  get_session_first s r c up parsed = ground arith

  -- Adding a parsed certificate keeps the sessions, and it is then there; or it is an error, and
  -- nothing has changed.
  pub add_session-IsSessions :
      (s : SessionStore) (certificate : Certificate)
      → IsParsed p certificate.to_unverified
      → IsSessions s.rows
      → (IsSessions (add_session s certificate).1.rows
          × (get_session p (add_session s certificate).1 certificate.spki_hash
              ≡ ok (some certificate.to_unverified)))
        ⊎ (((add_session s certificate).0 ≢ ok tt) × ((add_session s certificate).1 ≡ s))
  unfolding add_session
  add_session-IsSessions s certificate parsed h =
      elim (Bool-cases (type_eq certificate.certificate_type user_session)) [
        | inr other ↦ inr (ground arith, ground arith)
        | inl session ↦ elim (Bool-cases s.answers) [
          | inr down ↦ inr (ground arith, ground arith)
          | inl up ↦ elim (Option-cases (find_session certificate.spki_hash s.rows)) [
            | inr (r, found) ↦ inr (ground arith, ground arith)
            | inl new ↦
                let row : SessionRow = record {
                  spki_hash = certificate.spki_hash;
                  issuer = certificate.issuer;
                  certificate = certificate.der;
                } in
                rw (add_session_new s certificate session up new) (
                  inl (
                    ((certificate.to_unverified, parsed, refl, refl, session), h),
                    get_session_first s row certificate.to_unverified up parsed,
                  ))
          ]
        ]
      ]

  found_session :
      (k : SpkiHash) (rows : List SessionRow) (r : SessionRow)
      → IsSessions rows
      → find_session k rows ≡ some r
      → (c : UnverifiedCertificate) × (from_der p r.certificate ≡ ok c) × (c.spki_hash ≡ k)
  unfolding find_session
  found_session k [] r h e = absurd (cc e)
  found_session k (q ∷ rows) r h e = elim (Bool-cases (q.spki_hash == k)) [
    | inl this ↦
        let same : q ≡ r = ground arith in rw (← same) (h.0.0, h.0.1, (ground (arith, h.0.2)))
    | inr other ↦ found_session k rows r h.1 (rw (other, find_session) at e)
  ]

  -- The outcome of loading a chain: no panic and no loop without an end; nothing only if the hash
  -- is that of no session and of no entry; and a chain from a root to a leaf of that hash.
  abbrev pub IsLoaded :
      SessionStore
      → TrustStore
      → SpkiHash
      → Option (Result LoadChainError (Option UnverifiedCertificateChain))
      → Type 0
  IsLoaded s store k none = ⊥
  IsLoaded s store k (some panicked) = ⊥
  IsLoaded s store k (some (err e)) = Unit
  IsLoaded s store k (some (ok none)) = (find_session k s.rows ≡ none) × (Store.get store k ≡ none)
  IsLoaded s store k (some (ok (some chain))) =
      (leaf : UnverifiedCertificate) × (leaf.spki_hash ≡ k)
      × ((b : CertificateChainBuilder) × (head? b.certificates ≡ some leaf) × IsFinished b chain)

  completed-IsLoaded :
      (s : SessionStore) (store : TrustStore) (k : SpkiHash) (c : UnverifiedCertificate)
      → IsProperState p store.chain.state
      → requested p s store k ≡ ok (some c)
      → c.spki_hash ≡ k
      → IsLoaded s store k (load_certificate_chain p s store k)
  unfolding load_certificate_chain Builder.new
  completed-IsLoaded s store k c proper e own =
      let done =
        complete_certificate_chain-IsCompleted p store (Builder.new c) proper
          (new-IsWellFormed c) in
      elim (Option-cases (complete_certificate_chain store (Builder.new c))) [
        | inl out ↦ absurd (rw out at done)
        | inr (r, out) ↦ elim (Result-cases r) [
          | inr (inr panic) ↦ absurd (rw (out, panic) at done)
          | inr (inl (x, failed)) ↦
              rw (e, load_certificate_chain) (rw (out ∙ ap some failed, load_certificate_chain) tt)
          | inl (chain, fine) ↦
              let ending : complete_certificate_chain store (Builder.new c) ≡ some (ok chain) =
                out ∙ ap some fine in
              rw (e, load_certificate_chain)
                (rw (ending, load_certificate_chain) (c, own, (rw ending at done)))
        ]
      ]

  -- Over sessions and a trust store whose entries are parsed and stand under their own hashes,
  -- loading the chain of a hash never panics and always ends. It gives nothing only if the hash is
  -- that of no session and of no entry, and otherwise, if it succeeds, a chain that begins with a
  -- root, ends with the certificate of that hash, and in which each certificate is the issuer that
  -- the next one names.
  pub load_certificate_chain-IsLoaded :
      (s : SessionStore) (store : TrustStore) (k : SpkiHash)
      → IsSessions s.rows
      → IsProperState p store.chain.state
      → IsLoaded s store k (load_certificate_chain p s store k)
  unfolding requested get_session parse_session Store.get load_certificate_chain
  load_certificate_chain-IsLoaded s store k h proper = elim (Bool-cases s.answers) [
    | inr down ↦
        let failed : requested p s store k ≡ err (LoadChainError.session_error SessionError.sqlx) =
          ground arith in
        rw (failed, load_certificate_chain) tt
    | inl up ↦ elim (Option-cases (find_session k s.rows)) [
      | inr (r, found) ↦
          let (c, parsed, own) = found_session k s.rows r h found in
          completed-IsLoaded s store k c proper (ground (arith, up, found, parsed)) own
      | inl missing ↦ elim (Option-cases (Store.get store k)) [
        | inr (cert, there) ↦
            completed-IsLoaded s store k cert.to_unverified proper
              (ground (arith, up, missing, there)) (proper.parsed k cert there).1
        | inl nowhere ↦
            let nothing : requested p s store k ≡ ok none = ground (arith, up, missing, nowhere) in
            rw (nothing, load_certificate_chain) (missing, nowhere)
      ]
    ]
  ]
