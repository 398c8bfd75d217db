-- ===== src/ServerStore/Sessions.antt =====
-- svalin_store/src/server_store/session_store.rs and svalin/src/server/chain_loader.rs.
pub mod Laws
use svalin.Prelude.{ℕ, not, Bool, true, false, Option, none, some, List, [], ◌∷◌}
use svalin.Prelude.Tests.{◌==◌, if◌then◌else◌}
use svalin.Prelude.Result.{Result, Done, ok, err, panicked, ◌>>=◌}
use svalin.Bytes.{Bytes}
use svalin.Platform.{SpkiHash, Platform}
use svalin.Certificate.Kind.{CertificateType, user_session, type_eq}
use svalin.Certificate.Defs.{UnverifiedCertificate, Certificate}
use svalin.Certificate.Parse.{CertificateParseError, from_der}
use svalin.CertificateChain.Builder
use svalin.CertificateChain.Builder.{UnverifiedCertificateChain}
use svalin.TrustStore.Store
use svalin.TrustStore.Store.{TrustStore, CompleteCertChainError, complete_certificate_chain}

-- A row of the table `sessions`, behind its primary key.
pub record SessionRow : Type 0 where
  pub spki_hash : SpkiHash
  pub issuer : SpkiHash
  pub certificate : Bytes

pub record SessionStore : Type 0 where
  pub answers : Bool
  pub rows : List SessionRow

pub data SessionError : Type 0 where
  sqlx : SessionError
  invalid_certificate_type : CertificateType → SessionError
  parse_failed : CertificateParseError → SessionError

unfoldable pub find_session : SpkiHash → List SessionRow → Option SessionRow
find_session k [] = none
find_session k (r ∷ rows) = if r.spki_hash == k then some r else find_session k rows

-- `add_session`; a second session under one hash is refused by the primary key.
unfoldable pub add_session : SessionStore → Certificate → Result SessionError Done × SessionStore
unfolding find_session
add_session s certificate =
    if not (type_eq certificate.certificate_type user_session)
    then (err (invalid_certificate_type certificate.certificate_type), s)
    else if not s.answers
    then (err sqlx, s)
    else elim (find_session certificate.spki_hash s.rows) [
      | some _ ↦ (err sqlx, s)
      | none ↦ (
        ok tt,
        record s {
          rows =
              record {
                spki_hash = certificate.spki_hash;
                issuer = certificate.issuer;
                certificate = certificate.der;
              }
              ∷ s.rows;
        },
      )
    ]

pub data LoadChainError : Type 0 where
  session_error : SessionError → LoadChainError
  complete_error : CompleteCertChainError → LoadChainError

module _ (p : Platform) where
  unfoldable pub parse_session : Bytes → Result SessionError UnverifiedCertificate
  parse_session der = elim (from_der p der) [
    | ok c ↦ ok c
    | err e ↦ err (parse_failed e)
    | panicked ↦ panicked
  ]

  -- `get_session`
  unfoldable pub get_session :
      SessionStore → SpkiHash → Result SessionError (Option UnverifiedCertificate)
  unfolding find_session parse_session
  get_session s k = if not s.answers then err sqlx else elim (find_session k s.rows) [
    | none ↦ ok none
    | some r ↦ do c ← parse_session r.certificate; ok (some c)
  ]

  unfoldable pub parse_issued_by :
      SpkiHash → List SessionRow → Result SessionError (List UnverifiedCertificate)
  unfolding parse_session
  parse_issued_by k [] = ok []
  parse_issued_by k (r ∷ rows) =
      let rest = parse_issued_by k rows in
      if r.issuer == k then (do c ← parse_session r.certificate; cs ← rest; ok (c ∷ cs)) else rest

  -- `list_user_sessions`
  unfoldable pub list_user_sessions :
      SessionStore → SpkiHash → Result SessionError (List UnverifiedCertificate)
  unfolding parse_issued_by
  list_user_sessions s user = if s.answers then parse_issued_by user s.rows else err sqlx

  -- The certificate that is asked for: a session, or one of the trust store.
  unfoldable pub requested :
      SessionStore → TrustStore → SpkiHash → Result LoadChainError (Option UnverifiedCertificate)
  unfolding get_session
  requested s store k = elim (get_session s k) [
    | err e ↦ err (session_error e)
    | panicked ↦ panicked
    | ok (some session) ↦ ok (some session)
    | ok none ↦ elim (Store.get store k) [
      | none ↦ ok none
      | some cert ↦ ok (some cert.to_unverified)
    ]
  ]

  -- `ChainLoader::load_certificate_chain`; the outer `none` is a loop that ran out of fuel.
  unfoldable pub load_certificate_chain :
      SessionStore
      → TrustStore
      → SpkiHash
      → Option (Result LoadChainError (Option UnverifiedCertificateChain))
  unfolding requested
  load_certificate_chain s store k = elim (requested s store k) [
    | err e ↦ some (err e)
    | panicked ↦ some panicked
    | ok none ↦ some (ok none)
    | ok (some certificate) ↦ elim (complete_certificate_chain store (Builder.new certificate)) [
      | none ↦ none
      | some panicked ↦ some panicked
      | some (err e) ↦ some (err (complete_error e))
      | some (ok chain) ↦ some (ok (some chain))
    ]
  ]
