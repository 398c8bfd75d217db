-- ===== src/ServerStore/Users.antt =====
-- svalin_store/src/server_store/user_store.rs: the root user and the data that it keeps on the server.
pub mod Laws
use svalin.Prelude.{ℕ, not, Bool, true, false, Option, none, some, List, [], ◌∷◌}
use svalin.Prelude.Tests.{◌==◌, if◌then◌else◌}
use svalin.Prelude.Lists.{bytes_eq}
use svalin.Prelude.Result.{Result, Done, ok, err, panicked}
use svalin.Bytes.{Bytes}
use svalin.Platform.{SpkiHash}
use svalin.Certificate.Kind.{root, type_eq}
use svalin.Certificate.Defs.{UnverifiedCertificate}

-- `Groups` is the exported store of message groups and `State` the encrypted state of the client;
-- `Login` is what the fields for logging in and those of the trust store hold, which stay together.
pub record StoredUser (Groups State Login : Type 0) : Type 0 where
  pub certificate : UnverifiedCertificate
  pub username : Bytes
  pub mls_store : Groups
  pub persistent_data : State
  pub login : Login

-- A row of the table `users`; the hash is its primary key.
pub record UserRow : Type 0 where
  pub spki_hash : SpkiHash
  pub username : Bytes
  pub content : Bytes

pub record UserStore : Type 0 where
  pub answers : Bool
  pub rows : List UserRow

-- postcard, on a user
pub record UserCodec (Groups State Login : Type 0) : Type 0 where
  pub to_stdvec : StoredUser Groups State Login → Option Bytes
  pub from_bytes : Bytes → Option (StoredUser Groups State Login)

pub data UserStoreError : Type 0 where
  sqlx postcard root_user_exists wrong_certificate_type : UserStoreError
  unknown_user : SpkiHash → UserStoreError

-- `SELECT data FROM users WHERE spki_hash = ?`
unfoldable pub select_user : SpkiHash → List UserRow → Option Bytes
select_user k [] = none
select_user k (r ∷ rows) = if r.spki_hash == k then some r.content else select_user k rows

-- `SELECT data FROM users WHERE username = ?`
unfoldable pub select_username : Bytes → List UserRow → Option Bytes
select_username name [] = none
select_username name (r ∷ rows) =
    if bytes_eq r.username name then some r.content else select_username name rows

-- `UPDATE users SET data = ? WHERE spki_hash = ?`
unfoldable pub update_user : Bytes → SpkiHash → List UserRow → List UserRow
update_user content k [] = []
update_user content k (r ∷ rows) =
    let rest = update_user content k rows in
    if r.spki_hash == k then record r { content = content } ∷ rest else r ∷ rest

module _ {Groups State Login : Type 0} (codec : UserCodec Groups State Login) where
  -- `add_root_user`. The insertion finds an empty table, so that it meets no other key.
  unfoldable pub add_root_user :
      UserStore → StoredUser Groups State Login → Result UserStoreError Done × UserStore
  add_root_user s user = if not s.answers then (err sqlx, s) else elim s.rows [
    | _ ∷ _ ↦ (err root_user_exists, s)
    | [] ↦
        if not (type_eq user.certificate.certificate_type root)
        then (err wrong_certificate_type, s)
        else elim (codec.to_stdvec user) [
          | none ↦ (err postcard, s)
          | some content ↦ (
            ok tt,
            record s {
              rows =
                  record {
                    spki_hash = user.certificate.spki_hash;
                    username = user.username;
                    content = content;
                  }
                  ∷ [];
            },
          )
        ]
  ]

  -- The end of a query that found a row or none
  unfoldable pub read_user :
      Option Bytes → Result UserStoreError (Option (StoredUser Groups State Login))
  read_user none = ok none
  read_user (some content) = elim (codec.from_bytes content) [
    | none ↦ err postcard
    | some user ↦ ok (some user)
  ]

  unfoldable pub get_user :
      UserStore → SpkiHash → Result UserStoreError (Option (StoredUser Groups State Login))
  unfolding read_user select_user
  get_user s k = if s.answers then read_user (select_user k s.rows) else err sqlx

  unfoldable pub get_user_by_username :
      UserStore → Bytes → Result UserStoreError (Option (StoredUser Groups State Login))
  unfolding read_user select_username
  get_user_by_username s name =
      if s.answers then read_user (select_username name s.rows) else err sqlx

  unfoldable pub get_cert_by_spki_hash :
      UserStore → SpkiHash → Result UserStoreError (Option UnverifiedCertificate)
  unfolding select_user
  get_cert_by_spki_hash s k = if not s.answers then err sqlx else elim (select_user k s.rows) [
    | none ↦ ok none
    | some content ↦ elim (codec.from_bytes content) [
      | none ↦ err postcard
      | some user ↦ ok (some user.certificate)
    ]
  ]

  unfoldable pub update_mls_data :
      UserStore → SpkiHash → Groups → State → Result UserStoreError Done × UserStore
  unfolding select_user update_user
  update_mls_data s k mls_store persistent_data =
      if not s.answers then (err sqlx, s) else elim (select_user k s.rows) [
        | none ↦ (err (unknown_user k), s)
        | some old ↦ elim (codec.from_bytes old) [
          | none ↦ (err postcard, s)
          | some user ↦
              elim (codec.to_stdvec
                (record user { mls_store = mls_store; persistent_data = persistent_data })) [
                  | none ↦ (err postcard, s)
                  | some content ↦ (ok tt, record s { rows = update_user content k s.rows })
                ]
        ]
      ]
