-- ===== src/ServerStore/Users/Laws.antt =====
-- svalin_store/src/server_store/user_store.rs: what is read after a change.
use svalin.Prelude.{◌≡◌, ◌⊎◌, refl, ap, inl, inr, true, none, some, List, [], ◌∷◌, arith}
use svalin.Prelude.Tests.{◌==◌, if◌then◌else◌, Bool-cases, Option-cases}
use svalin.Prelude.Lists.{bytes_eq_self}
use svalin.Prelude.Result.{ok, err}
use svalin.Bytes.{Bytes}
use svalin.Platform.{SpkiHash}
use svalin.Certificate.Kind.{root, type_eq}
use svalin.ServerStore.Users.{
  root_user_exists, wrong_certificate_type, select_username, StoredUser, UserRow, UserStore,
  UserCodec, UserStoreError, select_user, update_user, read_user, get_user, add_root_user,
  get_user_by_username, update_mls_data, sqlx, postcard, unknown_user,
}

rows-cases :
    (rows : List UserRow)
    → (rows ≡ []) ⊎ ((r : UserRow) × (rest : List UserRow) × (rows ≡ r ∷ rest))
rows-cases [] = inl refl
rows-cases (r ∷ rest) = inr (r, rest, refl)

-- The store with the row of one user
abbrev rooted :
    {Groups State Login : Type 0} → UserStore → StoredUser Groups State Login → Bytes → UserStore
rooted s user content = record s {
  rows =
      record { spki_hash = user.certificate.spki_hash; username = user.username; content = content }
      ∷ [];
}

-- An update reaches the user that is there, and no other.
select_user-update :
    (content : Bytes) (k j : SpkiHash) (rows : List UserRow)
    → select_user j (update_user content k rows) ≡ (
        if k == j
        then elim (select_user k rows) [ none ↦ none | some _ ↦ some content ]
        else select_user j rows)
unfolding select_user update_user
select_user-update content k j [] = ground arith
select_user-update content k j (r ∷ rows) = ground (arith, select_user-update content k j rows)

module _ {Groups State Login : Type 0} (codec : UserCodec Groups State Login)
    (round_trip : (user : StoredUser Groups State Login) (content : Bytes)
      → codec.to_stdvec user ≡ some content
      → codec.from_bytes content ≡ some user) where
  updated :
      (s : UserStore) (k j : SpkiHash) (content : Bytes) (user : StoredUser Groups State Login)
      (old : Bytes)
      → s.answers ≡ true
      → select_user k s.rows ≡ some old
      → codec.from_bytes content ≡ some user
      → get_user codec (record s { rows = update_user content k s.rows }) j
        ≡ (if k == j then ok (some user) else get_user codec s j)
  unfolding get_user read_user
  updated s k j content user old e there read =
      ground (arith, e, there, read, select_user-update content k j s.rows)

  -- If postcard reads back what it writes, an update of a user's data either fails and changes
  -- nothing, or the user under the hash was there and has the new data and otherwise what it had, and
  -- every other hash gives what it gave.
  pub update_mls_data-Updated :
      (s : UserStore) (k j : SpkiHash) (groups : Groups) (state : State)
      → ((e : UserStoreError) × (update_mls_data codec s k groups state ≡ (err e, s)))
        ⊎ ((user : StoredUser Groups State Login) × (get_user codec s k ≡ ok (some user))
            × ((update_mls_data codec s k groups state).0 ≡ ok tt)
            × (get_user codec (update_mls_data codec s k groups state).1 j ≡ (
                if k == j
                then ok (some (record user { mls_store = groups; persistent_data = state }))
                else get_user codec s j)))
  unfolding update_mls_data get_user read_user
  update_mls_data-Updated s k j groups state = elim (Bool-cases s.answers) [
    | inr e ↦ inl (sqlx, ground (arith, e))
    | inl e ↦ elim (Option-cases (select_user k s.rows)) [
      | inl there ↦ inl (unknown_user k, ground (arith, e, there))
      | inr (old, there) ↦ elim (Option-cases (codec.from_bytes old)) [
        | inl bad ↦ inl (postcard, ground (arith, e, there, bad))
        | inr (user, good) ↦
            elim (Option-cases
              (codec.to_stdvec (record user { mls_store = groups; persistent_data = state }))) [
                | inl bad ↦ inl (postcard, ground (arith, e, there, good, bad))
                | inr (content, written) ↦
                    let call : update_mls_data codec s k groups state
                        ≡ (ok tt, record s { rows = update_user content k s.rows }) =
                      ground (arith, e, there, good, written) in
                    inr (
                      user,
                      ground (arith, e, there, good),
                      ap (λ o. o.0) call,
                      rw call (
                          updated s k j content
                            (record user { mls_store = groups; persistent_data = state }) old e
                            there (round_trip _ content written)),
                    )
              ]
      ]
    ]
  ]

  -- If postcard reads back what it writes, adding a root user either fails and changes nothing, or the table was empty and the certificate is
  -- of the root; then the user is found by its hash and by its name, and no other can be added.
  pub add_root_user-Rooted :
      (s : UserStore) (user other : StoredUser Groups State Login)
      → ((e : UserStoreError) × (add_root_user codec s user ≡ (err e, s)))
        ⊎ ((s.rows ≡ [])
            × (type_eq user.certificate.certificate_type root ≡ true)
            × ((add_root_user codec s user).0 ≡ ok tt)
            × (get_user codec (add_root_user codec s user).1 user.certificate.spki_hash
                ≡ ok (some user))
            × (get_user_by_username codec (add_root_user codec s user).1 user.username
                ≡ ok (some user))
            × (add_root_user codec (add_root_user codec s user).1 other
                ≡ (err root_user_exists, (add_root_user codec s user).1)))
  unfolding add_root_user get_user get_user_by_username read_user select_user select_username
  add_root_user-Rooted s user other = elim (Bool-cases s.answers) [
    | inr e ↦ inl (sqlx, ground (arith, e))
    | inl e ↦ elim (rows-cases s.rows) [
      | inr (r, rest, e1) ↦ inl (root_user_exists, ground (arith, e, e1))
      | inl e1 ↦ elim (Bool-cases (type_eq user.certificate.certificate_type root)) [
        | inr e2 ↦ inl (wrong_certificate_type, ground (arith, e, e1, e2))
        | inl e2 ↦ elim (Option-cases (codec.to_stdvec user)) [
          | inl e3 ↦ inl (postcard, ground (arith, e, e1, e2, e3))
          | inr (content, e3) ↦
              let call : add_root_user codec s user ≡ (ok tt, rooted s user content) =
                ground (arith, e, e1, e2, e3) in
              inr (
                e1,
                e2,
                ap (λ o. o.0) call,
                rw call (ground (arith, e, round_trip _ content e3)),
                rw call (ground (arith, e, round_trip _ content e3, bytes_eq_self user.username)),
                rw call (ground (arith, e)),
              )
        ]
      ]
    ]
  ]
