-- ===== src/ServerStore/KeyPackages.antt =====
-- svalin_store/src/server_store/key_package_store.rs: packages that are handed out once.
pub mod Rows
pub mod Laws
use svalin.Prelude.{ℕ, suc, ◌+◌, not, Bool, true, false, Option, none, some, List, [], ◌∷◌}
use svalin.Prelude.Tests.{◌==◌, if◌then◌else◌}
use svalin.Prelude.Result.{Result, Done, ok, err, panicked}
use svalin.Bytes.{Bytes}
use svalin.Platform.{SpkiHash}

-- A row of the table `key_packages`; the id is a new UUID, as a number.
pub record KeyPackageRow : Type 0 where
  pub id : ℕ
  pub spki_hash : SpkiHash
  pub content : Bytes

pub record KeyPackageStore : Type 0 where
  pub answers : Bool
  pub rows : List KeyPackageRow

-- A package of OpenMLS: how postcard writes and reads it, and the hash in its credential, which
-- need not be there.
pub record Packages (Package : Type 0) : Type 0 where
  pub to_stdvec : Package → Option Bytes
  pub from_bytes : Bytes → Option Package
  pub owner : Package → Option SpkiHash

pub data KeyPackageError : Type 0 where
  no_owner hash_mismatch postcard sqlx wrong_owner : KeyPackageError

-- `SELECT id, data FROM key_packages WHERE spki_hash == ? LIMIT 1`
unfoldable pub select_package : SpkiHash → List KeyPackageRow → Option KeyPackageRow
select_package k [] = none
select_package k (r ∷ rows) = if r.spki_hash == k then some r else select_package k rows

-- `DELETE FROM key_packages WHERE id = ?`
unfoldable pub delete_package : ℕ → List KeyPackageRow → List KeyPackageRow
delete_package id [] = []
delete_package id (r ∷ rows) =
    let rest = delete_package id rows in if r.id == id then rest else r ∷ rest

-- `SELECT COUNT(*) FROM key_packages WHERE spki_hash = ?`
unfoldable pub count_rows : SpkiHash → List KeyPackageRow → ℕ
count_rows k [] = 0
count_rows k (r ∷ rows) =
    let rest = count_rows k rows in if r.spki_hash == k then suc rest else rest

unfoldable pub has_id : ℕ → List KeyPackageRow → Bool
has_id id [] = false
has_id id (r ∷ rows) = if r.id == id then true else has_id id rows

-- `count_key_packages`; `none` is an error of the database.
unfoldable pub count_key_packages : KeyPackageStore → SpkiHash → Option ℕ
unfolding count_rows
count_key_packages s owner = if s.answers then some (count_rows owner s.rows) else none

module _ {Package : Type 0} (P : Packages Package) where
  -- `add_key_package`, of a verified package with its hash, under a new id.
  unfoldable pub add_key_package :
      KeyPackageStore → SpkiHash → Package → ℕ → Result KeyPackageError Done × KeyPackageStore
  unfolding has_id
  add_key_package s spki_hash member id = elim (P.owner member) [
    | none ↦ (err no_owner, s)
    | some owner ↦
        if not (owner == spki_hash) then (err hash_mismatch, s) else elim (P.to_stdvec member) [
          | none ↦ (err postcard, s)
          | some d ↦
              if s.answers
              then (if has_id id s.rows then (err sqlx, s) else (
                ok tt,
                record s { rows = record { id = id; spki_hash = spki_hash; content = d } ∷ s.rows },
              ))
              else (err sqlx, s)
        ]
  ]

  -- The loop over the entities, inside a transaction: the packages, and the rows that are left.
  unfoldable pub take_packages :
      List KeyPackageRow
      → List SpkiHash
      → Result KeyPackageError (List Package × List KeyPackageRow)
  unfolding select_package delete_package
  take_packages rows [] = ok ([], rows)
  take_packages rows (k ∷ entities) = elim (select_package k rows) [
    | none ↦ err sqlx
    | some r ↦ elim (P.from_bytes r.content) [
      | none ↦ err postcard
      | some member ↦ elim (P.owner member) [
        | none ↦ err no_owner
        | some owner ↦
            if not (owner == k)
            then err wrong_owner
            else elim (take_packages (delete_package r.id rows) entities) [
              | ok (packages, left) ↦ ok (member ∷ packages, left)
              | err e ↦ err e
              | panicked ↦ panicked
            ]
      ]
    ]
  ]

  -- `get_key_packages`: the transaction is committed at the end, and rolled back on an error.
  unfoldable pub get_key_packages :
      KeyPackageStore → List SpkiHash → Result KeyPackageError (List Package) × KeyPackageStore
  unfolding take_packages
  get_key_packages s entities =
      if s.answers
      then elim (take_packages s.rows entities) [
        | ok (packages, left) ↦ (ok packages, record s { rows = left })
        | err e ↦ (err e, s)
        | panicked ↦ (panicked, s)
      ]
      else (err sqlx, s)
