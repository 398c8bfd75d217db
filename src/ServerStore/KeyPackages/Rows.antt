-- ===== src/ServerStore/KeyPackages/Rows.antt =====
-- svalin_store/src/server_store/key_package_store.rs: the rows that are taken out of the stock.
use svalin.Prelude.{ℕ, suc, ◌≡◌, ◌⊎◌, inl, inr, refl, ap, some, List, [], ◌∷◌, arith}
use svalin.Prelude.Tests.{◌==◌, if◌then◌else◌, Bool-cases}
use svalin.Platform.{SpkiHash}
use svalin.ServerStore.KeyPackages.{KeyPackageRow, select_package, delete_package, has_id}

-- How often an entity is asked for.
abbrev pub count : SpkiHash → List SpkiHash → ℕ
count k [] = 0
count k (j ∷ ks) = let rest = count k ks in if j == k then suc rest else rest

abbrev pub IsRow : KeyPackageRow → List KeyPackageRow → Type 0
IsRow r [] = ⊥
IsRow r (q ∷ rows) = (q ≡ r) ⊎ IsRow r rows

-- The rows whose ids do not stand in the list of rows
abbrev pub without : List KeyPackageRow → List KeyPackageRow → List KeyPackageRow
without took [] = []
without took (r ∷ rows) =
    let rest = without took rows in if has_id r.id took then rest else r ∷ rest

pub IsRow-delete :
    (id : ℕ) (r : KeyPackageRow) (rows : List KeyPackageRow)
    → IsRow r (delete_package id rows)
    → IsRow r rows
unfolding delete_package
IsRow-delete id r [] h = h
IsRow-delete id r (q ∷ rows) h = elim (Bool-cases (q.id == id)) [
  | inl e ↦ inr (IsRow-delete id r rows (rw e at h))
  | inr e ↦
      let h' : (q ≡ r) ⊎ IsRow r (delete_package id rows) = rw e at h in
      elim h' [ inl same ↦ inl same | inr later ↦ inr (IsRow-delete id r rows later) ]
]

pub select_package-IsRow :
    (k : SpkiHash) (rows : List KeyPackageRow) (r : KeyPackageRow)
    → select_package k rows ≡ some r
    → IsRow r rows
unfolding select_package
select_package-IsRow k [] r e = absurd (cc e)
select_package-IsRow k (q ∷ rows) r e = elim (Bool-cases (q.spki_hash == k)) [
  | inl this ↦ inl (ground (arith, this, e))
  | inr other ↦ inr (select_package-IsRow k rows r (rw (other, select_package) at e))
]

pub without-none : (rows : List KeyPackageRow) → without [] rows ≡ rows
unfolding has_id
without-none [] = refl
without-none (r ∷ rows) = ap (λ l. r ∷ l) (without-none rows)

pub without-delete :
    (r : KeyPackageRow) (took rows : List KeyPackageRow)
    → without took (delete_package r.id rows) ≡ without (r ∷ took) rows
unfolding delete_package has_id
without-delete r took [] = refl
without-delete r took (q ∷ rows) = ground (arith, without-delete r took rows)
