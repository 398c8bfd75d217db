-- ===== src/ServerStore/KeyPackages/Laws.antt =====
-- svalin_store/src/server_store/key_package_store.rs: each request takes one package for each entity.
use svalin.Prelude.{
  ℕ, ◌+◌, ◌<◌, ◌≡◌, ◌⊎◌, inl, inr, refl, ap, sym, ◌∙◌, true, false, none, some, List, [], ◌∷◌, map,
  arith,
}
use svalin.Prelude.Tests.{ltb, ◌==◌, if◌then◌else◌, Bool-cases, Option-cases}
use svalin.Prelude.Lists.{All, All-map}
use svalin.Prelude.Result.{ok, err}
use svalin.Bytes.{Bytes}
use svalin.Platform.{SpkiHash}
use svalin.ServerStore.KeyPackages.{
  KeyPackageRow, KeyPackageStore, Packages, KeyPackageError, select_package, delete_package,
  count_rows, has_id, add_key_package, take_packages, get_key_packages,
}
use svalin.ServerStore.KeyPackages.Rows.{
  count, IsRow, without, IsRow-delete, select_package-IsRow, without-none, without-delete,
}

module _ {Package : Type 0} (P : Packages Package) where
  -- No id stands twice, and each row holds a package of the entity under whose hash it stands.
  abbrev pub IsStock : List KeyPackageRow → Type 0
  IsStock [] = Unit {0}
  IsStock (r ∷ rows) =
      (has_id r.id rows ≡ false)
      × ((member : Package) × (P.from_bytes r.content ≡ some member)
          × (P.owner member ≡ some r.spki_hash))
      × IsStock rows

  delete-absent :
      (id : ℕ) (rows : List KeyPackageRow) → has_id id rows ≡ false → delete_package id rows ≡ rows
  unfolding delete_package has_id
  delete-absent id [] h = refl
  delete-absent id (r ∷ rows) h = elim (Bool-cases (r.id == id)) [
    | inl e ↦ absurd (ground arith)
    | inr e ↦ rw e (ap (λ l. r ∷ l) (delete-absent id rows (rw (e, has_id) at h)))
  ]

  has_id-delete :
      (j id : ℕ) (rows : List KeyPackageRow)
      → has_id j rows ≡ false
      → has_id j (delete_package id rows) ≡ false
  unfolding delete_package has_id
  has_id-delete j id [] h = refl
  has_id-delete j id (r ∷ rows) h = ground (arith, has_id-delete j id rows)

  delete_package-IsStock :
      (id : ℕ) (rows : List KeyPackageRow) → IsStock rows → IsStock (delete_package id rows)
  unfolding delete_package
  delete_package-IsStock id [] h = tt
  delete_package-IsStock id (r ∷ rows) h = elim (Bool-cases (r.id == id)) [
    | inl e ↦ rw e (delete_package-IsStock id rows h.2)
    | inr e ↦ rw e (has_id-delete r.id id rows h.0, h.1, delete_package-IsStock id rows h.2)
  ]

  -- A row that is found is one of the rows, of the entity, and deleting it deletes nothing else.
  record Found (k : SpkiHash) (rows : List KeyPackageRow) (r : KeyPackageRow) : Type 0 where
    of_entity : r.spki_hash ≡ k
    present : has_id r.id rows ≡ true
    member : Package
    read : P.from_bytes r.content ≡ some member
    owned : P.owner member ≡ some r.spki_hash
    others :
        (j : SpkiHash)
        → count_rows j (delete_package r.id rows) + (if k == j then 1 else 0) ≡ count_rows j rows

  select_package-Found :
      (k : SpkiHash) (rows : List KeyPackageRow) (r : KeyPackageRow)
      → IsStock rows
      → select_package k rows ≡ some r
      → Found k rows r
  unfolding select_package delete_package count_rows has_id
  select_package-Found k [] r h e = absurd (cc e)
  select_package-Found k (q ∷ rows) r h e = elim (Bool-cases (q.spki_hash == k)) [
    | inl this ↦
        let same : q ≡ r = ground arith in
        let gone = delete-absent q.id rows h.0 in
        rw (← same) (record {
          of_entity = ground arith;
          present = ground arith;
          member = h.1.0;
          read = h.1.1;
          owned = h.1.2;
          others = λ j. ground (arith, gone);
        })
    | inr other ↦
        let f = select_package-Found k rows r h.2 (rw (other, select_package) at e) in
        let apart : (q.id == r.id) ≡ false = ground (arith, h.0, f.present) in
        record {
          of_entity = f.of_entity;
          present = ground (arith, f.present);
          member = f.member;
          read = f.read;
          owned = f.owned;
          others = λ j. ground (arith, f.others j, apart);
        }
  ]

  select_package_found :
      (k : SpkiHash) (rows : List KeyPackageRow)
      → 0 < count_rows k rows
      → (r : KeyPackageRow) × (select_package k rows ≡ some r)
  unfolding select_package count_rows
  select_package_found k [] h = absurd (omega arith)
  select_package_found k (q ∷ rows) h = elim (Bool-cases (q.spki_hash == k)) [
    | inl this ↦ (q, rw this refl)
    | inr other ↦ rw other (select_package_found k rows (rw (other, count_rows) at h))
  ]

  -- One package of each entity, in the order of the request, is read from a row that was there, and
  -- what is left are the rows without those that were read. By the counts, no row was read twice.
  pub record Taken (rows : List KeyPackageRow) (entities : List SpkiHash) (members : List Package)
      (left : List KeyPackageRow) : Type 0 where
    pub took : List KeyPackageRow
    pub there : All (λ r. IsRow r rows) took
    pub read : map (λ r. P.from_bytes r.content) took ≡ map some members
    pub others : left ≡ without took rows
    pub owners : map P.owner members ≡ map some entities
    pub stock : IsStock left
    pub counts : (j : SpkiHash) → count_rows j left + count j entities ≡ count_rows j rows

  abbrev pub Lacks : List KeyPackageRow → List SpkiHash → Type 0
  Lacks rows entities = (k : SpkiHash) × (count_rows k rows < count k entities)

  lacks_one :
      (k : SpkiHash) (rows : List KeyPackageRow) (entities : List SpkiHash)
      → select_package k rows ≡ none
      → count_rows k rows < count k (k ∷ entities)
  lacks_one k rows entities e = elim (Bool-cases (ltb 0 (count_rows k rows))) [
    | inl some_left ↦
        let (r, found) = select_package_found k rows (ground arith) in absurd (cc (e, found))
    | inr empty ↦ ground arith
  ]

  take_packages-Taken :
      (rows : List KeyPackageRow) (entities : List SpkiHash)
      → IsStock rows
      → ((members : List Package) × (left : List KeyPackageRow) × (take_packages P rows entities
            ≡ ok (members, left))
          × Taken rows entities members left)
        ⊎ ((e : KeyPackageError) × (take_packages P rows entities ≡ err e) × Lacks rows entities)
  unfolding take_packages
  take_packages-Taken rows [] h = inl (
    [],
    rows,
    refl,
    record {
      took = [];
      there = tt;
      read = refl;
      others = sym (without-none rows);
      owners = refl;
      stock = h;
      counts = λ j. omega arith;
    },
  )
  take_packages-Taken rows (k ∷ entities) h = elim (Option-cases (select_package k rows)) [
    | inl e ↦
        inr (KeyPackageError.sqlx, (rw (e, take_packages) refl), (k, lacks_one k rows entities e))
    | inr (r, e) ↦
        let f = select_package-Found k rows r h e in
        let owned : P.owner f.member ≡ some k = f.owned ∙ ap some f.of_entity in
        let same : (k == k) ≡ true = ground arith in
        elim (take_packages-Taken (delete_package r.id rows) entities
          (delete_package-IsStock r.id rows h)) [
            | inl (members, left, taken, t) ↦ inl (
              f.member ∷ members,
              left,
              (rw (e, take_packages)
                  (rw (f.read, take_packages)
                    (rw (owned, take_packages) (rw same (rw (taken, take_packages) refl))))),
              record {
                took = r ∷ t.took;
                there = (
                  select_package-IsRow k rows r e,
                  All-map (λ q. IsRow-delete r.id q rows) t.took t.there,
                );
                read = cc (f.read, t.read);
                others = t.others ∙ without-delete r t.took rows;
                owners = cc (owned, t.owners);
                stock = t.stock;
                counts = λ j. ground (arith, t.counts j, f.others j);
              },
            )
            | inr (x, failed, (j, less)) ↦ inr (
              x,
              (rw (e, take_packages)
                  (rw (f.read, take_packages)
                    (rw (owned, take_packages) (rw same (rw (failed, take_packages) refl))))),
              (j, ground (arith, f.others j)),
            )
          ]
  ]

  get_down :
      (s : KeyPackageStore) (entities : List SpkiHash)
      → s.answers ≡ false
      → get_key_packages P s entities ≡ (err KeyPackageError.sqlx, s)
  unfolding get_key_packages
  get_down s entities down = ground arith

  get_taken :
      (s : KeyPackageStore) (entities : List SpkiHash) (members : List Package)
      (left : List KeyPackageRow)
      → s.answers ≡ true
      → take_packages P s.rows entities ≡ ok (members, left)
      → get_key_packages P s entities ≡ (ok members, record s { rows = left })
  unfolding get_key_packages
  get_taken s entities members left up taken = ground arith

  get_failed :
      (s : KeyPackageStore) (entities : List SpkiHash) (e : KeyPackageError)
      → s.answers ≡ true
      → take_packages P s.rows entities ≡ err e
      → get_key_packages P s entities ≡ (err e, s)
  unfolding get_key_packages
  get_failed s entities e up failed = ground arith

  -- From a stock of packages, each entity of a request gets one package of its own, in the order of
  -- the request, each read from a row of the stock, and what is left is the stock without these rows,
  -- of each entity as many fewer as were handed out; or, if the database does not answer or
  -- holds fewer packages of an entity than are asked for, the request is an error and the stock is
  -- as before.
  pub get_key_packages-Taken :
      (s : KeyPackageStore) (entities : List SpkiHash)
      → IsStock s.rows
      → ((members : List Package) × ((get_key_packages P s entities).0 ≡ ok members)
          × Taken s.rows entities members (get_key_packages P s entities).1.rows)
        ⊎ ((e : KeyPackageError) × ((get_key_packages P s entities).0 ≡ err e)
            × ((get_key_packages P s entities).1 ≡ s)
            × ((s.answers ≡ false) ⊎ Lacks s.rows entities))
  unfolding get_key_packages
  get_key_packages-Taken s entities h = elim (Bool-cases s.answers) [
    | inr down ↦ rw (get_down s entities down) (inr (KeyPackageError.sqlx, refl, refl, inl down))
    | inl up ↦ elim (take_packages-Taken s.rows entities h) [
      | inl (members, left, taken, t) ↦
          rw (get_taken s entities members left up taken) (inl (members, refl, t))
      | inr (e, failed, lacks) ↦
          rw (get_failed s entities e up failed) (inr (e, refl, refl, inr lacks))
    ]
  ]

  -- Adding stores the package under its owner and a new id, or changes nothing.
  add_cases :
      (s : KeyPackageStore) (k : SpkiHash) (member : Package) (id : ℕ)
      → ((add_key_package P s k member id).1 ≡ s)
        ⊎ ((d : Bytes) × (P.to_stdvec member ≡ some d)
            × (P.owner member ≡ some k)
            × (has_id id s.rows ≡ false)
            × ((add_key_package P s k member id).1.rows
                ≡ record { id = id; spki_hash = k; content = d } ∷ s.rows))
  unfolding add_key_package
  add_cases s k member id = elim (Option-cases (P.owner member)) [
    | inl e ↦ inl (ground arith)
    | inr (owner, e) ↦ elim (Bool-cases (owner == k)) [
      | inr other ↦ inl (ground arith)
      | inl same ↦ elim (Option-cases (P.to_stdvec member)) [
        | inl w ↦ inl (ground arith)
        | inr (d, w) ↦ elim (Bool-cases s.answers) [
          | inr down ↦ inl (ground arith)
          | inl up ↦ elim (Bool-cases (has_id id s.rows)) [
            | inl taken ↦ inl (ground arith)
            | inr new ↦ inr (d, w, ground arith, new, ground arith)
          ]
        ]
      ]
    ]
  ]

  -- Adding keeps a stock, if what postcard writes is read back.
  pub add_key_package-IsStock :
      (s : KeyPackageStore) (k : SpkiHash) (member : Package) (id : ℕ)
      → ((d : Bytes) → P.to_stdvec member ≡ some d → P.from_bytes d ≡ some member)
      → IsStock s.rows
      → IsStock (add_key_package P s k member id).1.rows
  add_key_package-IsStock s k member id back h = elim (add_cases s k member id) [
    | inl same ↦ rw same h
    | inr (d, written, owned, new, rows) ↦ rw rows (new, (member, back d written, owned), h)
  ]
