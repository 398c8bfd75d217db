-- ===== src/Retriever/Packages.antt =====
-- svalin/src/shared/commands/get_key_packages.rs: which packages the server's answer may hold.
use svalin.Prelude.{
  suc, ◌≡◌, ◌↔◌, ◌⊎◌, ◌≤◌, refl, sym, ap, ◌∙◌, subst, true, false, Option, none, some, List, [],
  ◌∷◌, arith, inl, inr,
}
use svalin.Prelude.Tests.{◌==◌, ==_iff, ==_self, ltb, Bool-cases}
use svalin.Prelude.Lists.{length, All, All-map}
use svalin.Prelude.Result.{ok, ◌>>=◌, fail_if, bind_iff, map_err_iff}
use svalin.HashMap.Defs.{contains}
use svalin.Platform.{SpkiHash}
use svalin.Mls.OpenMls.{OpenMls}
use svalin.Mls.KeyPackage.{unverified_spki_hash}
use svalin.Retriever.Remote.{
  too_many_key_packages, insert_once, collect_hashes, all_received, dispatch_packages,
}

module _ (M : OpenMls) where
  -- A package of the list names the hash.
  abbrev pub IsNamed : SpkiHash → List M.KeyPackageIn → Type 0
  IsNamed h [] = ⊥
  IsNamed h (first ∷ rest) = (unverified_spki_hash M first ≡ ok h) ⊎ IsNamed h rest

  abbrev pub HasName : M.KeyPackageIn → Type 0
  HasName package_ = (h : SpkiHash) × (unverified_spki_hash M package_ ≡ ok h)

  contains-insert_once :
      (k h : SpkiHash) (set : List SpkiHash) → contains k (insert_once h set) ≡ contains k (h ∷ set)
  contains-insert_once k h set = ground (arith, ==_iff h k)

  length-insert_once :
      (h : SpkiHash) (set : List SpkiHash) → length (insert_once h set) ≤ suc (length set)
  length-insert_once h set = ground arith

  -- The set has the names of the packages, and is not longer than the list.
  abbrev IsSetOf : List M.KeyPackageIn → List SpkiHash → Type 0
  IsSetOf packages set =
      (length set ≤ length packages)
      × ((k : SpkiHash) → (contains k set ≡ true) ↔ IsNamed k packages)

  collect_hashes-IsSetOf :
      (packages : List M.KeyPackageIn)
      → All HasName packages
      → (set : List SpkiHash) × (collect_hashes M packages ≡ ok set) × IsSetOf packages set
  unfolding collect_hashes
  collect_hashes-IsSetOf [] names =
      ([], refl, (omega arith, λ k. (λ h. absurd (cc), λ h. absurd h)))
  collect_hashes-IsSetOf (first ∷ rest) ((h, named), names) =
      let (set, e, (small, is)) = collect_hashes-IsSetOf rest names in
      (
        insert_once h set,
        rw (named, e) refl,
        (
          omega (arith, length-insert_once h set),
          λ k. rw (contains-insert_once k h set) (
            λ there. elim (Bool-cases (h == k)) [
              | inl same ↦ inl (named ∙ ap ok ((==_iff h k).0 same))
              | inr other ↦ inr ((is k).0 (ground (arith, other)))
            ],
            λ there. elim there [
              | inl here ↦ let same : h ≡ k = cc (named, here) in rw same (rw (==_self k) refl)
              | inr later ↦ rw ((is k).1 later) (ground arith)
            ],
          ),
        ),
      )

  collect_hashes-HasName :
      (packages : List M.KeyPackageIn) (set : List SpkiHash)
      → collect_hashes M packages ≡ ok set
      → All HasName packages
  unfolding collect_hashes
  collect_hashes-HasName [] set e = tt
  collect_hashes-HasName (first ∷ rest) set e =
      let (h, named, e1) = (bind_iff _ _ _).0 e in
      let (later, e2, e3) = (bind_iff _ _ _).0 e1 in
      ((h, named), collect_hashes-HasName rest later e2)

  all_received_iff :
      (requested set : List SpkiHash)
      → (all_received M requested set ≡ ok tt) ↔ All (λ h. contains h set ≡ true) requested
  all_received_iff [] set = (λ h. tt, λ h. refl)
  all_received_iff (h ∷ rest) set = elim (Bool-cases (contains h set)) [
    | inl there ↦
        rw there
          (λ e. (refl, (all_received_iff rest set).0 e), λ all. (all_received_iff rest set).1 all.1)
    | inr missing ↦ rw missing (λ e. absurd (cc), λ all. absurd (cc (all.0)))
  ]

  -- The answer of the server is taken exactly if each of its packages has a name, and each hash that
  -- was requested is among the names. So packages that were not requested are taken too.
  pub dispatch_packages_iff :
      (requested : List SpkiHash) (answer : Option (List M.KeyPackageIn))
      (packages : List M.KeyPackageIn)
      → (dispatch_packages M requested answer ≡ ok packages) ↔ (
          (answer ≡ some packages) × All HasName packages × All (λ h. IsNamed h packages) requested)
  unfolding dispatch_packages
  dispatch_packages_iff requested none packages = (λ e. absurd (cc), λ e. absurd (cc (e.0)))
  dispatch_packages_iff requested (some read) packages = (
    λ e.
        let (set, e1, e2) = (bind_iff _ _ _).0 e in
        let (_, e3, e4) =
          (bind_iff (fail_if (ltb (length read) (length set)) too_many_key_packages)
              (λ _. all_received M requested set >>= λ _. ok read) packages).0
            e2 in
        let (_, e5, e6) = (bind_iff (all_received M requested set) (λ _. ok read) packages).0 e4 in
        let collected : collect_hashes M read ≡ ok set = (map_err_iff _ _ _).0 e1 in
        let names : All HasName read = collect_hashes-HasName read set collected in
        let (same_set, e7, (small, is)) = collect_hashes-IsSetOf read names in
        let same : same_set ≡ set = cc (e7, collected) in
        let read_is : read ≡ packages = cc (e6) in
        (
          ap some read_is,
          subst (All HasName) read_is names,
          subst (λ l. All (λ h. IsNamed h l) requested) read_is
              (All-map (λ h there. (is h).0 (subst (λ l. contains h l ≡ true) (sym same) there))
                requested ((all_received_iff requested set).0 e5)),
        ),
    λ (e, names, named).
        let same : packages ≡ read = cc (e) in
        let (set, e1, (small, is)) = collect_hashes-IsSetOf read (subst (All HasName) same names) in
        let received : all_received M requested set ≡ ok tt =
          (all_received_iff requested set).1
            (All-map (λ h there. (is h).1 (subst (IsNamed h) same there)) requested named) in
        let few : ltb (length read) (length set) ≡ false = ground (arith, small) in
        rw (e1, few, received) (ap ok (sym same)),
  )
