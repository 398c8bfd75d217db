-- ===== src/HashMap/Defs.antt =====
-- The operations of a map, and what each does to `lookup`.
use svalin.Prelude.{ℕ, ◌≡◌, refl, Bool, true, false, ◌||◌, Option, none, some, List, [], ◌∷◌, arith}
use svalin.Prelude.Tests.{◌==◌, if◌then◌else◌}

abbrev pub HashMap {ℓ} : Type ℓ → Type ℓ
HashMap V = List (ℕ × V)

module _ {ℓ} {V : Type ℓ} where
  -- `get`
  abbrev pub lookup : ℕ → HashMap V → Option V
  lookup k [] = none
  lookup k ((j, v) ∷ m) = if j == k then some v else lookup k m

  abbrev pub contains_key : ℕ → HashMap V → Bool
  contains_key k m = elim (lookup k m) [ none ↦ false | some _ ↦ true ]

  -- `remove`
  abbrev pub erase : ℕ → HashMap V → HashMap V
  erase k [] = []
  erase k ((j, v) ∷ m) = let rest = erase k m in if j == k then rest else (j, v) ∷ rest

  -- An old value is replaced.
  abbrev pub insert : ℕ → V → HashMap V → HashMap V
  insert k v m = (k, v) ∷ erase k m

  abbrev pub keys : HashMap V → List ℕ
  keys [] = []
  keys ((j, v) ∷ m) = j ∷ keys m

  pub lookup-erase :
      (k j : ℕ) (m : HashMap V) → lookup j (erase k m) ≡ (if k == j then none else lookup j m)
  lookup-erase k j [] = ground arith
  lookup-erase k j ((i, v) ∷ m) = ground (arith, lookup-erase k j m)

  pub lookup-insert :
      (k j : ℕ) (v : V) (m : HashMap V)
      → lookup j (insert k v m) ≡ (if k == j then some v else lookup j m)
  lookup-insert k j v m = ground (arith, lookup-erase k j m)

-- `Vec::contains`
abbrev pub contains : ℕ → List ℕ → Bool
contains k [] = false
contains k (j ∷ l) = j == k || contains k l

pub contains-keys {ℓ} :
    {V : Type ℓ} (k : ℕ) (m : HashMap V) → contains k (keys m) ≡ contains_key k m
contains-keys k [] = refl
contains-keys k ((j, v) ∷ m) = ground (arith, contains-keys k m)

pub ruleset map_laws = (lookup-erase, lookup-insert)
