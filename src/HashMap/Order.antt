-- ===== src/HashMap/Order.antt =====
-- Sorting the keys of a map, as `keys.sort()` does.
use svalin.Prelude.{ℕ, ◌≡◌, refl, ◌<◌, false, ◌||◌, List, [], ◌∷◌, sym, ◌∙◌, arith}
use svalin.Prelude.Tests.{◌==◌, ltb, if◌then◌else◌}
use svalin.HashMap.Defs.{contains}

-- A key that is there already is not met: the keys of a map are distinct.
insert_sorted : ℕ → List ℕ → List ℕ
insert_sorted k [] = k ∷ []
insert_sorted k (j ∷ l) =
    if ltb k j then k ∷ j ∷ l else if k == j then j ∷ l else j ∷ insert_sorted k l

-- `keys.sort()`
unfoldable pub sort_keys : List ℕ → List ℕ
unfolding insert_sorted
sort_keys [] = []
sort_keys (k ∷ l) = insert_sorted k (sort_keys l)

-- Every element is above `b`, and the list ascends strictly.
abbrev IsAbove : ℕ → List ℕ → Type 0
IsAbove b [] = Unit
IsAbove b (j ∷ l) = (b < j) × IsAbove j l

abbrev pub IsAscending : List ℕ → Type 0
IsAscending [] = Unit
IsAscending (j ∷ l) = IsAbove j l

insert_sorted-IsAbove : (b k : ℕ) (l : List ℕ) → b < k → IsAbove b l → IsAbove b (insert_sorted k l)
unfolding insert_sorted
insert_sorted-IsAbove b k [] h a = (h, tt)
insert_sorted-IsAbove b k (j ∷ l) h a = ground (arith, insert_sorted-IsAbove j k l)

insert_sorted-IsAscending : (k : ℕ) (l : List ℕ) → IsAscending l → IsAscending (insert_sorted k l)
unfolding insert_sorted
insert_sorted-IsAscending k [] a = tt
insert_sorted-IsAscending k (j ∷ l) a = ground (arith, insert_sorted-IsAbove j k l)

pub sort_keys-IsAscending : (l : List ℕ) → IsAscending (sort_keys l)
unfolding sort_keys
sort_keys-IsAscending [] = tt
sort_keys-IsAscending (k ∷ l) = insert_sorted-IsAscending k (sort_keys l) (sort_keys-IsAscending l)

contains-insert_sorted :
    (i k : ℕ) (l : List ℕ) → contains i (insert_sorted k l) ≡ (k == i || contains i l)
unfolding insert_sorted
contains-insert_sorted i k [] = ground arith
contains-insert_sorted i k (j ∷ l) = ground (arith, contains-insert_sorted i k l)

pub contains-sort_keys : (i : ℕ) (l : List ℕ) → contains i (sort_keys l) ≡ contains i l
unfolding sort_keys
contains-sort_keys i [] = refl
contains-sort_keys i (k ∷ l) =
    ground (arith, contains-insert_sorted i k (sort_keys l), contains-sort_keys i l)

-- Nothing at or below the bound is in the list.
not-contains-below : (b i : ℕ) (l : List ℕ) → IsAbove b l → i < b → contains i l ≡ false
not-contains-below b i [] a h = refl
not-contains-below b i (j ∷ l) a h = ground (arith, not-contains-below j i l)

not-contains-bound : (b : ℕ) (l : List ℕ) → IsAbove b l → contains b l ≡ false
not-contains-bound b [] a = refl
not-contains-bound b (j ∷ l) a = ground (arith, not-contains-below j b l)

IsAbove-IsAscending : (b : ℕ) (l : List ℕ) → IsAbove b l → IsAscending l
IsAbove-IsAscending b [] a = tt
IsAbove-IsAscending b (j ∷ l) a = a.1

heads_eq :
    (x y : ℕ) (xs ys : List ℕ)
    → IsAbove x xs
    → IsAbove y ys
    → contains x (x ∷ xs) ≡ contains x (y ∷ ys)
    → contains y (x ∷ xs) ≡ contains y (y ∷ ys)
    → x ≡ y
heads_eq x y xs ys ax ay hx hy =
    ground (arith, not-contains-below x y xs ax, not-contains-below y x ys ay)

tails_eq :
    (x y i : ℕ) (xs ys : List ℕ)
    → x ≡ y
    → IsAbove x xs
    → IsAbove y ys
    → contains i (x ∷ xs) ≡ contains i (y ∷ ys)
    → contains i xs ≡ contains i ys
tails_eq x y i xs ys e ax ay h =
    ground (arith, not-contains-bound x xs ax, not-contains-bound y ys ay)

-- Ascending lists with the same elements are equal.
ascending_ext :
    (xs ys : List ℕ)
    → IsAscending xs
    → IsAscending ys
    → ((i : ℕ) → contains i xs ≡ contains i ys)
    → xs ≡ ys
ascending_ext [] [] ax ay h = refl
ascending_ext [] (y ∷ ys) ax ay h = absurd (ground (arith, h y))
ascending_ext (x ∷ xs) [] ax ay h = absurd (ground (arith, h x))
ascending_ext (x ∷ xs) (y ∷ ys) ax ay h =
    let same : x ≡ y = heads_eq x y xs ys ax ay (h x) (h y) in
    let rest : xs ≡ ys =
      ascending_ext xs ys (IsAbove-IsAscending x xs ax) (IsAbove-IsAscending y ys ay)
        (λ i. tails_eq x y i xs ys same ax ay (h i)) in
    cc

pub sort_keys-ext :
    (xs ys : List ℕ) → ((i : ℕ) → contains i xs ≡ contains i ys) → sort_keys xs ≡ sort_keys ys
sort_keys-ext xs ys h =
    ascending_ext (sort_keys xs) (sort_keys ys) (sort_keys-IsAscending xs)
      (sort_keys-IsAscending ys)
      (λ i. contains-sort_keys i xs ∙ h i ∙ sym (contains-sort_keys i ys))
