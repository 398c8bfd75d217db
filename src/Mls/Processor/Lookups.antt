-- ===== src/Mls/Processor/Lookups.antt =====
-- svalin_pki/src/mls/processor.rs: looking groups up changes only the cache.
use svalin.Prelude.{ℕ, ◌≡◌, refl, ap, sym, ◌∙◌, List, [], ◌∷◌, ◌++◌}
use svalin.Bytes.{Bytes}
use svalin.Mls.OpenMls.{OpenMls, MemberGroups}
use svalin.Mls.Call.Laws.{resume-leaves}
use svalin.Mls.Processor.{Processor, get_group, get_member}

module _ {M : OpenMls} (G : MemberGroups M) where
  -- The state after groups were looked up
  abbrev pub lookups : List Bytes → Processor G → Processor G
  lookups [] p = p
  lookups (id ∷ ids) p = lookups ids (get_group G id p).1

  lookups-append :
      (ids js : List Bytes) (p : Processor G) → lookups (ids ++ js) p ≡ lookups js (lookups ids p)
  lookups-append [] js p = refl
  lookups-append (id ∷ ids) js p = lookups-append ids js (get_group G id p).1

  -- Between the two, groups were looked up, and nothing else happened.
  abbrev pub IsLookedUp : Processor G → Processor G → Type 0
  IsLookedUp p q = (ids : List Bytes) × (q ≡ lookups ids p)

  pub IsLookedUp-trans : (p q r : Processor G) → IsLookedUp p q → IsLookedUp q r → IsLookedUp p r
  IsLookedUp-trans p q r (ids, e) (js, e') =
      (ids ++ js, e' ∙ ap (lookups js) e ∙ sym (lookups-append ids js p))

  pub IsLookedUp-refl : (p : Processor G) → IsLookedUp p p
  IsLookedUp-refl p = ([], refl)

  pub get_member-IsLookedUp :
      (id : Bytes) (index : ℕ) (p : Processor G) → IsLookedUp p (get_member G id index p).1
  unfolding get_member
  get_member-IsLookedUp id index p =
      resume-leaves (IsLookedUp p) _ _ _ (id ∷ [], refl)
        (λ g _. resume-leaves (IsLookedUp p) _ _ _ (id ∷ [], refl) (λ c _. (id ∷ [], refl)))
