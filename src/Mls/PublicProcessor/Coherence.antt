-- ===== src/Mls/PublicProcessor/Coherence.antt =====
-- svalin_pki/src/mls/public_processor.rs: the cache has what the storage has, except after a group is
-- made under an id that is in use.
use svalin.Prelude.{◌≡◌, refl, sym, ap, ◌∙◌, true, false, Option, none, some, ◌∷◌, arith, inl, inr}
use svalin.Prelude.Tests.{Bool-cases, Option-cases, if◌then◌else◌}
use svalin.Prelude.Lists.{bytes_eq, bytes_eq_sound, bytes_eq_self}
use svalin.Prelude.Result.{ok}
use svalin.Bytes.{Bytes}
use svalin.Mls.OpenMls.{OpenMls, PublicGroups}
use svalin.Mls.Call.Laws.{resume_iff, resume-ok, resume-given}
use svalin.Mls.PublicProcessor.{
  PublicProcessor, find, get_group, commit, merge, store_group, add_group,
}
use svalin.Mls.PublicProcessor.Laws.{seen, looked_up, seen-looked_up, get_group-seen}
use svalin.Mls.Transport.{NewGroup}

-- What OpenMLS says of its storage: a group is loaded under its id, and a merge that succeeds stores
-- the group that it changed, and a creation the group that it makes, and no other.
pub record StoresGroups {M : OpenMls} (G : PublicGroups M) : Type 0 where
  pub load-id :
      (s : G.Storage) (id : Bytes) (g : G.PublicGroup)
      → G.load s id ≡ some (some g)
      → G.group_id g ≡ id
  pub load-merge :
      (s : G.Storage) (g : G.PublicGroup) (c : M.StagedCommit) (id : Bytes)
      → (G.merge_commit s g c).0 ≡ true
      → G.load (G.merge_commit s g c).2 id
        ≡ (if bytes_eq (G.group_id g) id then some (some (G.merge_commit s g c).1) else G.load s id)
  pub load-create :
      (s : G.Storage) (info : G.GroupInfo) (g : G.PublicGroup) (id : Bytes)
      → (G.from_external s info).0 ≡ some g
      → G.load (G.from_external s info).1 id
        ≡ (if bytes_eq (G.group_id g) id then some (some g) else G.load s id)

-- What is in the cache would be loaded.
pub record Coherent {M : OpenMls} (G : PublicGroups M) (p : PublicProcessor G) : Type 0 where
  pub cached :
      (id : Bytes) (g : G.PublicGroup)
      → find id p.group_cache ≡ some g
      → G.load p.storage id ≡ some (some g)

module _ {M : OpenMls} (G : PublicGroups M) (laws : StoresGroups G) where
  -- In a coherent processor the cache makes no difference.
  pub seen-load :
      (p : PublicProcessor G) (id : Bytes)
      → Coherent G p
      → seen G p id ≡ looked_up G none (G.load p.storage id)
  seen-load p id coherent = elim (Option-cases (find id p.group_cache)) [
    | inl e ↦ seen-looked_up G p id ∙ rw e refl
    | inr (g, e) ↦ seen-looked_up G p id ∙ rw e (rw (coherent.cached id g e) refl)
  ]

  put-Coherent :
      (p : PublicProcessor G) (id : Bytes) (g : G.PublicGroup)
      → G.load p.storage id ≡ some (some g)
      → ((j : Bytes) (h : G.PublicGroup)
          → bytes_eq id j ≡ false
          → find j p.group_cache ≡ some h
          → G.load p.storage j ≡ some (some h))
      → Coherent G (record p { group_cache = (id, g) ∷ p.group_cache })
  put-Coherent p id g e others = record {
    cached = λ j h there. elim (Bool-cases (bytes_eq id j)) [
      | inl same ↦
          let here : some g ≡ some h = rw same at there in
          let stored : G.load p.storage j ≡ some (some g) = rw (bytes_eq_sound id j same) at e in
          stored ∙ ap some here
      | inr other ↦
          let there' : find j p.group_cache ≡ some h = rw other at there in others j h other there'
    ];
  }

  pub get_group-Coherent :
      (id : Bytes) (p : PublicProcessor G) → Coherent G p → Coherent G (get_group G id p).1
  unfolding get_group
  get_group-Coherent id p coherent = elim (Option-cases (find id p.group_cache)) [
    | inr (g, e) ↦ rw (e, get_group) coherent
    | inl e ↦ elim (Option-cases (G.load p.storage id)) [
      | inl e' ↦ rw (e, get_group) (rw e' coherent)
      | inr (none, e') ↦ rw (e, get_group) (rw e' coherent)
      | inr (some g, e') ↦
          rw (e, get_group) (rw e' (put-Coherent p id g e' (λ j h _. coherent.cached j h)))
    ]
  ]

  loaded :
      (found : Option (Option G.PublicGroup)) (g : G.PublicGroup)
      → looked_up G none found ≡ ok g
      → found ≡ some (some g)
  loaded none g h = absurd (cc)
  loaded (some none) g h = absurd (cc)
  loaded (some (some x)) g h = cc

  merge-Coherent :
      (p : PublicProcessor G) (id : Bytes) (c : M.StagedCommit) (g : G.PublicGroup)
      → Coherent G p
      → G.load p.storage id ≡ some (some g)
      → (merge G id c g p).0 ≡ ok tt
      → Coherent G (merge G id c g p).1
  unfolding merge
  merge-Coherent p id c g coherent here h = elim (Bool-cases (G.merge_commit p.storage g c).0) [
    | inr failed ↦ absurd (ground (arith, h, failed))
    | inl merged ↦
        let named = laws.load-id p.storage id g here in
        let stored = λ (j : Bytes). laws.load-merge p.storage g c j merged in
        put-Coherent
          (record { storage = (G.merge_commit p.storage g c).2; group_cache = p.group_cache }) id
          (G.merge_commit p.storage g c).1 (stored id ∙ rw named (rw (bytes_eq_self id) refl))
          (λ j k other there. stored j ∙ rw named (rw other (coherent.cached j k there)))
  ]

  -- If a group is loaded under its id, and a merge that succeeds stores the group it has changed and
  -- no other, then a commit that succeeds keeps the cache coherent with the storage.
  pub commit-Coherent :
      (p : PublicProcessor G) (id : Bytes) (c : M.StagedCommit)
      → Coherent G p
      → (commit G id c p).0 ≡ ok tt
      → Coherent G (commit G id c p).1
  unfolding commit
  commit-Coherent p id c coherent h =
      let (g, found, merged) = (resume_iff _ _ _ _).0 h in
      let here : G.load (get_group G id p).1.storage id ≡ some (some g) =
        ap (λ s. G.load s id) (get_group-seen G id p).1
        ∙ loaded _ g (sym (seen-load p id coherent) ∙ found) in
      rw (resume-ok (merge G id c) _ (get_group G id p).1 g found)
        (merge-Coherent (get_group G id p).1 id c g (get_group-Coherent id p coherent) here merged)

  add_group-state :
      (p : PublicProcessor G) (new_group : NewGroup G.GroupInfo) (g : G.PublicGroup)
      → G.has_ratchet_tree new_group.group_info ≡ true
      → (G.from_external p.storage new_group.group_info).0 ≡ some g
      → (add_group G new_group p).1
        ≡ record p { storage = (G.from_external p.storage new_group.group_info).1 }
  unfolding add_group store_group
  add_group-state p new_group g tree made =
      rw (tree, add_group) (rw made (ap (λ o. o.1) (resume-ok _ _ _ g refl) ∙ resume-given _ _ _))

  -- If a creation stores the group that it makes, then making a group under an id that is in the cache
  -- leaves the processor with the old group, while the storage has the new one.
  pub add_group-stale :
      (p : PublicProcessor G) (new_group : NewGroup G.GroupInfo) (g old : G.PublicGroup)
      → G.has_ratchet_tree new_group.group_info ≡ true
      → (G.from_external p.storage new_group.group_info).0 ≡ some g
      → find (G.group_id g) p.group_cache ≡ some old
      → (seen G (add_group G new_group p).1 (G.group_id g) ≡ ok old)
        × (G.load (add_group G new_group p).1.storage (G.group_id g) ≡ some (some g))
  add_group-stale p new_group g old tree made there = rw (add_group-state p new_group g tree made) (
    seen-looked_up G (record p { storage = (G.from_external p.storage new_group.group_info).1 })
          (G.group_id g)
        ∙ rw there refl,
    laws.load-create p.storage new_group.group_info g (G.group_id g) made
        ∙ rw (bytes_eq_self (G.group_id g)) refl,
  )
