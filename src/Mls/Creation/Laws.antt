-- ===== src/Mls/Creation/Laws.antt =====
-- svalin_pki/src/mls/harness.rs: a group whose creation has begun is not created again.
use svalin.Prelude.{ℕ, ◌≡◌, refl, ap, true, false, none, some, List, [], ◌∷◌}
use svalin.Prelude.Lists.{bytes_eq_self}
use svalin.Prelude.Result.{Result, ok, ok_or}
use svalin.Bytes.{Bytes}
use svalin.Platform.{SpkiHash}
use svalin.Verifier.{Verifier}
use svalin.Mls.GroupId.{Hex, SvalinGroupId, to_group_id}
use svalin.Mls.OpenMls.{OpenMls, MemberGroups}
use svalin.Mls.Call.{MlsError, new_group_failed}
use svalin.Mls.Call.Laws.{resume-ok, resume-leaves}
use svalin.Mls.KeyPackage.{KeyPackage}
use svalin.Mls.Harness.{KeyRetriever}
use svalin.Mls.PublicProcessor.{find}
use svalin.Mls.Processor.{
  Processor, get_group, fill_group, create_group, group_exists, update_group,
}
use svalin.Mls.Creation.{get_required_key_packages, create_if_missing, create_group_if_not_exists}

module _ {M : OpenMls} (G : MemberGroups M) (id : Bytes) where
  abbrev pub IsCached : Processor G → Type 0
  IsCached p = (g : G.MlsGroup) × (find id p.group_cache ≡ some g)

  get_group-cached :
      (p : Processor G) (g : G.MlsGroup)
      → find id p.group_cache ≡ some g
      → get_group G id p ≡ (ok g, p)
  unfolding get_group
  get_group-cached p g e = rw (e, get_group) refl

  get_group-IsCached : (p : Processor G) → IsCached p → IsCached (get_group G id p).1
  get_group-IsCached p (g, e) = rw (get_group-cached p g e) (g, e)

  update_group-IsCached :
      {A : Type 0} (operation : G.Storage → G.MlsGroup → Result MlsError A × G.MlsGroup × G.Storage)
      (p : Processor G)
      → IsCached p
      → IsCached (update_group G id operation p).1
  unfolding update_group
  update_group-IsCached operation p h =
      resume-leaves IsCached _ _ _ (get_group-IsCached p h)
        (λ g _. ((operation (get_group G id p).1.storage g).1, rw (bytes_eq_self id) refl))

  fill_group-IsCached :
      (members : List (KeyPackage M)) (p : Processor G)
      → IsCached p
      → IsCached (fill_group G members id p).1
  unfolding fill_group
  fill_group-IsCached [] p h =
      let got = get_group-IsCached p h in
      resume-leaves IsCached _ _ _ got (λ g _. resume-leaves IsCached _ _ _ got (λ info _. got))
  fill_group-IsCached (first ∷ rest) p h =
      resume-leaves IsCached _ _ _ (update_group-IsCached _ p h) (λ out _.
        let staged = update_group-IsCached _ _ (update_group-IsCached _ p h) in
        resume-leaves IsCached _ _ _ staged (λ _ _. staged))

  create_group-IsCached :
      (members : List (KeyPackage M)) (p : Processor G) (g : G.MlsGroup)
      → (G.build_group p.storage id).0 ≡ some g
      → IsCached (create_group G members id p).1
  unfolding create_group
  create_group-IsCached members p g made =
      rw (resume-ok _ _ _ g (ap (λ o. ok_or o new_group_failed) made)) (
        resume-leaves IsCached _ _ _ (g, rw (bytes_eq_self id) refl)
          (λ _ _. fill_group-IsCached members _ (g, rw (bytes_eq_self id) refl)))

  group_exists-cached : (p : Processor G) → IsCached p → group_exists G id p ≡ (ok true, p)
  unfolding group_exists
  group_exists-cached p (g, e) = rw (get_group-cached p g e, group_exists) refl

module _ {M : OpenMls} (G : MemberGroups M) (hex : Hex) (retriever : KeyRetriever M)
    (verifier : Verifier) (now : ℕ) where
  -- The group that OpenMLS made is in the cache after the call, whether it succeeds or not.
  create_group_if_not_exists-IsCached :
      (id : SvalinGroupId) (me : SpkiHash) (p : Processor G) (members : List (KeyPackage M))
      (g : G.MlsGroup)
      → (group_exists G (to_group_id hex id) p).0 ≡ ok false
      → get_required_key_packages G hex retriever verifier now id me ≡ ok members
      → (G.build_group (group_exists G (to_group_id hex id) p).1.storage (to_group_id hex id)).0
        ≡ some g
      → IsCached G
          (to_group_id hex id)
          (create_group_if_not_exists G hex retriever verifier now id me p).1
  unfolding create_group_if_not_exists create_if_missing
  create_group_if_not_exists-IsCached id me p members g missing packages made =
      let gid = to_group_id hex id in
      rw (resume-ok _ _ _ false missing) (
        rw (resume-ok _ _ _ members packages) (
          resume-leaves (IsCached G gid) _ _ _
            (create_group-IsCached G gid members (group_exists G gid p).1 g made)
            (λ _ _. create_group-IsCached G gid members (group_exists G gid p).1 g made)))

  -- A group is missing, its members' key packages are found, and its creation is begun, that is,
  -- OpenMLS makes the group. Then, also if the members cannot be added and the call fails, a second
  -- call finds that the group exists, returns no message, and leaves the storage and the cached groups
  -- as the first call left them.
  pub create_group_if_not_exists-again :
      (id : SvalinGroupId) (me : SpkiHash) (p : Processor G) (members : List (KeyPackage M))
      (g : G.MlsGroup)
      → (group_exists G (to_group_id hex id) p).0 ≡ ok false
      → get_required_key_packages G hex retriever verifier now id me ≡ ok members
      → (G.build_group (group_exists G (to_group_id hex id) p).1.storage (to_group_id hex id)).0
        ≡ some g
      → create_group_if_not_exists G hex retriever verifier now id me
          (create_group_if_not_exists G hex retriever verifier now id me p).1
        ≡ (ok none, (create_group_if_not_exists G hex retriever verifier now id me p).1)
  unfolding create_group_if_not_exists create_if_missing
  create_group_if_not_exists-again id me p members g missing packages made =
      let after = (create_group_if_not_exists G hex retriever verifier now id me p).1 in
      let found : group_exists G (to_group_id hex id) after ≡ (ok true, after) =
        group_exists-cached G (to_group_id hex id) after
          (create_group_if_not_exists-IsCached id me p members g missing packages made) in
      rw (resume-ok _ _ _ true (ap (λ r. r.0) found)) (ap (λ r. (ok none, r.1)) found)
