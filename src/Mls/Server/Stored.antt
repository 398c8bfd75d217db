-- ===== src/Mls/Server/Stored.antt =====
-- svalin_pki/src/mls/server.rs: which groups the server stores.
use svalin.Prelude.{ℕ, ◌≡◌, ◌⊎◌, refl, ap, subst, true, some, List, inl, inr, arith}
use svalin.Prelude.Tests.{Bool-cases, not-false}
use svalin.Prelude.Result.{ok, ok_or_iff, fail_if_iff}
use svalin.Platform.{SpkiHash}
use svalin.Verifier.{Verifier}
use svalin.Mls.GroupId.{Hex, SvalinGroupId, global_group, device_group, device_meta_group}
use svalin.Mls.OpenMls.{OpenMls, PublicGroups}
use svalin.Mls.Call.Laws.{resume_iff, resume-given, resume-leaves}
use svalin.Mls.Harness.{Harness, KeyRetriever}
use svalin.Mls.Harness.Device.{IsDevice, is_agent}
use svalin.Mls.Transport.{NewGroup}
use svalin.Mls.PublicProcessor.{
  PublicProcessor, deserialize_all, check_group, add_group, store_group,
}
use svalin.Mls.PublicProcessor.Laws.{IsKept}
use svalin.Mls.Server.{
  same_members, server_harness, parse_id, check_kind, check_device, add_svalin_group,
  add_device_group,
}

-- OpenMLS: a group that is made from a group info has the id in the group info.
pub record NamesGroups {M : OpenMls} (G : PublicGroups M) : Type 0 where
  pub temporary-group_id :
      (info : G.GroupInfo) (group : G.PublicGroup)
      → G.from_external_temporary info ≡ some group
      → G.group_id group ≡ G.info_group_id info

module _ {M : OpenMls} (G : PublicGroups M) (hex : Hex) (retriever : KeyRetriever M)
    (verifier : Verifier) (now : ℕ) where
  abbrev pub harness : Harness M (PublicProcessor G)
  harness = server_harness G hex retriever verifier now

  -- The group has the id of a group of a device, which has a verified agent certificate, and its
  -- members are the required ones.
  abbrev pub IsCreated : NewGroup G.GroupInfo → Type 0
  IsCreated new_group =
      (group : G.PublicGroup) × (id : SvalinGroupId) × (members : List SpkiHash) × (required : List
        SpkiHash)
      × (check_group G new_group ≡ ok group)
      × (parse_id G hex retriever verifier now (G.group_id group) ≡ ok id)
      × IsDevice harness id
      × (deserialize_all M (G.members group) ≡ ok members)
      × (retriever.get_required_group_members id ≡ some required)
      × (same_members required members ≡ true)

  -- What is stored is the group, made from the storage before.
  abbrev pub IsStored : NewGroup G.GroupInfo → PublicProcessor G → PublicProcessor G → Type 0
  IsStored new_group p q =
      IsCreated new_group × (q.storage ≡ (G.from_external p.storage new_group.group_info).1)

  check_device-state :
      (id : SvalinGroupId) (p : PublicProcessor G)
      → (check_device G hex retriever verifier now id p).1 ≡ p
  unfolding check_device
  check_device-state global_group p = refl
  check_device-state (device_group h) p = resume-given _ _ p
  check_device-state (device_meta_group h) p = resume-given _ _ p

  check_device-IsDevice :
      (id : SvalinGroupId) (p : PublicProcessor G)
      → check_kind G hex retriever verifier now id ≡ ok tt
      → (check_device G hex retriever verifier now id p).0 ≡ ok tt
      → IsDevice harness id
  unfolding check_device
  check_device-IsDevice global_group p kind h = absurd (cc (kind))
  check_device-IsDevice (device_group k) p kind h =
      let (cert, a, b) = (resume_iff _ _ _ _).0 h in (cert, a, is_agent cert.certificate_type _ b)
  check_device-IsDevice (device_meta_group k) p kind h =
      let (cert, a, b) = (resume_iff _ _ _ _).0 h in (cert, a, is_agent cert.certificate_type _ b)

  add_group-storage :
      (new_group : NewGroup G.GroupInfo) (p : PublicProcessor G)
      → IsKept G p (add_group G new_group p).1
        ⊎ ((add_group G new_group p).1.storage ≡ (G.from_external p.storage new_group.group_info).1)
  unfolding add_group store_group
  add_group-storage new_group p = elim (Bool-cases (G.has_ratchet_tree new_group.group_info)) [
    | inr missing ↦ rw (missing, add_group) (inl refl)
    | inl there ↦
        let written = λ (q : PublicProcessor G).
          q.storage ≡ (G.from_external p.storage new_group.group_info).1 in
        inr (
          rw (there, add_group)
            (resume-leaves written _ _ _ refl
              (λ group _. resume-leaves written _ _ _ refl (λ members _. refl))))
  ]

  -- The group that is checked has the id of the group info.
  check_group-group_id :
      (new_group : NewGroup G.GroupInfo) (group : G.PublicGroup)
      → NamesGroups G
      → check_group G new_group ≡ ok group
      → G.group_id group ≡ G.info_group_id new_group.group_info
  unfolding check_group
  check_group-group_id new_group group names e =
      elim (Bool-cases (G.has_ratchet_tree new_group.group_info)) [
        | inr missing ↦ absurd (ground (arith, e, missing))
        | inl there ↦
            names.temporary-group_id new_group.group_info group
              ((ok_or_iff _ _ _).0 (rw there at e))
      ]

  add_svalin_group-IsStored :
      (new_group : NewGroup G.GroupInfo) (svalin_id : SvalinGroupId) (p : PublicProcessor G)
      → NamesGroups G
      → parse_id G hex retriever verifier now (G.info_group_id new_group.group_info) ≡ ok svalin_id
      → check_kind G hex retriever verifier now svalin_id ≡ ok tt
      → IsKept G p (add_svalin_group G hex retriever verifier now new_group p).1
        ⊎ IsStored new_group p (add_svalin_group G hex retriever verifier now new_group p).1
  unfolding add_svalin_group
  add_svalin_group-IsStored new_group svalin_id p names named kind =
      let device = λ (id : SvalinGroupId). ap (λ q. q.storage) (check_device-state id p) in
      let Q = λ (q : PublicProcessor G). IsKept G p q ⊎ IsStored new_group p q in
      resume-leaves Q _ _ p (inl refl) (λ group e1. resume-leaves Q _ _ p (inl refl) (λ members e2.
        resume-leaves Q _ _ p (inl refl) (λ id e3.
          let same : svalin_id ≡ id = cc (
            named,
            e3,
            ap (parse_id G hex retriever verifier now)
                (check_group-group_id new_group group names e1),
          ) in
          resume-leaves Q _ _ _ (inl (device id)) (λ _ e4.
            resume-leaves Q _ _ _ (inl (device id)) (λ required e5.
              resume-leaves Q _ _ _ (inl (device id)) (λ _ e6.
                rw (check_device-state id p) (elim (add_group-storage new_group p) [
                  | inl kept ↦ inl kept
                  | inr stored ↦ inr (
                    (
                      group,
                      id,
                      members,
                      required,
                      e1,
                      e3,
                      check_device-IsDevice id p
                          (subst (λ i. check_kind G hex retriever verifier now i ≡ ok tt) same kind)
                          e4,
                      e2,
                      (ok_or_iff _ _ _).0 e5,
                      not-false _ ((fail_if_iff _ _).0 e6),
                    ),
                    stored,
                  )
                ])))))))

  pub add_device_group-IsStored :
      (new_group : NewGroup G.GroupInfo) (p : PublicProcessor G)
      → NamesGroups G
      → IsKept G p (add_device_group G hex retriever verifier now new_group p).1
        ⊎ IsStored new_group p (add_device_group G hex retriever verifier now new_group p).1
  unfolding add_device_group
  add_device_group-IsStored new_group p names =
      let Q = λ (q : PublicProcessor G). IsKept G p q ⊎ IsStored new_group p q in
      resume-leaves Q _ _ p (inl refl) (λ id named.
        resume-leaves Q _ _ p (inl refl)
          (λ _ kind. add_svalin_group-IsStored new_group id p names named kind))
