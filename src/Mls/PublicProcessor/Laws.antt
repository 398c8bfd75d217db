-- ===== src/Mls/PublicProcessor/Laws.antt =====
-- svalin_pki/src/mls/public_processor.rs: the cache and the storage.
use svalin.Prelude.{ℕ, ◌≡◌, refl, sym, ap, ◌∙◌, Option, none, some, ◌∷◌, arith, inl, inr}
use svalin.Prelude.Tests.{Bool-cases, Option-cases}
use svalin.Prelude.Lists.{bytes_eq, bytes_eq_sound}
use svalin.Prelude.Result.{Result, ok, err, panicked, ok_or, Result-cases}
use svalin.Bytes.{Bytes}
use svalin.Platform.{SpkiHash}
use svalin.Mls.OpenMls.{OpenMls, PublicGroups}
use svalin.Mls.Call.{MlsError, resume, storage_error, unknown_group, member_not_in_group, tls_codec}
use svalin.Mls.Call.Laws.{resume-Keeps}
use svalin.Mls.PublicProcessor.{PublicProcessor, find, get_group, get_member, process_message}

module _ {M : OpenMls} (G : PublicGroups M) where
  -- The group that is found under an id
  abbrev pub seen : PublicProcessor G → Bytes → Result MlsError G.PublicGroup
  seen p id = (get_group G id p).0

  abbrev pub looked_up :
      Option G.PublicGroup → Option (Option G.PublicGroup) → Result MlsError G.PublicGroup
  looked_up (some g) loaded = ok g
  looked_up none none = err storage_error
  looked_up none (some none) = err unknown_group
  looked_up none (some (some g)) = ok g

  -- The cache comes first.
  pub seen-looked_up :
      (p : PublicProcessor G) (id : Bytes)
      → seen p id ≡ looked_up (find id p.group_cache) (G.load p.storage id)
  unfolding get_group
  seen-looked_up p id = elim (Option-cases (find id p.group_cache)) [
    | inr (g, e) ↦ ground (arith, e)
    | inl e ↦ elim (Option-cases (G.load p.storage id)) [
      | inl e' ↦ ground (arith, e, e')
      | inr (none, e') ↦ ground (arith, e, e')
      | inr (some g, e') ↦ ground (arith, e, e')
    ]
  ]

  cached-looked_up :
      (id j : Bytes) (p : PublicProcessor G) (g : G.PublicGroup)
      → find id p.group_cache ≡ none
      → G.load p.storage id ≡ some (some g)
      → looked_up (find j ((id, g) ∷ p.group_cache)) (G.load p.storage j)
        ≡ looked_up (find j p.group_cache) (G.load p.storage j)
  cached-looked_up id j p g e e' = elim (Bool-cases (bytes_eq id j)) [
    | inr other ↦ rw other refl
    | inl same ↦
        let id_is : id ≡ j = bytes_eq_sound id j same in
        let here : find j p.group_cache ≡ none = rw id_is at e in
        let stored : G.load p.storage j ≡ some (some g) = rw id_is at e' in
        rw same (rw here (rw stored refl))
  ]

  cached-seen :
      (id j : Bytes) (p : PublicProcessor G) (g : G.PublicGroup)
      → find id p.group_cache ≡ none
      → G.load p.storage id ≡ some (some g)
      → seen (record p { group_cache = (id, g) ∷ p.group_cache }) j ≡ seen p j
  cached-seen id j p g e e' =
      seen-looked_up (record p { group_cache = (id, g) ∷ p.group_cache }) j
      ∙ cached-looked_up id j p g e e'
      ∙ sym (seen-looked_up p j)

  -- Getting a group changes what is found under no id, and not the storage.
  pub get_group-seen :
      (id : Bytes) (p : PublicProcessor G)
      → (seen (get_group G id p).1 ≡ seen p) × ((get_group G id p).1.storage ≡ p.storage)
  unfolding get_group
  get_group-seen id p = elim (Option-cases (find id p.group_cache)) [
    | inr (g, e) ↦ rw (e, get_group) (refl, refl)
    | inl e ↦ elim (Option-cases (G.load p.storage id)) [
      | inl e' ↦ rw (e, get_group) (rw e' (refl, refl))
      | inr (none, e') ↦ rw (e, get_group) (rw e' (refl, refl))
      | inr (some g, e') ↦ rw (e, get_group) (rw e' ((λ i j. cached-seen id j p g e e' i), refl))
    ]
  ]

  -- What a member is asked of is the leaf of the group that is found.
  abbrev leaf_of : ℕ → Result MlsError G.PublicGroup → Result MlsError SpkiHash
  leaf_of index (ok g) = elim (G.leaf g index) [
    | none ↦ err member_not_in_group
    | some leaf ↦ ok_or (M.deserialized leaf) tls_codec
  ]
  leaf_of index (err e) = err e
  leaf_of index panicked = panicked

  get_member-seen :
      (id : Bytes) (index : ℕ) (p : PublicProcessor G)
      → (get_member G id index p).0 ≡ leaf_of index (seen p id)
  unfolding get_member resume
  get_member-seen id index p = elim (Result-cases (seen p id)) [
    | inl (g, e) ↦ elim (Option-cases (G.leaf g index)) [
      | inl none_there ↦ ground (arith, e, none_there)
      | inr (leaf, there) ↦ ground (arith, e, there)
    ]
    | inr (inl (x, e)) ↦ ground (arith, e)
    | inr (inr e) ↦ ground (arith, e)
  ]

  get_member-state :
      (id : Bytes) (index : ℕ) (p : PublicProcessor G)
      → (get_member G id index p).1 ≡ (get_group G id p).1
  unfolding get_member resume
  get_member-state id index p = elim (Result-cases (seen p id)) [
    | inl (g, e) ↦ elim (Option-cases (G.leaf g index)) [
      | inl none_there ↦ ground (arith, e, none_there)
      | inr (leaf, there) ↦ ground (arith, e, there)
    ]
    | inr (inl (x, e)) ↦ ground (arith, e)
    | inr (inr e) ↦ ground (arith, e)
  ]

  -- What is answered about the members
  abbrev pub asked : PublicProcessor G → Bytes → ℕ → Result MlsError SpkiHash
  asked p j i = (get_member G j i p).0

  asked-seen : (p q : PublicProcessor G) → seen q ≡ seen p → asked q ≡ asked p
  asked-seen p q e = λ x j i. same j i x
    where
      same : (j : Bytes) (i : ℕ) → asked q j i ≡ asked p j i
      same j i =
          get_member-seen j i q ∙ ap (λ found. leaf_of i (found j)) e ∙ sym (get_member-seen j i p)

  -- The storage is as before.
  abbrev pub IsKept : PublicProcessor G → PublicProcessor G → Type 0
  IsKept p q = q.storage ≡ p.storage

  -- Nothing is stored, and what is answered about the members stays.
  abbrev pub Quiet : PublicProcessor G → PublicProcessor G → Type 0
  Quiet p q = (q.storage ≡ p.storage) × (asked q ≡ asked p)

  pub Quiet-trans : (p q r : PublicProcessor G) → Quiet p q → Quiet q r → Quiet p r
  Quiet-trans p q r h k = (k.0 ∙ h.0, k.1 ∙ h.1)

  pub Quiet-refl : (p : PublicProcessor G) → Quiet p p
  Quiet-refl p = (refl, refl)

  get_group-Quiet : (id : Bytes) (p : PublicProcessor G) → Quiet p (get_group G id p).1
  get_group-Quiet id p =
      ((get_group-seen id p).1, asked-seen p (get_group G id p).1 (get_group-seen id p).0)

  -- Asking for a member changes no answer.
  pub get_member-Quiet :
      (id : Bytes) (index : ℕ) (p : PublicProcessor G) → Quiet p (get_member G id index p).1
  get_member-Quiet id index p = rw (get_member-state id index p) (get_group-Quiet id p)

  pub process_message-Quiet :
      (message : M.ProtocolMessage) (p : PublicProcessor G)
      → Quiet p (process_message G message p).1
  unfolding process_message
  process_message-Quiet message p =
      resume-Keeps Quiet Quiet-trans Quiet-refl _ _ p _
        (get_group-Quiet (M.message_group_id message) p)
        (λ g t. resume-Keeps Quiet Quiet-trans Quiet-refl _ _ t t (Quiet-refl t) (λ ks u.
          resume-Keeps Quiet Quiet-trans Quiet-refl _ _ u u (Quiet-refl u) (λ c v. Quiet-refl v)))
