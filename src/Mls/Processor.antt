-- ===== src/Mls/Processor.antt =====
-- svalin_pki/src/mls/processor.rs: the groups of a member, in the storage and in a cache. A request of
-- the channel is a call, and its answer the result.
pub mod Lookups
use svalin.Prelude.{ℕ, not, Bool, true, false, Option, none, some, List, [], ◌∷◌, map}
use svalin.Prelude.Tests.{if◌then◌else◌}
use svalin.Prelude.Lists.{bytes_eq}
use svalin.Prelude.Result.{Result, Done, ok, err, panicked, ok_or}
use svalin.Bytes.{Bytes}
use svalin.Platform.{SpkiHash}
use svalin.Certificate.Defs.{Certificate}
use svalin.Mls.OpenMls.{
  OpenMls, MemberGroups, Sender, member, not_a_member, ProcessedMessageContent, application_message,
  proposal_message, staged_commit_message,
}
use svalin.Mls.Call.{
  MlsError, Call, ◌>>=◌, given, tls_codec, storage_error, unknown_group, process_error,
  forbidden_message_type, invalid_sender, member_not_in_group, merge_error, key_package_invalid,
  new_group_failed, commit_failed, message_failed, creation_failed,
}
use svalin.Mls.KeyPackage
use svalin.Mls.KeyPackage.{KeyPackage}
use svalin.Mls.PublicProcessor.{Cache, find}
use svalin.Mls.Transport.{MessageToServerTransport, group_message, new_device_group, add_to_group}

pub record Processor {M : OpenMls} (G : MemberGroups M) : Type 0 where
  pub certificate : Certificate
  pub storage : G.Storage
  pub group_cache : Cache G.MlsGroup

pub data MemberContent (M : OpenMls) : Type 0 where
  message_content : Bytes → MemberContent M
  staged_content : M.StagedCommit → MemberContent M

pub record MemberMessage (M : OpenMls) : Type 0 where
  pub group_id : Bytes
  pub sender : SpkiHash
  pub content : MemberContent M

abbrev pub if_true : {A : Type 0} → Bool → A → Result MlsError A
if_true true a = ok a
if_true false a = err merge_error

module _ {M : OpenMls} (G : MemberGroups M) where
  unfoldable pub get_group : Bytes → Call (Processor G) G.MlsGroup
  get_group id p = elim (find id p.group_cache) [
    | some g ↦ (ok g, p)
    | none ↦ elim (G.load p.storage id) [
      | none ↦ (err storage_error, p)
      | some none ↦ (err unknown_group, p)
      | some (some g) ↦ (ok g, record p { group_cache = (id, g) ∷ p.group_cache })
    ]
  ]

  -- An operation on a group that changes it in the cache, and the storage
  abbrev on_group :
      {A : Type 0}
      → Bytes
      → (G.Storage → G.MlsGroup → Result MlsError A × G.MlsGroup × G.Storage)
      → G.MlsGroup
      → Call (Processor G) A
  on_group id operation group p =
      let (result, group', storage) = operation p.storage group in
      (result, record p { storage = storage; group_cache = (id, group') ∷ p.group_cache })

  unfoldable pub update_group :
      {A : Type 0}
      → Bytes
      → (G.Storage → G.MlsGroup → Result MlsError A × G.MlsGroup × G.Storage)
      → Call (Processor G) A
  unfolding get_group
  update_group id operation = do group ← get_group id; on_group id operation group

  -- One that only writes to the storage
  abbrev pub on_storage :
      {A : Type 0} → (G.Storage → Option A × G.Storage) → MlsError → Call (Processor G) A
  on_storage operation e p =
      let (made, storage) = operation p.storage in (ok_or made e, record p { storage = storage })

  abbrev pub insert_group : Bytes → G.MlsGroup → Call (Processor G) Done
  insert_group id group p = (ok tt, record p { group_cache = (id, group) ∷ p.group_cache })

  abbrev merge_pending : G.Storage → G.MlsGroup → Result MlsError Done × G.MlsGroup × G.Storage
  merge_pending storage group =
      let (merged, group', storage') = G.merge_pending_commit storage group in
      (if_true merged tt, group', storage')

  unfoldable pub create_key_package : Call (Processor G) (KeyPackage M)
  create_key_package p =
      (do
        made ← on_storage G.build_key_package key_package_invalid
        given (KeyPackage.new_package M p.certificate made))
        p

  -- `create_group`, when the group is made and in the cache
  unfoldable pub fill_group :
      List (KeyPackage M) → Bytes → Call (Processor G) MessageToServerTransport
  unfolding get_group update_group
  fill_group [] id = do
    group ← get_group id
    info ← given (ok_or (G.export_group_info group) message_failed)
    given (ok (new_device_group info none))
  fill_group (first ∷ rest) id = do
    out ← update_group id (λ storage g.
        let (staged, g', storage') =
          G.stage_additions storage g (map (λ m. m.key_package) (first ∷ rest)) in
        (ok_or staged commit_failed, g', storage'))
    _ ← update_group id merge_pending
    given (ok (new_device_group out.0 (some out.1)))

  unfoldable pub create_group :
      List (KeyPackage M) → Bytes → Call (Processor G) MessageToServerTransport
  unfolding fill_group
  create_group members id = do
    group ← on_storage (λ storage. G.build_group storage id) new_group_failed
    _ ← insert_group id group
    fill_group members id

  unfoldable pub stage_join : G.Welcome → Call (Processor G) G.StagedWelcome
  stage_join welcome = on_storage (λ storage. G.stage_welcome storage welcome) creation_failed

  unfoldable pub join_group : G.StagedWelcome → Call (Processor G) Done
  join_group welcome = do
    group ← on_storage (λ storage. G.into_group storage welcome) creation_failed
    insert_group (G.group_id group) group

  -- `MessageToServerTransport::message`, after the program has asked for a private message
  abbrev pub message_out : G.MessageOut → Result MlsError MessageToServerTransport
  message_out out =
      if not (G.is_private_out out)
      then panicked
      else elim (G.serialize out) [ none ↦ err tls_codec | some bytes ↦ ok (group_message bytes) ]

  unfoldable pub create_message : Bytes → Bytes → Call (Processor G) MessageToServerTransport
  unfolding update_group
  create_message id content = do
    out ← update_group id (λ storage g.
        let (made, g', storage') = G.create_message storage g content in
        (ok_or made message_failed, g', storage'))
    given (message_out out)

  abbrev pub sender_of : G.MlsGroup → Sender → Result MlsError SpkiHash
  sender_of group not_a_member = err invalid_sender
  sender_of group (member index) = elim (G.member_at group index) [
    | none ↦ panicked
    | some credential ↦ ok_or (M.deserialized credential) tls_codec
  ]

  abbrev pub member_content :
      ProcessedMessageContent M.StagedCommit → Result MlsError (MemberContent M)
  member_content (application_message bytes) = ok (message_content bytes)
  member_content proposal_message = err forbidden_message_type
  member_content (staged_commit_message staged) = ok (staged_content staged)

  unfoldable pub process_message : M.ProtocolMessage → Call (Processor G) (MemberMessage M)
  unfolding get_group update_group
  process_message message = do
    out ← update_group (M.message_group_id message) (λ storage g.
        let (made, g', storage') = G.process_message storage g message in
        (ok_or made process_error, g', storage'))
    group' ← get_group (M.message_group_id message)
    sender ← given (sender_of group' out.0)
    content ← given (member_content out.1)
    given
        (ok (record { group_id = M.message_group_id message; sender = sender; content = content }))

  abbrev exists_from : Result MlsError G.MlsGroup → Result MlsError Bool
  exists_from (ok _) = ok true
  exists_from (err unknown_group) = ok false
  exists_from (err e) = err e
  exists_from panicked = panicked

  unfoldable pub group_exists : Bytes → Call (Processor G) Bool
  unfolding get_group
  group_exists id p = let (found, p') = get_group id p in (exists_from found, p')

  abbrev any_credential : Bytes → List M.Credential → Bool
  any_credential content [] = false
  any_credential content (c ∷ rest) =
      if bytes_eq (G.serialized_content c) content then true else any_credential content rest

  unfoldable pub is_member : Bytes → SpkiHash → Call (Processor G) Bool
  unfolding get_group
  is_member id h = do
    group ← get_group id
    content ← given (ok_or (G.serialize_hash h) tls_codec)
    given (ok (any_credential content (G.members group)))

  -- `MessageToServerTransport::add_to_group`
  abbrev pub addition_out : G.MessageOut → G.MessageOut → Result MlsError MessageToServerTransport
  addition_out commit welcome =
      if not (G.is_public_out commit) then err tls_codec else elim (G.welcome_out welcome) [
        | none ↦ err tls_codec
        | some welcome_bytes ↦ elim (G.serialize commit) [
          | none ↦ err tls_codec
          | some commit_bytes ↦ ok (add_to_group commit_bytes welcome_bytes)
        ]
      ]

  unfoldable pub add_member : Bytes → KeyPackage M → Call (Processor G) MessageToServerTransport
  unfolding update_group
  add_member id added = do
    out ← update_group id (λ storage g.
        let (made, g', storage') = G.add_members storage g (added.key_package ∷ []) in
        (ok_or made commit_failed, g', storage'))
    _ ← update_group id merge_pending
    given (addition_out out.0 out.1)

  unfoldable pub get_member : Bytes → ℕ → Call (Processor G) SpkiHash
  unfolding get_group
  get_member id index = do
    group ← get_group id
    credential ← given (ok_or (G.member_at group index) member_not_in_group)
    given (ok_or (M.deserialized credential) tls_codec)

  unfoldable pub commit : M.StagedCommit → Call (Processor G) Done
  unfolding update_group
  commit staged = update_group (G.commit_group_id staged) (λ storage g.
      let (merged, g', storage') = G.merge_staged_commit storage g staged in
      (if_true merged tt, g', storage'))
