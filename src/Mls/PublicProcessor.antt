-- ===== src/Mls/PublicProcessor.antt =====
-- svalin_pki/src/mls/public_processor.rs: the groups as the server has them, in the storage and in a
-- cache. A request of the channel is a call, and its answer the result.
pub mod Laws
pub mod Coherence
use svalin.Prelude.{ℕ, not, Bool, true, false, Option, none, some, List, [], ◌∷◌}
use svalin.Prelude.Tests.{if◌then◌else◌}
use svalin.Prelude.Lists.{bytes_eq}
use svalin.Prelude.Result.{Result, Done, ok, err, panicked, ok_or}
use svalin.Bytes.{Bytes}
use svalin.Platform.{SpkiHash}
use svalin.Mls.OpenMls.{
  OpenMls, PublicGroups, application_message, proposal_message, staged_commit_message,
}
use svalin.Mls.Call.{
  MlsError, Call, ◌>>=◌, resume, given, tls_codec, storage_error, unknown_group, process_error,
  forbidden_message_type, missing_ratchet_tree, creation_failed, member_not_in_group, merge_error,
}
use svalin.Mls.Transport.{MessageToSend, NewGroup, welcome_message}

-- A map from the ids of groups; a new entry hides the old one.
abbrev pub Cache : Type 0 → Type 0
Cache Group = List (Bytes × Group)

abbrev pub find : {Group : Type 0} → Bytes → Cache Group → Option Group
find id [] = none
find id ((j, g) ∷ cache) = if bytes_eq j id then some g else find id cache

pub record PublicProcessor {M : OpenMls} (G : PublicGroups M) : Type 0 where
  pub storage : G.Storage
  pub group_cache : Cache G.PublicGroup

pub data ProcessedContent (M : OpenMls) : Type 0 where
  unknown : ProcessedContent M
  commit_content : M.StagedCommit → ProcessedContent M

pub record ProcessedMessage (M : OpenMls) : Type 0 where
  pub group_id : Bytes
  pub receivers : List SpkiHash
  pub content : ProcessedContent M

module _ (M : OpenMls) where
  -- `members().map(|member| member.credential.deserialized())`, collected
  unfoldable pub deserialize_all : List M.Credential → Result MlsError (List SpkiHash)
  deserialize_all [] = ok []
  deserialize_all (c ∷ rest) =
      let later = deserialize_all rest in
      elim (M.deserialized c) [
        | none ↦ err tls_codec
        | some k ↦ elim later [ ok ks ↦ ok (k ∷ ks) | err e ↦ err e | panicked ↦ panicked ]
      ]

module _ {M : OpenMls} (G : PublicGroups M) where
  unfoldable pub get_group : Bytes → Call (PublicProcessor G) G.PublicGroup
  get_group id p = elim (find id p.group_cache) [
    | some g ↦ (ok g, p)
    | none ↦ elim (G.load p.storage id) [
      | none ↦ (err storage_error, p)
      | some none ↦ (err unknown_group, p)
      | some (some g) ↦ (ok g, record p { group_cache = (id, g) ∷ p.group_cache })
    ]
  ]

  -- The content of a message that is not private
  abbrev pub content_of :
      Option (svalin.Mls.OpenMls.ProcessedMessageContent M.StagedCommit)
      → Result MlsError (ProcessedContent M)
  content_of none = err process_error
  content_of (some (application_message _)) = panicked
  content_of (some proposal_message) = err forbidden_message_type
  content_of (some (staged_commit_message commit)) = ok (commit_content commit)

  unfoldable pub process_message : M.ProtocolMessage → Call (PublicProcessor G) (ProcessedMessage M)
  unfolding get_group deserialize_all
  process_message message = do
    group ← get_group (M.message_group_id message)
    members ← given (deserialize_all M (G.members group))
    content ←
        given (
          if M.is_private message then ok unknown else content_of (G.process_message group message))
    given (
        ok (record {
          group_id = M.message_group_id message;
          receivers = members;
          content = content;
        }))

  -- It keeps nothing: the group is made in a storage of its own.
  unfoldable pub check_group : NewGroup G.GroupInfo → Result MlsError G.PublicGroup
  check_group new_group =
      if not (G.has_ratchet_tree new_group.group_info)
      then err missing_ratchet_tree
      else ok_or (G.from_external_temporary new_group.group_info) creation_failed

  -- The message of a welcome, if there is one
  abbrev pub welcome_to : List SpkiHash → Option Bytes → Option MessageToSend
  welcome_to members none = none
  welcome_to members (some bytes) =
      some (record { receivers = members; message = welcome_message bytes })

  -- The group that was made in the storage, without the cache
  unfoldable pub store_group : G.GroupInfo → Call (PublicProcessor G) G.PublicGroup
  store_group info p =
      let (created, storage) = G.from_external p.storage info in
      (ok_or created creation_failed, record p { storage = storage })

  unfoldable pub add_group : NewGroup G.GroupInfo → Call (PublicProcessor G) (Option MessageToSend)
  unfolding store_group deserialize_all
  add_group new_group =
      if not (G.has_ratchet_tree new_group.group_info) then given (err missing_ratchet_tree) else do
        group ← store_group new_group.group_info
        members ← given (deserialize_all M (G.members group))
        given (ok (welcome_to members new_group.welcome))

  unfoldable pub get_member : Bytes → ℕ → Call (PublicProcessor G) SpkiHash
  unfolding get_group
  get_member id index = do
    group ← get_group id
    leaf ← given (ok_or (G.leaf group index) member_not_in_group)
    given (ok_or (M.deserialized leaf) tls_codec)

  -- `group.merge_commit`, on the group in the cache
  unfoldable pub merge : Bytes → M.StagedCommit → G.PublicGroup → Call (PublicProcessor G) Done
  merge id commit group p =
      let (merged, group', storage) = G.merge_commit p.storage group commit in
      (
        if merged then ok tt else err merge_error,
        record { storage = storage; group_cache = (id, group') ∷ p.group_cache },
      )

  unfoldable pub commit : Bytes → M.StagedCommit → Call (PublicProcessor G) Done
  unfolding get_group merge
  commit id staged = do group ← get_group id; merge id staged group
