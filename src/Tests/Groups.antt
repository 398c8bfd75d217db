-- ===== src/Tests/Groups.antt =====
-- The theorems on svalin_pki/src/mls, at concrete groups.
use svalin.Prelude.{◌≡◌, ◌↔◌, ◌⊎◌, refl, ap, none, some, [], ◌∷◌, ◌++◌}
use svalin.Prelude.Result.{Result, Done, ok, err}
use svalin.Bytes.{Bytes, codes, to_be_bytes, from_be_bytes}
use svalin.Certificate.Defs.{mark_as_trusted}
use svalin.Mls.GroupId.{
  SvalinGroupId, global_group, device_group, device_meta_group, to_group_id, from_group_id,
}
use svalin.Mls.GroupId.Laws.{from-to_group_id, suffix}
use svalin.Mls.Call.{MlsError, Call, tls_codec}
use svalin.Mls.Harness.{Harness, check_commit}
use svalin.Mls.Harness.Laws.{check_commit_iff, IsAllowed, answers}
use svalin.Mls.Transport.{
  add_bytes, Wire, MessageToServer, MessageToServerTransport, new_device_group, welcome_message,
  unpack,
}
use svalin.Mls.PublicProcessor.{PublicProcessor, commit}
use svalin.Mls.PublicProcessor.Laws.{get_member-Quiet}
use svalin.Mls.PublicProcessor.Coherence.{Coherent, commit-Coherent}
use svalin.Mls.Server.{process_message, server_harness}
use svalin.Mls.Server.Laws.{IsAuthorised, process_message-IsAuthorised}
use svalin.Mls.Processor.{Processor}
use svalin.Mls.Creation.{create_group_if_not_exists}
use svalin.Mls.Creation.Laws.{create_group_if_not_exists-again}
use svalin.Mls.Agent
use svalin.Mls.Agent.Accepted.{IsAccepted, handle_message-IsAccepted}
use svalin.Mls.OpenMls.{staged_commit_message}
use svalin.Mls.Unpack.{MemberWire, public_message, MessageToMember, unpack_to_member}
use svalin.Mls.Client.{SvalinMessage, report, MessageData, device_report, internal, handle_message}
use svalin.Mls.Client.Laws.{IsDelivered, handle_message-IsDelivered}
use svalin.Tests.Fixtures.{demo_root}
use svalin.Tests.GroupFixtures.{
  demo_agent, DemoCommit, DemoGroup, demo_hex, demo_hex-IsHex, demo_verifier, demo_mls, demo_public,
  demo_public-StoresGroups, demo_public-NamesGroups, demo_member, demo_retriever, agent_group,
  demo_wire, demo_member_wire,
}

-- svalin_pki/src/mls/group_id.rs
from-to_group_id_example :
    from_group_id demo_hex (to_group_id demo_hex (device_group 5) ++ suffix (some (codes "x")))
    ≡ ok (device_group 5)
from-to_group_id_example =
    from-to_group_id demo_hex demo_hex-IsHex (device_group 5) (some (codes "x")) refl

-- The addition of the user to that group
abbrev addition : DemoCommit
addition = record { group = agent_group.name; added = 2 ∷ [] }

abbrev stored_group : PublicProcessor demo_public
stored_group = record {
  storage = agent_group ∷ [];
  group_cache = (agent_group.name, agent_group) ∷ [];
}

-- svalin_pki/src/mls/public_processor.rs
stored_group-Coherent : Coherent demo_public stored_group
stored_group-Coherent = record { cached = λ id g there. ap some there }

commit-Coherent_example :
    Coherent demo_public (commit demo_public agent_group.name addition stored_group).1
unfolding commit svalin.Mls.PublicProcessor.get_group svalin.Mls.PublicProcessor.merge
    svalin.Mls.Call.resume to_group_id svalin.Mls.GroupId.to_hex to_be_bytes
commit-Coherent_example =
    commit-Coherent demo_public demo_public-StoresGroups stored_group agent_group.name addition
      stored_group-Coherent refl

-- svalin_pki/src/mls/harness.rs
abbrev demo_server : Harness demo_mls (PublicProcessor demo_public)
demo_server = server_harness demo_public demo_hex demo_retriever demo_verifier 2000

abbrev no_groups : PublicProcessor demo_public
no_groups = record { storage = []; group_cache = [] }

-- svalin_pki/src/mls/server.rs
abbrev after_creation : PublicProcessor demo_public
after_creation =
    (process_message demo_public demo_hex demo_retriever demo_verifier 2000 demo_wire
      (new_device_group [] none) no_groups).1

process_message-IsAuthorised_example :
    (after_creation ≡ no_groups)
    ⊎ ((unpacked : MessageToServer demo_mls DemoGroup) × (unpack demo_wire
            (new_device_group [] none)
          ≡ ok unpacked)
        × IsAuthorised demo_public demo_hex demo_retriever demo_verifier 2000 unpacked no_groups
            after_creation)
process_message-IsAuthorised_example =
    process_message-IsAuthorised demo_public demo_hex demo_retriever demo_verifier 2000
      demo_public-NamesGroups demo_wire (new_device_group [] none) no_groups

-- It stores the group.
creation_test : after_creation.storage ≡ agent_group ∷ []
unfolding process_message svalin.Mls.Server.process_unpacked svalin.Mls.Server.add_device_group
    svalin.Mls.Server.add_svalin_group svalin.Mls.Server.check_device
    svalin.Mls.PublicProcessor.check_group svalin.Mls.PublicProcessor.add_group
    svalin.Mls.PublicProcessor.store_group svalin.Mls.PublicProcessor.deserialize_all
    svalin.Mls.Harness.verify_spki_hash svalin.Certificate.Kind.type_eq unpack
    svalin.Mls.Call.resume to_group_id from_group_id svalin.Mls.GroupId.to_hex
    svalin.Mls.GroupId.from_hex svalin.Mls.GroupId.split svalin.Mls.GroupId.from_slice to_be_bytes
    from_be_bytes
creation_test = refl

-- The commit of a user by the root passes the check.
check_commit_iff_example :
    ((check_commit demo_server (device_group 5) addition stored_group).0 ≡ ok tt)
    ↔ IsAllowed demo_server
        (device_group 5)
        (answers demo_server (device_group 5) stored_group)
        addition
check_commit_iff_example =
    check_commit_iff demo_server (device_group 5)
      (λ group index p. (get_member-Quiet demo_public group index p).1) addition stored_group

check_commit_test : (check_commit demo_server (device_group 5) addition stored_group).0 ≡ ok tt
unfolding check_commit svalin.Mls.Harness.verify_credentials svalin.Mls.Harness.check_removals
    svalin.Mls.Harness.check_additions svalin.Mls.Harness.check_addition
    svalin.Mls.Harness.check_sender svalin.Mls.Harness.check_edit_allowed
    svalin.Mls.Harness.verify_spki_hash svalin.Mls.KeyPackage.verify_package
    svalin.Mls.PublicProcessor.get_member svalin.Mls.PublicProcessor.get_group
    svalin.Mls.Call.resume to_group_id from_group_id svalin.Mls.GroupId.to_hex
    svalin.Mls.GroupId.from_hex svalin.Mls.GroupId.split svalin.Mls.GroupId.from_slice to_be_bytes
    from_be_bytes
check_commit_test = refl

-- svalin_pki/src/mls/harness.rs: creation by a member
abbrev no_memberships : Processor demo_member
no_memberships = record { certificate = demo_root.to_certificate; storage = []; group_cache = [] }

create_group_if_not_exists-again_example :
    create_group_if_not_exists demo_member demo_hex demo_retriever demo_verifier 2000
      (device_group 5)
      1
      (create_group_if_not_exists demo_member demo_hex demo_retriever demo_verifier 2000
        (device_group 5)
        1
        no_memberships).1
    ≡ (
      ok none,
      (create_group_if_not_exists demo_member demo_hex demo_retriever demo_verifier 2000
          (device_group 5)
          1
          no_memberships).1,
    )
unfolding svalin.Mls.Processor.group_exists svalin.Mls.Processor.get_group
    svalin.Mls.Creation.get_required_key_packages svalin.Mls.Creation.verify_all
    svalin.Mls.KeyPackage.verify_package svalin.Mls.Transport.retain_others
create_group_if_not_exists-again_example =
    create_group_if_not_exists-again demo_member demo_hex demo_retriever demo_verifier 2000
      (device_group 5) 1 no_memberships
      (record { key_package = 5; certificate = mark_as_trusted demo_agent } ∷ [])
      (record { name = to_group_id demo_hex (device_group 5); people = 1 ∷ [] }) refl refl refl

-- svalin_pki/src/mls/client.rs: the user 2 is invited to the group of the agent.
abbrev invited : Result MlsError (MessageData Bytes Bytes) × Processor demo_member
invited =
    handle_message demo_member demo_hex demo_retriever demo_verifier 2000 2 (λ b. some (report b))
      demo_member_wire (welcome_message []) no_memberships

handle_message-IsDelivered_example :
    ((unpack_to_member demo_member_wire (welcome_message []) ≡ err tls_codec)
      × (invited ≡ (err tls_codec, no_memberships)))
    ⊎ ((unpacked : MessageToMember demo_mls DemoGroup) × (unpack_to_member demo_member_wire
            (welcome_message [])
          ≡ ok unpacked)
        × IsDelivered demo_member demo_hex demo_retriever demo_verifier 2000
            (λ b. some (report b))
            unpacked
            no_memberships
            invited)
handle_message-IsDelivered_example =
    handle_message-IsDelivered demo_member demo_hex demo_retriever demo_verifier 2000
      (λ b. some (report b)) demo_member_wire 2 (welcome_message []) no_memberships

-- It joins.
invited_test : invited ≡ (
  ok (record { group = device_group 5; content = internal }),
  record no_memberships {
    storage = agent_group ∷ [];
    group_cache = (to_group_id demo_hex (device_group 5), agent_group) ∷ [];
  },
)
unfolding handle_message svalin.Mls.Client.handle_unpacked svalin.Mls.Client.handle_welcome
    svalin.Mls.Client.check_device unpack_to_member svalin.Mls.Processor.stage_join
    svalin.Mls.Processor.join_group svalin.Mls.PublicProcessor.deserialize_all
    svalin.Mls.Harness.verify_spki_hash svalin.Certificate.Kind.type_eq svalin.Mls.Call.resume
    to_group_id from_group_id svalin.Mls.GroupId.to_hex svalin.Mls.GroupId.from_hex
    svalin.Mls.GroupId.split svalin.Mls.GroupId.from_slice to_be_bytes from_be_bytes
invited_test = refl

-- svalin_pki/src/mls/agent.rs: the user 2 is added to the group of the agent.
abbrev agent_wire : MemberWire demo_mls DemoGroup
agent_wire = record {
  read_welcome = λ b. none;
  read_message = λ b. some (
      public_message (record {
        group = agent_group.name;
        content = staged_commit_message (record { group = agent_group.name; added = 2 ∷ [] });
      }));
}

abbrev agent_member : Processor demo_member
agent_member = record {
  certificate = mark_as_trusted demo_agent;
  storage = agent_group ∷ [];
  group_cache = [];
}

abbrev added : Result MlsError Done × Processor demo_member
added =
    Agent.handle_message demo_member demo_hex demo_retriever demo_verifier 2000 5 agent_wire
      (add_bytes []) agent_member

handle_message-IsAccepted_example :
    ((unpack_to_member agent_wire (add_bytes []) ≡ err tls_codec)
      × (added ≡ (err tls_codec, agent_member)))
    ⊎ ((unpacked : MessageToMember demo_mls DemoGroup) × (unpack_to_member agent_wire (add_bytes [])
          ≡ ok unpacked)
        × IsAccepted demo_member demo_hex demo_retriever demo_verifier 2000 5 unpacked agent_member
            added)
handle_message-IsAccepted_example =
    handle_message-IsAccepted demo_member demo_hex demo_retriever demo_verifier 2000 5 agent_wire
      (add_bytes []) agent_member

-- It makes the commit.
added_test : added.0 ≡ ok tt
unfolding Agent.handle_message svalin.Mls.Agent.handle_unpacked svalin.Mls.Agent.handle_add_to_group
    svalin.Mls.Processor.process_message svalin.Mls.Processor.update_group
    svalin.Mls.Processor.get_group svalin.Mls.Processor.get_member svalin.Mls.Processor.commit
    unpack_to_member svalin.Mls.Unpack.expect_public check_commit
    svalin.Mls.Harness.verify_credentials svalin.Mls.Harness.check_removals
    svalin.Mls.Harness.check_additions svalin.Mls.Harness.check_addition
    svalin.Mls.Harness.check_sender svalin.Mls.Harness.check_edit_allowed
    svalin.Mls.Harness.verify_spki_hash svalin.Mls.KeyPackage.verify_package svalin.Mls.Call.resume
    to_group_id from_group_id svalin.Mls.GroupId.to_hex svalin.Mls.GroupId.from_hex
    svalin.Mls.GroupId.split svalin.Mls.GroupId.from_slice to_be_bytes from_be_bytes
added_test = refl
