-- ===== src/Tests/GroupFixtures.antt =====
-- A small library of groups, and a verifier, on which svalin_pki/src/mls is run.
use svalin.Prelude.{
  ℕ, zero, suc, ◌+◌, ◌-◌, ◌≡◌, ◌≢◌, refl, sym, ap, true, Option, none, some, List, [], ◌∷◌, ◌++◌,
  map, arith, inl, inr,
}
use svalin.Prelude.Tests.{◌==◌, if◌then◌else◌, Bool-cases}
use svalin.Prelude.Lists.{bytes_eq, bytes_eq_sound, All}
use svalin.Prelude.Result.{ok, err}
use svalin.Bytes.{Bytes, to_be_bytes}
use svalin.Platform.{SpkiHash}
use svalin.Certificate.Kind.{agent}
use svalin.Certificate.Defs.{CertificateData, mark_as_trusted}
use svalin.Verifier.{Verifier, VerifyError}
use svalin.Mls.GroupId.{Hex, SvalinGroupId, device_group, to_group_id}
use svalin.Mls.GroupId.Laws.{IsHex}
use svalin.Mls.OpenMls.{OpenMls, PublicGroups, MemberGroups, member, ProcessedMessageContent}
use svalin.Mls.Harness.{KeyRetriever}
use svalin.Mls.Transport.{Wire}
use svalin.Mls.Unpack.{MemberWire}
use svalin.Mls.PublicProcessor.Coherence.{StoresGroups}
use svalin.Mls.Server.Stored.{NamesGroups}
use svalin.Tests.Fixtures.{demo_certificate, demo_root, demo_user}

-- A coding without slashes
abbrev add_48 : ℕ → ℕ
add_48 b = b + 48

abbrev minus_48 : ℕ → ℕ
minus_48 b = b - 48

abbrev pub demo_hex : Hex
demo_hex = record { encode = map add_48; decode = λ text. some (map minus_48 text) }

decoded : (bs : Bytes) → map minus_48 (map add_48 bs) ≡ bs
decoded [] = refl
decoded (b ∷ bs) = ground (arith, decoded bs)

without_slash : (bs : Bytes) → All (λ b. b ≢ b'/') (map add_48 bs)
without_slash [] = tt
without_slash (b ∷ bs) = (λ e. absurd (omega (arith, e)), without_slash bs)

pub demo_hex-IsHex : IsHex demo_hex
demo_hex-IsHex = record {
  decode-encode = λ n v. ap some (decoded (to_be_bytes n v));
  no_slash = λ n v. without_slash (to_be_bytes n v);
}

abbrev pub demo_agent : CertificateData
demo_agent = demo_certificate 5 agent 1

-- It knows the root, a user and an agent.
abbrev pub demo_verifier : Verifier
demo_verifier = record {
  verify_spki_hash = λ h now.
      if h == 1
      then ok demo_root.to_certificate
      else if h == 2
      then ok (mark_as_trusted demo_user)
      else if h == 5
      then ok (mark_as_trusted demo_agent)
      else err VerifyError.unknown_certificate;
  verify_known_certificate = λ c now. ok (mark_as_trusted c);
}

-- A commit to the group, by the first member, that adds members
pub record DemoCommit : Type 0 where
  pub group : Bytes
  pub added : List ℕ

pub record DemoMessage : Type 0 where
  pub group : Bytes
  pub content : ProcessedMessageContent DemoCommit

pub record DemoGroup : Type 0 where
  pub name : Bytes
  pub people : List SpkiHash

abbrev nth : List SpkiHash → ℕ → Option SpkiHash
nth [] n = none
nth (h ∷ rest) zero = some h
nth (h ∷ rest) (suc n) = nth rest n

abbrev find_group : Bytes → List DemoGroup → Option DemoGroup
find_group id [] = none
find_group id (g ∷ rest) = if bytes_eq g.name id then some g else find_group id rest

abbrev grown : DemoGroup → List SpkiHash → DemoGroup
grown g added = record { name = g.name; people = g.people ++ added }

-- A key package is the hash of its holder.
abbrev pub demo_mls : OpenMls
demo_mls = record {
  Credential = SpkiHash;
  deserialized = λ h. some h;
  KeyPackageIn = SpkiHash;
  KeyPackage = SpkiHash;
  validate = λ h. some h;
  into_unverified = λ h. h;
  unverified_credential = λ h. h;
  leaf_credential = λ h. h;
  signature_key = λ h. h ∷ [];
  StagedCommit = DemoCommit;
  credentials_to_verify = λ c. c.added;
  remove_proposals = λ c. [];
  add_proposals = λ c. map (λ h. record { sender = member 0; key_package = h }) c.added;
  ProtocolMessage = DemoMessage;
  message_group_id = λ m. m.group;
  is_private = λ m. true;
}

abbrev pub demo_public : PublicGroups demo_mls
demo_public = record {
  PublicGroup = DemoGroup;
  Storage = List DemoGroup;
  GroupInfo = DemoGroup;
  load = λ s id. some (find_group id s);
  group_id = λ g. g.name;
  members = λ g. g.people;
  leaf = λ g n. nth g.people n;
  process_message = λ g m. some m.content;
  merge_commit = λ s g c. (true, grown g c.added, grown g c.added ∷ s);
  info_group_id = λ g. g.name;
  has_ratchet_tree = λ g. true;
  from_external = λ s g. (some g, g ∷ s);
  from_external_temporary = λ g. some g;
}

find_group-name :
    (id : Bytes) (s : List DemoGroup) (g : DemoGroup) → find_group id s ≡ some g → g.name ≡ id
find_group-name id [] g h = absurd (cc)
find_group-name id (g' ∷ rest) g h = elim (Bool-cases (bytes_eq g'.name id)) [
  | inl same ↦
      let is : some g' ≡ some g = rw same at h in
      let here : g' ≡ g = cc (is) in rw (← here) (bytes_eq_sound g'.name id same)
  | inr other ↦ find_group-name id rest g (rw other at h)
]

pub demo_public-StoresGroups : StoresGroups demo_public
demo_public-StoresGroups = record {
  load-id = λ s id g h. find_group-name id s g (cc (h));
  load-merge = λ s g c id merged. elim (Bool-cases (bytes_eq g.name id)) [
    | inl same ↦ rw same refl
    | inr other ↦ rw other refl
  ];
  load-create = λ s info g id made.
      let same : info ≡ g = cc (made) in
      rw same (elim (Bool-cases (bytes_eq g.name id)) [
        | inl here ↦ rw here refl
        | inr other ↦ rw other refl
      ]);
}

pub demo_public-NamesGroups : NamesGroups demo_public
demo_public-NamesGroups = record {
  temporary-group_id =
      λ info group made. let same : info ≡ group = cc (made) in ap (λ g. g.name) (sym same);
}

-- Of the root
abbrev new_group : Bytes → DemoGroup
new_group id = record { name = id; people = 1 ∷ [] }

abbrev pub demo_member : MemberGroups demo_mls
demo_member = record {
  MlsGroup = DemoGroup;
  Storage = List DemoGroup;
  Welcome = DemoGroup;
  StagedWelcome = DemoGroup;
  MessageOut = Bytes;
  load = λ s id. some (find_group id s);
  members = λ g. g.people;
  member_at = λ g n. nth g.people n;
  build_key_package = λ s. (some 1, s);
  build_group = λ s id. (some (new_group id), new_group id ∷ s);
  export_group_info = λ g. some g.name;
  stage_additions = λ s g added. (some (g.name, added), grown g added, s);
  merge_pending_commit = λ s g. (true, g, g ∷ s);
  add_members = λ s g added. (some (g.name, added), grown g added, s);
  create_message = λ s g bytes. (some bytes, g, s);
  process_message = λ s g m. (some (member 0, m.content), g, s);
  merge_staged_commit = λ s g c. (true, grown g c.added, grown g c.added ∷ s);
  commit_group_id = λ c. c.group;
  stage_welcome = λ s g. (some g, s);
  staged_group_id = λ g. g.name;
  staged_members = λ g. g.people;
  into_group = λ s g. (some g, g ∷ s);
  group_id = λ g. g.name;
  is_private_out = λ m. true;
  is_public_out = λ m. true;
  welcome_out = λ m. some m;
  serialize = λ m. some m;
  serialized_content = λ h. h ∷ [];
  serialize_hash = λ h. some (h ∷ []);
}

-- The root is in every group, and the device in its own.
abbrev required_members : SvalinGroupId → List SpkiHash
required_members (device_group h) = 1 ∷ h ∷ []
required_members _ = 1 ∷ []

abbrev pub demo_retriever : KeyRetriever demo_mls
demo_retriever = record {
  get_required_group_members = λ id. some (required_members id);
  get_key_packages = λ hashes. some hashes;
}

-- The group of the agent 5, with the root
abbrev pub agent_group : DemoGroup
agent_group = record { name = to_group_id demo_hex (device_group 5); people = 1 ∷ 5 ∷ [] }

-- It reads that group.
abbrev pub demo_wire : Wire demo_mls DemoGroup
demo_wire = record {
  read_protocol_message = λ b. none;
  read_public_message = λ b. none;
  read_group_info = λ b. some agent_group;
}

-- It reads an invitation to that group.
abbrev pub demo_member_wire : MemberWire demo_mls DemoGroup
demo_member_wire = record { read_welcome = λ b. some agent_group; read_message = λ b. none }
