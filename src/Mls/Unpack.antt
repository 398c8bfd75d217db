-- ===== src/Mls/Unpack.antt =====
-- svalin_pki/src/mls/transport_types.rs: how a member reads what the server has sent it. The decoding of
-- OpenMLS objects (tls_codec) is a parameter.
use svalin.Prelude.{◌≡◌, ◌⊎◌, refl, Option, inl, inr}
use svalin.Prelude.Tests.{Option-cases}
use svalin.Prelude.Result.{Result, ok, err, ok_or, ◌>>=◌}
use svalin.Bytes.{Bytes}
use svalin.Mls.OpenMls.{OpenMls}
use svalin.Mls.Call.{MlsError, tls_codec}
use svalin.Mls.Transport.{MessageToMemberTransport, welcome_message, group_bytes, add_bytes}

-- `MessageToMember`
pub data MessageToMember (M : OpenMls) (Welcome : Type 0) : Type 0 where
  welcome : Welcome → MessageToMember M Welcome
  group_message add_to_group : M.ProtocolMessage → MessageToMember M Welcome

-- `MlsMessageBodyIn`; the other kinds are refused alike.
pub data MlsMessageBodyIn (M : OpenMls) : Type 0 where
  private_message public_message : M.ProtocolMessage → MlsMessageBodyIn M
  other_body : MlsMessageBodyIn M

-- Reading a welcome, and the body of an `MlsMessageIn`
pub record MemberWire (M : OpenMls) (Welcome : Type 0) : Type 0 where
  pub read_welcome : Bytes → Option Welcome
  pub read_message : Bytes → Option (MlsMessageBodyIn M)

module _ {M : OpenMls} {Welcome : Type 0} where
  unfoldable pub expect_private : MlsMessageBodyIn M → Result MlsError (MessageToMember M Welcome)
  expect_private (private_message m) = ok (group_message m)
  expect_private (public_message _) = err tls_codec
  expect_private other_body = err tls_codec

  unfoldable pub expect_public : MlsMessageBodyIn M → Result MlsError (MessageToMember M Welcome)
  expect_public (private_message _) = err tls_codec
  expect_public (public_message m) = ok (add_to_group m)
  expect_public other_body = err tls_codec

  -- `MessageToMemberTransport::unpack`
  unfoldable pub unpack_to_member :
      MemberWire M Welcome → MessageToMemberTransport → Result MlsError (MessageToMember M Welcome)
  unfolding expect_private expect_public
  unpack_to_member wire (welcome_message bytes) = do
    invitation ← ok_or (wire.read_welcome bytes) tls_codec
    ok (welcome invitation)
  unpack_to_member wire (group_bytes bytes) = do
    body ← ok_or (wire.read_message bytes) tls_codec
    expect_private body
  unpack_to_member wire (add_bytes bytes) = do
    body ← ok_or (wire.read_message bytes) tls_codec
    expect_public body

  abbrev IsRead : Result MlsError (MessageToMember M Welcome) → Type 0
  IsRead r = ((unpacked : MessageToMember M Welcome) × (r ≡ ok unpacked)) ⊎ (r ≡ err tls_codec)

  expect_private-IsRead : (body : MlsMessageBodyIn M) → IsRead (expect_private body)
  unfolding expect_private
  expect_private-IsRead (private_message m) = inl (group_message m, refl)
  expect_private-IsRead (public_message m) = inr refl
  expect_private-IsRead other_body = inr refl

  expect_public-IsRead : (body : MlsMessageBodyIn M) → IsRead (expect_public body)
  unfolding expect_public
  expect_public-IsRead (private_message m) = inr refl
  expect_public-IsRead (public_message m) = inl (add_to_group m, refl)
  expect_public-IsRead other_body = inr refl

  pub unpack_to_member-cases :
      (wire : MemberWire M Welcome) (message : MessageToMemberTransport)
      → ((unpacked : MessageToMember M Welcome) × (unpack_to_member wire message ≡ ok unpacked))
        ⊎ (unpack_to_member wire message ≡ err tls_codec)
  unfolding unpack_to_member
  unpack_to_member-cases wire (welcome_message bytes) =
      elim (Option-cases (wire.read_welcome bytes)) [
        | inl e ↦ rw e (inr refl)
        | inr (invitation, e) ↦ rw e (inl (welcome invitation, refl))
      ]
  unpack_to_member-cases wire (group_bytes bytes) = elim (Option-cases (wire.read_message bytes)) [
    | inl e ↦ rw e (inr refl)
    | inr (body, e) ↦ rw e (expect_private-IsRead body)
  ]
  unpack_to_member-cases wire (add_bytes bytes) = elim (Option-cases (wire.read_message bytes)) [
    | inl e ↦ rw e (inr refl)
    | inr (body, e) ↦ rw e (expect_public-IsRead body)
  ]
