-- ===== src/Mls/Client/Accepted.antt =====
-- svalin_pki/src/mls/client.rs: whose messages a client takes.
use svalin.Prelude.{ℕ, ◌≡◌, refl, ap, Bool, true, false, ◌⊎◌, inl, inr}
use svalin.Prelude.Tests.{◌==◌, ==_iff, if◌then◌else◌}
use svalin.Prelude.Result.{ok, err}
use svalin.Bytes.{Bytes}
use svalin.Platform.{SpkiHash}
use svalin.Verifier.{Verifier}
use svalin.Mls.GroupId.{Hex, SvalinGroupId, global_group, device_group, device_meta_group}
use svalin.Mls.OpenMls.{OpenMls, MemberGroups}
use svalin.Mls.Call.{MlsError}
use svalin.Mls.Call.Laws.{resume_iff, resume-given}
use svalin.Mls.Harness.{Harness, KeyRetriever}
use svalin.Mls.Harness.Device.{IsDevice, is_agent}
use svalin.Mls.Processor.{Processor, MemberContent, message_content, staged_content}
use svalin.Mls.Creation.{member_harness}
use svalin.Mls.Client.{
  SvalinMessage, report, meta_info, MessageData, MessageDataContent, device_report,
  device_meta_info, deliver, bytes_of, check_device,
}

-- A check before a result
checked :
    {A : Type 0} (b : Bool) (e : MlsError) (a b' : A)
    → (if b then ok a else err e) ≡ ok b'
    → (b ≡ true) × (b' ≡ a)
checked true e a b' h = (refl, cc)
checked false e a b' h = absurd (cc)

module _ {Report MetaInfo : Type 0} where
  -- The contents that may stand in a message of a sender to a group
  abbrev pub IsSent :
      SvalinGroupId
      → SpkiHash
      → SvalinMessage Report MetaInfo
      → MessageDataContent Report MetaInfo
      → Type 0
  IsSent id sender (report r) content =
      (id ≡ device_group sender) × (content ≡ device_report sender r)
  IsSent id sender (meta_info m) content =
      (device : SpkiHash) × (id ≡ device_meta_group device) × (content ≡ device_meta_info device m)

  pub deliver-IsSent :
      (id : SvalinGroupId) (sender : SpkiHash) (message : SvalinMessage Report MetaInfo)
      (data_ : MessageData Report MetaInfo)
      → deliver id sender message ≡ ok data_
      → (data_.group ≡ id) × IsSent id sender message data_.content
  unfolding deliver
  deliver-IsSent global_group sender (report r) out h = absurd (cc)
  deliver-IsSent (device_group d) sender (report r) out h =
      let (same, is) = checked (d == sender) _ _ out h in
      rw is (
        refl,
        (
          ap device_group ((==_iff d sender).0 same),
          ap (λ s. device_report s r) ((==_iff d sender).0 same),
        ),
      )
  deliver-IsSent (device_meta_group d) sender (report r) out h = absurd (cc)
  deliver-IsSent global_group sender (meta_info m) out h = absurd (cc)
  deliver-IsSent (device_group d) sender (meta_info m) out h = absurd (cc)
  deliver-IsSent (device_meta_group d) sender (meta_info m) out h =
      let is : out ≡ record { group = device_meta_group d; content = device_meta_info d m } = cc in
      rw is (refl, (d, refl, refl))

pub bytes_of-ok :
    {M : OpenMls} (c : MemberContent M) (bytes : Bytes)
    → bytes_of c ≡ ok bytes
    → c ≡ message_content bytes
bytes_of-ok (message_content b) bytes h = cc
bytes_of-ok (staged_content s) bytes h = absurd (cc)

module _ {M : OpenMls} (G : MemberGroups M) (hex : Hex) (retriever : KeyRetriever M)
    (verifier : Verifier) (now : ℕ) where
  abbrev pub harness : Harness M (Processor G)
  harness = member_harness G hex retriever verifier now

  -- The group is the global one or that of a device with a verified agent certificate.
  abbrev pub IsAdmitted : SvalinGroupId → Type 0
  IsAdmitted id = (id ≡ global_group) ⊎ IsDevice harness id

  pub check_device-IsAdmitted :
      (me : SpkiHash) (id : SvalinGroupId) (p : Processor G)
      → (check_device G hex retriever verifier now me id p).0 ≡ ok tt
      → IsAdmitted id
  unfolding check_device
  check_device-IsAdmitted me global_group p h = inl refl
  check_device-IsAdmitted me (device_group k) p h =
      let (cert, a, b) = (resume_iff _ _ _ _).0 h in
      inr (cert, a, is_agent cert.certificate_type _ b)
  check_device-IsAdmitted me (device_meta_group k) p h =
      let (cert, a, b) = (resume_iff _ _ _ _).0 h in
      inr (cert, a, is_agent cert.certificate_type _ b)

  pub check_device-state :
      (me : SpkiHash) (id : SvalinGroupId) (p : Processor G)
      → (check_device G hex retriever verifier now me id p).1 ≡ p
  unfolding check_device
  check_device-state me global_group p = refl
  check_device-state me (device_group h) p = resume-given _ _ p
  check_device-state me (device_meta_group h) p = resume-given _ _ p
