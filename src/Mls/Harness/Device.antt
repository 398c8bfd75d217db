-- ===== src/Mls/Harness/Device.antt =====
-- svalin_pki/src/mls: the device of a group, which the server and the clients look up.
use svalin.Prelude.{◌≡◌, not}
use svalin.Prelude.Tests.{not-false}
use svalin.Prelude.Result.{ok, fail_if, fail_if_iff}
use svalin.Certificate.Kind.{CertificateType, agent, type_eq}
use svalin.Certificate.Kind.Laws.{type_eq_sound}
use svalin.Certificate.Defs.{Certificate}
use svalin.Mls.GroupId.{SvalinGroupId, global_group, device_group, device_meta_group}
use svalin.Mls.OpenMls.{OpenMls}
use svalin.Mls.Call.{MlsError}
use svalin.Mls.Harness.{Harness, verify_spki_hash}

pub is_agent :
    (t : CertificateType) (e : MlsError) → fail_if (not (type_eq t agent)) e ≡ ok tt → t ≡ agent
is_agent t e h = type_eq_sound t agent (not-false _ ((fail_if_iff _ _).0 h))

module _ {M : OpenMls} {S : Type 0} (harness : Harness M S) where
  -- The group is that of a device, which has a verified certificate of an agent. The global group has
  -- no device.
  abbrev pub IsDevice : SvalinGroupId → Type 0
  IsDevice global_group = ⊥
  IsDevice (device_group h) =
      (cert : Certificate) × (verify_spki_hash harness h ≡ ok cert)
      × (cert.certificate_type ≡ agent)
  IsDevice (device_meta_group h) =
      (cert : Certificate) × (verify_spki_hash harness h ≡ ok cert)
      × (cert.certificate_type ≡ agent)
