-- ===== src/Certificate/Kind/Laws.antt =====
-- svalin_pki/src/certificate.rs: the printed form of a certificate type, and who may sign whom.
use svalin.Prelude.{◌≡◌, ◌↔◌, refl, true, false, arith, ◌⊎◌}
use svalin.Prelude.Result.{ok}
use svalin.Prelude.Lists.{bytes_eq_sound}
use svalin.Bytes.{Bytes, codes}
use svalin.Certificate.Kind.{
  CertificateType, root, temporary, user, user_session, agent, server, to_string, from_str,
  should_be_ca, may_be_parent_of, is_user, type_eq,
}

from_str-to_string : (t : CertificateType) → from_str (to_string t) ≡ ok t
unfolding from_str to_string
from_str-to_string root = refl
from_str-to_string temporary = refl
from_str-to_string user = refl
from_str-to_string user_session = refl
from_str-to_string agent = refl
from_str-to_string server = refl

to_string_of_from_str : (s : Bytes) (t : CertificateType) → from_str s ≡ ok t → s ≡ to_string t
unfolding from_str to_string
to_string_of_from_str s t h = ground (
  arith,
  bytes_eq_sound s (codes "root"),
  bytes_eq_sound s (codes "user"),
  bytes_eq_sound s (codes "user_device"),
  bytes_eq_sound s (codes "agent"),
  bytes_eq_sound s (codes "server"),
  bytes_eq_sound s (codes "temporary"),
)

-- A text is read as a certificate type exactly if it is the one that prints that type.
pub from_str_iff : (s : Bytes) (t : CertificateType) → (from_str s ≡ ok t) ↔ (s ≡ to_string t)
from_str_iff s t = (to_string_of_from_str s t, λ e. rw e (from_str-to_string t))

pub type_eq_sound : (s t : CertificateType) → type_eq s t ≡ true → s ≡ t
unfolding type_eq
type_eq_sound s t h = ground arith

pub type_eq_self : (t : CertificateType) → type_eq t t ≡ true
unfolding type_eq
type_eq_self t = ground arith

-- A type may sign another only if it is marked as a CA and is a user's; it signs no root and no
-- temporary certificate, and only the root signs a server.
pub may_be_parent_of_only :
    (p c : CertificateType)
    → may_be_parent_of p c ≡ true
    → (should_be_ca p ≡ true)
      × (is_user p ≡ true)
      × (type_eq c root ≡ false)
      × (type_eq c temporary ≡ false)
      × ((type_eq c server ≡ false) ⊎ (p ≡ root))
unfolding may_be_parent_of should_be_ca is_user type_eq
may_be_parent_of_only root c h = ground arith
may_be_parent_of_only user c h = ground arith
may_be_parent_of_only _ c h = cc
