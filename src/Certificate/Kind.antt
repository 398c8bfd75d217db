-- ===== src/Certificate/Kind.antt =====
-- svalin_pki/src/certificate.rs: `CertificateType`, its printed form and its rules.
pub mod Laws
use svalin.Prelude.{ℕ, ◌*◌, Bool, true, false}
use svalin.Prelude.Result.{Result, ok, err}
use svalin.Prelude.Lists.{bytes_eq}
use svalin.Prelude.Tests.{if◌then◌else◌}
use svalin.Bytes.{Bytes, codes}

pub data CertificateType : Type 0 where
  root temporary user user_session agent server : CertificateType

pub data CertificateTypeError : Type 0 where
  invalid_type : CertificateTypeError

-- `Display`
unfoldable pub to_string : CertificateType → Bytes
to_string root = codes "root"
to_string user = codes "user"
to_string user_session = codes "user_device"
to_string agent = codes "agent"
to_string server = codes "server"
to_string temporary = codes "temporary"

unfoldable pub from_str : Bytes → Result CertificateTypeError CertificateType
from_str s =
    if bytes_eq s (codes "root")
    then ok root
    else if bytes_eq s (codes "user")
    then ok user
    else if bytes_eq s (codes "user_device")
    then ok user_session
    else if bytes_eq s (codes "agent")
    then ok agent
    else if bytes_eq s (codes "server")
    then ok server
    else if bytes_eq s (codes "temporary")
    then ok temporary
    else err invalid_type

unfoldable pub should_be_ca : CertificateType → Bool
should_be_ca root = true
should_be_ca user = true
should_be_ca user_session = false
should_be_ca agent = false
should_be_ca server = false
should_be_ca temporary = false

abbrev days : ℕ → ℕ
days n = n * 86400

-- In seconds.
unfoldable pub validity_duration : CertificateType → ℕ
validity_duration root = days (365 * 10)
validity_duration user = days (365 * 1)
validity_duration user_session = days 30
validity_duration agent = days (365 * 1)
validity_duration server = days (365 * 10)
validity_duration temporary = 60

unfoldable pub may_be_parent_of : CertificateType → CertificateType → Bool
may_be_parent_of root root = false
may_be_parent_of root server = true
may_be_parent_of root user = true
may_be_parent_of root agent = true
may_be_parent_of root user_session = true
may_be_parent_of root temporary = false
may_be_parent_of user root = false
may_be_parent_of user server = false
may_be_parent_of user user = true
may_be_parent_of user agent = true
may_be_parent_of user user_session = true
may_be_parent_of user temporary = false
may_be_parent_of user_session child_type = false
may_be_parent_of agent child_type = false
may_be_parent_of server child_type = false
may_be_parent_of temporary child_type = false

unfoldable pub is_user : CertificateType → Bool
is_user root = true
is_user user = true
is_user _ = false

-- `==`, which is derived
unfoldable pub type_eq : CertificateType → CertificateType → Bool
type_eq root root = true
type_eq temporary temporary = true
type_eq user user = true
type_eq user_session user_session = true
type_eq agent agent = true
type_eq server server = true
type_eq _ _ = false
