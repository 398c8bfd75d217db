-- ===== src/Rpc/Permission.antt =====
-- svalin_rpc/src/permissions and svalin/src/permissions: what a peer may do.
-- The texts of the denials are not modelled.
pub mod Laws
use svalin.Prelude.{Bool, true, false, Option, some, none, List, [], ◌∷◌}
use svalin.Prelude.Tests.{◌==◌, if◌then◌else◌}
use svalin.Prelude.Result.{Result, ok, err, Done}
use svalin.HashMap.{HashMap, lookup, insert}
use svalin.Platform.{SpkiHash}
use svalin.Certificate.Kind.{CertificateType, root, user, user_session, agent, server, temporary}
use svalin.Certificate.Defs.{Certificate, RootCertificate, cert_eq}

pub data Peer : Type 0 where
  certificate : Certificate → Peer
  anonymous : Peer

pub data PermissionCheckError : Type 0 where
  permission_denied handler_error : PermissionCheckError

-- A permission handler is its method `may`.
abbrev pub PermissionHandler : Type 0 → Type 0
PermissionHandler P = Peer → P → Result PermissionCheckError Done

-- `Permission` of the crate svalin
pub data Permission : Type 0 where
  root_only_placeholder agent_only_placeholder user_or_session view_public_information
        authenticated_only anonymous_only session_only :
      Permission

-- The commands that the server and the agents register.
pub data Command : Type 0 where
  ping public_status forward load_certificate_chain e2e deauthenticate get_key_packages
        update_user_mls agent_messages agent_message_sender client_messages client_message_sender
        get_user_credentials request_system_report update_agent update_trust_store :
      Command

-- `From<&PermissionPrecursor<H>>`, for the handler `H` of each command
unfoldable pub required : Command → Permission
required ping = view_public_information
required public_status = view_public_information
required forward = root_only_placeholder
required load_certificate_chain = authenticated_only
required e2e = anonymous_only
required deauthenticate = authenticated_only
required get_key_packages = authenticated_only
required update_user_mls = user_or_session
required agent_messages = agent_only_placeholder
required agent_message_sender = agent_only_placeholder
required client_messages = user_or_session
required client_message_sender = user_or_session
required get_user_credentials = session_only
required request_system_report = session_only
required update_agent = session_only
required update_trust_store = authenticated_only

abbrev user_allowed : Permission → Bool
user_allowed user_or_session = true
user_allowed _ = false

abbrev session_allowed : RootCertificate → Certificate → Permission → Bool
session_allowed r c root_only_placeholder = c.issuer == r.spki_hash
session_allowed r c authenticated_only = true
session_allowed r c view_public_information = true
session_allowed r c user_or_session = true
session_allowed r c session_only = true
session_allowed r c _ = false

abbrev agent_allowed : Permission → Bool
agent_allowed authenticated_only = true
agent_allowed view_public_information = true
agent_allowed agent_only_placeholder = true
agent_allowed _ = false

abbrev server_allowed : Permission → Bool
server_allowed authenticated_only = true
server_allowed _ = false

-- `allowed`, by the certificate's type
unfoldable pub allowed : CertificateType → RootCertificate → Certificate → Permission → Bool
allowed root r c p = false
allowed user r c p = user_allowed p
allowed user_session r c p = session_allowed r c p
allowed agent r c p = agent_allowed p
allowed server r c p = server_allowed p
allowed temporary r c p = false

unfoldable pub anonymous_may : Permission → Result PermissionCheckError Done
anonymous_may root_only_placeholder = err permission_denied
anonymous_may agent_only_placeholder = err permission_denied
anonymous_may user_or_session = err permission_denied
anonymous_may view_public_information = ok tt
anonymous_may anonymous_only = ok tt
anonymous_may authenticated_only = err permission_denied
anonymous_may session_only = err permission_denied

-- `DefaultPermissionHandler::may`
unfoldable pub default_may : RootCertificate → PermissionHandler Permission
unfolding allowed anonymous_may
default_may r (certificate c) p =
    if allowed c.certificate_type r c p then ok tt else err permission_denied
default_may r anonymous p = anonymous_may p

-- `AnonymousPermissionHandler::may`
unfoldable pub anonymous_only_may : {P : Type 0} → PermissionHandler P
anonymous_only_may anonymous p = ok tt
anonymous_only_may (certificate c) p = err permission_denied

-- `WhitelistPermissionHandler::new`: `collect` keeps the last certificate of a hash.
unfoldable pub whitelist_from : HashMap Certificate → List Certificate → HashMap Certificate
whitelist_from m [] = m
whitelist_from m (c ∷ l) = whitelist_from (insert c.spki_hash c m) l

abbrev pub new_whitelist : List Certificate → HashMap Certificate
new_whitelist l = whitelist_from [] l

-- `WhitelistPermissionHandler::may`
unfoldable pub whitelist_may : {P : Type 0} → HashMap Certificate → PermissionHandler P
whitelist_may m (certificate c) p = elim (lookup c.spki_hash m) [
  | some known ↦ if cert_eq known.to_unverified c.to_unverified then ok tt else err handler_error
  | none ↦ err permission_denied
]
whitelist_may m anonymous p = err permission_denied
