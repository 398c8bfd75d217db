-- ===== src/Rpc/Permission/Laws.antt =====
-- svalin/src/permissions and svalin_rpc/src/permissions: the permission handlers, against tables.
use svalin.Prelude.{
  ◌≡◌, ◌↔◌, ◌⊎◌, inl, inr, refl, ap, ◌∙◌, true, Option, some, none, List, [], ◌∷◌, arith,
}
use svalin.Prelude.Tests.{◌==◌, if◌then◌else◌, Option-cases}
use svalin.Prelude.Lists.{bytes_eq_sound, bytes_eq_self}
use svalin.Prelude.Result.{ok}
use svalin.HashMap.{HashMap, lookup, insert, lookup-insert}
use svalin.Platform.{SpkiHash}
use svalin.Certificate.Kind.{CertificateType, root, user, user_session, agent, server, temporary}
use svalin.Certificate.Defs.{Certificate, RootCertificate}
use svalin.Rpc.Permission.{
  certificate, anonymous, Permission, root_only_placeholder, agent_only_placeholder,
  user_or_session, view_public_information, authenticated_only, anonymous_only, session_only,
  default_may, allowed, whitelist_from, new_whitelist, whitelist_may,
}

-- The certificate types that have a permission, and the certificates of a type.
abbrev pub IsAllowed : RootCertificate → Certificate → CertificateType → Permission → Type 0
IsAllowed r c t root_only_placeholder = (t ≡ user_session) × (c.issuer ≡ r.spki_hash)
IsAllowed r c t agent_only_placeholder = t ≡ agent
IsAllowed r c t user_or_session = (t ≡ user) ⊎ (t ≡ user_session)
IsAllowed r c t view_public_information = (t ≡ user_session) ⊎ (t ≡ agent)
IsAllowed r c t authenticated_only = (t ≡ user_session) ⊎ (t ≡ agent) ⊎ (t ≡ server)
IsAllowed r c t anonymous_only = ⊥
IsAllowed r c t session_only = t ≡ user_session

allowed_iff :
    (t : CertificateType) (r : RootCertificate) (c : Certificate) (p : Permission)
    → (allowed t r c p ≡ true) ↔ IsAllowed r c t p
unfolding allowed
allowed_iff root r c root_only_placeholder = ground arith
allowed_iff root r c agent_only_placeholder = ground arith
allowed_iff root r c user_or_session = ground arith
allowed_iff root r c view_public_information = ground arith
allowed_iff root r c authenticated_only = ground arith
allowed_iff root r c anonymous_only = ground arith
allowed_iff root r c session_only = ground arith
allowed_iff user r c root_only_placeholder = ground arith
allowed_iff user r c agent_only_placeholder = ground arith
allowed_iff user r c user_or_session = ground arith
allowed_iff user r c view_public_information = ground arith
allowed_iff user r c authenticated_only = ground arith
allowed_iff user r c anonymous_only = ground arith
allowed_iff user r c session_only = ground arith
allowed_iff user_session r c root_only_placeholder = ground arith
allowed_iff user_session r c agent_only_placeholder = ground arith
allowed_iff user_session r c user_or_session = ground arith
allowed_iff user_session r c view_public_information = ground arith
allowed_iff user_session r c authenticated_only = ground arith
allowed_iff user_session r c anonymous_only = ground arith
allowed_iff user_session r c session_only = ground arith
allowed_iff agent r c root_only_placeholder = ground arith
allowed_iff agent r c agent_only_placeholder = ground arith
allowed_iff agent r c user_or_session = ground arith
allowed_iff agent r c view_public_information = ground arith
allowed_iff agent r c authenticated_only = ground arith
allowed_iff agent r c anonymous_only = ground arith
allowed_iff agent r c session_only = ground arith
allowed_iff server r c root_only_placeholder = ground arith
allowed_iff server r c agent_only_placeholder = ground arith
allowed_iff server r c user_or_session = ground arith
allowed_iff server r c view_public_information = ground arith
allowed_iff server r c authenticated_only = ground arith
allowed_iff server r c anonymous_only = ground arith
allowed_iff server r c session_only = ground arith
allowed_iff temporary r c root_only_placeholder = ground arith
allowed_iff temporary r c agent_only_placeholder = ground arith
allowed_iff temporary r c user_or_session = ground arith
allowed_iff temporary r c view_public_information = ground arith
allowed_iff temporary r c authenticated_only = ground arith
allowed_iff temporary r c anonymous_only = ground arith
allowed_iff temporary r c session_only = ground arith

-- A peer with a certificate may do exactly what `IsAllowed` lists for the certificate's type.
pub default_may_iff :
    (r : RootCertificate) (c : Certificate) (p : Permission)
    → (default_may r (certificate c) p ≡ ok tt) ↔ IsAllowed r c c.certificate_type p
unfolding default_may
default_may_iff r c p = ground (arith, allowed_iff c.certificate_type r c p)

-- A peer without a certificate may view public information and do what is for anonymous peers only.
pub default_may-anonymous_iff :
    (r : RootCertificate) (p : Permission)
    → (default_may r anonymous p ≡ ok tt) ↔ ((p ≡ view_public_information) ⊎ (p ≡ anonymous_only))
unfolding default_may
default_may-anonymous_iff r root_only_placeholder = ground arith
default_may-anonymous_iff r agent_only_placeholder = ground arith
default_may-anonymous_iff r user_or_session = ground arith
default_may-anonymous_iff r view_public_information = ground arith
default_may-anonymous_iff r authenticated_only = ground arith
default_may-anonymous_iff r anonymous_only = ground arith
default_may-anonymous_iff r session_only = ground arith

-- The last certificate of the list with the hash, or the default.
abbrev pub last_with : SpkiHash → List Certificate → Option Certificate → Option Certificate
last_with k [] o = o
last_with k (c ∷ l) o = last_with k l (if c.spki_hash == k then some c else o)

lookup-whitelist_from :
    (k : SpkiHash) (m : HashMap Certificate) (l : List Certificate)
    → lookup k (whitelist_from m l) ≡ last_with k l (lookup k m)
unfolding whitelist_from
lookup-whitelist_from k m [] = refl
lookup-whitelist_from k m (c ∷ l) =
    lookup-whitelist_from k (insert c.spki_hash c m) l
    ∙ ap (last_with k l) (lookup-insert c.spki_hash k c m)

-- A whitelist lets a peer pass exactly if the last certificate of the list with the hash of the
-- peer's certificate has its encoding.
pub whitelist_may_iff :
    (l : List Certificate) (c : Certificate)
    → (whitelist_may (new_whitelist l) (certificate c) tt ≡ ok tt)
      ↔ ((d : Certificate) × (last_with c.spki_hash l none ≡ some d) × (d.der ≡ c.der))
unfolding whitelist_may
whitelist_may_iff l c =
    rw (lookup-whitelist_from c.spki_hash [] l, whitelist_may)
      (elim (Option-cases (last_with c.spki_hash l none)) [
        | inl e ↦ ground arith
        | inr (d, e) ↦ grind (arith, bytes_eq_sound, bytes_eq_self)
      ])
