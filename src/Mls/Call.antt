-- ===== src/Mls/Call.antt =====
-- The calls in svalin_pki/src/mls: they change a state, and the state is kept when they fail. The
-- error is which of them failed.
pub mod Laws
use svalin.Prelude.{ℕ}
use svalin.Prelude.Result.{Result, ok, err, panicked}
use svalin.Platform.{SpkiHash}
use svalin.Certificate.Kind.{CertificateType}
use svalin.Verifier.{VerifyError}
use svalin.Mls.GroupId.{ParseGroupIdError}

pub data MlsError : Type 0 where
  tls_codec unknown_group storage_error process_error forbidden_message_type : MlsError
  invalid_sender member_not_in_group merge_error retriever_error : MlsError
  only_members : MlsError
  edit_not_allowed : CertificateType → MlsError
  cannot_remove_required : SpkiHash → MlsError
  unexpected_certificate_type : CertificateType → MlsError
  key_package_invalid signature_key_mismatch spki_hash_mismatch : MlsError
  missing_ratchet_tree creation_failed unexpected_group invalid_group_id wrong_members : MlsError
  not_a_commit not_a_message unallowed_message_type postcard incorrect_certificate_type : MlsError
  new_group_failed commit_failed message_failed : MlsError
  group_id_error : ParseGroupIdError → MlsError
  verify_error : VerifyError → MlsError

module _ {ℓ} (S : Type ℓ) where
  abbrev pub Call : Type 0 → Type ℓ
  Call A = S → Result MlsError A × S

-- What follows a result
unfoldable pub resume {ℓ} :
    {S : Type ℓ} {A B : Type 0} → (A → Call S B) → Result MlsError A → Call S B
resume f (ok a) s = f a s
resume f (err e) s = (err e, s)
resume f panicked s = (panicked, s)

infixl 5 ◌>>=◌ ◌>>◌
abbrev pub ◌>>=◌ {ℓ} : {S : Type ℓ} {A B : Type 0} → Call S A → (A → Call S B) → Call S B
(m >>= f) s = resume f (m s).0 (m s).1

abbrev pub ◌>>◌ {ℓ} : {S : Type ℓ} {A B : Type 0} → Call S A → Call S B → Call S B
m >> k = m >>= λ _. k

-- A result that does not depend on the state
abbrev pub given {ℓ} : {S : Type ℓ} {A : Type 0} → Result MlsError A → Call S A
given r s = (r, s)
