-- ===== src/SignedObject.antt =====
-- svalin_pki/src/signed_message.rs and svalin_pki/src/signed_object.rs: data behind a signature, which
-- is read only with a verifier.
pub mod Laws
use svalin.Prelude.{ℕ, Bool, not, Option, none, some}
use svalin.Prelude.Result.{Result, Done, ok, err, panicked, ◌>>=◌, ok_or, map_err, fail_if}
use svalin.Bytes.{Bytes}
use svalin.Platform.{SpkiHash, Platform}
use svalin.Certificate.Defs.{Certificate}
use svalin.Verifier.{Verifier, VerifyError}
use svalin.SecureChain.Chain.{Credential}

-- postcard, of a message with its signature and of the objects
pub record SignedCodec (T : Type 0) : Type 0 where
  pub encode_message : Bytes → Bytes → Option Bytes
  pub decode_message : Bytes → Option (Bytes × Bytes)
  pub to_extend : T → Option Bytes
  pub from_bytes : Bytes → Option T

pub data SignedError : Type 0 where
  postcard_error verification_failed : SignedError
  signer_not_verified : VerifyError → SignedError

pub record SignedObject : Type 0 where
  pub raw : Bytes
  pub singer_spki_hash : SpkiHash

pub record VerifiedObject (T : Type 0) : Type 0 where
  pub signed_object : SignedObject
  pub object : T
  pub signed_by : Certificate

module _ {T : Type 0} (p : Platform) (codec : SignedCodec T) where
  -- `SignedMessage::create`
  unfoldable pub create_signed : Bytes → Bytes → Result SignedError Bytes
  create_signed message keypair =
      ok_or (codec.encode_message message (p.sign keypair message)) postcard_error

  -- `SignedMessage::verify`
  unfoldable pub verify_message : Bytes → Bytes → Result SignedError Bytes
  verify_message signed_message public_key = do
    decoded ← ok_or (codec.decode_message signed_message) postcard_error
    _ ← fail_if (not (p.verify public_key decoded.0 decoded.1)) verification_failed
    ok decoded.0

  unfoldable pub sign_object : T → Credential → Result SignedError SignedObject
  unfolding create_signed
  sign_object object credential = do
    encoded ← ok_or (codec.to_extend object) postcard_error
    raw ← create_signed encoded credential.keypair
    ok (record { raw = raw; singer_spki_hash = credential.certificate.spki_hash })

  unfoldable pub verify_object : SignedObject → Verifier → ℕ → Result SignedError (VerifiedObject T)
  unfolding verify_message
  verify_object signed verifier time = do
    signer ← map_err signer_not_verified (verifier.verify_spki_hash signed.singer_spki_hash time)
    bytes ← verify_message signed.raw signer.public_key
    object ← ok_or (codec.from_bytes bytes) postcard_error
    ok (record { signed_object = signed; object = object; signed_by = signer })
