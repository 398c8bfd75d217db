-- ===== src/SignedObject/Laws.antt =====
-- svalin_pki/src/signed_object.rs: what is signed can be read, by those who know the signer.
use svalin.Prelude.{ℕ, ◌≡◌, refl, some}
use svalin.Prelude.Result.{ok, ◌>>=◌, ok_or, ok_or_iff, bind_iff}
use svalin.Bytes.{Bytes}
use svalin.Platform.{Platform, SignsCorrectly}
use svalin.Certificate.Defs.{Certificate}
use svalin.Verifier.{Verifier}
use svalin.SecureChain.Chain.{Credential}
use svalin.SignedObject.{
  SignedCodec, SignedObject, create_signed, verify_message, sign_object, verify_object,
  postcard_error,
}

-- postcard reads what it writes.
pub record ReadsBack {T : Type 0} (codec : SignedCodec T) : Type 0 where
  pub message_back :
      (m s b : Bytes) → codec.encode_message m s ≡ some b → codec.decode_message b ≡ some (m, s)
  pub object_back : (x : T) (b : Bytes) → codec.to_extend x ≡ some b → codec.from_bytes b ≡ some x

module _ {T : Type 0} (p : Platform) (codec : SignedCodec T) (signs : SignsCorrectly p)
    (laws : ReadsBack codec) where
  -- If postcard reads what it writes and a signature verifies under the public key of its signer: an
  -- object that was signed is read back by every verifier that knows the signer's hash, as it was
  -- signed and with the certificate that the verifier has, if that certificate has the signer's key.
  pub verify_object-sign_object :
      (object : T) (credential : Credential) (signed : SignedObject) (verifier : Verifier)
      (time : ℕ) (signer : Certificate)
      → sign_object p codec object credential ≡ ok signed
      → verifier.verify_spki_hash credential.certificate.spki_hash time ≡ ok signer
      → signer.public_key ≡ p.public_key_of credential.keypair
      → verify_object p codec signed verifier time
        ≡ ok (record { signed_object = signed; object = object; signed_by = signer })
  unfolding sign_object verify_object create_signed verify_message
  verify_object-sign_object object credential signed verifier time signer made known key =
      let (encoded, e1, e2) =
        (bind_iff (ok_or (codec.to_extend object) postcard_error)
            (λ encoded. create_signed p codec encoded credential.keypair >>= λ raw.
              ok (record { raw = raw; singer_spki_hash = credential.certificate.spki_hash }))
            signed).0
          made in
      let (raw, e3, e4) =
        (bind_iff (create_signed p codec encoded credential.keypair)
            (λ raw. ok (record { raw = raw; singer_spki_hash = credential.certificate.spki_hash }))
            signed).0
          e2 in
      let is : signed ≡ record { raw = raw; singer_spki_hash = credential.certificate.spki_hash } =
        cc (e4) in
      let back : codec.decode_message raw ≡ some (encoded, p.sign credential.keypair encoded) =
        laws.message_back _ _ _ ((ok_or_iff _ _ _).0 e3) in
      let object_is : codec.from_bytes encoded ≡ some object =
        laws.object_back object encoded ((ok_or_iff _ _ _).0 e1) in
      rw is (rw (known, back, key, signs.verify-sign credential.keypair encoded, object_is) refl)
