-- ===== src/Mls/KeyPackage.antt =====
-- svalin_pki/src/mls/key_package.rs: a package with which a member can be added to a group.
use svalin.Prelude.{ℕ, not}
use svalin.Prelude.Tests.{◌==◌}
use svalin.Prelude.Lists.{bytes_eq}
use svalin.Prelude.Result.{Result, ok, ok_or, map_err, fail_if, ◌>>=◌}
use svalin.Platform.{SpkiHash}
use svalin.Certificate.Defs.{Certificate}
use svalin.Verifier.{Verifier}
use svalin.Mls.OpenMls.{OpenMls}
use svalin.Mls.Call.{
  MlsError, tls_codec, key_package_invalid, signature_key_mismatch, spki_hash_mismatch,
  verify_error,
}

pub record KeyPackage (M : OpenMls) : Type 0 where
  pub key_package : M.KeyPackage
  pub certificate : Certificate

module _ (M : OpenMls) where
  -- `UnverifiedKeyPackage::spki_hash`
  unfoldable pub unverified_spki_hash : M.KeyPackageIn → Result MlsError SpkiHash
  unverified_spki_hash mls_package =
      ok_or (M.deserialized (M.unverified_credential mls_package)) tls_codec

  -- `UnverifiedKeyPackage::verify`
  unfoldable pub verify_package : Verifier → ℕ → M.KeyPackageIn → Result MlsError (KeyPackage M)
  verify_package verifier now unverified = do
    mls_package ← ok_or (M.validate unverified) key_package_invalid
    spki_hash ← ok_or (M.deserialized (M.leaf_credential mls_package)) tls_codec
    cert ← map_err verify_error (verifier.verify_spki_hash spki_hash now)
    _ ←
        fail_if (not (bytes_eq (M.signature_key mls_package) cert.public_key))
          signature_key_mismatch
    ok (record { key_package = mls_package; certificate = cert })

  -- `KeyPackage::new`
  unfoldable pub new_package : Certificate → M.KeyPackage → Result MlsError (KeyPackage M)
  new_package cert mls_package = do
    spki_hash ← ok_or (M.deserialized (M.leaf_credential mls_package)) tls_codec
    _ ← fail_if (not (spki_hash == cert.spki_hash)) spki_hash_mismatch
    ok (record { key_package = mls_package; certificate = cert })
