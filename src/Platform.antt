-- ===== src/Platform.antt =====
-- The third-party code that the program calls: x509-parser, ring and sha2. It is a parameter.
use svalin.Prelude.{ℕ, ◌≡◌, Bool, true, Option}
use svalin.Bytes.{Bytes}

-- An `i64` timestamp; `negsuc n` is -(n + 1).
pub data ℤ : Type 0 where
  pos : ℕ → ℤ
  negsuc : ℕ → ℤ

-- 32 bytes, read as one big-endian number: `==` and the derived `Ord` are those of the number.
abbrev pub SpkiHash : Type 0
SpkiHash = ℕ

-- 64 bytes, read in the same way.
abbrev pub InnerDigest : Type 0
InnerDigest = ℕ

-- What the program reads of an `X509Certificate`. In a name, `none` is a missing attribute and
-- `some none` one that is no string.
pub record X509 : Type 0 where
  pub spki : Bytes
  pub subject_public_key : Bytes
  pub common_name : Option (Option Bytes)
  pub organizational_unit : Option (Option Bytes)
  pub issuer_common_name : Option (Option Bytes)
  pub issuer_is_subject : Bool
  pub is_ca : Bool
  pub not_before : ℤ
  pub not_after : ℤ

pub record Platform : Type 0 where
  -- `X509Certificate::from_der`
  pub parse_x509 : Bytes → Option X509
  -- `not_after - not_before`, in seconds
  pub lifetime : ℤ → ℤ → Option ℕ
  -- `cert.verify_signature(Some(issuer.public_key()))`
  pub signature_valid : X509 → X509 → Bool
  pub sha512_256 : Bytes → SpkiHash
  pub sha512 : Bytes → InnerDigest
  -- the public key of a key pair, `Ed25519KeyPair::sign`, `ED25519.verify`
  pub public_key_of : Bytes → Bytes
  pub sign : Bytes → Bytes → Bytes
  pub verify : Bytes → Bytes → Bytes → Bool

-- A signature made with a key pair verifies under its public key.
pub record SignsCorrectly (p : Platform) : Type 0 where
  pub verify-sign : (k m : Bytes) → p.verify (p.public_key_of k) m (p.sign k m) ≡ true
