-- ===== src/SecureChain/Block.antt =====
-- svalin_pki/src/secure_chain.rs: blocks and their digest.
use svalin.Prelude.{ℕ, ◌+◌, ◌%◌, ◌++◌}
use svalin.Bytes.{Bytes, to_le_bytes, to_be_bytes}
use svalin.Platform.{SpkiHash, InnerDigest, Platform}
use svalin.SecureChain.Interface.{ChainState}

pub record UncheckedBlock (T : Type 0) : Type 0 where
  pub sequence : ℕ
  pub time : ℕ
  pub previous_block_hash : InnerDigest
  pub resulting_state : InnerDigest
  pub signer : SpkiHash
  pub transaction : T
  -- not part of the digest
  pub signature : Bytes

pub record CheckedBlock (T : Type 0) : Type 0 where
  pub as_unchecked : UncheckedBlock T
  pub open as_unchecked use *

-- `BlockDigest::empty`
abbrev pub empty_digest : InnerDigest
empty_digest = 0

-- `+ 1` on a `u64`
abbrev pub next_sequence : ℕ → ℕ
next_sequence n = (n + 1) % 0x1_0000_0000_0000_0000

module _ {State Tx Error Exported ImportError : Type 0} (p : Platform)
    (C : ChainState State Tx Error Exported ImportError) where
  -- What `UncheckedBlock::digest` feeds to the hasher.
  unfoldable pub encode : UncheckedBlock Tx → Bytes
  encode b =
      to_le_bytes 8 b.sequence
      ++ (to_le_bytes 8 b.time
          ++ (to_be_bytes 64 b.previous_block_hash
              ++ (to_be_bytes 64 b.resulting_state
                  ++ (to_be_bytes 32 b.signer ++ C.tx_digest b.transaction))))

  unfoldable pub block_digest : UncheckedBlock Tx → InnerDigest
  unfolding encode
  block_digest b = p.sha512 (encode b)
