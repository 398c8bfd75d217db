-- ===== src/SecureChain/History.antt =====
-- svalin_pki/src/secure_chain.rs: the blocks of a chain, newest first, and their digests.
use svalin.Prelude.{◌<◌, ◌≡◌, ◌≢◌, ◌⊎◌, inl, inr, sym, ap, ◌∙◌, List, [], ◌∷◌, arith}
use svalin.Prelude.Tests.{Bool-cases}
use svalin.Prelude.Lists.{length, head?, bytes_eq, bytes_eq_sound, bytes_eq_self, append-injective}
use svalin.Bytes.{
  Bytes, Fits, to_le_bytes, to_be_bytes, length-to_le_bytes, length-to_be_bytes,
  to_le_bytes-injective, to_be_bytes-injective,
}
use svalin.Platform.{Platform}
use svalin.SecureChain.Interface.{ChainState}
use svalin.SecureChain.Block.{UncheckedBlock, CheckedBlock, encode, block_digest}
use svalin.SecureChain.Check.{Extends}

-- The ranges of the fields: `u64`, 64 and 32 bytes.
pub record IsInRange {T : Type 0} (b : UncheckedBlock T) : Type 0 where
  pub sequence : Fits 8 b.sequence
  pub time : Fits 8 b.time
  pub previous : Fits 64 b.previous_block_hash
  pub state : Fits 64 b.resulting_state
  pub signer : Fits 32 b.signer

-- Two different texts with one SHA-512 digest.
abbrev pub Collision : Platform → Type 0
Collision p = (m : Bytes) × (n : Bytes) × (m ≢ n) × (p.sha512 m ≡ p.sha512 n)

module _ {State Tx Error Exported InnerError : Type 0} (p : Platform)
    (C : ChainState State Tx Error Exported InnerError) where
  -- Equal but for the signatures; the transactions have the same digest bytes.
  pub record SameContent (a b : UncheckedBlock Tx) : Type 0 where
    pub sequence : a.sequence ≡ b.sequence
    pub time : a.time ≡ b.time
    pub previous : a.previous_block_hash ≡ b.previous_block_hash
    pub state : a.resulting_state ≡ b.resulting_state
    pub signer : a.signer ≡ b.signer
    pub transaction : C.tx_digest a.transaction ≡ C.tx_digest b.transaction

  encode-injective :
      (a b : UncheckedBlock Tx)
      → IsInRange a
      → IsInRange b
      → encode p C a ≡ encode p C b
      → SameContent a b
  unfolding encode
  encode-injective a b ra rb e =
      let (e1, r1) =
        append-injective (to_le_bytes 8 a.sequence) (to_le_bytes 8 b.sequence)
          (length-to_le_bytes 8 a.sequence ∙ sym (length-to_le_bytes 8 b.sequence)) e in
      let (e2, r2) =
        append-injective (to_le_bytes 8 a.time) (to_le_bytes 8 b.time)
          (length-to_le_bytes 8 a.time ∙ sym (length-to_le_bytes 8 b.time)) r1 in
      let (e3, r3) =
        append-injective (to_be_bytes 64 a.previous_block_hash)
          (to_be_bytes 64 b.previous_block_hash)
          (length-to_be_bytes 64 _ ∙ sym (length-to_be_bytes 64 _)) r2 in
      let (e4, r4) =
        append-injective (to_be_bytes 64 a.resulting_state) (to_be_bytes 64 b.resulting_state)
          (length-to_be_bytes 64 _ ∙ sym (length-to_be_bytes 64 _)) r3 in
      let (e5, r5) =
        append-injective (to_be_bytes 32 a.signer) (to_be_bytes 32 b.signer)
          (length-to_be_bytes 32 _ ∙ sym (length-to_be_bytes 32 _)) r4 in
      record {
        sequence = to_le_bytes-injective 8 _ _ ra.sequence rb.sequence e1;
        time = to_le_bytes-injective 8 _ _ ra.time rb.time e2;
        previous = to_be_bytes-injective 64 _ _ ra.previous rb.previous e3;
        state = to_be_bytes-injective 64 _ _ ra.state rb.state e4;
        signer = to_be_bytes-injective 32 _ _ ra.signer rb.signer e5;
        transaction = r5;
      }

  -- Two blocks with fields in the range of their types and with one digest are equal but for the
  -- signatures, with transactions of the same digest bytes; or a collision of SHA-512 is at hand.
  pub block_digest_binds :
      (a b : UncheckedBlock Tx)
      → IsInRange a
      → IsInRange b
      → block_digest p C a ≡ block_digest p C b
      → SameContent a b ⊎ Collision p
  unfolding block_digest
  block_digest_binds a b ra rb e = elim (Bool-cases (bytes_eq (encode p C a) (encode p C b))) [
    | inl same ↦ inl (encode-injective a b ra rb (bytes_eq_sound _ _ same))
    | inr other ↦ inr (
      encode p C a,
      encode p C b,
      λ same. cc (other, ap (bytes_eq (encode p C a)) same, bytes_eq_self (encode p C a)),
      e,
    )
  ]

  -- Each block extends the one before it, the first one the empty chain.
  abbrev pub IsHistory : List (CheckedBlock Tx) → Type 0
  IsHistory [] = Unit
  IsHistory (b ∷ older) = Extends p C (head? older) b.as_unchecked × IsHistory older

  abbrev pub AllInRange : List (CheckedBlock Tx) → Type 0
  AllInRange [] = Unit
  AllInRange (b ∷ older) = IsInRange b.as_unchecked × AllInRange older

  abbrev pub SameHistory : List (CheckedBlock Tx) → List (CheckedBlock Tx) → Type 0
  SameHistory [] [] = Unit
  SameHistory [] (b ∷ bs) = ⊥
  SameHistory (a ∷ as') [] = ⊥
  SameHistory (a ∷ as') (b ∷ bs) = SameContent a.as_unchecked b.as_unchecked × SameHistory as' bs

  -- The sequence of the last block is the number of blocks.
  pub sequence-eq-length :
      (b : CheckedBlock Tx) (older : List (CheckedBlock Tx))
      → IsHistory (b ∷ older)
      → length (b ∷ older) < 0x1_0000_0000_0000_0000
      → b.sequence ≡ length (b ∷ older)
  sequence-eq-length b [] h l = h.0.0
  sequence-eq-length b (a ∷ older) h l =
      omega (arith, h.0.0, sequence-eq-length a older h.1 (omega arith))

  -- Two histories of fewer than 2^64 blocks, with fields in the range of their types, whose last
  -- blocks have one digest are the same, block by block, but for the signatures and with
  -- transactions of the same digest bytes; or a collision of SHA-512 is at hand.
  pub history_binds :
      (a b : CheckedBlock Tx) (as' bs : List (CheckedBlock Tx))
      → IsHistory (a ∷ as')
      → IsHistory (b ∷ bs)
      → AllInRange (a ∷ as')
      → AllInRange (b ∷ bs)
      → length (a ∷ as') < 0x1_0000_0000_0000_0000
      → length (b ∷ bs) < 0x1_0000_0000_0000_0000
      → block_digest p C a.as_unchecked ≡ block_digest p C b.as_unchecked
      → SameHistory (a ∷ as') (b ∷ bs) ⊎ Collision p
  history_binds a b [] [] ha hb ra rb la lb e =
      elim (block_digest_binds a.as_unchecked b.as_unchecked ra.0 rb.0 e) [
        | inr collision ↦ inr collision
        | inl same ↦ inl (same, tt)
      ]
  history_binds a b [] (d ∷ bs) ha hb ra rb la lb e =
      elim (block_digest_binds a.as_unchecked b.as_unchecked ra.0 rb.0 e) [
        | inr collision ↦ inr collision
        | inl same ↦
            absurd (omega (arith, ha.0.0, same.sequence, sequence-eq-length b (d ∷ bs) hb lb))
      ]
  history_binds a b (c ∷ as') [] ha hb ra rb la lb e =
      elim (block_digest_binds a.as_unchecked b.as_unchecked ra.0 rb.0 e) [
        | inr collision ↦ inr collision
        | inl same ↦
            absurd (omega (arith, hb.0.0, same.sequence, sequence-eq-length a (c ∷ as') ha la))
      ]
  history_binds a b (c ∷ as') (d ∷ bs) ha hb ra rb la lb e =
      elim (block_digest_binds a.as_unchecked b.as_unchecked ra.0 rb.0 e) [
        | inr collision ↦ inr collision
        | inl same ↦
            elim (history_binds c d as' bs ha.1 hb.1 ra.1 rb.1 (omega arith) (omega arith)
              (sym ha.0.1 ∙ same.previous ∙ hb.0.1)) [
                | inr collision ↦ inr collision
                | inl rest ↦ inl (same, rest)
              ]
      ]
