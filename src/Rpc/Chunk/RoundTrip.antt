-- ===== src/Rpc/Chunk/RoundTrip.antt =====
-- svalin_rpc/src/transport/chunked_transport.rs: writing and reading a chunk, and the length field.
use svalin.Prelude.{ℕ, ◌<◌, ◌≤◌, ◌⊎◌, inl, inr, ◌≡◌, ◌^◌, ◌%◌, ap, ◌∙◌, ◌∷◌, ◌++◌, arith}
use svalin.Prelude.Lists.{length, length-append, take-append, drop-append}
use svalin.Prelude.Result.{ok}
use svalin.Bytes.{Bytes}
use svalin.Rpc.Chunk.{
  max_length, ChunkLength, byte, u32, as_bytes, be_u32, set_top_bit, from_usize, to_usize,
  ChunkReaderError, write_chunk, read_body, read_chunk,
}

read_body-append :
    (chunk rest : Bytes) → read_body (length chunk) (chunk ++ rest) ≡ ok (chunk, rest)
unfolding read_body
read_body-append chunk rest =
    ground (arith, length-append chunk rest, take-append chunk rest, drop-append chunk rest)

to_usize-be_u32 : (n : ℕ) → n < 2 ^ 31 → to_usize (be_u32 (set_top_bit n)) ≡ n
unfolding to_usize
to_usize-be_u32 n h = omega arith

lt_or_ge : (n m : ℕ) → (n < m) ⊎ (m ≤ n)
lt_or_ge n m = omega arith

from_usize-short : {E : Type 0} (n : ℕ) → n < 128 → from_usize {E = E} n ≡ ok (byte n)
unfolding from_usize
from_usize-short n h = ground arith

from_usize-long :
    {E : Type 0} (n : ℕ)
    → 128 ≤ n
    → n < max_length
    → from_usize {E = E} n ≡ ok (be_u32 (set_top_bit n))
unfolding from_usize
from_usize-long n h k = ground arith

read_chunk-short : (b : ℕ) (rest : Bytes) → b < 128 → read_chunk (b ∷ rest) ≡ read_body b rest
unfolding read_chunk
read_chunk-short b rest h = ground arith

read_chunk-long :
    (b0 b1 b2 b3 : ℕ) (rest : Bytes)
    → 128 ≤ b0
    → read_chunk (b0 ∷ b1 ∷ b2 ∷ b3 ∷ rest) ≡ read_body (to_usize (u32 b0 b1 b2 b3)) rest
unfolding read_chunk
read_chunk-long b0 b1 b2 b3 rest h = ground arith

-- A chunk of fewer than 2^31 bytes is written without a panic, and reading gives it back with what
-- stands behind it.
pub read-write :
    (chunk rest : Bytes)
    → length chunk < max_length
    → (out : Bytes) × (write_chunk {E = ChunkReaderError} chunk ≡ ok out)
      × (read_chunk (out ++ rest) ≡ ok (chunk, rest))
unfolding write_chunk
read-write chunk rest h = elim (lt_or_ge (length chunk) 128) [
  | inl short ↦ (
    length chunk ∷ chunk,
    rw (from_usize-short (length chunk) short),
    read_chunk-short (length chunk) (chunk ++ rest) short ∙ read_body-append chunk rest,
  )
  | inr long ↦ (
    as_bytes (be_u32 (set_top_bit (length chunk))) ++ chunk,
    rw (from_usize-long (length chunk) long h),
    read_chunk-long _ _ _ _ (chunk ++ rest) (omega arith)
        ∙ ap (λ n. read_body n (chunk ++ rest)) (to_usize-be_u32 (length chunk) h)
        ∙ read_body-append chunk rest,
  )
]

-- A length up to 2^31 is encoded without a panic, and decodes to itself modulo 2^31: the bound
-- itself to 0.
pub to_usize-from_usize :
    (n : ℕ)
    → n ≤ max_length
    → (l : ChunkLength) × (from_usize {E = ChunkReaderError} n ≡ ok l) × (to_usize l ≡ n % 2 ^ 31)
unfolding from_usize to_usize
to_usize-from_usize n h = elim (lt_or_ge n 128) [
  | inl short ↦ (byte n, from_usize-short n short, omega arith)
  | inr long ↦ (be_u32 (set_top_bit n), ground arith, omega arith)
]
