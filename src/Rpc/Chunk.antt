-- ===== src/Rpc/Chunk.antt =====
-- svalin_rpc/src/transport/chunked_transport.rs: chunks with a length of one byte or four.
pub mod RoundTrip
use svalin.Prelude.{
  ℕ, zero, suc, ◌+◌, ◌*◌, ◌%◌, ◌/◌, ◌^◌, Bool, Option, none, some, List, [], ◌∷◌, ◌++◌,
}
use svalin.Prelude.Tests.{ltb, leb, if◌then◌else◌}
use svalin.Prelude.Lists.{length, take, drop}
use svalin.Prelude.Result.{Result, ok, err, panicked, ◌>>=◌}
use svalin.Bytes.{Bytes, to_be_bytes, from_be_bytes}

abbrev pub max_length : ℕ
max_length = 2 ^ 31

pub data ChunkLength : Type 0 where
  byte : ℕ → ChunkLength
  u32 : ℕ → ℕ → ℕ → ℕ → ChunkLength

unfoldable pub as_bytes : ChunkLength → Bytes
as_bytes (byte b) = b ∷ []
as_bytes (u32 b0 b1 b2 b3) = b0 ∷ b1 ∷ b2 ∷ b3 ∷ []

-- `to_be_bytes` of a `u32`
abbrev be_u32 : ℕ → ChunkLength
be_u32 v = u32 (v / 2 ^ 24 % 256) (v / 2 ^ 16 % 256) (v / 2 ^ 8 % 256) (v % 256)

-- `len | (1 << 31)` on a `u32` sets the top bit.
abbrev set_top_bit : ℕ → ℕ
set_top_bit len = len % 2 ^ 31 + 2 ^ 31

unfoldable pub from_usize : {E : Type 0} → ℕ → Result E ChunkLength
from_usize len =
    if ltb max_length len
    then panicked
    else if ltb len 128
    then ok (byte (len % 256))
    else ok (be_u32 (set_top_bit len))

unfoldable pub try_from_byte : ℕ → Option ChunkLength
try_from_byte b = if ltb b 128 then some (byte b) else none

-- `b[0] &= 0b0111_1111` clears the top bit.
unfoldable pub to_usize : ChunkLength → ℕ
to_usize (byte b) = b
to_usize (u32 b0 b1 b2 b3) = (b0 % 128) * 2 ^ 24 + b1 * 2 ^ 16 + b2 * 2 ^ 8 + b3

pub data ChunkReaderError : Type 0 where
  length_read_error extended_length_read_error body_read_error : ChunkReaderError

-- `write_chunk`, as the bytes it writes to a transport that does not fail
unfoldable pub write_chunk : {E : Type 0} → Bytes → Result E Bytes
unfolding from_usize as_bytes
write_chunk chunk = do len ← from_usize (length chunk); ok (as_bytes len ++ chunk)

-- The chunk's body: `read_exact`.
unfoldable pub read_body : ℕ → Bytes → Result ChunkReaderError (Bytes × Bytes)
read_body n stream =
    if leb n (length stream) then ok (take n stream, drop n stream) else err body_read_error

abbrev read_long : ℕ → Bytes → Result ChunkReaderError (Bytes × Bytes)
read_long b0 (b1 ∷ b2 ∷ b3 ∷ rest) = read_body (to_usize (u32 b0 b1 b2 b3)) rest
read_long b0 _ = err length_read_error

-- `read_chunk`, on the bytes that the transport will still give: the chunk and the bytes behind it
unfoldable pub read_chunk : Bytes → Result ChunkReaderError (Bytes × Bytes)
unfolding try_from_byte to_usize read_body
read_chunk [] = err length_read_error
read_chunk (short_len ∷ rest) = elim (try_from_byte short_len) [
  | some len ↦ read_body (to_usize len) rest
  | none ↦ read_long short_len rest
]
