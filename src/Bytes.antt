-- ===== src/Bytes.antt =====
-- Fixed-width integers as bytes: `to_le_bytes`, `to_be_bytes`, `from_be_bytes`, and ASCII text.
use Prim.Native.Char.{code}
use Prim.Native.String.{String}
use svalin.Prelude.{
  ℕ, zero, suc, ◌+◌, ◌*◌, ◌/◌, ◌%◌, ◌<◌, ◌≡◌, refl, ap, List, [], ◌∷◌, ◌++◌, arith,
}
use svalin.Prelude.Lists.{length, length-append}

abbrev pub Bytes : Type 0
Bytes = List ℕ

-- The code points of a text, which are its bytes if it is ASCII.
abbrev pub codes : String → Bytes
codes String.[] = []
codes (String.◌∷◌ c s) = code c ∷ codes s

-- The last `n` bytes of a number, least significant first.
unfoldable pub to_le_bytes : ℕ → ℕ → Bytes
to_le_bytes zero v = []
to_le_bytes (suc n) v = (v % 256) ∷ to_le_bytes n (v / 256)

unfoldable pub to_be_bytes : ℕ → ℕ → Bytes
to_be_bytes zero v = []
to_be_bytes (suc n) v = to_be_bytes n (v / 256) ++ (v % 256) ∷ []

-- `from_be_bytes`, from a first value on.
unfoldable pub from_be_bytes : ℕ → Bytes → ℕ
from_be_bytes acc [] = acc
from_be_bytes acc (b ∷ bs) = from_be_bytes (acc * 256 + b) bs

-- The number has at most `n` bytes.
abbrev pub Fits : ℕ → ℕ → Type 0
Fits zero v = v ≡ 0
Fits (suc n) v = Fits n (v / 256)

pub length-to_le_bytes : (n v : ℕ) → length (to_le_bytes n v) ≡ n
unfolding to_le_bytes
length-to_le_bytes zero v = refl
length-to_le_bytes (suc n) v = ap suc (length-to_le_bytes n (v / 256))

pub length-to_be_bytes : (n v : ℕ) → length (to_be_bytes n v) ≡ n
unfolding to_be_bytes
length-to_be_bytes zero v = refl
length-to_be_bytes (suc n) v = omega (
  arith,
  length-append (to_be_bytes n (v / 256)) ((v % 256) ∷ []),
  length-to_be_bytes n (v / 256),
)

from_be_bytes-append :
    (acc : ℕ) (bs : Bytes) (b : ℕ)
    → from_be_bytes acc (bs ++ b ∷ []) ≡ from_be_bytes acc bs * 256 + b
unfolding from_be_bytes
from_be_bytes-append acc [] b = refl
from_be_bytes-append acc (c ∷ bs) b = from_be_bytes-append (acc * 256 + c) bs b

-- Decoding the bytes of a number that fits gives the number.
pub from-to_be_bytes : (n v : ℕ) → Fits n v → from_be_bytes 0 (to_be_bytes n v) ≡ v
unfolding to_be_bytes
from-to_be_bytes zero v h = unfold from_be_bytes in omega arith
from-to_be_bytes (suc n) v h = omega (
  arith,
  from_be_bytes-append 0 (to_be_bytes n (v / 256)) (v % 256),
  from-to_be_bytes n (v / 256) h,
)

pub to_le_bytes-injective :
    (n v w : ℕ) → Fits n v → Fits n w → to_le_bytes n v ≡ to_le_bytes n w → v ≡ w
unfolding to_le_bytes
to_le_bytes-injective zero v w hv hw e = omega arith
to_le_bytes-injective (suc n) v w hv hw e =
    let high : v / 256 ≡ w / 256 = to_le_bytes-injective n (v / 256) (w / 256) hv hw (cc) in
    let low : v % 256 ≡ w % 256 = cc in omega arith

pub to_be_bytes-injective :
    (n v w : ℕ) → Fits n v → Fits n w → to_be_bytes n v ≡ to_be_bytes n w → v ≡ w
to_be_bytes-injective n v w hv hw e =
    cc (from-to_be_bytes n v hv, from-to_be_bytes n w hw, ap (from_be_bytes 0) e)

-- A `u64` has eight bytes.
pub Fits-u64 : (v : ℕ) → v < 0x1_0000_0000_0000_0000 → Fits 8 v
Fits-u64 v h = omega arith
