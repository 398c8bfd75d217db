-- ===== src/Certificate/Hex.antt =====
-- svalin_pki/src/certificate.rs: SPKI hashes as hexadecimal text.
pub mod Panics
pub mod RoundTrip
use svalin.Prelude.{
  ℕ, ◌+◌, ◌-◌, ◌*◌, ◌/◌, ◌%◌, Bool, false, ◌&&◌, ◌||◌, Option, none, some, [], ◌∷◌,
}
use svalin.Prelude.Tests.{ltb, leb, ◌==◌, if◌then◌else◌}
use svalin.Prelude.Lists.{length}
use svalin.Prelude.Result.{Result, ok, err, panicked}
use svalin.Bytes.{Bytes, to_be_bytes, from_be_bytes}
use svalin.Platform.{SpkiHash}

-- A digit as `{:X}` prints it.
abbrev upper_digit : ℕ → ℕ
upper_digit d = if ltb d 10 then b'0' + d else b'A' + (d - 10)

-- `write!(f, "{:02X}", byte)` for each byte
unfoldable pub print_bytes : Bytes → Bytes
print_bytes [] = []
print_bytes (b ∷ bs) = upper_digit (b / 16) ∷ upper_digit (b % 16) ∷ print_bytes bs

-- `SpkiHash::to_string`
unfoldable pub display : SpkiHash → Bytes
display h = print_bytes (to_be_bytes 32 h)

-- `char::to_digit(16)`
abbrev hex_value : ℕ → Option ℕ
hex_value c =
    if leb b'0' c && leb c b'9'
    then some (c - b'0')
    else if leb b'A' c && leb c b'F'
    then some (c - b'A' + 10)
    else if leb b'a' c && leb c b'f'
    then some (c - b'a' + 10)
    else none

-- `u8::from_str_radix(s, 16)` on two bytes: a leading plus sign is accepted.
unfoldable pub from_str_radix : ℕ → ℕ → Option ℕ
from_str_radix a b = if a == b'+' then hex_value b else elim (hex_value a) [
  | none ↦ none
  | some x ↦ elim (hex_value b) [ none ↦ none | some y ↦ some (x * 16 + y) ]
]

-- A byte that stands inside a UTF-8 character.
abbrev pub is_continuation : ℕ → Bool
is_continuation c = leb 128 c && ltb c 192

abbrev cuts_character : Bytes → Bool
cuts_character [] = false
cuts_character (c ∷ _) = is_continuation c

-- The loop over `&issuer_str[i * 2..i * 2 + 2]`. A slice that begins or ends inside a character
-- panics. The name has 64 bytes, so a slice has two.
unfoldable pub issuer_bytes : Bytes → Result Bytes Bytes
issuer_bytes [] = ok []
issuer_bytes (a ∷ []) = panicked
issuer_bytes (a ∷ b ∷ rest) =
    let later = issuer_bytes rest in
    if is_continuation a || cuts_character rest then panicked else elim (from_str_radix a b) [
      | none ↦ err (a ∷ b ∷ rest)
      | some v ↦ elim later [ ok vs ↦ ok (v ∷ vs) | err e ↦ err e | panicked ↦ panicked ]
    ]

-- The issuer's name as an SPKI hash; the error is the name.
unfoldable pub parse_issuer : Bytes → Result Bytes SpkiHash
parse_issuer s =
    if length s == 64
    then elim (issuer_bytes s) [
      | ok bytes ↦ ok (from_be_bytes 0 bytes)
      | err _ ↦ err s
      | panicked ↦ panicked
    ]
    else err s
