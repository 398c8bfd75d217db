-- ===== src/Certificate/Hex/RoundTrip.antt =====
-- svalin_pki/src/certificate.rs: printing an SPKI hash and reading an issuer name.
use svalin.Prelude.{ℕ, zero, suc, ◌*◌, ◌/◌, ◌%◌, ◌<◌, ◌≡◌, refl, false, some, [], ◌∷◌, ◌++◌, arith}
use svalin.Prelude.Lists.{length, All}
use svalin.Prelude.Result.{ok}
use svalin.Bytes.{Bytes, to_be_bytes, Fits, from-to_be_bytes, length-to_be_bytes}
use svalin.Platform.{SpkiHash}
use svalin.Certificate.Hex.{
  print_bytes, display, upper_digit, is_continuation, cuts_character, from_str_radix, issuer_bytes,
  parse_issuer,
}

abbrev AreBytes : Bytes → Type 0
AreBytes = All (λ b. b < 256)

AreBytes-append : (xs ys : Bytes) → AreBytes xs → AreBytes ys → AreBytes (xs ++ ys)
AreBytes-append [] ys hx hy = hy
AreBytes-append (x ∷ xs) ys hx hy = (hx.0, AreBytes-append xs ys hx.1 hy)

to_be_bytes-AreBytes : (n v : ℕ) → AreBytes (to_be_bytes n v)
unfolding to_be_bytes
to_be_bytes-AreBytes zero v = tt
to_be_bytes-AreBytes (suc n) v =
    AreBytes-append (to_be_bytes n (v / 256)) ((v % 256) ∷ []) (to_be_bytes-AreBytes n (v / 256))
      (omega arith, tt)

length-print_bytes : (bs : Bytes) → length (print_bytes bs) ≡ 2 * length bs
unfolding print_bytes
length-print_bytes [] = refl
length-print_bytes (b ∷ bs) = omega (arith, length-print_bytes bs)

upper_digit_ascii : (d : ℕ) → d < 16 → is_continuation (upper_digit d) ≡ false
upper_digit_ascii d h = ground arith

cuts_character-print_bytes : (bs : Bytes) → AreBytes bs → cuts_character (print_bytes bs) ≡ false
unfolding print_bytes
cuts_character-print_bytes [] h = refl
cuts_character-print_bytes (b ∷ bs) h = upper_digit_ascii (b / 16) (omega arith)

read_pair :
    (b : ℕ) → b < 256 → from_str_radix (upper_digit (b / 16)) (upper_digit (b % 16)) ≡ some b
unfolding from_str_radix
read_pair b h = ground arith

issuer_bytes-print_bytes : (bs : Bytes) → AreBytes bs → issuer_bytes (print_bytes bs) ≡ ok bs
unfolding issuer_bytes print_bytes
issuer_bytes-print_bytes [] h = refl
issuer_bytes-print_bytes (b ∷ bs) h = rw (
  upper_digit_ascii (b / 16) (omega arith),
  cuts_character-print_bytes bs h.1,
  read_pair b h.0,
  issuer_bytes-print_bytes bs h.1,
)

-- The printed form of an SPKI hash of 32 bytes is read back as that hash.
pub parse_issuer-display : (h : SpkiHash) → Fits 32 h → parse_issuer (display h) ≡ ok h
unfolding parse_issuer display
parse_issuer-display h fits =
    let bytes : Bytes = to_be_bytes 32 h in
    ground (
      arith,
      length-print_bytes bytes,
      length-to_be_bytes 32 h,
      issuer_bytes-print_bytes bytes (to_be_bytes-AreBytes 32 h),
      from-to_be_bytes 32 h fits,
    )
