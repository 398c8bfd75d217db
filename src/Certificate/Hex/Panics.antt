-- ===== src/Certificate/Hex/Panics.antt =====
-- svalin_pki/src/certificate.rs: the slices of the issuer name in `from_der`.
use svalin.Prelude.{ℕ, zero, suc, ◌+◌, ◌<◌, ◌≡◌, ◌≢◌, false, [], ◌∷◌, arith}
use svalin.Prelude.Lists.{length, All}
use svalin.Prelude.Result.{panicked}
use svalin.Bytes.{Bytes}
use svalin.Certificate.Hex.{cuts_character, issuer_bytes, parse_issuer}

abbrev pub IsAscii : Bytes → Type 0
IsAscii = All (λ b. b < 128)

cuts_character_ascii : (s : Bytes) → IsAscii s → cuts_character s ≡ false
cuts_character_ascii [] h = ground arith
cuts_character_ascii (c ∷ s) h = ground arith

issuer_bytes_ascii : (n : ℕ) (s : Bytes) → length s ≡ n + n → IsAscii s → issuer_bytes s ≢ panicked
unfolding issuer_bytes
issuer_bytes_ascii n [] l h = ground arith
issuer_bytes_ascii n (a ∷ []) l h = absurd (omega arith)
issuer_bytes_ascii zero (a ∷ b ∷ s) l h = absurd (omega arith)
issuer_bytes_ascii (suc n) (a ∷ b ∷ s) l h =
    ground (arith, cuts_character_ascii s h.1.1, issuer_bytes_ascii n s (omega arith) h.1.1)

-- An issuer name of ASCII characters does not make the parser panic.
pub parse_issuer_ascii : (s : Bytes) → IsAscii s → parse_issuer s ≢ panicked
unfolding parse_issuer
parse_issuer_ascii s h = ground (arith, issuer_bytes_ascii 32 s)
