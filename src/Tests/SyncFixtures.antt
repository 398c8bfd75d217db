-- ===== src/Tests/SyncFixtures.antt =====
-- Two parties with a block between them, and a codec that can write that block.
use native.Mathlib.Decide.{ℕ_discrete}
use svalin.Prelude.{◌≡◌, refl, sym, ap, none, some, [], ◌∷◌}
use svalin.Bytes.{Bytes, to_be_bytes}
use svalin.Platform.{ℤ}
use svalin.Certificate.Kind.{
  CertificateType, to_string, from_str, should_be_ca, validity_duration, type_eq,
}
use svalin.Certificate.Hex.{display, parse_issuer}
use svalin.Certificate.Parse.{from_der, compute_spki_hash}
use svalin.TrustStore.Laws.{IsParsed}
use svalin.Certificate.Defs.{CertificateData, Validity, mark_as_trusted}
use svalin.SecureChain.Block.{UncheckedBlock, CheckedBlock, block_digest}
use svalin.SecureChain.Chain.{draft, state_digest}
use svalin.TrustStore.State.{State, Transaction, add, trust_state}
use svalin.TrustStore.Store.{TrustStore}
use svalin.Tests.Fixtures.{demo, demo_root, user_state, first_block, demo_session}
use svalin.TransactionStore.Defs.{Block, Codec, RoundTrips}

type_discrete : Discrete CertificateType
type_discrete = hlevel

ℤ_discrete : Discrete ℤ
ℤ_discrete = hlevel (ℕ_discrete)

validity_discrete : Discrete Validity
validity_discrete = hlevel (ℤ_discrete)

pub certificate_discrete : Discrete CertificateData
certificate_discrete = hlevel (type_discrete, validity_discrete, ℕ_discrete)

transaction_discrete : Discrete Transaction
transaction_discrete = hlevel (certificate_discrete)

pub block_discrete : Discrete Block
block_discrete = hlevel (transaction_discrete, ℕ_discrete)

-- The user adds a session.
abbrev pub session_state : State
session_state = record {
  root = demo_root;
  certificates = (3, mark_as_trusted demo_session) ∷ user_state.certificates;
}

abbrev unsigned_second : UncheckedBlock Transaction
unsigned_second =
    draft demo (trust_state demo) (some first_block) 3000
      (state_digest demo (trust_state demo) session_state) 2 (add demo_session)

abbrev pub second_block : CheckedBlock Transaction
second_block = record {
  as_unchecked = record unsigned_second {
    signature = 2 ∷ to_be_bytes 64 (block_digest demo (trust_state demo) unsigned_second);
  };
}

abbrev pub last_store : TrustStore
last_store = record { chain = record { last_block = some second_block; state = session_state } }

pub demo_session-IsParsed : IsParsed demo demo_session
unfolding from_der compute_spki_hash display to_string from_str should_be_ca validity_duration
    parse_issuer type_eq svalin.Certificate.Hex.print_bytes to_be_bytes
    svalin.Certificate.Hex.issuer_bytes svalin.Certificate.Hex.from_str_radix
    svalin.Bytes.from_be_bytes
demo_session-IsParsed = refl

-- It writes the second block alone.
abbrev pub demo_codec : Codec
demo_codec = record {
  to_stdvec = λ b. elim (block_discrete b second_block.as_unchecked) [
    | yes _ ↦ some (9 ∷ [])
    | no _ ↦ none
  ];
  from_bytes = λ d. some second_block.as_unchecked;
}

pub demo_codec-RoundTrips : RoundTrips demo_codec
demo_codec-RoundTrips = record {
  from-to = λ b d written.
      elim (block_discrete b second_block.as_unchecked)
          as (λ o.
            (elim o [ yes _ ↦ some (9 ∷ []) | no _ ↦ none ]) ≡ some d
            → some second_block.as_unchecked ≡ some b) [
              | yes e ↦ λ w. ap some (sym e)
              | no _ ↦ λ w. absurd (cc w)
            ]
        written;
}
