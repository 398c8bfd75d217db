-- ===== src/Tests/Sync.antt =====
-- The theorems on the stores of transactions and on parties in step, at concrete inputs.
use svalin.Prelude.{◌≡◌, ◌++◌, refl, ap, true, false, Option, none, some, List, [], ◌∷◌, arith}
use svalin.Prelude.Result.{ok, err}
use svalin.Bytes.{Bytes}
use svalin.Platform.{pos}
use svalin.SecureChain.Block.{CheckedBlock}
use svalin.SecureChain.Chain
use svalin.SecureChain.Chain.{ExportedChain}
use svalin.TrustStore.State.{Transaction, ExportedState, trust_state}
use svalin.TrustStore.Laws.{IsParsedTransaction}
use svalin.TrustStore.Store
use svalin.TrustStore.Store.{TrustStore, digest, sequence}
use svalin.TrustStore.Replica.{Reaches, step, Step}
use svalin.TransactionStore.Defs.{
  Block, TransactionStore, load_all_after, add_block, add_and_broadcast, load_and_subscribe,
  open_store, broadcast_error,
}
use svalin.TransactionStore.Laws.{IsLog}
use svalin.TransactionStore.Open.{add_block-opened_empty}
use svalin.TransactionStore.Server.{load_and_subscribe_complete}
use svalin.Sync.Defs.{
  Party, TrustStoreUpdate, handle_block, catch_up, announce, load_trust_store, store_failed,
}
use svalin.Sync.Follow.{SameStore, Follows}
use svalin.Sync.Party.{InStep, Storable, Kept, handle_block-Kept}
use svalin.Sync.CatchUp.{arrivals, catch_up-announce}
use svalin.Sync.Recover.{load_trust_store-Same}
use svalin.Sync.Unheard.{AllRefused, handle_block_unheard}
use svalin.Tests.Fixtures.{demo, demo_root, demo_root-IsParsed, first_block, demo_user}
use svalin.Tests.Replicas.{next_store, next_store-Reaches}
use svalin.Tests.SyncFixtures.{
  second_block, last_store, block_discrete, demo_codec, demo_codec-RoundTrips,
  demo_session-IsParsed,
}

abbrev empty_log : TransactionStore
empty_log = record { pool = record { answers = true; rows = [] }; current_sequence = 1 }

abbrev short_log : TransactionStore
short_log = record {
  pool = record { answers = true; rows = (pos 2, 9 ∷ []) ∷ [] };
  current_sequence = 2;
}

empty_log-IsLog : IsLog demo_codec 2 [] empty_log
empty_log-IsLog = record { rows = tt; numbered = tt; current = refl; fits = omega arith }

short_log-IsLog : IsLog demo_codec 2 (second_block.as_unchecked ∷ []) short_log
unfolding Chain.draft svalin.TransactionStore.Table.as_i64
short_log-IsLog = record {
  rows = (refl, refl, tt);
  numbered = (refl, tt);
  current = refl;
  fits = omega arith;
}

second_block-Step : Step demo demo_root next_store second_block last_store
unfolding Store.check Store.apply Chain.apply Chain.draft Chain.check Chain.check_block
    svalin.Bytes.to_be_bytes svalin.Bytes.to_le_bytes Chain.state_digest
    svalin.TrustStore.State.digest_state svalin.HashMap.Order.sort_keys
    svalin.TrustStore.State.tx_digest svalin.TrustStore.State.check_state
    svalin.TrustStore.State.check_add svalin.Certificate.Defs.verify_signature
    svalin.Certificate.Kind.may_be_parent_of svalin.Certificate.Defs.check_validity_at
    svalin.Certificate.Kind.validity_duration Chain.check_result
    svalin.SecureChain.Block.block_digest svalin.SecureChain.Block.encode Chain.check_position
    Chain.last_digest svalin.TrustStore.State.apply_state
    svalin.TrustStore.State.digest_certificates svalin.TrustStore.State.revert_state Store.get
second_block-Step = record {
  now = 3000;
  parsed = demo_session-IsParsed;
  checked = refl;
  applied = refl;
}

last_store-Reaches : Reaches demo demo_root (second_block ∷ first_block ∷ []) last_store
last_store-Reaches =
    step (first_block ∷ []) second_block next_store last_store next_store-Reaches second_block-Step

abbrev behind : Party
behind = record { trust_store = next_store; transactions = empty_log }

abbrev level : Party
level = record { trust_store = last_store; transactions = short_log }

behind-InStep : InStep demo demo_codec demo_root 2 [] (first_block ∷ []) behind
unfolding sequence Chain.sequence Chain.draft
behind-InStep = record {
  follows = record {
    reached = next_store;
    reaches = next_store-Reaches;
    same = record { state = record { root = refl; entries = λ k. refl }; last = refl };
  };
  log = empty_log-IsLog;
  level = refl;
  answers = refl;
}

level-InStep :
    InStep demo demo_codec demo_root 2
      (second_block.as_unchecked ∷ [])
      (second_block ∷ first_block ∷ [])
      level
unfolding sequence Chain.sequence Chain.draft
level-InStep = record {
  follows = record {
    reached = last_store;
    reaches = last_store-Reaches;
    same = record { state = record { root = refl; entries = λ k. refl }; last = refl };
  };
  log = short_log-IsLog;
  level = refl;
  answers = refl;
}

second_block-sequence : second_block.sequence ≡ 2
unfolding Chain.draft
second_block-sequence = refl

second_block-time : second_block.time ≡ 3000
unfolding Chain.draft
second_block-time = refl

second_block-value : IsParsedTransaction demo second_block.transaction
unfolding Chain.draft
second_block-value = demo_session-IsParsed

second_block-written : demo_codec.to_stdvec second_block.as_unchecked ≡ some (9 ∷ [])
second_block-written =
    elim (block_discrete second_block.as_unchecked second_block.as_unchecked)
      as (λ o.
        ◌≡◌ {A = Option Bytes} (elim o [ yes _ ↦ some (9 ∷ []) | no _ ↦ none ]) (some (9 ∷ []))) [
          | yes _ ↦ refl
          | no other ↦ absurd (other refl)
        ]

second_block-Storable : Storable demo_codec second_block
second_block-Storable = record {
  bytes = 9 ∷ [];
  written = second_block-written;
  small = omega (arith, second_block-sequence);
}

second_block-added : add_block demo_codec demo empty_log second_block ≡ (ok tt, short_log)
unfolding add_block svalin.TransactionStore.Defs.insert_block Chain.draft
    svalin.TransactionStore.Table.insert_data svalin.TransactionStore.Table.as_i64
second_block-added = rw (second_block-written, svalin.TransactionStore.Defs.insert_block) refl

add_block-opened_empty_example : second_block.sequence ≡ 2
unfolding open_store svalin.TransactionStore.Table.select_max
add_block-opened_empty_example =
    add_block-opened_empty demo demo_codec empty_log second_block demo_codec-RoundTrips refl
      (omega (arith, second_block-sequence)) (ap (λ x. x.0) second_block-added)

load_and_subscribe_complete_example :
    (blocks : List Block) × (held : List Block) × (load_and_subscribe demo_codec short_log 1
        (second_block.as_unchecked ∷ [])
      ≡ ok (blocks, held))
    × (blocks ++ held ≡ second_block.as_unchecked ∷ [])
load_and_subscribe_complete_example =
    load_and_subscribe_complete demo_codec demo_codec-RoundTrips 2 (second_block.as_unchecked ∷ [])
      short_log short_log-IsLog 1 [] (second_block.as_unchecked ∷ [])
      (second_block.as_unchecked ∷ []) [] refl refl refl (omega (arith, second_block-sequence), tt)
      tt

catch_up-announce_example :
    (updates : List TrustStoreUpdate) × (announce demo demo_codec level (sequence next_store) []
      ≡ ok updates)
    × (after : Party) × (catch_up demo demo_codec behind (arrivals (λ _. 3000) updates ++ [])
        ≡ (some (ok []), after))
    × InStep demo demo_codec demo_root 2
        (second_block.as_unchecked ∷ [])
        (second_block ∷ first_block ∷ [])
        after
    × (digest demo after.trust_store ≡ digest demo last_store)
catch_up-announce_example =
    catch_up-announce demo demo_codec demo_codec-RoundTrips demo_root demo_root-IsParsed 2 2 [] []
      (first_block ∷ []) (second_block ∷ []) behind level (λ _. 3000) [] [] behind-InStep
      level-InStep (second_block-Storable, tt) (omega (arith, second_block-time), tt) tt

handle_block_unheard_example :
    ((handle_block demo demo_codec behind second_block.as_unchecked 3000 false).0
      ≡ err (store_failed broadcast_error))
    × IsLog demo_codec 2
        (second_block.as_unchecked ∷ [])
        (handle_block demo demo_codec behind second_block.as_unchecked 3000 false).1.transactions
    × Follows demo demo_root
        (first_block ∷ [])
        (handle_block demo demo_codec behind second_block.as_unchecked 3000 false).1.trust_store
    × AllRefused demo demo_codec demo_codec-RoundTrips demo_root demo_root-IsParsed
        ((second_block.as_unchecked, 4000, true) ∷ (second_block.as_unchecked, 5000, false) ∷ [])
        (handle_block demo demo_codec behind second_block.as_unchecked 3000 false).1
unfolding Chain.draft
handle_block_unheard_example =
    handle_block_unheard demo demo_codec demo_codec-RoundTrips demo_root demo_root-IsParsed 2 []
      (first_block ∷ []) behind next_store last_store second_block 3000
      ((second_block.as_unchecked, 4000, true) ∷ (second_block.as_unchecked, 5000, false) ∷ [])
      behind-InStep next_store-Reaches second_block-Step (omega (arith, second_block-time))
      second_block-Storable (second_block-value, (second_block-value, tt))

handle_block-Kept_example :
    Kept demo demo_codec demo_codec-RoundTrips demo_root demo_root-IsParsed 2 []
      (first_block ∷ [])
      behind
      behind-InStep
      second_block.as_unchecked
      3000
      second_block-value
      (omega (arith, second_block-sequence))
      (handle_block demo demo_codec behind second_block.as_unchecked 3000 true)
handle_block-Kept_example =
    handle_block-Kept demo demo_codec demo_codec-RoundTrips demo_root demo_root-IsParsed 2 []
      (first_block ∷ []) behind behind-InStep second_block.as_unchecked 3000 second_block-value
      (omega (arith, second_block-sequence))

abbrev exported : ExportedChain ExportedState Transaction
exported = record {
  state = record {
    root = demo_root.to_unverified;
    certificates = demo_root.to_unverified ∷ demo_user ∷ [];
  };
  last_block = some first_block.as_unchecked;
}

exported-next_store : Store.import demo exported ≡ ok next_store
unfolding Store.import Chain.import svalin.TrustStore.State.import_state
    svalin.Certificate.Defs.use_as_root svalin.Certificate.Kind.type_eq Chain.draft
    svalin.TrustStore.State.digest_state svalin.HashMap.Order.sort_keys
exported-next_store = refl

next_store-sequence : sequence next_store ≡ 1
unfolding sequence Chain.sequence Chain.draft
next_store-sequence = refl

load_trust_store-Same_example :
    (load_all_after demo_codec level.transactions (sequence next_store)
      ≡ ok (second_block.as_unchecked ∷ []))
    × (after : TrustStore) × (load_trust_store demo demo_codec exported short_log (λ _. 3000)
        ≡ ok after)
    × SameStore after last_store
load_trust_store-Same_example =
    load_trust_store-Same demo demo_codec demo_codec-RoundTrips demo_root demo_root-IsParsed 2 []
      (first_block ∷ []) (second_block ∷ []) level exported next_store (λ _. 3000) level-InStep
      exported-next_store behind-InStep.follows (omega (arith, next_store-sequence))
      (omega (arith, second_block-time), tt)
