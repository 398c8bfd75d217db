-- ===== src/Tests/Stores.antt =====
-- The theorems on the stores of the server, at concrete inputs.
use svalin.Prelude.{ℕ, ◌<◌, ◌≡◌, ◌⊎◌, refl, true, false, Option, none, some, List, [], ◌∷◌, arith}
use svalin.Prelude.Result.{ok, err}
use svalin.Bytes.{Bytes}
use svalin.Certificate.Kind.{user_session, type_eq}
use svalin.ServerStore.KeyPackages.{KeyPackageStore, KeyPackageError, Packages, get_key_packages}
use svalin.ServerStore.KeyPackages.Laws.{Taken, Lacks, get_key_packages-Taken}
use svalin.ServerStore.Messages.{MessageStore, MessageCodec, add_message, acknowledge, load_all_for}
use svalin.ServerStore.Messages.Counts.{count_id, count_key}
use svalin.ServerStore.Messages.Load.{IsMessages}
use svalin.ServerStore.Messages.Contents.{Carries}
use svalin.ServerStore.Messages.Delivery.{message_until_acknowledged}
use svalin.ServerStore.Sessions.{SessionStore, load_certificate_chain}
use svalin.ServerStore.Sessions.Laws.{IsLoaded, load_certificate_chain-IsLoaded}
use svalin.Tests.Fixtures.{demo, demo_session, user_store, user_state-IsProper}
use svalin.Tests.SyncFixtures.{demo_session-IsParsed}

abbrev first_byte : Bytes → Option ℕ
first_byte [] = none
first_byte (b ∷ _) = some b

-- A package is its owner.
abbrev demo_packages : Packages ℕ
demo_packages = record {
  to_stdvec = λ n. some (n ∷ []);
  from_bytes = first_byte;
  owner = λ n. some n;
}

abbrev two_packages : KeyPackageStore
two_packages = record {
  answers = true;
  rows =
      record { id = 1; spki_hash = 5; content = 5 ∷ [] }
      ∷ record { id = 2; spki_hash = 6; content = 6 ∷ [] }
      ∷ [];
}

get_key_packages-Taken_example :
    ((members : List ℕ) × ((get_key_packages demo_packages two_packages (6 ∷ [])).0 ≡ ok members)
      × Taken demo_packages two_packages.rows
          (6 ∷ [])
          members
          (get_key_packages demo_packages two_packages (6 ∷ [])).1.rows)
    ⊎ ((e : KeyPackageError) × ((get_key_packages demo_packages two_packages (6 ∷ [])).0 ≡ err e)
        × ((get_key_packages demo_packages two_packages (6 ∷ [])).1 ≡ two_packages)
        × ((two_packages.answers ≡ false) ⊎ Lacks demo_packages two_packages.rows (6 ∷ [])))
unfolding svalin.ServerStore.KeyPackages.has_id
get_key_packages-Taken_example =
    get_key_packages-Taken demo_packages two_packages (6 ∷ [])
      (refl, (5, refl, refl), (refl, (6, refl, refl), tt))

abbrev demo_messages : MessageCodec ℕ
demo_messages = record { to_stdvec = λ n. some (n ∷ []); from_bytes = first_byte }

abbrev no_messages : MessageStore
no_messages = record { answers = true; messages = []; receivers = [] }

no_messages-IsMessages : IsMessages demo_messages no_messages
unfolding svalin.ServerStore.Messages.pending svalin.ServerStore.Messages.Counts.count_row
no_messages-IsMessages = record {
  answers = refl;
  unique = λ id. omega arith;
  readable = tt;
  covered = λ id k h. absurd (omega arith);
}

message_until_acknowledged_example :
    (before after gone : List (ℕ × ℕ)) × (load_all_for demo_messages
        (add_message demo_messages no_messages 9 (1 ∷ 2 ∷ []) 7 1000).1
        1
      ≡ ok before)
    × (load_all_for demo_messages
          (acknowledge 2 7 (add_message demo_messages no_messages 9 (1 ∷ 2 ∷ []) 7 1000).1)
          1
        ≡ ok after)
    × (load_all_for demo_messages
          (acknowledge 1 7
            (acknowledge 2 7 (add_message demo_messages no_messages 9 (1 ∷ 2 ∷ []) 7 1000).1))
          1
        ≡ ok gone)
    × (0 < count_id 7 before)
    × Carries demo_messages 7 9 before
    × (count_id 7 after ≡ count_id 7 before)
    × Carries demo_messages 7 9 after
    × (count_id 7 gone ≡ 0)
unfolding svalin.ServerStore.Messages.has_message
message_until_acknowledged_example =
    message_until_acknowledged demo_messages no_messages 9 (1 ∷ 2 ∷ []) 7 1000 (9 ∷ []) 1 2
      no_messages-IsMessages refl refl refl (omega arith) (omega arith)

abbrev one_session : SessionStore
one_session = record {
  answers = true;
  rows = record { spki_hash = 3; issuer = 2; certificate = 3 ∷ [] } ∷ [];
}

session_type : type_eq demo_session.certificate_type user_session ≡ true
unfolding type_eq
session_type = refl

load_certificate_chain-IsLoaded_example :
    IsLoaded demo one_session user_store 3 (load_certificate_chain demo one_session user_store 3)
load_certificate_chain-IsLoaded_example =
    load_certificate_chain-IsLoaded demo one_session user_store 3
      ((demo_session, demo_session-IsParsed, refl, refl, session_type), tt) user_state-IsProper
