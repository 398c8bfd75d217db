-- ===== src/Sync/Defs.antt =====
-- svalin/src/shared/commands/update_trust_store.rs, svalin/src/util/trust_store.rs,
-- svalin/src/message_streaming/with_client.rs and svalin/src/client/add_agent.rs. A party has a
-- trust store and a store of transactions; an operation returns its result and the party after it.
use svalin.Prelude.{ℕ, not, Bool, Option, none, some, List, [], ◌∷◌, ◌++◌, map}
use svalin.Prelude.Tests.{◌==◌, if◌then◌else◌}
use svalin.Prelude.Result.{Result, Done, ok, err, panicked, ◌>>=◌, map_err}
use svalin.Platform.{InnerDigest, Platform}
use svalin.Certificate.Defs.{Certificate}
use svalin.SecureChain.Interface.{CheckBlockError, CreateBlockError, ImportError}
use svalin.SecureChain.Block.{CheckedBlock}
use svalin.SecureChain.Chain.{ExportedChain, Credential}
use svalin.TrustStore.State.{Transaction, Error, ExportedState, InnerImportError}
use svalin.TrustStore.Store
use svalin.TrustStore.Store.{TrustStore}
use svalin.TransactionStore.Defs.{
  Block, Codec, TransactionStore, TransactionStoreError, LoadTransactionError, load_all_after,
  load_and_subscribe, add_block, add_and_broadcast,
}

pub data TrustStoreUpdate : Type 0 where
  transaction : Block → TrustStoreUpdate
  up_to_date : InnerDigest → TrustStoreUpdate
  close : TrustStoreUpdate

pub data SyncError : Type 0 where
  check_failed : CheckBlockError Error → SyncError
  create_failed : CreateBlockError Error → SyncError
  store_failed : TransactionStoreError → SyncError
  load_failed : LoadTransactionError → SyncError
  import_failed : ImportError InnerImportError → SyncError
  read_failed upload_failed wrong_digest closed_early already_up_to_date lagged : SyncError

pub record Party : Type 0 where
  pub trust_store : TrustStore
  pub transactions : TransactionStore

-- What a loop of `dispatch` sees next: the cancellation that `select!` takes, a failed read, or an
-- update, with the time of the clock.
pub data Event : Type 0 where
  cancelled read_error : Event
  arrived : ℕ → TrustStoreUpdate → Event

-- What the live loop of the handler sees next.
pub data Broadcast : Type 0 where
  cancelled lagging : Broadcast
  block : Block → Broadcast

module _ (p : Platform) (codec : Codec) where
  -- `guard.apply(block)` after a successful store
  unfoldable pub apply_stored :
      CheckedBlock Transaction
      → Result TransactionStoreError Done
      → Party
      → Result SyncError Done × Party
  apply_stored b (err e) s = (err (store_failed e), s)
  apply_stored b panicked s = (panicked, s)
  apply_stored b (ok _) s = elim (Store.apply p s.trust_store b) [
    | none ↦ (panicked, s)
    | some after ↦ (ok tt, record s { trust_store = after })
  ]

  -- `apply_block` of an agent or client
  unfoldable pub apply_block : Party → Block → ℕ → Result SyncError Done × Party
  unfolding apply_stored
  apply_block s b now =
      let (checked, trust_store) = Store.check p s.trust_store b now in
      elim checked [
        | err e ↦ (err (check_failed e), record s { trust_store = trust_store })
        | panicked ↦ (panicked, record s { trust_store = trust_store })
        | ok c ↦
            let (added, transactions) = add_block codec p s.transactions c in
            apply_stored c added (record { trust_store = trust_store; transactions = transactions })
      ]

  -- `MessageHandler::handle` of the server, on a block from a client
  unfoldable pub handle_block : Party → Block → ℕ → Bool → Result SyncError Done × Party
  unfolding apply_stored
  handle_block s b now has_receivers =
      let (checked, trust_store) = Store.check p s.trust_store b now in
      elim checked [
        | err e ↦ (err (check_failed e), record s { trust_store = trust_store })
        | panicked ↦ (panicked, record s { trust_store = trust_store })
        | ok c ↦
            let (added, transactions) = add_and_broadcast codec s.transactions c has_receivers in
            apply_stored c added (record { trust_store = trust_store; transactions = transactions })
      ]

  -- `Client::add_cert_to_trust_store`. The flag is the answer of the server to the block.
  unfoldable pub add_cert_to_trust_store :
      Party → Certificate → Credential → ℕ → Bool → Result SyncError Done × Party
  unfolding apply_stored
  add_cert_to_trust_store s cert credential now uploaded =
      let (created, trust_store) = Store.add_certificate p s.trust_store cert credential now in
      elim created [
        | err e ↦ (err (create_failed e), record s { trust_store = trust_store })
        | panicked ↦ (panicked, record s { trust_store = trust_store })
        | ok c ↦
            if not uploaded
            then (err upload_failed, record s { trust_store = trust_store })
            else (let (added, transactions) = add_block codec p s.transactions c in
                apply_stored c added
                  (record { trust_store = trust_store; transactions = transactions }))
      ]

  -- The first loop of `UpdateTrustStore::dispatch`, which reads until the server says that there
  -- is no more. It does not look at the cancellation. `none` is a loop that still waits; the list
  -- in the result is what comes later.
  unfoldable pub catch_up : Party → List Event → Option (Result SyncError (List Event)) × Party
  unfolding apply_block
  catch_up s [] = (none, s)
  catch_up s (cancelled ∷ events) = catch_up s events
  catch_up s (read_error ∷ events) = (some (err read_failed), s)
  catch_up s (arrived now (transaction b) ∷ events) =
      let (applied, after) = apply_block s b now in
      elim applied [
        | ok _ ↦ catch_up after events
        | err e ↦ (some (err e), after)
        | panicked ↦ (some panicked, after)
      ]
  catch_up s (arrived now (up_to_date server_digest) ∷ events) =
      if server_digest == Store.digest p s.trust_store
      then (some (ok events), s)
      else (some (err wrong_digest), s)
  catch_up s (arrived now close ∷ events) = (some (err closed_early), s)

  -- The second loop, over live updates.
  unfoldable pub follow : Party → List Event → Option (Result SyncError Done) × Party
  unfolding apply_block
  follow s [] = (none, s)
  follow s (cancelled ∷ events) = (some (ok tt), s)
  follow s (read_error ∷ events) = (some (err read_failed), s)
  follow s (arrived now (transaction b) ∷ events) =
      let (applied, after) = apply_block s b now in
      elim applied [
        | ok _ ↦ follow after events
        | err e ↦ (some (err e), after)
        | panicked ↦ (some panicked, after)
      ]
  follow s (arrived now (up_to_date _) ∷ events) = (some (err already_up_to_date), s)
  follow s (arrived now close ∷ events) = (some (ok tt), s)

  -- `UpdateTrustStore::dispatch`
  unfoldable pub dispatch : Party → List Event → Option (Result SyncError Done) × Party
  unfolding catch_up follow
  dispatch s events =
      let (caught, after) = catch_up s events in
      elim caught [
        | none ↦ (none, after)
        | some (ok later) ↦ follow after later
        | some (err e) ↦ (some (err e), after)
        | some panicked ↦ (some panicked, after)
      ]

  -- `UpdateTrustStoreHandler::handle` up to its live loop: what it writes for the request, and
  -- whether it fails. The second list is what the channel hands out before its first error.
  unfoldable pub announce : Party → ℕ → List Block → Result SyncError (List TrustStoreUpdate)
  announce s request pending = do
    (current, held) ← map_err load_failed (load_and_subscribe codec s.transactions request pending)
    ok (
        map transaction current
        ++ (map transaction held ++ up_to_date (Store.digest p s.trust_store) ∷ []))

  -- Its live loop: what it writes, and how it ends; `none` is a loop that still waits.
  unfoldable pub serve_live :
      List Broadcast → List TrustStoreUpdate × Option (Result SyncError Done)
  serve_live [] = ([], none)
  serve_live (Broadcast.cancelled ∷ events) = (close ∷ [], some (ok tt))
  serve_live (lagging ∷ events) = (close ∷ [], some (err lagged))
  serve_live (block b ∷ events) =
      let (written, ended) = serve_live events in (transaction b ∷ written, ended)

  -- The loop of `load_trust_store`: a block from the log is checked and applied.
  unfoldable pub replay : TrustStore → List (ℕ × Block) → Result SyncError TrustStore
  replay s [] = ok s
  replay s ((now, b) ∷ blocks) =
      let (checked, left) = Store.check p s b now in
      elim checked [
        | err e ↦ err (check_failed e)
        | panicked ↦ panicked
        | ok c ↦ elim (Store.apply p left c) [ none ↦ panicked | some after ↦ replay after blocks ]
      ]

  -- `load_trust_store`, from the exported store of its file; `now` is the clock at each block.
  unfoldable pub load_trust_store :
      ExportedChain ExportedState Transaction
      → TransactionStore
      → (Block → ℕ)
      → Result SyncError TrustStore
  unfolding replay
  load_trust_store exported store now = do
    trust_store ← map_err import_failed (Store.import p exported)
    blocks ← map_err load_failed (load_all_after codec store (Store.sequence trust_store))
    replay trust_store (map (λ b. (now b, b)) blocks)
