-- ===== src/ClientStore/Defs.antt =====
-- svalin_store/src/client_store.rs: the state in the database.
use svalin.Prelude.{Bool, Option, none, some, [], ◌∷◌}
use svalin.Prelude.Tests.{if◌then◌else◌}
use svalin.Prelude.Result.{Result, Done, ok, err, panicked}
use svalin.Bytes.{Bytes}
use svalin.Platform.{ℤ, SpkiHash}
use svalin.HashMap.{HashMap, lookup, insert}
use svalin.TransactionStore.Table.{as_i64, lt_i64}
use svalin.ClientStore.Persistent.{
  SvalinReport, SvalinMetaInfo, DeviceState, State, Message, update_system_report, update_meta_info,
  update_from_main_state, empty_state, update_state,
}

-- The two tables, by their primary keys, and whether the database answers. No query of the store
-- depends on the order of the rows.
pub record ClientStore : Type 0 where
  pub answers : Bool
  pub system_reports : HashMap (ℤ × Bytes)
  pub meta_info : HashMap (ℤ × Bytes)

-- postcard
pub record StateCodec : Type 0 where
  pub report_to_stdvec : SvalinReport → Option Bytes
  pub report_from_bytes : Bytes → Option SvalinReport
  pub info_to_stdvec : SvalinMetaInfo → Option Bytes
  pub info_from_bytes : Bytes → Option SvalinMetaInfo

pub data StoreError : Type 0 where
  postcard sqlx : StoreError

-- `INSERT INTO system_reports (spki_hash, report, generated_at) VALUES (?, ?, ?) ON CONFLICT(spki_hash)
-- DO UPDATE SET report = ? where generated_at < ?`, which leaves the time of the row as it is; the
-- statement on `meta_info` is alike.
unfoldable pub upsert : SpkiHash → ℤ → Bytes → HashMap (ℤ × Bytes) → HashMap (ℤ × Bytes)
unfolding lt_i64
upsert k time d rows = elim (lookup k rows) [
  | none ↦ insert k (time, d) rows
  | some row ↦ if lt_i64 row.0 time then insert k (row.0, d) rows else rows
]

module _ (codec : StateCodec) where
  unfoldable pub save_report :
      ClientStore → SpkiHash → SvalinReport → Result StoreError Done × ClientStore
  unfolding upsert
  save_report s k report = elim (codec.report_to_stdvec report) [
    | none ↦ (err postcard, s)
    | some d ↦
        let time = as_i64 report.system_report.generated_at in
        if s.answers
        then (ok tt, record s { system_reports = upsert k time d s.system_reports })
        else (err sqlx, s)
  ]

  unfoldable pub save_info :
      ClientStore → SpkiHash → SvalinMetaInfo → Result StoreError Done × ClientStore
  unfolding upsert
  save_info s k info = elim (codec.info_to_stdvec info) [
    | none ↦ (err postcard, s)
    | some d ↦
        let time = as_i64 info.updated_at in
        if s.answers
        then (ok tt, record s { meta_info = upsert k time d s.meta_info })
        else (err sqlx, s)
  ]

  -- What the database takes of a device of another state.
  unfoldable pub save_device :
      ClientStore → SpkiHash → DeviceState → Result StoreError Done × ClientStore
  unfolding save_report save_info
  save_device s k d =
      let reported : Result StoreError Done × ClientStore = elim d.report [
        | none ↦ (ok tt, s)
        | some report ↦ save_report s k report
      ] in
      let (saved, with_report) = reported in
      elim saved [
        | err e ↦ (err e, with_report)
        | panicked ↦ (panicked, with_report)
        | ok _ ↦ elim d.meta_info [
          | none ↦ (ok tt, with_report)
          | some info ↦ save_info with_report k info
        ]
      ]

  unfoldable pub save_devices :
      ClientStore → HashMap DeviceState → Result StoreError Done × ClientStore
  unfolding save_device
  save_devices s [] = (ok tt, s)
  save_devices s ((k, d) ∷ devices) =
      let (saved, after) = save_device s k d in
      elim saved [
        | ok _ ↦ save_devices after devices
        | err e ↦ (err e, after)
        | panicked ↦ (panicked, after)
      ]

  -- `ClientStore::update`
  unfoldable pub update_store : ClientStore → Message → Result StoreError Done × ClientStore
  unfolding save_report save_info save_devices
  update_store s (update_system_report k report) = save_report s k report
  update_store s (update_meta_info k info) = save_info s k info
  update_store s (update_from_main_state state) = save_devices s state.devices

  -- The loops of `load_persistent`: a row that cannot be read is passed over.
  unfoldable pub load_reports : State → HashMap (ℤ × Bytes) → State
  load_reports s [] = s
  load_reports s ((k, row) ∷ rows) = elim (codec.report_from_bytes row.1) [
    | none ↦ load_reports s rows
    | some report ↦ load_reports (update_state s (update_system_report k report)) rows
  ]

  unfoldable pub load_infos : State → HashMap (ℤ × Bytes) → State
  load_infos s [] = s
  load_infos s ((k, row) ∷ rows) = elim (codec.info_from_bytes row.1) [
    | none ↦ load_infos s rows
    | some info ↦ load_infos (update_state s (update_meta_info k info)) rows
  ]

  -- `ClientStore::load_persistent`; `none` is an error of the database.
  unfoldable pub load_persistent : ClientStore → Option State
  unfolding load_reports load_infos
  load_persistent s =
      if s.answers
      then some (load_infos (load_reports empty_state s.system_reports) s.meta_info)
      else none
