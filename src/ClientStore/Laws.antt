-- ===== src/ClientStore/Laws.antt =====
-- svalin_store/src/client_store.rs: the state that is loaded, against the state in memory.
use svalin.Prelude.{ℕ, ◌≡◌, refl, sym, ap, ◌∙◌, true, Option, none, some, arith, inl, inr}
use svalin.Prelude.Tests.{◌==◌, if◌then◌else◌, Bool-cases, Option-cases}
use svalin.Prelude.Result.{ok}
use svalin.Bytes.{Bytes}
use svalin.Platform.{ℤ, SpkiHash}
use svalin.HashMap.{HashMap, lookup, lookup-erase}
use svalin.TransactionStore.Table.{as_i64, lt_i64}
use svalin.ClientStore.Persistent.{
  SvalinReport, SvalinMetaInfo, State, Message, update_system_report, update_meta_info,
  update_from_main_state, empty_state, update_state,
}
use svalin.ClientStore.Defs.{
  ClientStore, StateCodec, upsert, save_report, save_info, update_store, load_reports, load_infos,
  load_persistent,
}
use svalin.ClientStore.Rows.{
  Distinct, Distinct-insert, report_of, info_of, decoded, report-load_reports, info-load_reports,
  info-load_infos, report-load_infos, report-update_report, info-update_report, report-update_info,
  info-update_info,
}

-- What was written is read back.
pub record StateRoundTrips (codec : StateCodec) : Type 0 where
  pub report_back :
      (r : SvalinReport) (d : Bytes)
      → codec.report_to_stdvec r ≡ some d
      → codec.report_from_bytes d ≡ some r
  pub info_back :
      (i : SvalinMetaInfo) (d : Bytes)
      → codec.info_to_stdvec i ≡ some d
      → codec.info_from_bytes d ≡ some i

-- The tables have primary keys, and the database answers.
pub record IsStore (s : ClientStore) : Type 0 where
  pub reports : Distinct s.system_reports
  pub infos : Distinct s.meta_info
  pub answers : s.answers ≡ true

-- The database holds what the state says of each device.
abbrev pub Saves : StateCodec → ClientStore → State → Type 0
Saves codec s m =
    (k : SpkiHash)
    → (decoded codec.report_from_bytes k s.system_reports ≡ report_of m k)
      × (decoded codec.info_from_bytes k s.meta_info ≡ info_of m k)

-- Nothing is kept under the key, or the time is behind the time of the first value that was.
abbrev pub Newer : SpkiHash → ℕ → HashMap (ℤ × Bytes) → Type 0
Newer k time rows = elim (lookup k rows) [
  | none ↦ Unit {0}
  | some row ↦ lt_i64 row.0 (as_i64 time) ≡ true
]

-- A message on one device, whose value is newer than what the row of the device says.
abbrev pub Fresh : StateCodec → ClientStore → Message → Type 0
Fresh codec s (update_system_report k r) =
    Newer k r.system_report.generated_at s.system_reports
    × ((d : Bytes) × (codec.report_to_stdvec r ≡ some d))
Fresh codec s (update_meta_info k i) =
    Newer k i.updated_at s.meta_info × ((d : Bytes) × (codec.info_to_stdvec i ≡ some d))
Fresh codec s (update_from_main_state m) = ⊥

pub upsert-Distinct :
    (k : SpkiHash) (time : ℤ) (d : Bytes) (rows : HashMap (ℤ × Bytes))
    → Distinct rows
    → Distinct (upsert k time d rows)
unfolding upsert
upsert-Distinct k time d rows h = elim (Option-cases (lookup k rows)) [
  | inl e ↦ rw (e, upsert) (Distinct-insert k (time, d) rows h)
  | inr (row, e) ↦ elim (Bool-cases (lt_i64 row.0 time)) [
    | inl lt ↦ rw (e, upsert) (rw lt (Distinct-insert k (row.0, d) rows h))
    | inr ge ↦ rw (e, upsert) (rw ge h)
  ]
]

pub decoded-upsert {ℓ} :
    {V : Type ℓ} (from_bytes : Bytes → Option V) (k j : SpkiHash) (time : ℕ) (d : Bytes)
    (rows : HashMap (ℤ × Bytes))
    → Newer k time rows
    → decoded from_bytes j (upsert k (as_i64 time) d rows)
      ≡ (if k == j then from_bytes d else decoded from_bytes j rows)
unfolding upsert
decoded-upsert from_bytes k j time d rows newer = elim (Option-cases (lookup k rows)) [
  | inl e ↦ rw (e, upsert) (ground (arith, lookup-erase k j rows))
  | inr (row, e) ↦
      let lt : lt_i64 row.0 (as_i64 time) ≡ true = rw (e, Newer) at newer in
      rw (e, upsert) (rw lt (ground (arith, lookup-erase k j rows)))
]

option_eta {ℓ} :
    {V : Type ℓ} (o : Option V) → (elim o as (λ _. Option V) [ none ↦ none | some v ↦ some v ]) ≡ o
option_eta none = refl
option_eta (some v) = refl

module _ (codec : StateCodec) (laws : StateRoundTrips codec) where
  pub save_report_answers :
      (s : ClientStore) (k : SpkiHash) (r : SvalinReport) (d : Bytes)
      → s.answers ≡ true
      → codec.report_to_stdvec r ≡ some d
      → save_report codec s k r ≡ (
        ok tt,
        record s {
          system_reports = upsert k (as_i64 r.system_report.generated_at) d s.system_reports;
        },
      )
  unfolding save_report
  save_report_answers s k r d up written = ground (arith, up, written)

  save_info_answers :
      (s : ClientStore) (k : SpkiHash) (i : SvalinMetaInfo) (d : Bytes)
      → s.answers ≡ true
      → codec.info_to_stdvec i ≡ some d
      → save_info codec s k i
        ≡ (ok tt, record s { meta_info = upsert k (as_i64 i.updated_at) d s.meta_info })
  unfolding save_info
  save_info_answers s k i d up written = ground (arith, up, written)

  -- What is loaded is what is kept, as far as it can be read.
  pub load_persistent-decoded :
      (s : ClientStore)
      → IsStore s
      → (loaded : State) × (load_persistent codec s ≡ some loaded)
        × ((k : SpkiHash)
            → (report_of loaded k ≡ decoded codec.report_from_bytes k s.system_reports)
              × (info_of loaded k ≡ decoded codec.info_from_bytes k s.meta_info))
  unfolding load_persistent
  load_persistent-decoded s here =
      let reports = load_reports codec empty_state s.system_reports in
      (
        load_infos codec reports s.meta_info,
        (rw (here.answers, load_persistent) refl),
        λ k. (
          report-load_infos codec reports k s.meta_info
              ∙ report-load_reports codec empty_state k s.system_reports here.reports
              ∙ option_eta (decoded codec.report_from_bytes k s.system_reports),
          info-load_infos codec reports k s.meta_info here.infos
              ∙ ap
                  (λ o.
                    elim (decoded codec.info_from_bytes k s.meta_info)
                      as (λ _. Option SvalinMetaInfo) [ none ↦ o | some i ↦ some i ])
                  (info-load_reports codec empty_state k s.system_reports)
              ∙ option_eta (decoded codec.info_from_bytes k s.meta_info),
        ),
      )

  -- A database that holds what a state in memory says of each device is loaded into a state that
  -- says the same.
  pub load_persistent-Saves :
      (s : ClientStore) (m : State)
      → IsStore s
      → Saves codec s m
      → (loaded : State) × (load_persistent codec s ≡ some loaded)
        × ((k : SpkiHash) → (report_of loaded k ≡ report_of m k) × (info_of loaded k ≡ info_of m k))
  load_persistent-Saves s m here saves =
      let (loaded, e, same) = load_persistent-decoded s here in
      (loaded, e, λ k. ((same k).0 ∙ (saves k).0, (same k).1 ∙ (saves k).1))

  -- A message on one device is saved, and the database then holds what the state in memory says
  -- after the same message, as long as the value is newer than the first one that was saved of the
  -- device.
  pub update_store-Saves :
      (s : ClientStore) (m : State) (msg : Message)
      → IsStore s
      → Saves codec s m
      → Fresh codec s msg
      → ((update_store codec s msg).0 ≡ ok tt)
        × IsStore (update_store codec s msg).1
        × Saves codec (update_store codec s msg).1 (update_state m msg)
  unfolding update_store
  update_store-Saves s m (update_system_report k r) here saves (newer, (d, written)) =
      let time = r.system_report.generated_at in
      rw (save_report_answers s k r d here.answers written) (
        refl,
        record {
          reports = upsert-Distinct k (as_i64 time) d s.system_reports here.reports;
          infos = here.infos;
          answers = here.answers;
        },
        λ j. (
          decoded-upsert codec.report_from_bytes k j time d s.system_reports newer
              ∙ (rw (laws.report_back r d written, (saves j).0) refl)
              ∙ sym (report-update_report m k j r),
          (saves j).1 ∙ sym (info-update_report m k j r),
        ),
      )
  update_store-Saves s m (update_meta_info k i) here saves (newer, (d, written)) =
      rw (save_info_answers s k i d here.answers written) (
        refl,
        record {
          reports = here.reports;
          infos = upsert-Distinct k (as_i64 i.updated_at) d s.meta_info here.infos;
          answers = here.answers;
        },
        λ j. (
          (saves j).0 ∙ sym (report-update_info m k j i),
          decoded-upsert codec.info_from_bytes k j i.updated_at d s.meta_info newer
              ∙ (rw (laws.info_back i d written, (saves j).1) refl)
              ∙ sym (info-update_info m k j i),
        ),
      )
  update_store-Saves s m (update_from_main_state o) here saves fresh = absurd fresh
