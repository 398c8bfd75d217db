-- ===== src/ClientStore/Late.antt =====
-- svalin_store/src/client_store.rs: reports that are saved out of order.
use svalin.Prelude.{◌≡◌, ◌<◌, ap, ◌∙◌, true, none, some, arith}
use svalin.Bytes.{Bytes}
use svalin.Platform.{ℤ, SpkiHash}
use svalin.HashMap.{HashMap, lookup, lookup-insert}
use svalin.TransactionStore.Table.{as_i64, lt_i64, lt-as_i64}
use svalin.TransactionStore.Rows.{i64_limit}
use svalin.ClientStore.Persistent.{SvalinReport, State}
use svalin.ClientStore.Defs.{ClientStore, StateCodec, upsert, save_report, load_persistent}
use svalin.ClientStore.Rows.{report_of}
use svalin.ClientStore.Laws.{
  StateRoundTrips, IsStore, Newer, upsert-Distinct, decoded-upsert, save_report_answers,
  load_persistent-decoded,
}

upsert_new :
    (k : SpkiHash) (time : ℤ) (d : Bytes) (rows : HashMap (ℤ × Bytes))
    → lookup k rows ≡ none
    → lookup k (upsert k time d rows) ≡ some (time, d)
unfolding upsert
upsert_new k time d rows e = rw (e, upsert) (ground (arith, lookup-insert k k (time, d) rows))

upsert_old :
    (k : SpkiHash) (first : ℤ) (old : Bytes) (time : ℤ) (d : Bytes) (rows : HashMap (ℤ × Bytes))
    → lookup k rows ≡ some (first, old)
    → lt_i64 first time ≡ true
    → lookup k (upsert k time d rows) ≡ some (first, d)
unfolding upsert
upsert_old k first old time d rows e lt =
    rw (e, upsert) (rw lt (ground (arith, lookup-insert k k (first, d) rows)))

module _ (codec : StateCodec) (laws : StateRoundTrips codec) where
  -- Three reports of one device, each saved after the other.
  abbrev pub after_three :
      ClientStore → SpkiHash → SvalinReport → SvalinReport → SvalinReport → ClientStore
  after_three s k r1 r2 r3 =
      (save_report codec (save_report codec (save_report codec s k r1).1 k r2).1 k r3).1

  -- Of three reports of a device that has none yet, saved in the order of their arrival, the third
  -- is kept and loaded though the second is newer, if it is newer than the first.
  pub load_persistent-late :
      (s : ClientStore) (k : SpkiHash) (r1 r2 r3 : SvalinReport) (d1 d2 d3 : Bytes)
      → IsStore s
      → lookup k s.system_reports ≡ none
      → codec.report_to_stdvec r1 ≡ some d1
      → codec.report_to_stdvec r2 ≡ some d2
      → codec.report_to_stdvec r3 ≡ some d3
      → r1.system_report.generated_at < r3.system_report.generated_at
      → r3.system_report.generated_at < r2.system_report.generated_at
      → r2.system_report.generated_at < i64_limit
      → (loaded : State) × (load_persistent codec (after_three s k r1 r2 r3) ≡ some loaded)
        × (report_of loaded k ≡ some r3)
  load_persistent-late s k r1 r2 r3 d1 d2 d3 here absent w1 w2 w3 lt13 lt32 small =
      let t1 = as_i64 r1.system_report.generated_at in
      let t2 = as_i64 r2.system_report.generated_at in
      let t3 = as_i64 r3.system_report.generated_at in
      let rows1 = upsert k t1 d1 s.system_reports in
      let rows2 = upsert k t2 d2 rows1 in
      let rows3 = upsert k t3 d3 rows2 in
      let s1 : ClientStore = record s { system_reports = rows1 } in
      let s2 : ClientStore = record s { system_reports = rows2 } in
      let s3 : ClientStore = record s { system_reports = rows3 } in
      let e1 = save_report_answers codec laws s k r1 d1 here.answers w1 in
      let e2 = save_report_answers codec laws s1 k r2 d2 here.answers w2 in
      let e3 = save_report_answers codec laws s2 k r3 d3 here.answers w3 in
      let saved : after_three s k r1 r2 r3 ≡ s3 =
        ap (λ x. (save_report codec (save_report codec x.1 k r2).1 k r3).1) e1
        ∙ ap (λ x. (save_report codec x.1 k r3).1) e2
        ∙ ap (λ x. x.1) e3 in
      let kept1 : lookup k rows1 ≡ some (t1, d1) = upsert_new k t1 d1 s.system_reports absent in
      let kept2 : lookup k rows2 ≡ some (t1, d2) =
        upsert_old k t1 d1 t2 d2 rows1 kept1 (lt-as_i64 _ _ (omega arith) small ∙ (ground arith)) in
      let newer : Newer k r3.system_report.generated_at rows2 =
        rw (kept2, Newer) (lt-as_i64 _ _ (omega arith) (omega arith) ∙ (ground arith)) in
      let (loaded, e, same) = load_persistent-decoded codec laws s3 (record {
        reports =
            upsert-Distinct k t3 d3 rows2 (
              upsert-Distinct k t2 d2 rows1
                (upsert-Distinct k t1 d1 s.system_reports here.reports));
        infos = here.infos;
        answers = here.answers;
      }) in
      (
        loaded,
        (rw saved e),
        (same k).0
            ∙ decoded-upsert codec.report_from_bytes k k r3.system_report.generated_at d3 rows2
                newer
            ∙ (ground (arith, laws.report_back r3 d3 w3)),
      )
