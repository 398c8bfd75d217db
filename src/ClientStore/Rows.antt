-- ===== src/ClientStore/Rows.antt =====
-- svalin_store/src/client_store.rs: the rows of a table, and what a loop over them loads.
use svalin.Prelude.{
  ℕ, ◌≡◌, refl, sym, ap, ◌∙◌, Bool, true, false, Option, none, some, [], ◌∷◌, arith, inl, inr,
}
use svalin.Prelude.Tests.{ltb, ◌==◌, if◌then◌else◌, Bool-cases, Option-cases}
use svalin.Bytes.{Bytes}
use svalin.Platform.{ℤ, SpkiHash}
use svalin.HashMap.{HashMap, lookup, insert, erase, lookup-erase}
use svalin.ClientStore.Persistent.{
  SvalinReport, SvalinMetaInfo, DeviceState, State, update_system_report, update_meta_info,
  update_from_main_state, update_state, device_entry, set_device, merge_device, merge_devices,
  report_time,
}
use svalin.ClientStore.Defs.{StateCodec, load_reports, load_infos}

-- No key stands twice.
abbrev pub Distinct {ℓ} : {V : Type ℓ} → HashMap V → Type ℓ
Distinct [] = Unit
Distinct ((k, v) ∷ m) = (lookup k m ≡ none) × Distinct m

pub Distinct-erase {ℓ} : {V : Type ℓ} (k : ℕ) (m : HashMap V) → Distinct m → Distinct (erase k m)
Distinct-erase k [] h = tt
Distinct-erase k ((j, v) ∷ m) h = elim (Bool-cases (j == k)) [
  | inl e ↦ rw e (Distinct-erase k m h.1)
  | inr e ↦ rw e (ground (arith, lookup-erase k j m, h.0), Distinct-erase k m h.1)
]

pub Distinct-insert {ℓ} :
    {V : Type ℓ} (k : ℕ) (v : V) (m : HashMap V) → Distinct m → Distinct (insert k v m)
Distinct-insert k v m h = (ground (arith, lookup-erase k k m), Distinct-erase k m h)

-- What a state says of a device; a device without an entry has neither.
abbrev pub report_of : State → SpkiHash → Option SvalinReport
report_of s k = elim (lookup k s.devices) [ none ↦ none | some d ↦ d.report ]

abbrev pub info_of : State → SpkiHash → Option SvalinMetaInfo
info_of s k = elim (lookup k s.devices) [ none ↦ none | some d ↦ d.meta_info ]

pub report-update_report :
    (s : State) (k j : SpkiHash) (r : SvalinReport)
    → report_of (update_state s (update_system_report k r)) j
      ≡ (if k == j then some r else report_of s j)
unfolding update_state device_entry set_device
report-update_report s k j r = ground (arith, lookup-erase k j s.devices)

pub info-update_report :
    (s : State) (k j : SpkiHash) (r : SvalinReport)
    → info_of (update_state s (update_system_report k r)) j ≡ info_of s j
unfolding update_state device_entry set_device
info-update_report s k j r = ground (arith, lookup-erase k j s.devices)

pub report-update_info :
    (s : State) (k j : SpkiHash) (i : SvalinMetaInfo)
    → report_of (update_state s (update_meta_info k i)) j ≡ report_of s j
unfolding update_state device_entry set_device
report-update_info s k j i = ground (arith, lookup-erase k j s.devices)

pub info-update_info :
    (s : State) (k j : SpkiHash) (i : SvalinMetaInfo)
    → info_of (update_state s (update_meta_info k i)) j ≡ (if k == j then some i else info_of s j)
unfolding update_state device_entry set_device
info-update_info s k j i = ground (arith, lookup-erase k j s.devices)

-- The value that is kept under a key, as far as it can be read.
abbrev pub decoded {ℓ} :
    {V : Type ℓ} → (Bytes → Option V) → SpkiHash → HashMap (ℤ × Bytes) → Option V
decoded from_bytes k rows = elim (lookup k rows) [ none ↦ none | some row ↦ from_bytes row.1 ]

module _ (codec : StateCodec) where
  pub report-load_reports :
      (s : State) (j : SpkiHash) (rows : HashMap (ℤ × Bytes))
      → Distinct rows
      → report_of (load_reports codec s rows) j
        ≡ elim (decoded codec.report_from_bytes j rows) [ none ↦ report_of s j | some r ↦ some r ]
  unfolding load_reports
  report-load_reports s j [] h = refl
  report-load_reports s j ((k, row) ∷ rows) h =
      elim (Option-cases (codec.report_from_bytes row.1)) [
        | inl e ↦ rw (e, load_reports) (report-load_reports s j rows h.1 ∙ (ground (arith, h.0)))
        | inr (r, e) ↦
            rw (e, load_reports)
              (report-load_reports (update_state s (update_system_report k r)) j rows h.1
                ∙ (ground (arith, h.0, report-update_report s k j r)))
      ]

  pub info-load_reports :
      (s : State) (j : SpkiHash) (rows : HashMap (ℤ × Bytes))
      → info_of (load_reports codec s rows) j ≡ info_of s j
  unfolding load_reports
  info-load_reports s j [] = refl
  info-load_reports s j ((k, row) ∷ rows) = elim (Option-cases (codec.report_from_bytes row.1)) [
    | inl e ↦ rw (e, load_reports) (info-load_reports s j rows)
    | inr (r, e) ↦
        rw (e, load_reports)
          (info-load_reports (update_state s (update_system_report k r)) j rows
            ∙ info-update_report s k j r)
  ]

  pub info-load_infos :
      (s : State) (j : SpkiHash) (rows : HashMap (ℤ × Bytes))
      → Distinct rows
      → info_of (load_infos codec s rows) j
        ≡ elim (decoded codec.info_from_bytes j rows) [ none ↦ info_of s j | some i ↦ some i ]
  unfolding load_infos
  info-load_infos s j [] h = refl
  info-load_infos s j ((k, row) ∷ rows) h = elim (Option-cases (codec.info_from_bytes row.1)) [
    | inl e ↦ rw (e, load_infos) (info-load_infos s j rows h.1 ∙ (ground (arith, h.0)))
    | inr (i, e) ↦
        rw (e, load_infos)
          (info-load_infos (update_state s (update_meta_info k i)) j rows h.1
            ∙ (ground (arith, h.0, info-update_info s k j i)))
  ]

  pub report-load_infos :
      (s : State) (j : SpkiHash) (rows : HashMap (ℤ × Bytes))
      → report_of (load_infos codec s rows) j ≡ report_of s j
  unfolding load_infos
  report-load_infos s j [] = refl
  report-load_infos s j ((k, row) ∷ rows) = elim (Option-cases (codec.info_from_bytes row.1)) [
    | inl e ↦ rw (e, load_infos) (report-load_infos s j rows)
    | inr (i, e) ↦
        rw (e, load_infos)
          (report-load_infos (update_state s (update_meta_info k i)) j rows
            ∙ report-update_info s k j i)
  ]

module _ (s : State) (k j : SpkiHash) (other : DeviceState) where
  report-merge_device : report_of (merge_device s k other) j ≡ (
      if k == j
      then (if ltb (report_time (report_of s j)) (report_time other.report)
          then other.report
          else report_of s j)
      else report_of s j)
  unfolding merge_device report_time device_entry set_device
  report-merge_device = ground (arith, lookup-erase k j s.devices)

  info-merge_device : info_of (merge_device s k other) j ≡ info_of s j
  unfolding merge_device report_time device_entry set_device
  info-merge_device = ground (arith, lookup-erase k j s.devices)

-- What a merge leaves of two reports: the newer one, and its own if they are of one time.
abbrev pub newer_report : Option SvalinReport → Option SvalinReport → Option SvalinReport
newer_report own other = if ltb (report_time own) (report_time other) then other else own

newer_none : (own : Option SvalinReport) → own ≡ newer_report own none
unfolding report_time
newer_none own = ground arith

newer_branch :
    (own other rest : Option SvalinReport) (same : Bool)
    → (same ≡ true → rest ≡ none)
    → newer_report (if same then newer_report own other else own) rest
      ≡ newer_report own (if same then other else rest)
newer_branch own other rest true h = rw (h refl) (sym (newer_none (newer_report own other)))
newer_branch own other rest false h = refl

-- Taking over another state, in which no device stands twice, keeps of each device the newer
-- report, its own if both are of one time, and leaves the meta information as it is.
pub update_from_main_state-newer :
    (s : State) (others : HashMap DeviceState) (j : SpkiHash)
    → Distinct others
    → (report_of (update_state s (update_from_main_state (record { devices = others }))) j
        ≡ newer_report (report_of s j) (report_of (record { devices = others }) j))
      × (info_of (update_state s (update_from_main_state (record { devices = others }))) j
          ≡ info_of s j)
unfolding update_state merge_devices report_time
update_from_main_state-newer s [] j h = (newer_none (report_of s j), refl)
update_from_main_state-newer s ((k, other) ∷ others) j h =
    let (report, info) = update_from_main_state-newer (merge_device s k other) others j h.1 in
    (
      report
          ∙ ap (λ own. newer_report own (report_of (record { devices = others }) j))
              (report-merge_device s k j other)
          ∙ newer_branch (report_of s j) other.report (report_of (record { devices = others }) j)
              (k == j) absent
          ∙ ap (newer_report (report_of s j)) of_cons,
      info ∙ info-merge_device s k j other,
    )
  where
    absent : (k == j) ≡ true → report_of (record { devices = others }) j ≡ none
    absent e = ground (arith, h.0)

    of_cons :
        (if k == j then other.report else report_of (record { devices = others }) j)
        ≡ report_of (record { devices = (k, other) ∷ others }) j
    of_cons = ground arith
