-- ===== src/Tests/Devices.antt =====
-- The theorems on what a client knows of the devices, at concrete inputs.
use native.Mathlib.Decide.{ℕ_discrete}
use svalin.Prelude.{ℕ, ◌≡◌, refl, sym, ap, true, Option, none, some, [], ◌∷◌, arith}
use svalin.Prelude.Result.{ok}
use svalin.Bytes.{Bytes}
use svalin.ClientStore.Persistent.{
  OsFamily, linux, Cpu, Disk, SystemReport, SvalinReport, State, DeviceState, update_system_report,
  update_state, empty_state,
}
use svalin.ClientStore.Defs.{ClientStore, StateCodec, update_store, load_persistent}
use svalin.ClientStore.Rows.{report_of}
use svalin.ClientStore.Laws.{StateRoundTrips, IsStore, Saves, update_store-Saves}
use svalin.ClientStore.Late.{after_three, load_persistent-late}

os_discrete : Discrete OsFamily
os_discrete = hlevel

cpu_discrete : Discrete Cpu
cpu_discrete = hlevel (ℕ_discrete)

disk_discrete : Discrete Disk
disk_discrete = hlevel (ℕ_discrete)

system_discrete : Discrete SystemReport
system_discrete = hlevel (os_discrete, cpu_discrete, disk_discrete, ℕ_discrete)

report_discrete : Discrete SvalinReport
report_discrete = hlevel (system_discrete, ℕ_discrete)

-- A report that was generated at the time.
abbrev report_at : ℕ → SvalinReport
report_at time = record {
  current_version_identifier = 1 ∷ [];
  system_report = record {
    generated_at = time;
    os_family = linux;
    os = none;
    kernel_version = [];
    hostname = none;
    cpu = record { brand = []; model = []; cores = none; arch = []; threads = 1 };
    total_memory = 0;
    total_swap = 0;
    disks = [];
  };
}

abbrev read_report : Bytes → Option SvalinReport
read_report [] = none
read_report (time ∷ _) = some (report_at time)

-- It writes such reports alone, and no meta information.
abbrev demo_states : StateCodec
demo_states = record {
  report_to_stdvec = λ r. elim (report_discrete r (report_at r.system_report.generated_at)) [
    | yes _ ↦ some (r.system_report.generated_at ∷ [])
    | no _ ↦ none
  ];
  report_from_bytes = read_report;
  info_to_stdvec = λ _. none;
  info_from_bytes = λ _. none;
}

demo_states-RoundTrips : StateRoundTrips demo_states
demo_states-RoundTrips = record {
  report_back = λ r d written.
      elim (report_discrete r (report_at r.system_report.generated_at))
          as (λ o.
            (elim o [ yes _ ↦ some (r.system_report.generated_at ∷ []) | no _ ↦ none ]) ≡ some d
            → read_report d ≡ some r) [
              | yes e ↦ λ w.
                  let d_eq : r.system_report.generated_at ∷ [] ≡ d = cc w in
                  rw (← d_eq) (ap some (sym e))
              | no _ ↦ λ w. absurd (cc w)
            ]
        written;
  info_back = λ i d written. absurd (cc written);
}

report_at-written : (time : ℕ) → demo_states.report_to_stdvec (report_at time) ≡ some (time ∷ [])
report_at-written time =
    elim (report_discrete (report_at time) (report_at time))
      as (λ o.
        ◌≡◌ {A = Option Bytes} (elim o [ yes _ ↦ some (time ∷ []) | no _ ↦ none ])
          (some (time ∷ []))) [ yes _ ↦ refl | no other ↦ absurd (other refl) ]

abbrev empty_store : ClientStore
empty_store = record { answers = true; system_reports = []; meta_info = [] }

empty_store-IsStore : IsStore empty_store
empty_store-IsStore = record { reports = tt; infos = tt; answers = refl }

first_saved :
    ((update_store demo_states empty_store (update_system_report 7 (report_at 10))).0 ≡ ok tt)
    × IsStore (update_store demo_states empty_store (update_system_report 7 (report_at 10))).1
    × Saves demo_states
        (update_store demo_states empty_store (update_system_report 7 (report_at 10))).1
        (update_state empty_state (update_system_report 7 (report_at 10)))
first_saved =
    update_store-Saves demo_states demo_states-RoundTrips empty_store empty_state
      (update_system_report 7 (report_at 10)) empty_store-IsStore (λ k. (refl, refl))
      (tt, (10 ∷ [], report_at-written 10))

update_store-Saves_example :
    ((update_store demo_states empty_store (update_system_report 7 (report_at 10))).0 ≡ ok tt)
    × IsStore (update_store demo_states empty_store (update_system_report 7 (report_at 10))).1
    × Saves demo_states
        (update_store demo_states empty_store (update_system_report 7 (report_at 10))).1
        (update_state empty_state (update_system_report 7 (report_at 10)))
update_store-Saves_example =
    update_store-Saves demo_states demo_states-RoundTrips empty_store empty_state
      (update_system_report 7 (report_at 10)) empty_store-IsStore (λ k. (refl, refl))
      (tt, (10 ∷ [], report_at-written 10))

load_persistent-late_example :
    (loaded : State) × (load_persistent demo_states (
        after_three demo_states demo_states-RoundTrips empty_store 7
          (report_at 10)
          (report_at 30)
          (report_at 20))
      ≡ some loaded)
    × (report_of loaded 7 ≡ some (report_at 20))
load_persistent-late_example =
    load_persistent-late demo_states demo_states-RoundTrips empty_store 7 (report_at 10)
      (report_at 30) (report_at 20) (10 ∷ []) (30 ∷ []) (20 ∷ []) empty_store-IsStore refl
      (report_at-written 10) (report_at-written 30) (report_at-written 20) (omega arith)
      (omega arith) (omega arith)

abbrev known_device : State
known_device = update_state empty_state (update_system_report 7 (report_at 10))

abbrev other_device : DeviceState
other_device = record { spki_hash = 7; report = some (report_at 20); meta_info = none }
