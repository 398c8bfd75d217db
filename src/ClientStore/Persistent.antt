-- ===== src/ClientStore/Persistent.antt =====
-- svalin_store/src/client_store/persistent.rs: the state in memory.
use svalin.Prelude.{ℕ, Option, none, some, List, [], ◌∷◌}
use svalin.Prelude.Tests.{ltb, if◌then◌else◌}
use svalin.Prelude.Lists.{bytes_eq}
use svalin.Bytes.{Bytes}
use svalin.Platform.{SpkiHash}
use svalin.HashMap.{HashMap, lookup, insert}
use svalin.Certificate.Hex.{display}

-- svalin_sysctl/src/sytem_report.rs
pub data OsFamily : Type 0 where
  windows linux unknown : OsFamily

-- The kind, an enumeration of the library sysinfo, is a number.
pub record Disk : Type 0 where
  pub name : Bytes
  pub file_system : Bytes
  pub mount_point : Bytes
  pub total_space : ℕ
  pub available_space : ℕ
  pub kind : ℕ

pub record Cpu : Type 0 where
  pub brand : Bytes
  pub model : Bytes
  pub cores : Option ℕ
  pub arch : Bytes
  pub threads : ℕ

pub record SystemReport : Type 0 where
  pub generated_at : ℕ
  pub os_family : OsFamily
  pub os : Option Bytes
  pub kernel_version : Bytes
  pub hostname : Option Bytes
  pub cpu : Cpu
  pub total_memory : ℕ
  pub total_swap : ℕ
  pub disks : List Disk

pub record SvalinReport : Type 0 where
  pub current_version_identifier : Bytes
  pub system_report : SystemReport

pub record SvalinMetaInfo : Type 0 where
  pub updated_at : ℕ
  pub name : Bytes
  pub group : Bytes
  pub notes : Bytes

pub record DeviceState : Type 0 where
  pub spki_hash : SpkiHash
  pub report : Option SvalinReport
  pub meta_info : Option SvalinMetaInfo

-- `DeviceState::name`: the given name, or the name of the host, or the hash.
unfoldable pub device_name : DeviceState → Bytes
device_name d =
    let fallback : Bytes = elim d.report [
      | none ↦ display d.spki_hash
      | some r ↦ elim r.system_report.hostname [ none ↦ display d.spki_hash | some h ↦ h ]
    ] in
    elim d.meta_info [ none ↦ fallback | some m ↦ if bytes_eq m.name [] then fallback else m.name ]

-- `DeviceState::os`
unfoldable pub device_os : DeviceState → OsFamily
device_os d = elim d.report [ none ↦ unknown | some r ↦ r.system_report.os_family ]

pub record State : Type 0 where
  pub devices : HashMap DeviceState

pub data Message : Type 0 where
  update_system_report : SpkiHash → SvalinReport → Message
  update_meta_info : SpkiHash → SvalinMetaInfo → Message
  update_from_main_state : State → Message

abbrev pub empty_state : State
empty_state = record { devices = [] }

-- `get_device_entry`: the entry, which is made if there is none.
unfoldable pub device_entry : State → SpkiHash → DeviceState
device_entry s k = elim (lookup k s.devices) [
  | some d ↦ d
  | none ↦ record { spki_hash = k; report = none; meta_info = none }
]

-- A write through the entry.
unfoldable pub set_device : State → SpkiHash → DeviceState → State
set_device s k d = record { devices = insert k d s.devices }

-- `generated_at`, and 0 without a report.
unfoldable pub report_time : Option SvalinReport → ℕ
report_time none = 0
report_time (some r) = r.system_report.generated_at

-- A device of the other state in the loop of `UpdateFromMainState`.
unfoldable pub merge_device : State → SpkiHash → DeviceState → State
unfolding device_entry set_device report_time
merge_device s k other =
    let device = device_entry s k in
    if ltb (report_time device.report) (report_time other.report)
    then set_device s k (record device { report = other.report })
    else set_device s k device

unfoldable pub merge_devices : State → HashMap DeviceState → State
unfolding merge_device
merge_devices s [] = s
merge_devices s ((k, other) ∷ others) = merge_devices (merge_device s k other) others

-- `State::update`
unfoldable pub update_state : State → Message → State
unfolding device_entry set_device merge_devices
update_state s (update_system_report k report) =
    set_device s k (record (device_entry s k) { report = some report })
update_state s (update_meta_info k meta_info) =
    set_device s k (record (device_entry s k) { meta_info = some meta_info })
update_state s (update_from_main_state other) = merge_devices s other.devices
