-- ===== src/Service/Tests.antt =====
-- The theorems on the service, applied to a small disk, a configuration and worker processes.
mod Disks
mod Registry
mod Loop
mod Commands
use apfs_for_windows.Common.{
  All, Bool, List, Text, [], ascii_qt, ascii_qt-ComparesByCase, ascii_qt-SeparatesSpaces, codes,
  false, get_or, length, none, not, refl, some, trimmed, true, ℕ, ◌+◌, ◌-◌, ◌≡◌, ◌∷◌, ◌++◌, ◌==◌,
  if◌then◌else◌,
}
use apfs_for_windows.Service.Drive.{normalize_drive_mount, normalize_drive_mount_lem}
use apfs_for_windows.Service.Config.{
  MountConfig, config_document, read_mount_config, ServiceState, Surroundings,
}
use apfs_for_windows.Service.Config.Valid.{IsValid, read_mount_config-mount_config_json}
use apfs_for_windows.Service.Config.Atomic.{Configured, Atomic}
use apfs_for_windows.Service.Config.RawWrites.{Justified}
use apfs_for_windows.Service.Control.{Request, apply_control_request, serve}
use apfs_for_windows.Service.Control.Valid.{
  requested, apply_control_request-Atomic, serve-Configured, apply_control_request-raw_writes,
}
use apfs_for_windows.Service.Target.{Names, DiscoveredApfsVolume}
use apfs_for_windows.Service.Discovery.{
  next_available_mount, contains_letter, merge_discovered_mounts, used_drive_letters, candidate_of,
}
use apfs_for_windows.Service.Discovery.Letters.{next_available_mount_lem}
use apfs_for_windows.Service.Discovery.Merge.{Drives, merge_discovered_mounts-Fresh}
use apfs_for_windows.Service.Supervisor.{
  WorkerHandle, Launch, new_worker, contains_config, contains_worker, sync_workers,
  supervise_workers,
}
use apfs_for_windows.Service.Supervisor.Sync.{Synced, sync_workers_lem}
use apfs_for_windows.Service.Supervisor.Backoff.{Supervised, Pairwise, supervise_workers-Supervised}

abbrev mount_of : Text → Text → Bool → MountConfig
mount_of target mount raw = record {
  target = target;
  mount = mount;
  read_only = not raw;
  allow_raw_writes = raw;
  enabled = true;
}

abbrev one_mount : List MountConfig
one_mount = mount_of (codes "image.apfs") (codes "E:") true ∷ []

abbrev state : ServiceState
state = record { file = config_document one_mount; resync = false }

abbrev env : Surroundings
env = record {
  drives = λ i. i == 2;
  verified_apfs = λ t. false;
  writable = true;
  has_resync_event = true;
}

one_mount-IsValid : IsValid ascii_qt one_mount
unfolding ascii_qt trimmed
one_mount-IsValid = record {
  stored = ((refl, refl, refl), tt);
  safe = (refl, tt);
  apart = (tt, tt);
}

read_mount_config-mount_config_json_example :
    read_mount_config ascii_qt (config_document one_mount) ≡ some one_mount
read_mount_config-mount_config_json_example =
    read_mount_config-mount_config_json ascii_qt one_mount one_mount-IsValid.stored

state-Configured : Configured ascii_qt state
state-Configured = (one_mount, read_mount_config-mount_config_json_example, one_mount-IsValid)

abbrev request : Request
request = record {
  command = codes "add_mount";
  target = codes "other.apfs";
  mount = codes "f:";
  read_only = some false;
  allow_raw_writes = none;
  enabled = [];
}

apply_control_request-Atomic_example :
    Atomic ascii_qt env
      (requested ascii_qt request)
      state
      (apply_control_request ascii_qt env state request)
    × (Configured ascii_qt state
        → Configured ascii_qt (apply_control_request ascii_qt env state request).0)
apply_control_request-Atomic_example =
    apply_control_request-Atomic ascii_qt ascii_qt-ComparesByCase ascii_qt-SeparatesSpaces env state
      request

serve-Configured_example : Configured ascii_qt (serve ascii_qt env state (request ∷ request ∷ []))
serve-Configured_example =
    serve-Configured ascii_qt ascii_qt-ComparesByCase ascii_qt-SeparatesSpaces env state
      (request ∷ request ∷ []) state-Configured

apply_control_request-raw_writes_example :
    (mounts' : List MountConfig) × (read_mount_config ascii_qt
        (apply_control_request ascii_qt env state request).0.file
      ≡ some mounts')
    × All (Justified ascii_qt env one_mount) mounts'
apply_control_request-raw_writes_example =
    apply_control_request-raw_writes ascii_qt ascii_qt-ComparesByCase ascii_qt-SeparatesSpaces env
      state request read_mount_config-mount_config_json_example

-- One-digit numbers, and drives named by one digit.
abbrev names : Names
names = record {
  to_int = λ t. if length t == 1 then some (get_or t 0 0 - 48) else none;
  index_of_ci = λ t p. none;
  physical_drive_path = λ d. codes "\\\\.\\PhysicalDrive" ++ (48 + d) ∷ [];
  windows_partition_offset = λ t. none;
}

abbrev volumes : List DiscoveredApfsVolume
volumes =
    record {
      disk_index = 1;
      target = codes "\\\\.\\PhysicalDrive1";
      partition_index = 0;
      offset_bytes = 0;
    }
    ∷ record {
      disk_index = 2;
      target = codes "\\\\.\\PhysicalDrive2";
      partition_index = 0;
      offset_bytes = 0;
    }
    ∷ []

merge_discovered_mounts-Fresh_example :
    (extra : List MountConfig) × ((merge_discovered_mounts ascii_qt names volumes env.drives []
        one_mount).0
      ≡ one_mount ++ extra)
    × Drives ascii_qt names volumes (used_drive_letters ascii_qt env.drives one_mount) extra
merge_discovered_mounts-Fresh_example =
    merge_discovered_mounts-Fresh ascii_qt names volumes env.drives one_mount

abbrev letters : List ℕ
letters = 90 ∷ 88 ∷ []

abbrev launch : ℕ → List Text → Launch
launch i arguments = record { attempted = 70000 + i; started = some (100 + i) }

abbrev two_workers : List WorkerHandle
two_workers =
    record (new_worker (mount_of (codes "image.apfs") (codes "E:") true)) { process = some 7 }
    ∷ record (new_worker (mount_of (codes "gone.apfs") (codes "G:") false)) { process = some 8 }
    ∷ []

abbrev is_seven : ℕ → Bool
is_seven p = p == 7

abbrev two_mounts : List MountConfig
two_mounts = one_mount ++ mount_of (codes "new.apfs") (codes "N:") false ∷ []

sync_workers_lem_example :
    Synced ascii_qt is_seven launch two_mounts two_workers
      (sync_workers ascii_qt is_seven launch two_mounts two_workers)
sync_workers_lem_example =
    sync_workers_lem ascii_qt ascii_qt-ComparesByCase launch is_seven two_mounts two_workers

supervise_workers-Supervised_example :
    Pairwise is_seven 60000
      (λ j. Supervised is_seven 60000 (launch j))
      0
      two_workers
      (supervise_workers is_seven 60000 launch 0 two_workers)
supervise_workers-Supervised_example =
    supervise_workers-Supervised is_seven 60000 launch 0 two_workers
