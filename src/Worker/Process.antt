-- ===== src/Worker/Process.antt =====
-- src/worker/apfs_winfs_worker.cpp: main, runMount and consoleHandler. QCommandLineParser is a parameter, and so are
-- the functions of WinFsp that make, mount and start a file system. runMount waits between the start
-- of the dispatcher and a signal of the console; the callbacks of that time are in Worker.Callbacks.
-- One signal comes. What is printed is not modelled.
pub mod Options
pub mod Arguments
pub mod Protocol
mod Tests
use apfs_for_windows.Common.{
  Bool, List, Option, Qt, Text, [], codes, false, is_empty, none, not, some, text_eq, trimmed, true,
  ℕ, ◌&&◌, ◌||◌, ◌∷◌, ◌==◌, if◌then◌else◌,
}
use apfs_for_windows.Worker.Volume.{allocation_unit, looks_like_windows_raw_target}
use apfs_for_windows.Worker.Call.{Outcome, ok, err, ended, of_library}
use apfs_for_windows.Worker.Core.{Core, Host}
use apfs_for_windows.Worker.Mount.{Mounted, unopened, open_target}

-- What the parser finds: whether an option is set, and its value, by the option's name.
pub record Parsed : Type 0 where
  pub is_set : Text → Bool
  pub value : Text → Text

-- What runMount is called with.
pub record Settings : Type 0 where
  pub target : Text
  pub mount : Text
  pub max_read : ℕ
  pub read_only : Bool
  pub allow_raw_writes : Bool
  pub test_fault_exit_phase : Text
  pub test_fault_path : Text

-- What main does: it prints the status, returns an exit code, or mounts.
pub data Action : Type 0 where
  print_status : Action
  exits : ℕ → Action
  mounts : Settings → Action

abbrev pub is_fault_phase : Text → Bool
is_fault_phase phase =
    text_eq phase (codes "before-image-replace") || text_eq phase (codes "after-image-replace")

-- main up to runMount, with toULongLong as `to_number` and QFileInfo::isFile as `is_file`.
pub main_action : Qt → (Text → ℕ) → (Text → Bool) → Parsed → Action
main_action q to_number is_file p =
    if p.is_set (codes "status")
      || not (p.is_set (codes "target")) && not (p.is_set (codes "mount"))
    then print_status
    else (let target = trimmed q (p.value (codes "target")) in
        let mount = trimmed q (p.value (codes "mount")) in
        let read_only = not (p.is_set (codes "read-write")) in
        let phase = q.to_lower (trimmed q (p.value (codes "test-fault-exit-phase"))) in
        let path = trimmed q (p.value (codes "test-fault-path")) in
        let requested = not (is_empty phase) || not (is_empty path) in
        if is_empty target || is_empty mount
        then exits 2
        else (if requested && (is_empty path || not (is_fault_phase phase))
            then exits 2
            else (if requested
                  && (read_only || looks_like_windows_raw_target q target || not (is_file target))
                then exits 2
                else mounts (record {
                  target = target;
                  mount = mount;
                  max_read = to_number (p.value (codes "max-file-read-bytes"));
                  read_only = read_only;
                  allow_raw_writes = p.is_set (codes "allow-raw-writes");
                  test_fault_exit_phase = phase;
                  test_fault_path = path;
                }))))

-- FSP_FSCTL_VOLUME_PARAMS, the fields that depend on the mount or limit it; the flags that runMount
-- sets to a constant are in `flags`, by their names.
pub record VolumeParams : Type 0 where
  pub sector_size : ℕ
  pub sectors_per_allocation_unit : ℕ
  pub max_component_length : ℕ
  pub volume_creation_time : ℕ
  pub volume_serial_number : ℕ
  pub file_info_timeout : ℕ
  pub flags : List Text
  pub read_only_volume : Bool
  pub hard_links : Bool
  pub file_system_name : Text

-- The calls of WinFsp: each gives its error, if it fails.
pub record WinFsp (W : Type 0) : Type 0 where
  pub create : VolumeParams → W → Option ℕ × W
  pub set_mount_point : Text → W → Option ℕ × W
  pub start_dispatcher : W → Option ℕ × W
  -- MD5 of the target, as a 32-bit number
  pub target_hash : Text → ℕ

-- The calls that runMount has made, with whether those that can fail have succeeded.
pub data FspCall : Type 0 where
  create set_mount_point start_dispatcher : Bool → FspCall
  remove_mount_point stop_dispatcher delete : FspCall

-- When the signal of the console comes that ends runMount's wait, and where consoleHandler then stops
-- the dispatcher between the calls of runMount, with which it is not synchronised.
pub data Signal : Type 0 where
  -- before gFileSystemForSignal is set, so that consoleHandler makes no call
  early : Signal
  -- before the mount point is removed
  first : Signal
  -- after that, but before the file system is deleted
  between : Signal
  -- gStopRequested is set, but the call comes after the deletion
  late : Signal

-- runMount from the end of its wait on, with the call of consoleHandler.
abbrev pub stop_calls : Signal → List FspCall
stop_calls early = remove_mount_point ∷ stop_dispatcher ∷ delete ∷ []
stop_calls first = stop_dispatcher ∷ remove_mount_point ∷ stop_dispatcher ∷ delete ∷ []
stop_calls between = remove_mount_point ∷ stop_dispatcher ∷ stop_dispatcher ∷ delete ∷ []
stop_calls late = remove_mount_point ∷ stop_dispatcher ∷ delete ∷ stop_dispatcher ∷ []

pub record Run (W : Type 0) : Type 0 where
  pub outcome : Outcome (Unit {0})
  pub calls : List FspCall
  pub params : Option VolumeParams
  pub mounted : Mounted W

module _ {W : Type 0} (q : Qt) (core : Core W) (host : Host W) (winfsp : WinFsp W) (entry_limit : ℕ)
    (signal : Signal) where
  pub serial_number : Mounted W → ℕ
  serial_number m =
      let serial = winfsp.target_hash m.target in if serial == 0 then 0x41504653 else serial

  pub volume_params : Bool → Mounted W → VolumeParams
  unfolding serial_number
  volume_params read_only m = record {
    sector_size = allocation_unit;
    sectors_per_allocation_unit = 1;
    max_component_length = 510;
    volume_creation_time = host.current_file_time m.world;
    volume_serial_number = serial_number m;
    file_info_timeout = 0;
    flags =
        codes "CaseSensitiveSearch"
        ∷ codes "CasePreservedNames"
        ∷ codes "UnicodeOnDisk"
        ∷ codes "PersistentAcls"
        ∷ codes "ExtendedAttributes"
        ∷ codes "CasePreservedExtendedAttributes"
        ∷ codes "ReparsePoints"
        ∷ codes "AlwaysUseDoubleBuffering"
        ∷ [];
    read_only_volume = read_only;
    hard_links = not read_only;
    file_system_name = codes "APFS";
  }

  abbrev ran : Outcome (Unit {0}) → List FspCall → VolumeParams → Mounted W → Run W
  ran outcome calls params m = record {
    outcome = outcome;
    calls = calls;
    params = some params;
    mounted = m;
  }

  -- runMount from FspFileSystemStartDispatcher on, by its result.
  abbrev pub after_start : VolumeParams → Mounted W → Option ℕ × W → Run W
  after_start params m (some code, w) =
      ran (err (of_library code))
        (create true ∷ set_mount_point true ∷ start_dispatcher false ∷ delete ∷ []) params
        (record m { world = w })
  after_start params m (none, w) =
      ran (ok tt) (create true ∷ set_mount_point true ∷ start_dispatcher true ∷ stop_calls signal)
        params (record m { world = w })

  abbrev pub after_mount_point : VolumeParams → Mounted W → Option ℕ × W → Run W
  after_mount_point params m (some code, w) =
      ran (err (of_library code)) (create true ∷ set_mount_point false ∷ delete ∷ []) params
        (record m { world = w })
  after_mount_point params m (none, w) =
      after_start params (record m { world = w }) (winfsp.start_dispatcher w)

  abbrev pub after_create : VolumeParams → Mounted W → Option ℕ × W → Run W
  after_create params m (some code, w) =
      ran (err (of_library code)) (create false ∷ []) params (record m { world = w })
  after_create params m (none, w) =
      after_mount_point params (record m { world = w }) (winfsp.set_mount_point m.mount_point w)

  abbrev pub after_open : Text → Bool → Outcome (Unit {0}) × Mounted W → Run W
  after_open mount read_only (ok u, m) =
      let named = record m { mount_point = mount } in
      let params = volume_params read_only named in
      after_create params named (winfsp.create params named.world)
  after_open mount read_only (err e, m) = record {
    outcome = err e;
    calls = [];
    params = none;
    mounted = m;
  }
  after_open mount read_only (ended x, m) = record {
    outcome = ended x;
    calls = [];
    params = none;
    mounted = m;
  }

  pub run_mount : Settings → W → Run W
  unfolding volume_params
  run_mount s w = after_open s.mount s.read_only (
      open_target q core host entry_limit s.target s.max_read s.read_only s.allow_raw_writes
        s.test_fault_exit_phase s.test_fault_path (unopened q core host entry_limit w))
