-- ===== src/Service/Client.antt =====
-- src/service/apfs_mount_service.cpp: the command line, by which a client changes the configuration:
-- it writes the file itself or, where that fails, sends the request to the service. What is printed
-- is the answer.
pub mod Effect
use apfs_for_windows.Common.{
  Bool, List, Option, Qt, Text, [], any, codes, false, get_or, map, none, not, some, text_eq,
  trimmed, true, ℕ, ◌&&◌, ◌||◌, ◌∷◌, ◌==◌, if◌then◌else◌,
}
use apfs_for_windows.Service.Drive.{normalize_drive_mount}
use apfs_for_windows.Service.Config.{
  MountConfig, config_document, ServiceState, Response, failed, is_failure, Surroundings,
  config_document, read_mount_config, add_mount_config, remove_mount_config, set_mount_config,
  set_mount_enabled_config, set_mount_policy_config,
}
use apfs_for_windows.Service.Control.{Request, parse_bool_value}
use apfs_for_windows.Service.Partition.{◌>>=◌}
use apfs_for_windows.Service.Target.{Names}
use apfs_for_windows.Service.Discovery.{
  merge_discovered_mounts, canonicalize_discovered_mount_aliases,
}
use apfs_for_windows.Service.Scan.{FoundVolume, DiscoveryScan, Drives, discover_apfs_volumes}

-- The value after the first argument that is the name.
pub argument_value : List Text → Text → Text
argument_value [] name = []
argument_value (a ∷ rest) name =
    if text_eq a name then get_or rest 0 [] else argument_value rest name

-- The value as a number, where toInt takes it; `to_int` reads a negative one as 0, which is what
-- discoverApfsVolumes makes of it.
pub argument_int_value : (Text → Option ℕ) → List Text → Text → ℕ → ℕ
unfolding argument_value
argument_int_value to_int args name fallback = elim (to_int (argument_value args name)) [
  | none ↦ fallback
  | some value ↦ value
]

-- What came of sending a request: it did not reach the service, its answer was lost, or the answer;
-- and the state after it.
pub data Delivery : Type 0 where
  unreached lost : Delivery
  answered : Response → Delivery

abbrev pub Service : Type 0
Service = Request → ServiceState → Delivery × ServiceState

pub record Result : Type 0 where
  pub exit_code : ℕ
  pub printed : Option Response

abbrev pub code_of : Response → ℕ
code_of (failed code) = code
code_of answer = 0

-- printServiceFallbackIfOk: the answer that is printed, if it is no refusal.
pub print_service_fallback_if_ok : Delivery → Option Response
print_service_fallback_if_ok unreached = none
print_service_fallback_if_ok lost = none
print_service_fallback_if_ok (answered r) = if is_failure r then none else some r

-- The end of a command whose own attempt gave the answer `r`: the exit code stays that of the own
-- attempt where the service does not help.
abbrev pub after_fallback : ℕ → Option Response → Result
after_fallback code none = record { exit_code = code; printed = none }
after_fallback code (some r) = record { exit_code = 0; printed = some r }

pub or_service : Service → Request → ServiceState × Response → Result × ServiceState
unfolding print_service_fallback_if_ok
or_service service request (s, r) =
    if code_of r == 0
    then (record { exit_code = 0; printed = some r }, s)
    else (let (delivery, s') = service request s in
        (after_fallback (code_of r) (print_service_fallback_if_ok delivery), s'))

abbrev pub request_of : Text → Text → Text → Request
request_of command target mount = record {
  command = command;
  target = target;
  mount = mount;
  read_only = none;
  allow_raw_writes = none;
  enabled = [];
}

-- A mount command: what the process does itself, and what it asks the service for.
pub record Command : Type 0 where
  pub direct : ServiceState → ServiceState × Response
  pub request : Request

module _ (q : Qt) (env : Surroundings) where
  abbrev pub has_flag : List Text → Text → Bool
  has_flag args name = any (λ a. q.equal_ci a name) args

  pub add_mount : List Text → Command
  unfolding argument_value
  add_mount args =
      let target = trimmed q (argument_value args (codes "--target")) in
      let mount = trimmed q (argument_value args (codes "--mount")) in
      let read_only = not (has_flag args (codes "--read-write")) in
      let allow_raw_writes = has_flag args (codes "--allow-raw-writes") in
      record {
        direct = λ s. add_mount_config q env s target mount read_only allow_raw_writes false;
        request = record (request_of (codes "add_mount") target mount) {
          read_only = some read_only;
          allow_raw_writes = some allow_raw_writes;
        };
      }

  pub set_mount : List Text → Command
  unfolding argument_value
  set_mount args =
      let target = trimmed q (argument_value args (codes "--target")) in
      let mount = normalize_drive_mount q (trimmed q (argument_value args (codes "--mount"))) in
      record {
        direct = λ s. set_mount_config q env s target mount false;
        request = request_of (codes "set_mount") target mount;
      }

  pub set_mount_enabled : List Text → Command
  unfolding argument_value
  set_mount_enabled args =
      let target = trimmed q (argument_value args (codes "--target")) in
      let enabled_text = trimmed q (argument_value args (codes "--enabled")) in
      record {
        direct =
            λ s. set_mount_enabled_config q env s target (parse_bool_value q enabled_text) false;
        request = record (request_of (codes "set_enabled") target []) { enabled = enabled_text };
      }

  pub set_mount_policy : List Text → Command
  unfolding argument_value
  set_mount_policy args =
      let target = trimmed q (argument_value args (codes "--target")) in
      let read_only = not (has_flag args (codes "--read-write")) in
      let allow_raw_writes = has_flag args (codes "--allow-raw-writes") in
      record {
        direct = λ s. set_mount_policy_config q env s target read_only allow_raw_writes false;
        request = record (request_of (codes "set_policy") target []) {
          read_only = some read_only;
          allow_raw_writes = some allow_raw_writes;
        };
      }

  pub remove_mount : List Text → Command
  unfolding argument_value
  remove_mount args =
      let target = trimmed q (argument_value args (codes "--target")) in
      let mount = trimmed q (argument_value args (codes "--mount")) in
      record {
        direct = λ s. remove_mount_config q env s target mount false;
        request = request_of (codes "remove_mount") target mount;
      }

  pub run_command : Service → Command → ServiceState → Result × ServiceState
  unfolding or_service
  run_command service c s = or_service service c.request (c.direct s)

  -- clearMounts: the exit code and the state.
  pub clear_mounts : ServiceState → ℕ × ServiceState
  clear_mounts s = if env.writable then (0, record s { file = config_document [] }) else (4, s)

  -- listMounts: the exit code and the mounts printed.
  pub list_mounts : ServiceState → ℕ × List MountConfig
  list_mounts s = elim (read_mount_config q s.file) [ none ↦ (3, []) | some mounts ↦ (0, mounts) ]

  abbrev max_drives : (Text → Option ℕ) → List Text → ℕ
  max_drives to_int args = argument_int_value to_int args (codes "--max-physical-drives") 32

  -- The scan that discoverApfs prints.
  pub discover_apfs : Drives → (Text → Option ℕ) → List Text → Option DiscoveryScan
  unfolding argument_int_value
  discover_apfs d to_int args =
      discover_apfs_volumes q d (max_drives to_int args)
        (not (has_flag args (codes "--no-root-entries")))

  -- configureDiscoveredMounts once the scan has given its volumes: the exit code, the mounts and
  -- whether they changed, and the state.
  pub configure_volumes :
      Names
      → List FoundVolume
      → List MountConfig
      → ServiceState
      → (ℕ × Option (List MountConfig × Bool)) × ServiceState
  configure_volumes n found mounts s =
      let volumes = map (λ v. v.volume) found in
      let (canonical, aliases_changed) = canonicalize_discovered_mount_aliases q n volumes mounts in
      let (merged, mounts_added) = merge_discovered_mounts q n volumes env.drives [] canonical in
      let changed = aliases_changed || mounts_added in
      if changed && not env.writable then ((4, none), s) else (
        (0, some (merged, changed)),
        if changed then record s { file = config_document merged } else s,
      )

  pub configure_discovered_mounts :
      Names
      → Drives
      → (Text → Option ℕ)
      → List Text
      → ServiceState
      → Option ((ℕ × Option (List MountConfig × Bool)) × ServiceState)
  unfolding argument_int_value configure_volumes
  configure_discovered_mounts n d to_int args s = elim (read_mount_config q s.file) [
    | none ↦ some ((3, none), s)
    | some mounts ↦ do
      scan ← discover_apfs_volumes q d (max_drives to_int args) true
      some (configure_volumes n scan.volumes mounts s)
  ]
