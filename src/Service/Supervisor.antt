-- ===== src/Service/Supervisor.antt =====
-- src/service/apfs_mount_service.cpp: the worker processes, one for each mount that can run.
-- QProcess is the environment: a process is a number, `running` is its state when it is asked, and a
-- launch is what QProcess::start and waitForStarted give for the i-th start of one pass. Times are
-- milliseconds in UTC. The counters, which are only logged and shown, do not overflow here.
pub mod Start
pub mod Sync
pub mod Backoff
pub mod Complete
use apfs_for_windows.Common.{
  Bool, List, Option, Qt, Text, [], any, codes, false, keep, ltb, map, none, not, same_flag, some,
  true, ℕ, ◌+◌, ◌&&◌, ◌||◌, ◌∷◌, ◌++◌, if◌then◌else◌,
}
use apfs_for_windows.Service.Config.{
  MountConfig, ServiceState, Surroundings, read_mount_config, config_document,
}
use apfs_for_windows.Service.Target.{Names, DiscoveredApfsVolume}
use apfs_for_windows.Service.Discovery.{
  merge_discovered_mounts, canonicalize_discovered_mount_aliases,
}

pub record WorkerHandle : Type 0 where
  pub config : MountConfig
  pub process : Option ℕ
  pub last_start_attempt_utc : Option ℕ
  pub start_count : ℕ
  pub failed_start_count : ℕ

-- When the start was attempted, and the process if it started within its ten seconds.
pub record Launch : Type 0 where
  pub attempted : ℕ
  pub started : Option ℕ

abbrev pub new_worker : MountConfig → WorkerHandle
new_worker m = record {
  config = m;
  process = none;
  last_start_attempt_utc = none;
  start_count = 0;
  failed_start_count = 0;
}

unfoldable pub worker_arguments : MountConfig → List Text
worker_arguments m =
    codes "--target" ∷ m.target ∷ codes "--mount" ∷ m.mount ∷ []
    ++ (if not m.read_only then codes "--read-write" ∷ [] else [])
    ++ (if m.allow_raw_writes then codes "--allow-raw-writes" ∷ [] else [])

pub enabled_mounts : List MountConfig → List MountConfig
enabled_mounts [] = []
enabled_mounts (m ∷ ms) = let rest = enabled_mounts ms in if m.enabled then m ∷ rest else rest

-- runnableMounts, with mountTargetAvailable as `available`.
pub runnable_mounts : (Text → Bool) → List MountConfig → List MountConfig
unfolding enabled_mounts
runnable_mounts available ms = keep (λ m. available m.target) (enabled_mounts ms)

-- startWorker. The handle had no process: the call drops it.
pub start_worker : (List Text → Launch) → WorkerHandle → WorkerHandle × Bool
unfolding worker_arguments
start_worker launch w =
    let l = launch (worker_arguments w.config) in
    elim l.started [
      | none ↦ (
        record w {
          process = none;
          last_start_attempt_utc = some l.attempted;
          failed_start_count = w.failed_start_count + 1;
        },
        false,
      )
      | some p ↦ (
        record w {
          process = some p;
          last_start_attempt_utc = some l.attempted;
          start_count = w.start_count + 1;
          failed_start_count = 0;
        },
        true,
      )
    ]

pub same_worker_config : Qt → MountConfig → MountConfig → Bool
same_worker_config q a b =
    q.equal_ci a.target b.target
    && q.equal_ci a.mount b.mount
    && same_flag a.read_only b.read_only
    && same_flag a.allow_raw_writes b.allow_raw_writes
    && same_flag a.enabled b.enabled

abbrev pub active_worker_configs : List WorkerHandle → List MountConfig
active_worker_configs = map (λ w. w.config)

abbrev pub contains_config : Qt → List MountConfig → MountConfig → Bool
contains_config q configs wanted = any (λ c. same_worker_config q c wanted) configs

abbrev pub contains_worker : Qt → List WorkerHandle → MountConfig → Bool
contains_worker q workers wanted = any (λ w. same_worker_config q w.config wanted) workers

-- stopWorker: the process that it terminates, if one runs.
pub stop_worker : (ℕ → Bool) → WorkerHandle → Option ℕ
stop_worker running w = elim w.process [ none ↦ none | some p ↦ if running p then some p else none ]

-- The first loop of syncConfiguredWorkers: what stays, and the processes stopped.
pub remove_workers :
    Qt → (ℕ → Bool) → List MountConfig → List WorkerHandle → List WorkerHandle × List ℕ
unfolding stop_worker
remove_workers q running desired [] = ([], [])
remove_workers q running desired (w ∷ ws) =
    let (stay, stopped) = remove_workers q running desired ws in
    if contains_config q desired w.config
    then (w ∷ stay, stopped)
    else (stay, elim (stop_worker running w) [ none ↦ stopped | some p ↦ p ∷ stopped ])

-- The second loop, from the start i of this pass on.
pub add_workers :
    Qt → (ℕ → List Text → Launch) → ℕ → List MountConfig → List WorkerHandle → List WorkerHandle
add_workers q launch i [] workers = workers
add_workers q launch i (m ∷ ms) workers = elim (contains_worker q workers m) [
  | true ↦ add_workers q launch i ms workers
  | false ↦
      add_workers q launch (i + 1) ms (workers ++ (start_worker (launch i) (new_worker m)).0 ∷ [])
]

-- syncConfiguredWorkers, where the configuration could be read and gives the mounts desired.
pub sync_workers :
    Qt
    → (ℕ → Bool)
    → (ℕ → List Text → Launch)
    → List MountConfig
    → List WorkerHandle
    → List WorkerHandle × List ℕ
unfolding remove_workers add_workers
sync_workers q running launch desired workers =
    let (stay, stopped) = remove_workers q running desired workers in
    (add_workers q launch 0 desired stay, stopped)

-- readMountConfigWithAutoDiscovery: `none` where reading sets an error.
pub read_mount_config_with_auto_discovery :
    Qt
    → Names
    → List DiscoveredApfsVolume
    → Surroundings
    → List MountConfig
    → ServiceState
    → Option (List MountConfig) × ServiceState
read_mount_config_with_auto_discovery q n volumes env preferred s =
    elim (read_mount_config q s.file) [
      | none ↦ (none, s)
      | some mounts ↦
          let (canonical, aliases_changed) =
            canonicalize_discovered_mount_aliases q n volumes mounts in
          let (merged, mounts_added) =
            merge_discovered_mounts q n volumes env.drives preferred canonical in
          (
            some merged,
            if (aliases_changed || mounts_added) && env.writable
                then record s { file = config_document merged }
                else s,
          )
    ]

pub sync_configured_workers :
    Qt
    → Names
    → List DiscoveredApfsVolume
    → Surroundings
    → (Text → Bool)
    → (ℕ → Bool)
    → (ℕ → List Text → Launch)
    → ServiceState
    → List WorkerHandle
    → (List WorkerHandle × List ℕ) × ServiceState
unfolding read_mount_config_with_auto_discovery sync_workers
sync_configured_workers q n volumes env available running launch s workers =
    let (read, s') =
      read_mount_config_with_auto_discovery q n volumes env (active_worker_configs workers) s in
    elim read [
      | none ↦ ((workers, []), s')
      | some mounts ↦ (sync_workers q running launch (runnable_mounts available mounts) workers, s')
    ]

-- startConfiguredWorkers
pub start_all : (ℕ → List Text → Launch) → ℕ → List MountConfig → List WorkerHandle
start_all launch i [] = []
start_all launch i (m ∷ ms) =
    (start_worker (launch i) (new_worker m)).0 ∷ start_all launch (i + 1) ms

-- The time since the last attempt is under five seconds. msecsTo is negative when the clock went
-- back, which counts as under five seconds too.
pub attempted_recently : ℕ → WorkerHandle → Bool
attempted_recently now w = elim w.last_start_attempt_utc [
  | none ↦ false
  | some t ↦ ltb now (t + 5000)
]

pub is_running : (ℕ → Bool) → WorkerHandle → Bool
is_running running w = elim w.process [ none ↦ false | some p ↦ running p ]

-- One turn of the loop of superviseWorkers.
pub supervise_worker : (ℕ → Bool) → ℕ → (List Text → Launch) → WorkerHandle → WorkerHandle
unfolding is_running attempted_recently
supervise_worker running now launch w =
    if is_running running w
    then w
    else if attempted_recently now w
    then record w { process = none }
    else (start_worker launch (record w { process = none })).0

pub supervise_workers :
    (ℕ → Bool) → ℕ → (ℕ → List Text → Launch) → ℕ → List WorkerHandle → List WorkerHandle
supervise_workers running now launch i [] = []
supervise_workers running now launch i (w ∷ ws) =
    supervise_worker running now (launch i) w ∷ supervise_workers running now launch (i + 1) ws

-- stopWorkers: every worker is forgotten.
pub stop_workers : (ℕ → Bool) → List WorkerHandle → List WorkerHandle × List ℕ
stop_workers running [] = ([], [])
stop_workers running (w ∷ ws) =
    let (none_left, stopped) = stop_workers running ws in
    ([], elim (stop_worker running w) [ none ↦ stopped | some p ↦ p ∷ stopped ])
