-- ===== src/Service/Main.antt =====
-- src/service/apfs_mount_service.cpp: serviceMain with its loop, the handler of controls, and the
-- connections of clients. The handler runs beside the loop; it writes only the status and the events,
-- which the loop reads when it waits, so that a run is a sequence of controls and turns of the loop.
-- A turn has what the surroundings give in it. The log, the notifications of the device and the
-- handles are not modelled.
pub mod Keeps
pub mod Served
pub mod Queue
pub mod Start
pub mod Ends
pub mod Resync
use apfs_for_windows.Common.{
  Bool, List, Option, Qt, Text, [], drop, false, leb, none, not, some, take, trimmed, true, ℕ, ◌+◌,
  ◌&&◌, ◌||◌, ◌∷◌, ◌++◌, ◌==◌, if◌then◌else◌,
}
use apfs_for_windows.Service.Config.{MountConfig, ServiceState, Surroundings, Response, failed}
use apfs_for_windows.Service.Control.{Request, apply_control_request}
use apfs_for_windows.Service.Target.{Names, DiscoveredApfsVolume}
use apfs_for_windows.Service.Scm.{ScmState, stopped, start_pending, stop_pending, running}
use apfs_for_windows.Service.Supervisor.{
  WorkerHandle, Launch, runnable_mounts, start_all, stop_workers, supervise_workers,
  sync_configured_workers, read_mount_config_with_auto_discovery,
}

-- g_status, as SetServiceStatus reports it.
pub record Status : Type 0 where
  pub current_state : ScmState
  pub accepts_stop : Bool
  pub exit_code : ℕ
  pub wait_hint : ℕ

abbrev pub is_running_state : ScmState → Bool
is_running_state running = true
is_running_state s = false

pub set_service_status : ScmState → ℕ → ℕ → Status
set_service_status state exit_code wait_hint = record {
  current_state = state;
  accepts_stop = is_running_state state;
  exit_code = exit_code;
  wait_hint = wait_hint;
}

-- SERVICE_CONTROL_STOP and SERVICE_CONTROL_DEVICEEVENT
abbrev pub control_stop : ℕ
control_stop = 1

abbrev pub control_device_event : ℕ
control_device_event = 11

-- DBT_DEVICEARRIVAL, DBT_DEVICEREMOVECOMPLETE and DBT_DEVNODES_CHANGED
abbrev pub is_storage_device_event : ℕ → Bool
is_storage_device_event type = type == 0x8000 || type == 0x8004 || type == 7

-- A client's connection: the line that it sends before the timeout, if any. Each wait for more bytes
-- has a timeout of its own; here every connection is taken to end, with its line or with a timeout.
abbrev pub Connection : Type 0
Connection = Option Text

-- What one turn meets. `now` is the time before the sync, `synced` the time after it.
pub record Turn : Type 0 where
  pub arrivals : List Connection
  pub env : Surroundings
  pub volumes : List DiscoveredApfsVolume
  pub available : Text → Bool
  pub now : ℕ
  pub synced : ℕ
  pub supervised : ℕ
  pub running_at_sync : ℕ → Bool
  pub running_after_sync : ℕ → Bool
  pub launch_at_sync : ℕ → List Text → Launch
  pub launch_after_sync : ℕ → List Text → Launch
  -- which processes run when the workers are stopped
  pub running_at_stop : ℕ → Bool

abbrev pub in_loop : Turn → Surroundings
in_loop t = record t.env { has_resync_event = true }

pub data Step : Type 0 where
  control : ℕ → ℕ → Step
  turn : Turn → Step

-- The service in its loop or after it. `answered` has the connections served with their answers,
-- `reported` the statuses reported, and `terminated` the processes that were terminated.
pub record Main : Type 0 where
  pub looping : Bool
  pub reported : List Status
  pub stop_event : Bool
  pub service : ServiceState
  pub listening : Bool
  pub pending : List Connection
  pub answered : List (Connection × Response)
  pub workers : List WorkerHandle
  pub last_sync : ℕ
  pub terminated : List ℕ

abbrev pub report : Status → Main → Main
report s m = record m { reported = m.reported ++ s ∷ [] }

-- The handler, where the events are there or not.
abbrev pub handle_control : Bool → ℕ → ℕ → Main → Main × ℕ
handle_control events code event_type m =
    if code == control_stop && events
    then (record (report (set_service_status stop_pending 0 2000) m) { stop_event = true }, 0)
    else (if code == control_device_event && is_storage_device_event event_type
        then (if events then record m { service = record m.service { resync = true } } else m, 0)
        else (m, 120))

-- serviceControlHandler. After the loop the events are closed.
pub service_control_handler : ℕ → ℕ → Main → Main × ℕ
service_control_handler code event_type m = handle_control m.looping code event_type m

-- The start of serviceMain: which of the handler, the two events and the socket could be made, with
-- the error of an event that could not.
pub record Resources : Type 0 where
  pub handler : Bool
  pub stop_event_error : Option ℕ
  pub resync_event_error : Option ℕ
  pub listens : Bool

-- serviceMain returns before its loop.
abbrev pub returned : List Status → ServiceState → Main
returned statuses s = record {
  looping = false;
  reported = statuses;
  stop_event = false;
  service = s;
  listening = false;
  pending = [];
  answered = [];
  workers = [];
  last_sync = 0;
  terminated = [];
}

-- `parse` is QJsonDocument::fromJson of the trimmed line with the fields of the request, if the text
-- is a JSON object.
module _ (q : Qt) (n : Names) (parse : Text → Option Request) where
  -- processControlConnection
  unfoldable pub process_control_connection :
      Surroundings → ServiceState → Connection → ServiceState × Response
  process_control_connection env s none = (s, failed 124)
  process_control_connection env s (some line) = elim (parse (trimmed q line)) [
    | none ↦ (s, failed 2)
    | some r ↦ apply_control_request q env s r
  ]

  -- The loop of processControlServer, on the connections that are still to be handled.
  unfoldable pub process_connections :
      Surroundings → ServiceState → List Connection → ServiceState × List (Connection × Response)
  unfolding process_control_connection
  process_connections env s [] = (s, [])
  process_connections env s (c ∷ cs) =
      let (s1, answer) = process_control_connection env s c in
      let (s2, answers) = process_connections env s1 cs in (s2, (c, answer) ∷ answers)

  -- processControlServer, on a server that listens or not: at most eight connections, of those that
  -- have arrived by now.
  abbrev pub handle_connections : Bool → Surroundings → List Connection → Main → Main
  handle_connections false env arrivals m = m
  handle_connections true env arrivals m =
      let waiting = m.pending ++ arrivals in
      let (s, answers) = process_connections env m.service (take 8 waiting) in
      record m { service = s; pending = drop 8 waiting; answered = m.answered ++ answers }

  pub process_control_server : Surroundings → List Connection → Main → Main
  process_control_server env arrivals m = handle_connections m.listening env arrivals m

  -- The end of serviceMain.
  pub shut_down : (ℕ → Bool) → Main → Main
  unfolding set_service_status
  shut_down runs m =
      let (workers, processes) = stop_workers runs m.workers in
      record m {
        looping = false;
        reported =
            m.reported
            ++ set_service_status stop_pending 0 1000 ∷ set_service_status stopped 0 0 ∷ [];
        stop_event = false;
        listening = false;
        pending = [];
        workers = workers;
        terminated = m.terminated ++ processes;
      }

  -- syncConfiguredWorkers and lastSync.
  pub sync : Turn → Main → Main
  sync t m =
      let ((workers, processes), s) =
        sync_configured_workers q n t.volumes (in_loop t) t.available t.running_at_sync
          t.launch_at_sync m.service m.workers in
      record m {
        service = s;
        workers = workers;
        last_sync = t.synced;
        terminated = m.terminated ++ processes;
      }

  pub supervise : Turn → Main → Main
  supervise t m = record m {
    workers = supervise_workers t.running_after_sync t.supervised t.launch_after_sync 0 m.workers;
  }

  abbrev pub sync_if : Bool → Turn → Main → Main
  sync_if true t m = sync t m
  sync_if false t m = m

  -- A turn after a wait that the stop event did not end: the resync event resets itself.
  pub serve_turn : Turn → Main → Main
  unfolding process_control_server sync supervise
  serve_turn t m =
      let device_sync_requested = m.service.resync in
      let m1 =
        process_control_server (in_loop t) t.arrivals
          (record m { service = record m.service { resync = false } }) in
      supervise t (sync_if (device_sync_requested || leb (m1.last_sync + 5000) t.now) t m1)

  -- A turn of the loop, if there is one, by the stop event.
  abbrev pub take_turn : Bool → Bool → Turn → Main → Main
  take_turn false stop_event t m = m
  take_turn true true t m = shut_down t.running_at_stop m
  take_turn true false t m = serve_turn t m

  pub step : Step → Main → Main
  unfolding service_control_handler
  step (control code event_type) m = (service_control_handler code event_type m).0
  step (turn t) m = take_turn m.looping m.stop_event t m

  pub run : List Step → Main → Main
  unfolding step
  run [] m = m
  run (s ∷ steps) m = run steps (step s m)

  -- startConfiguredWorkers
  pub start_configured_workers : Turn → ServiceState → List WorkerHandle × ServiceState
  start_configured_workers t s =
      let (read, s') = read_mount_config_with_auto_discovery q n t.volumes (in_loop t) [] s in
      elim read [
        | none ↦ ([], s')
        | some mounts ↦ (start_all t.launch_at_sync 0 (runnable_mounts t.available mounts), s')
      ]

  -- serviceMain up to its loop, over the configuration that the service finds.
  pub service_main : Resources → Turn → ServiceState → Main
  unfolding set_service_status start_configured_workers
  service_main r t s =
      let starting = set_service_status start_pending 0 2000 in
      if not r.handler then returned [] s else elim r.stop_event_error [
        | some e ↦ returned (starting ∷ set_service_status stopped e 0 ∷ []) s
        | none ↦ elim r.resync_event_error [
          | some e ↦ returned (starting ∷ set_service_status stopped e 0 ∷ []) s
          | none ↦
              let (workers, s') = start_configured_workers t s in
              record (returned (starting ∷ set_service_status running 0 0 ∷ []) s') {
                looping = true;
                listening = r.listens;
                workers = workers;
                last_sync = t.synced;
              }
        ]
      ]
