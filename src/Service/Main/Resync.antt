-- ===== src/Service/Main/Resync.antt =====
-- Changes of the configuration and events of devices: the next turn brings the workers up to date.
use apfs_for_windows.Common.{
  All, All-mono, Bool, Bool-cases, ComparesByCase, List, Option, Option-cases, Qt, SeparatesSpaces,
  Text, [], any, ap, arith, false, inl, inr, leb, none, not, refl, some, sym, take, trimmed, true,
  ℕ, ◌+◌, ◌≡◌, ◌∙◌, ◌&&◌, ◌||◌, ◌∷◌, ◌++◌, ◌==◌,
}
use mathlib.Core.Path.{subst}
use apfs_for_windows.Service.Config.{ServiceState, Surroundings, Response, is_failure}
use apfs_for_windows.Service.Control.{Request}
use apfs_for_windows.Service.Control.Valid.{apply_control_request-Atomic}
use apfs_for_windows.Service.Target.{Names}
use apfs_for_windows.Service.Config.{MountConfig}
use apfs_for_windows.Service.Main.Queue.{serve_turn-Served}
use apfs_for_windows.Service.Main.Keeps.{sync_if-Keeps}
use apfs_for_windows.Service.Supervisor.{
  WorkerHandle, active_worker_configs, contains_worker, sync_configured_workers, runnable_mounts,
  read_mount_config_with_auto_discovery,
}
use apfs_for_windows.Service.Supervisor.Backoff.{
  Supervised, Pairwise, supervise_workers-Supervised, supervise_workers-contains,
}
use apfs_for_windows.Service.Supervisor.Sync.{Synced}
use apfs_for_windows.Service.Supervisor.Complete.{
  sync_configured_workers-Synced, sync_configured_workers-resync,
}
use apfs_for_windows.Service.Main.{
  Main, Step, control, turn, Turn, Connection, handle_control, service_control_handler,
  control_stop, control_device_event, is_storage_device_event, process_control_connection,
  process_connections, handle_connections, process_control_server, sync, sync_if, supervise,
  serve_turn, in_loop, take_turn, step, run,
}

-- Controls that are no request to stop.
abbrev pub is_quiet : Step → Bool
is_quiet (turn t) = false
is_quiet (control code type) = not (code == control_stop)

-- The event is set, and the loop goes on.
record Requested (m : Main) : Type 0 where
  looping : m.looping ≡ true
  going : m.stop_event ≡ false
  resync : m.service.resync ≡ true

handle_control-Requested :
    (events : Bool) (code type : ℕ) (m : Main)
    → not (code == control_stop) ≡ true
    → Requested m
    → Requested (handle_control events code type m).0
handle_control-Requested false code type m other r = elim (Bool-cases (code == control_stop)) [
  | inl a ↦ cc (rw a at other)
  | inr a ↦ elim (Bool-cases (code == control_device_event && is_storage_device_event type)) [
    | inl b ↦ rw (a, b) r
    | inr b ↦ rw (a, b) r
  ]
]
handle_control-Requested true code type m other r = elim (Bool-cases (code == control_stop)) [
  | inl a ↦ cc (rw a at other)
  | inr a ↦ elim (Bool-cases (code == control_device_event && is_storage_device_event type)) [
    | inl b ↦ rw (a, b) (record { looping = r.looping; going = r.going; resync = refl })
    | inr b ↦ rw (a, b) r
  ]
]

module _ (q : Qt) (laws : ComparesByCase q) (spaces : SeparatesSpaces q) where
  module _ (n : Names) (parse : Text → Option Request) where
    -- What a connection does to the event and the file.
    connection-resync :
        (env : Surroundings) (s : ServiceState) (c : Connection)
        → let out =
            process_control_connection q n parse (record env { has_resync_event = true }) s c in
          (s.resync ≡ true → out.0.resync ≡ true) × (is_failure out.1 ≡ false → out.0.resync ≡ true)
    unfolding process_control_connection
    connection-resync env s none = (λ r. r, λ e. cc)
    connection-resync env s (some line) = elim (Option-cases (parse (trimmed q line))) [
      | inl e ↦ rw (process_control_connection, e) (λ r. r, λ f. cc)
      | inr (r, e) ↦
          let live = record env { has_resync_event = true } in
          let atomic = (apply_control_request-Atomic q laws spaces live s r).0 in
          rw (process_control_connection, e)
            (
              (elim atomic [
                | inl (_, same) ↦ λ h. ap (λ x. x.resync) same ∙ h
                | inr (_, _, _, _, _, _, _, _, set) ↦ λ h. rw set (ground arith)
              ]),
              (elim atomic [
                | inl (fails, same) ↦ λ h. cc
                | inr (_, _, _, _, _, _, _, _, set) ↦ λ h. rw set (ground arith)
              ]),
            )
    ]

    -- An answer that is no refusal.
    abbrev pub accepts : Connection × Response → Bool
    accepts a = not (is_failure a.1)

    connections-resync :
        (env : Surroundings) (cs : List Connection) (s : ServiceState)
        → let out = process_connections q n parse (record env { has_resync_event = true }) s cs in
          (s.resync ≡ true → out.0.resync ≡ true) × (any accepts out.1 ≡ true → out.0.resync ≡ true)
    unfolding process_connections
    connections-resync env [] s = (λ r. r, λ e. cc)
    connections-resync env (c ∷ cs) s =
        let live = record env { has_resync_event = true } in
        let out = process_control_connection q n parse live s c in
        let (keeps, sets) = connection-resync env s c in
        let (keeps', sets') = connections-resync env cs out.0 in
        (
          λ r. keeps' (keeps r),
          λ a. elim (Bool-cases (is_failure out.1)) [
            | inl fails ↦ sets' (ground arith)
            | inr fine ↦ keeps' (sets fine)
          ],
        )

    -- The requests of a turn, and its answers.
    abbrev pub served : Turn → Main → Main
    served t m =
        process_control_server q n parse (in_loop t) t.arrivals
          (record m { service = record m.service { resync = false } })

    -- What a sync at the state `u` has achieved in a turn: its time is noted; the workers are brought
    -- to the mounts that the configuration and the volumes of that moment allow to run, which starts
    -- those that are missing, and the processes that it stops are stopped; then a supervision goes over
    -- them, and each of these mounts has a worker.
    pub record Resynced (t : Turn) (u m : Main) : Type 0 where
      pub synced_at : m.last_sync ≡ t.synced
      pub complete :
          (mounts : List MountConfig)
          → (read_mount_config_with_auto_discovery q n t.volumes
              (in_loop t)
              (active_worker_configs u.workers)
              u.service).0
            ≡ some mounts
          → (out : List WorkerHandle × List ℕ) × Synced q t.running_at_sync t.launch_at_sync
              (runnable_mounts t.available mounts)
              u.workers
              out
            × (m.terminated ≡ u.terminated ++ out.1)
            × Pairwise t.running_after_sync t.supervised
                (λ j. Supervised t.running_after_sync t.supervised (t.launch_after_sync j))
                0
                out.0
                m.workers
            × All (λ c. contains_worker q m.workers c ≡ true) (runnable_mounts t.available mounts)

    sync-Resynced :
        (t : Turn) (u : Main) → Resynced t u (supervise q n parse t (sync q n parse t u))
    unfolding sync supervise
    sync-Resynced t u = record {
      synced_at = refl;
      complete = λ mounts e.
          (let out =
              (sync_configured_workers q n t.volumes (in_loop t) t.available t.running_at_sync
                t.launch_at_sync u.service u.workers).0 in
            let s =
              sync_configured_workers-Synced q laws t.launch_at_sync n t.volumes (in_loop t)
                t.available t.running_at_sync u.service u.workers e in
            (
              out,
              s,
              refl,
              supervise_workers-Supervised t.running_after_sync t.supervised t.launch_after_sync 0
                  out.0,
              All-mono (λ c. contains_worker q out.0 c ≡ true)
                  (λ c h.
                    supervise_workers-contains t.running_after_sync t.supervised q c
                      t.launch_after_sync out.0
                    ∙ h)
                  (runnable_mounts t.available mounts) s.complete,
            ));
    }

    serve_turn-Resynced :
        (t : Turn) (m : Main)
        → m.service.resync ≡ true
        → Resynced t (served t m) (serve_turn q n parse t m)
    unfolding serve_turn
    serve_turn-Resynced t m set =
        subst
          (λ b. Resynced t (served t m) (
            supervise q n parse t
              (sync_if q n parse (b || leb ((served t m).last_sync + 5000) t.now) t (served t m))))
          (sym set) (sync-Resynced t (served t m))

    -- A control or a turn that is over leaves the request for a sync in place until the next turn.
    run-Resynced :
        (cs : List Step) (t : Turn) (m : Main)
        → All (λ s. is_quiet s ≡ true) cs
        → Requested m
        → Resynced t (served t (run q n parse cs m)) (run q n parse (cs ++ turn t ∷ []) m)
    unfolding run step service_control_handler
    run-Resynced [] t m a r =
        subst (λ b. Resynced t (served t m) (take_turn q n parse b m.stop_event t m))
          (sym r.looping)
          (subst (λ b. Resynced t (served t m) (take_turn q n parse true b t m)) (sym r.going)
            (serve_turn-Resynced t m r.resync))
    run-Resynced (turn u ∷ cs) t m a r = cc
    run-Resynced (control code type ∷ cs) t m a r =
        run-Resynced cs t _ a.1 (handle_control-Requested m.looping code type m a.0 r)

    -- The connections that a turn handles, with its answers.
    abbrev pub answers_of : Turn → Main → List (Connection × Response)
    answers_of t m =
        (process_connections q n parse (in_loop t) (record m.service { resync = false })
          (take 8 (m.pending ++ t.arrivals))).1

    served-accepts :
        (t : Turn) (m : Main)
        → m.listening ≡ true
        → any accepts (answers_of t m) ≡ true
        → ((served t m).service.resync ≡ true)
          × ((served t m).answered ≡ m.answered ++ answers_of t m)
    unfolding process_control_server
    served-accepts t m listens a =
        let m0 = record m { service = record m.service { resync = false } } in
        subst
          (λ l.
            ((handle_connections q n parse l (in_loop t) t.arrivals m0).service.resync ≡ true)
            × ((handle_connections q n parse l (in_loop t) t.arrivals m0).answered
                ≡ m.answered ++ answers_of t m))
          (sym listens)
          ((connections-resync t.env (take 8 (m.pending ++ t.arrivals)) m0.service).1 a, refl)

    sync_if-resync :
        (b : Bool) (t : Turn) (m : Main)
        → (sync_if q n parse b t m).service.resync ≡ m.service.resync
    unfolding sync
    sync_if-resync false t m = refl
    sync_if-resync true t m =
        sync_configured_workers-resync q n t.volumes (in_loop t) t.available t.running_at_sync
          t.launch_at_sync m.service m.workers

    -- When a turn of the listening service accepts a request, its answers are recorded and, unless a stop is asked for, the next turn syncs,
    -- whatever controls come in between: its time is noted; where the configuration can then be read,
    -- the workers of other mounts are stopped, and a worker is started, with the mount's arguments, for
    -- every mount that can run and has none; and the supervision after it keeps or restarts each.
    pub request-Resynced :
        (t t' : Turn) (cs : List Step) (m : Main)
        → m.looping ≡ true
        → m.listening ≡ true
        → m.stop_event ≡ false
        → any accepts (answers_of t m) ≡ true
        → All (λ s. is_quiet s ≡ true) cs
        → ((step q n parse (turn t) m).answered ≡ m.answered ++ answers_of t m)
          × Resynced t'
              (served t' (run q n parse (turn t ∷ cs) m))
              (run q n parse (turn t ∷ cs ++ turn t' ∷ []) m)
    unfolding run step serve_turn supervise
    request-Resynced t t' cs m live listens going a quiet =
        let m' = step q n parse (turn t) m in
        let here : m' ≡ serve_turn q n parse t m =
          ap (λ b. take_turn q n parse b m.stop_event t m) live
          ∙ ap (λ b. take_turn q n parse true b t m) going in
        let s = serve_turn-Served q n parse t m live listens going in
        let (set, answered) = served-accepts t m listens a in
        let b = m.service.resync || leb ((served t m).last_sync + 5000) t.now in
        let kept = (sync_if-Keeps q n parse b t (served t m)).answered in
        (
          ap (λ x. x.answered) here ∙ kept ∙ answered,
          run-Resynced cs t' m' quiet (record {
            looping = ap (λ x. x.looping) here ∙ s.live;
            going = ap (λ x. x.stop_event) here ∙ s.going;
            resync = ap (λ x. x.service.resync) here ∙ sync_if-resync b t (served t m) ∙ set;
          }),
        )

    -- The same of an event of a storage device.
    pub device_event-Resynced :
        (type : ℕ) (t : Turn) (cs : List Step) (m : Main)
        → is_storage_device_event type ≡ true
        → m.looping ≡ true
        → m.stop_event ≡ false
        → All (λ s. is_quiet s ≡ true) cs
        → Resynced t
            (served t (run q n parse (control control_device_event type ∷ cs) m))
            (run q n parse (control control_device_event type ∷ cs ++ turn t ∷ []) m)
    unfolding run step service_control_handler
    device_event-Resynced type t cs m storage live going quiet = run-Resynced cs t _ quiet (
        subst (λ b. Requested (handle_control b control_device_event type m).0) (sym live)
          (rw storage (record { looping = live; going = going; resync = refl })))
