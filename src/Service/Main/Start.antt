-- ===== src/Service/Main/Start.antt =====
-- The start of the service.
use apfs_for_windows.Common.{List, Option, Qt, Text, [], false, none, some, true, ℕ, ◌≡◌, ◌⊎◌, ◌∷◌}
use apfs_for_windows.Service.Config.{MountConfig, ServiceState}
use apfs_for_windows.Service.Control.{Request}
use apfs_for_windows.Service.Target.{Names}
use apfs_for_windows.Service.Scm.{start_pending, stopped, running}
use apfs_for_windows.Service.Supervisor.{runnable_mounts, read_mount_config_with_auto_discovery}
use apfs_for_windows.Service.Supervisor.Start.{Launched}
use apfs_for_windows.Service.Main.{Main, Turn, Resources, set_service_status, in_loop, returned}

module _ (q : Qt) (n : Names) (parse : Text → Option Request) where
  -- How serviceMain gets to its loop or returns.
  pub data Started (r : Resources) (t : Turn) (s : ServiceState) (m : Main) : Type 0 where
    -- Without the handler nothing is reported; without an event its error is.
    unregistered : r.handler ≡ false → m ≡ returned [] s → Started r t s m
    without_event :
        (e : ℕ)
        → (r.stop_event_error ≡ some e) ⊎ (r.resync_event_error ≡ some e)
        → m
          ≡ returned
              (set_service_status start_pending 0 2000 ∷ set_service_status stopped e 0 ∷ [])
              s
        → Started r t s m
    in_the_loop :
        m.looping ≡ true
        → m.stop_event ≡ false
        → m.listening ≡ r.listens
        → m.reported ≡ set_service_status start_pending 0 2000 ∷ set_service_status running 0 0 ∷ []
        → ((mounts : List MountConfig)
            → (read_mount_config_with_auto_discovery q n t.volumes (in_loop t) [] s).0 ≡ some mounts
            → Launched t.launch_at_sync 0 (runnable_mounts t.available mounts) m.workers)
        → ((read_mount_config_with_auto_discovery q n t.volumes (in_loop t) [] s).0 ≡ none
            → m.workers ≡ [])
        → Started r t s m
