-- ===== src/Worker/Callbacks/Tests.antt =====
-- The theorems on histories of callbacks, applied to a volume with one open file.
use apfs_for_windows.Common.{[], ascii_qt, false, refl, some, true, ◌≡◌, ◌∷◌}
use apfs_for_windows.Worker.Call.{ended, null_session}
use apfs_for_windows.Worker.Mount.Safe.{Live}
use apfs_for_windows.Worker.Example.{
  example_core, example_host, example_orders, example_mount, example_system, example_core-Reopens,
}
use apfs_for_windows.Worker.Callbacks.{Request, serve, start, served}
use apfs_for_windows.Worker.Callbacks.Histories.{serve-keeps_session, serve-keeps_read_only}

-- A write to a read-only mount, then a read.
serve-keeps_read_only_example :
    (example_mount true ≡ example_mount true)
    × ¬ (
        (serve ascii_qt example_core example_host 100 example_orders
          (Request.read_at (some 1) 0 2)
          (example_system true)).0
        ≡ ended null_session)
unfolding serve
serve-keeps_read_only_example =
    serve-keeps_read_only ascii_qt example_core example_host 100 example_orders
      (example_system true) (example_system true) refl refl
      (served (Request.write_at (some 1) (65 ∷ []) 0 false) (example_system true)
        (example_system true) (start (example_system true)) refl refl)
      (Request.read_at (some 1) 0 2) refl

-- A query, then a write to a writable image.
serve-keeps_session_example :
    Live (example_mount false) (example_mount false)
    × ¬ (
        (serve ascii_qt example_core example_host 100 example_orders
          (Request.write_at (some 1) (65 ∷ []) 0 false)
          (example_system false)).0
        ≡ ended null_session)
unfolding serve
serve-keeps_session_example =
    serve-keeps_session ascii_qt example_core example_host 100 example_orders example_core-Reopens
      (example_system false) (example_system false) refl
      (served Request.get_volume_info (example_system false) (example_system false)
        (start (example_system false)) tt refl)
      (Request.write_at (some 1) (65 ∷ []) 0 false) refl
