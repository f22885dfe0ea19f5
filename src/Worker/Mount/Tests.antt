-- ===== src/Worker/Mount/Tests.antt =====
-- The theorem on opening a target, applied to a writable image.
use apfs_for_windows.Common.{[], ascii_qt, codes, false, refl, starts_with, text_eq, trimmed, upper}
use apfs_for_windows.Worker.Volume.{looks_like_windows_raw_target, writable_mount_policy_blocker}
use apfs_for_windows.Worker.Example.{example_core, example_host}
use apfs_for_windows.Worker.Mount.{unopened, open_target, probe}
use apfs_for_windows.Worker.Mount.Open.{Opened, open_target-Opened}

open_target-Opened_example :
    Opened ascii_qt example_core example_host 100
      (codes "disk.img")
      false
      false
      (open_target ascii_qt example_core example_host 100
        (codes "disk.img")
        0
        false
        false
        []
        []
        (unopened ascii_qt example_core example_host 100 [])).1
unfolding open_target probe looks_like_windows_raw_target writable_mount_policy_blocker ascii_qt
    text_eq upper trimmed starts_with
open_target-Opened_example =
    open_target-Opened ascii_qt example_core example_host 100 (codes "disk.img") 0 false false [] []
      (unopened ascii_qt example_core example_host 100 []) refl
