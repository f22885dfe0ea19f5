-- ===== src/Worker/Process/Tests.antt =====
-- runMount on a writable image, with a WinFsp on which every call succeeds, and main on the command
-- line of its mount.
use apfs_for_windows.Common.{
  List, Text, [], ascii_qt, codes, false, length, none, refl, some, text_eq, trimmed, true, ◌≡◌,
  if◌then◌else◌,
}
use apfs_for_windows.Worker.Example.{example_core, example_host}
use apfs_for_windows.Worker.Core.{Mutation}
use apfs_for_windows.Worker.Mount.{unopened, open_target}
use apfs_for_windows.Worker.Mount.Open.{Opened}
use apfs_for_windows.Service.Config.{MountConfig}
use apfs_for_windows.Service.Supervisor.{worker_arguments}
use apfs_for_windows.Worker.Process.Options.{example_parse, example_parse-Parses}
use apfs_for_windows.Worker.Process.Arguments.{main_action-worker_arguments}
use apfs_for_windows.Worker.Process.{
  Settings, mounts, main_action, VolumeParams, WinFsp, first, run_mount,
}
use apfs_for_windows.Worker.Process.Protocol.{IsClean, IsVolume, run_mount-Clean}

abbrev willing : WinFsp (List Mutation)
willing = record {
  create = λ p w. (none, w);
  set_mount_point = λ mount w. (none, w);
  start_dispatcher = λ w. (none, w);
  target_hash = λ target. 7;
}

abbrev image_settings : Settings
image_settings = record {
  target = codes "disk.img";
  mount = codes "X:";
  max_read = 0;
  read_only = false;
  allow_raw_writes = false;
  test_fault_exit_phase = [];
  test_fault_path = [];
}

run_mount-Clean_example :
    (IsClean ascii_qt example_core example_host willing 100 first
      (run_mount ascii_qt example_core example_host willing 100 first image_settings []))
    × ((p : VolumeParams)
        → (run_mount ascii_qt example_core example_host willing 100 first image_settings []).params
          ≡ some p
        → Opened ascii_qt example_core example_host 100
            (codes "disk.img")
            false
            false
            (open_target ascii_qt example_core example_host 100
              (codes "disk.img")
              0
              false
              false
              []
              []
              (unopened ascii_qt example_core example_host 100 [])).1
          × IsVolume ascii_qt example_core example_host willing 100 first false p)
run_mount-Clean_example =
    run_mount-Clean ascii_qt example_core example_host willing 100 first image_settings [] refl

abbrev image_mount : MountConfig
image_mount = record {
  target = codes "disk.img";
  mount = codes "X:";
  read_only = false;
  enabled = true;
  allow_raw_writes = false;
}

abbrev defaults : Text → Text
defaults name = if text_eq name (codes "max-file-read-bytes") then codes "64" else []

main_action-worker_arguments_example :
    main_action ascii_qt length
      (λ path. true)
      (example_parse defaults (worker_arguments image_mount))
    ≡ mounts (record {
      target = codes "disk.img";
      mount = codes "X:";
      max_read = 2;
      read_only = false;
      allow_raw_writes = false;
      test_fault_exit_phase = [];
      test_fault_path = [];
    })
unfolding ascii_qt text_eq trimmed
main_action-worker_arguments_example =
    main_action-worker_arguments defaults (example_parse defaults) (example_parse-Parses defaults)
      ascii_qt length (λ path. true) image_mount refl refl refl refl refl refl refl
