-- ===== src/Service/Tests/Commands.antt =====
-- The theorems on the command line, applied to a client that may not write the configuration.
use apfs_for_windows.Common.{
  All, List, Text, ascii_qt, ascii_qt-ComparesByCase, ascii_qt-SeparatesSpaces, codes, false, refl,
  some, ◌≡◌,
}
use apfs_for_windows.Service.Config.{Surroundings, MountConfig, read_mount_config}
use mathlib.Core.List.{[], ◌∷◌}
use apfs_for_windows.Service.Config.Valid.{read_mount_config-mount_config_json}
use apfs_for_windows.Service.Config.RawWrites.{Justified}
use apfs_for_windows.Service.Control.{apply_control_request}
use apfs_for_windows.Service.Client.{Service, answered, set_mount_policy, run_command}
use apfs_for_windows.Service.Client.Effect.{IsCommand, Delivered, Effect, run_command-raw_writes}
use apfs_for_windows.Service.Tests.{env, state, one_mount, one_mount-IsValid}

abbrev client : Surroundings
client = record env { writable = false }

-- A service that answers at once.
abbrev service : Service
service r s = let out = apply_control_request ascii_qt env s r in (answered out.1, out.0)

abbrev arguments : List Text
arguments =
    codes "--set-policy" ∷ codes "--target" ∷ codes "image.apfs" ∷ codes "--allow-raw-writes" ∷ []

run_command-raw_writes_example :
    (mounts' : List MountConfig) × (read_mount_config ascii_qt
        (run_command ascii_qt client service
          (set_mount_policy ascii_qt client arguments)
          state).1.file
      ≡ some mounts')
    × All (Justified ascii_qt env one_mount) mounts'
run_command-raw_writes_example =
    run_command-raw_writes ascii_qt env ascii_qt-ComparesByCase ascii_qt-SeparatesSpaces client
      service (set_mount_policy ascii_qt client arguments) state (IsCommand.permits arguments)
      (λ s. Delivered.heard) refl
      (read_mount_config-mount_config_json ascii_qt one_mount one_mount-IsValid.stored)
