-- ===== src/Service/Tests/Loop.antt =====
-- The theorems on the service's loop, applied to a service with one mount and two clients.
use apfs_for_windows.Common.{
  List, Option, Text, [], any, ascii_qt, ascii_qt-ComparesByCase, ascii_qt-SeparatesSpaces, codes,
  none, refl, some, text_eq, trimmed, true, ℕ, ◌+◌, ◌≡◌, ◌∷◌, ◌++◌,
}
use apfs_for_windows.Service.Config.{add_mount_config, read_mount_config, commit}
use apfs_for_windows.Service.Control.{Request, apply_control_request}
use apfs_for_windows.Service.Supervisor.{Launch}
use apfs_for_windows.Service.Main.{
  Main, Turn, Step, control, turn, Resources, returned, control_stop, control_device_event,
  process_connections, process_control_connection, step, run,
}
use apfs_for_windows.Service.Main.Ends.{Ended, run-stops}
use apfs_for_windows.Service.Main.Served.{Served}
use apfs_for_windows.Service.Main.Resync.{Resynced, accepts, answers_of, served, request-Resynced}
use apfs_for_windows.Service.Tests.{env, state, request, names}

-- Every line is the request of `request`.
abbrev parse : Text → Option Request
parse line = some request

abbrev launch : ℕ → List Text → Launch
launch i arguments = record { attempted = 100; started = some (7 + i) }

abbrev quiet_turn : Turn
quiet_turn = record {
  arrivals = none ∷ [];
  env = env;
  volumes = [];
  available = λ target. true;
  now = 100;
  synced = 110;
  supervised = 120;
  running_at_sync = λ p. true;
  running_after_sync = λ p. true;
  launch_at_sync = launch;
  launch_after_sync = launch;
  running_at_stop = λ p. true;
}

-- In its loop, with a client that waits with a request.
abbrev live : Main
live = record (returned [] state) {
  looping = true;
  listening = true;
  pending = some (codes "{}") ∷ [];
}

abbrev all_there : Resources
all_there = record {
  handler = true;
  stop_event_error = none;
  resync_event_error = none;
  listens = true;
}

abbrev event_then_turn : List Step
event_then_turn = control control_device_event 7 ∷ turn quiet_turn ∷ []

run-stops_example :
    Ended ascii_qt names parse quiet_turn live
      (run ascii_qt names parse (control control_stop 0 ∷ event_then_turn) live)
run-stops_example = run-stops ascii_qt names parse 0 event_then_turn live quiet_turn refl refl

live-accepts :
    any (accepts ascii_qt ascii_qt-ComparesByCase ascii_qt-SeparatesSpaces names parse) (
      answers_of ascii_qt ascii_qt-ComparesByCase ascii_qt-SeparatesSpaces names parse quiet_turn
        live)
    ≡ true
unfolding process_connections process_control_connection apply_control_request add_mount_config
    read_mount_config commit ascii_qt trimmed text_eq
live-accepts = refl

request-Resynced_example :
    ((step ascii_qt names parse (turn quiet_turn) live).answered
      ≡ live.answered
        ++ answers_of ascii_qt ascii_qt-ComparesByCase ascii_qt-SeparatesSpaces names parse
            quiet_turn live)
    × Resynced ascii_qt ascii_qt-ComparesByCase ascii_qt-SeparatesSpaces names parse quiet_turn
        (served ascii_qt ascii_qt-ComparesByCase ascii_qt-SeparatesSpaces names parse quiet_turn
          (run ascii_qt names parse (turn quiet_turn ∷ []) live))
        (run ascii_qt names parse (turn quiet_turn ∷ turn quiet_turn ∷ []) live)
request-Resynced_example =
    request-Resynced ascii_qt ascii_qt-ComparesByCase ascii_qt-SeparatesSpaces names parse
      quiet_turn quiet_turn [] live refl refl refl live-accepts tt
