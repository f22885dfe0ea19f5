-- ===== src/Service/Tests/Registry.antt =====
-- The theorems on the service control manager, applied to a small one that keeps one service.
use apfs_for_windows.Common.{Bool, Option, Text, [], arith, false, none, some, true, ℕ, ◌+◌, ◌∷◌}
use apfs_for_windows.Service.Partition.Bytes.{Gives}
use apfs_for_windows.Service.Scm.{
  Manager, ScmState, running, stop_pending, stopped, created, accepted, opened, Sized, no_size,
  value, StartType, FailureActions, stop_service_and_wait, uninstall_service,
}
use apfs_for_windows.Service.Scm.Stop.{
  KeepsTime, IsEnd, IsUninstalled, stop_service_and_wait-Gives, uninstall_service-IsUninstalled,
}

record Registry : Type 0 where
  config : Sized (StartType × Text)
  actions : Sized FailureActions
  flag : Option Bool
  state : ScmState
  clock : ℕ

-- A service that is asked to stop has stopped after the next sleep.
abbrev after_sleep : ScmState → ScmState
after_sleep stop_pending = stopped
after_sleep s = s

abbrev registry : Manager Registry
registry = record {
  connects = λ w. true;
  create = λ start cmd w. (created, record w { config = value (start, cmd) });
  open_to_change = λ w. true;
  open_to_query = λ w. true;
  open_to_stop = λ w. opened;
  change_config = λ start cmd w. (true, record w { config = value (start, cmd) });
  change_actions = λ f w. (true, record w { actions = value f });
  change_flag = λ b w. (true, record w { flag = some b });
  query_actions = λ w. w.actions;
  query_flag = λ w. w.flag;
  query_config = λ w. w.config;
  query_status = λ w. (some (w.state, 4), w);
  control_stop = λ w. (accepted, record w { state = stop_pending });
  delete = λ w. (true, record w { config = no_size });
  tick = λ w. w.clock;
  sleep = λ n w. record w { state = after_sleep w.state; clock = w.clock + n };
}

registry-KeepsTime : KeepsTime registry
registry-KeepsTime = record {
  query_later = λ w. omega arith;
  control_later = λ w. omega arith;
  sleep_later = λ w. omega arith;
}

abbrev busy : Registry
busy = record { config = no_size; actions = no_size; flag = none; state = running; clock = 100 }

abbrev decimal : ℕ → Text
decimal n = 48 ∷ []

stop_service_and_wait-Gives_example :
    Gives (stop_service_and_wait registry 31 30 busy) (IsEnd registry 130 false busy)
stop_service_and_wait-Gives_example =
    stop_service_and_wait-Gives registry registry-KeepsTime 31 30 busy (omega arith)

uninstall_service-IsUninstalled_example :
    Gives (uninstall_service registry 30001 busy) (IsUninstalled registry busy)
uninstall_service-IsUninstalled_example =
    uninstall_service-IsUninstalled registry registry-KeepsTime 30001 busy (omega arith)
