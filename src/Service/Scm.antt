-- ===== src/Service/Scm.antt =====
-- src/service/apfs_mount_service.cpp: the calls on the Windows service control manager, that is
-- installService, uninstallService, stopServiceAndWait, configureServiceRecoveryPolicy and the two
-- queries. The manager is the environment: `W` is its state and the clock's, and a call gives its
-- outcome and the next state. Handles are closed on every path and are not modelled; neither is the
-- text that is printed. GetTickCount64 and the deadline do not reach 2 ^ 64.
pub mod Stop
pub mod Install
-- SERVICE_STATUS_PROCESS::dwCurrentState

use apfs_for_windows.Common.{
  Bool, List, Option, Text, [], codes, false, inl, inr, is_empty, keep, leb, length, map, none, not,
  some, suc, true, zero, ℕ, ◌+◌, ◌⊎◌, ◌&&◌, ◌∷◌, ◌++◌, if◌then◌else◌,
}

pub data ScmState : Type 0 where
  stopped start_pending stop_pending running : ScmState
  continue_pending pause_pending paused : ScmState
  unknown : ℕ → ScmState

pub data StartType : Type 0 where
  automatic boot manual disabled system : StartType
  unknown_start : ℕ → StartType

-- SC_ACTION
pub data ActionType : Type 0 where
  nothing restart reboot run_command : ActionType
  unknown_action : ℕ → ActionType

pub record Action : Type 0 where
  pub type : ActionType
  pub delay : ℕ

pub record FailureActions : Type 0 where
  pub reset_period : ℕ
  pub actions : List Action

pub data Control : Type 0 where
  accepted not_active cannot_accept refused : Control

pub data Creation : Type 0 where
  created exists refused : Creation

pub data Opening : Type 0 where
  opened does_not_exist refused : Opening

-- A query that asks for its size first: no size, a failure, or the value.
pub data Sized (A : Type 0) : Type 0 where
  no_size unread : Sized A
  value : A → Sized A

pub record Manager (W : Type 0) : Type 0 where
  -- OpenSCManagerW for creating and for connecting
  pub connects : W → Bool
  -- CreateServiceW with the type of start and the command
  pub create : StartType → Text → W → Creation × W
  pub open_to_change : W → Bool
  pub open_to_query : W → Bool
  pub open_to_stop : W → Opening
  -- ChangeServiceConfigW with the type of start and the command
  pub change_config : StartType → Text → W → Bool × W
  pub change_actions : FailureActions → W → Bool × W
  -- ChangeServiceConfig2W with fFailureActionsOnNonCrashFailures
  pub change_flag : Bool → W → Bool × W
  pub query_actions : W → Sized FailureActions
  pub query_flag : W → Option Bool
  -- The type of start and the command
  pub query_config : W → Sized (StartType × Text)
  -- The state and the process, and the state of the manager after the call
  pub query_status : W → Option (ScmState × ℕ) × W
  pub control_stop : W → Control × W
  pub delete : W → Bool × W
  pub tick : W → ℕ
  pub sleep : ℕ → W → W

module _ (number : ℕ → Text) where
  pub service_state_name : ScmState → Text
  service_state_name stopped = codes "stopped"
  service_state_name start_pending = codes "start_pending"
  service_state_name stop_pending = codes "stop_pending"
  service_state_name running = codes "running"
  service_state_name continue_pending = codes "continue_pending"
  service_state_name pause_pending = codes "pause_pending"
  service_state_name paused = codes "paused"
  service_state_name (unknown n) = codes "unknown_" ++ number n

  pub start_type_name : StartType → Text
  start_type_name automatic = codes "automatic"
  start_type_name boot = codes "boot"
  start_type_name manual = codes "manual"
  start_type_name disabled = codes "disabled"
  start_type_name system = codes "system"
  start_type_name (unknown_start n) = codes "unknown_" ++ number n

  pub failure_action_type_name : ActionType → Text
  failure_action_type_name nothing = codes "none"
  failure_action_type_name restart = codes "restart"
  failure_action_type_name reboot = codes "reboot"
  failure_action_type_name run_command = codes "run_command"
  failure_action_type_name (unknown_action n) = codes "unknown_" ++ number n

abbrev pub is_restart : Action → Bool
is_restart a = elim a.type [ restart ↦ true | _ ↦ false ]

-- queryServiceRecoveryPolicy, a JSON object: `none` where a field is not inserted.
pub record ActionsReport : Type 0 where
  pub reset_seconds : Text
  pub restart_action_count : ℕ
  -- The name of the type and the delay in milliseconds
  pub actions : List (Text × Text)

pub record RecoveryReport : Type 0 where
  -- `none`: actions_error
  pub actions : Option ActionsReport
  -- `none`: non_crash_failure_error
  pub non_crash_failures_enabled : Option Bool

pub record ServiceReport : Type 0 where
  -- The state's name and the process; `none`: status_error
  pub status : Option (Text × Text)
  -- The start type's name and the path, where the configuration has a size; `unread`: config_error
  pub config : Sized (Text × Text)
  pub recovery : RecoveryReport

-- The three restarts after 5, 30 and 60 seconds, counted anew after a day.
abbrev pub recovery_policy : FailureActions
recovery_policy = record {
  reset_period = 86400;
  actions =
      record { type = restart; delay = 5000 }
      ∷ record { type = restart; delay = 30000 }
      ∷ record { type = restart; delay = 60000 }
      ∷ [];
}

-- How stopServiceAndWait ends.
pub data StopOutcome : Type 0 where
  is_stopped query_failed control_failed : StopOutcome
  timed_out : ScmState → StopOutcome

pub record StopResult (W : Type 0) : Type 0 where
  pub outcome : StopOutcome
  pub stop_requested : Bool
  pub already_stopped : Bool
  pub world : W

abbrev pub is_transition_pending : ScmState → Bool
is_transition_pending start_pending = true
is_transition_pending stop_pending = true
is_transition_pending continue_pending = true
is_transition_pending pause_pending = true
is_transition_pending s = false

abbrev pub is_stopped_state : ScmState → Bool
is_stopped_state stopped = true
is_stopped_state s = false

-- What uninstallService prints: stop_requested and already_stopped.
pub record Uninstall (W : Type 0) : Type 0 where
  pub exit_code : ℕ
  pub report : Option (Bool × Bool)
  pub world : W

-- What installService prints: whether the service was created, and the recovery policy.
pub record Installation (W : Type 0) : Type 0 where
  pub exit_code : ℕ
  pub report : Option (Bool × RecoveryReport)
  pub world : W

abbrev pub quoted : Text → Text
quoted path = 34 ∷ path ++ 34 ∷ []

module _ {W : Type 0} (m : Manager W) where
  pub query_service_recovery_policy : (ℕ → Text) → W → RecoveryReport
  unfolding failure_action_type_name
  query_service_recovery_policy number w = record {
    actions = elim (m.query_actions w) [
      | no_size ↦
          some (record { reset_seconds = codes "0"; restart_action_count = 0; actions = [] })
      | unread ↦ none
      | value f ↦ some (record {
        reset_seconds = number f.reset_period;
        restart_action_count = length (keep is_restart f.actions);
        actions = map (λ a. (failure_action_type_name number a.type, number a.delay)) f.actions;
      })
    ];
    non_crash_failures_enabled = m.query_flag w;
  }

  -- queryInstalledService: `none` where the service is not open, with the field `installed` false.
  pub query_installed_service : (ℕ → Text) → W → Option ServiceReport × W
  unfolding service_state_name start_type_name query_service_recovery_policy
  query_installed_service number w =
      if not (m.connects w)
      then (none, w)
      else (if not (m.open_to_query w)
          then (none, w)
          else (let (status, w1) = m.query_status w in
              (
                some (record {
                  status = elim status [
                    | none ↦ none
                    | some s ↦ some (service_state_name number s.0, number s.1)
                  ];
                  config = elim (m.query_config w1) [
                    | no_size ↦ no_size
                    | unread ↦ unread
                    | value c ↦ value (start_type_name number c.0, c.1)
                  ];
                  recovery = query_service_recovery_policy number w1;
                }),
                w1,
              )))

  -- configureServiceRecoveryPolicy
  unfoldable pub configure_service_recovery_policy : W → Bool × W
  configure_service_recovery_policy w =
      let (ok, w1) = m.change_actions recovery_policy w in
      if not ok then (false, w1) else m.change_flag true w1

  abbrev pub answered : Bool → Control → Bool × Bool
  answered requested accepted = (false, true)
  answered requested not_active = (false, requested)
  answered requested cannot_accept = (false, requested)
  answered requested refused = (true, requested)

  -- The request to stop: whether it failed, and whether it was made by now.
  pub request_stop : ScmState → Bool → W → (Bool × Bool) × W
  request_stop state requested w =
      if not (is_transition_pending state) && not requested
      then (answered requested (m.control_stop w).0, (m.control_stop w).1)
      else ((false, requested), w)

  abbrev ended : StopOutcome → Bool → Bool → W → StopResult W
  ended outcome requested already w = record {
    outcome = outcome;
    stop_requested = requested;
    already_stopped = already;
    world = w;
  }

  abbrev pub after_request : ℕ → ScmState → (Bool × Bool) × W → StopResult W ⊎ (Bool × W)
  after_request deadline state ((failed, requested), w) =
      if failed
      then inl (ended control_failed requested false w)
      else (if leb deadline (m.tick w)
          then inl (ended (timed_out state) requested false w)
          else inr (requested, m.sleep 500 w))

  -- One round of the loop in stopServiceAndWait, by what the query gave: the end of the loop, or the
  -- flag and the state of the next round.
  pub stop_round : ℕ → Bool → Bool → Option (ScmState × ℕ) → W → StopResult W ⊎ (Bool × W)
  unfolding request_stop
  stop_round deadline observed_active requested none w = inl (ended query_failed requested false w)
  stop_round deadline observed_active requested (some (state, process)) w =
      if is_stopped_state state
      then inl (ended is_stopped requested (not observed_active && not requested) w)
      else after_request deadline state (request_stop state requested w)

  -- The loop, on fuel: `none` where the fuel runs out.
  pub stop_loop : ℕ → ℕ → Bool → Bool → W → Option (StopResult W)
  unfolding stop_round
  stop_loop zero deadline observed_active requested w = none
  stop_loop (suc fuel) deadline observed_active requested w =
      let (status, w1) = m.query_status w in
      elim (stop_round deadline observed_active requested status w1) [
        | inl r ↦ some r
        | inr (requested_now, w2) ↦ stop_loop fuel deadline true requested_now w2
      ]

  pub stop_service_and_wait : ℕ → ℕ → W → Option (StopResult W)
  unfolding stop_loop
  stop_service_and_wait fuel timeout w = stop_loop fuel (m.tick w + timeout) false false w

  abbrev failed_uninstall : ℕ → W → Uninstall W
  failed_uninstall code w = record { exit_code = code; report = none; world = w }

  abbrev pub report_deletion : Bool × Bool → Bool × W → Uninstall W
  report_deletion flags (true, w) = record { exit_code = 0; report = some flags; world = w }
  report_deletion flags (false, w) = failed_uninstall 7 w

  abbrev pub delete_stopped : StopResult W → Uninstall W
  delete_stopped r = elim r.outcome [
    | is_stopped ↦ report_deletion (r.stop_requested, r.already_stopped) (m.delete r.world)
    | _ ↦ failed_uninstall 6 r.world
  ]

  -- uninstallService
  pub uninstall_service : ℕ → W → Option (Uninstall W)
  unfolding stop_service_and_wait
  uninstall_service fuel w =
      if not (m.connects w) then some (failed_uninstall 3 w) else elim (m.open_to_stop w) [
        | does_not_exist ↦ some (failed_uninstall 0 w)
        | refused ↦ some (failed_uninstall 4 w)
        | opened ↦ elim (stop_service_and_wait fuel 30000 w) [
          | none ↦ none
          | some r ↦ some (delete_stopped r)
        ]
      ]

  abbrev failed_install : ℕ → W → Installation W
  failed_install code w = record { exit_code = code; report = none; world = w }

  -- The end of installService, on a service that is open.
  unfoldable pub install_policy : (ℕ → Text) → Bool → W → Installation W
  unfolding configure_service_recovery_policy query_service_recovery_policy
  install_policy number is_new w =
      let (ok, w1) = configure_service_recovery_policy w in
      if not ok then failed_install 7 w1 else record {
        exit_code = 0;
        report = some (is_new, query_service_recovery_policy number w1);
        world = w1;
      }

  -- installService, with the path that executablePath gives.
  unfoldable pub install_service : (ℕ → Text) → Text → W → Installation W
  unfolding install_policy
  install_service number path w =
      if is_empty path
      then failed_install 2 w
      else (if not (m.connects w)
          then failed_install 3 w
          else (let (creation, w1) = m.create automatic (quoted path) w in
              elim creation [
                | created ↦ install_policy number true w1
                | refused ↦ failed_install 4 w1
                | exists ↦
                    if not (m.open_to_change w1)
                    then failed_install 5 w1
                    else (let (ok, w2) = m.change_config automatic (quoted path) w1 in
                        if not ok then failed_install 6 w2 else install_policy number false w2)
              ]))
