-- ===== src/Service/Client/Effect.antt =====
-- What a command does to the configuration: one change by the client itself or by the service, or none.
use apfs_for_windows.Common.{
  All, Bool, Bool-cases, ComparesByCase, List, Qt, SeparatesSpaces, Text, arith, false, inl, inr,
  none, refl, some, true, ℕ, ◌<◌, ◌≡◌, ◌==◌,
}
use apfs_for_windows.Service.Config.{
  MountConfig, ServiceState, Response, failed, is_failure, Surroundings, read_mount_config,
}
use apfs_for_windows.Service.Config.Attempt.{
  Attempt, refuses, writes, add-Attempt, remove-Attempt, set_mount-Attempt, set_enabled-Attempt,
  set_policy-Attempt,
}
use apfs_for_windows.Service.Config.RawWrites.{Justified, before}
use apfs_for_windows.Service.Control.{Request, apply_control_request}
use apfs_for_windows.Service.Control.Valid.{
  apply_control_request-Atomic, apply_control_request-raw_writes,
}
use apfs_for_windows.Service.Client.{
  Delivery, unreached, lost, answered, Service, Result, code_of, after_fallback,
  print_service_fallback_if_ok, or_service, Command, add_mount, set_mount, set_mount_enabled,
  set_mount_policy, remove_mount, run_command,
}

module _ (q : Qt) (env : Surroundings) where
  -- The five commands that change mounts, as a command line gives them.
  pub data IsCommand : Command → Type 0 where
    adds : (args : List Text) → IsCommand (add_mount q env args)
    moves : (args : List Text) → IsCommand (set_mount q env args)
    enables : (args : List Text) → IsCommand (set_mount_enabled q env args)
    permits : (args : List Text) → IsCommand (set_mount_policy q env args)
    removes : (args : List Text) → IsCommand (remove_mount q env args)

  direct-Attempt :
      (c : Command) (s : ServiceState) → IsCommand c → Attempt env.writable s (c.direct s)
  unfolding add_mount set_mount set_mount_enabled set_mount_policy remove_mount
  direct-Attempt c s (adds args) = add-Attempt q env s _ _ _ _
  direct-Attempt c s (moves args) = set_mount-Attempt q env s _ _
  direct-Attempt c s (enables args) = set_enabled-Attempt q env s _ _
  direct-Attempt c s (permits args) = set_policy-Attempt q env s _ _ _
  direct-Attempt c s (removes args) = remove-Attempt q env s _ _

code_of-fine : (r : Response) → is_failure r ≡ false → code_of r ≡ 0
code_of-fine (failed code) h = cc
code_of-fine r h = refl

module _ (q : Qt) (svc : Surroundings) where
  -- What may become of a request: the service does not see it, its answer is lost, or is heard.
  pub data Delivered (r : Request) (s : ServiceState) : Delivery × ServiceState → Type 0 where
    unseen : Delivered r s (unreached, s)
    lost_before : Delivered r s (lost, s)
    lost_after : Delivered r s (lost, (apply_control_request q svc s r).0)
    heard :
        Delivered r s
          (answered (apply_control_request q svc s r).1, (apply_control_request q svc s r).0)

  -- What a command does, by its own attempt's outcome.
  pub data Effect (writable : Bool) (own : ServiceState × Response) (r : Request) (s : ServiceState)
      : Result × ServiceState → Type 0 where
    by_client :
        writable ≡ true
        → is_failure own.1 ≡ false
        → Effect writable own r s (record { exit_code = 0; printed = some own.1 }, own.0)
    by_service :
        is_failure (apply_control_request q svc s r).1 ≡ false
        → Effect writable own r s (
          record { exit_code = 0; printed = some (apply_control_request q svc s r).1 },
          (apply_control_request q svc s r).0,
        )
    nothing :
        (code : ℕ)
        → 0 < code
        → Effect writable own r s (record { exit_code = code; printed = none }, s)
    unheard :
        (code : ℕ)
        → 0 < code
        → Effect writable own r s
            (record { exit_code = code; printed = none }, (apply_control_request q svc s r).0)

  module _ (laws : ComparesByCase q) (spaces : SeparatesSpaces q) where
    fallback-Effect :
        (writable : Bool) (r : Request) (s : ServiceState) (code : ℕ) (d : Delivery × ServiceState)
        → 0 < code
        → Delivered r s d
        → Effect writable
            (s, failed code)
            r
            s
            (after_fallback code (print_service_fallback_if_ok d.0), d.1)
    unfolding print_service_fallback_if_ok
    fallback-Effect writable r s code d pos unseen = nothing code pos
    fallback-Effect writable r s code d pos lost_before = nothing code pos
    fallback-Effect writable r s code d pos lost_after = unheard code pos
    fallback-Effect writable r s code d pos heard =
        elim (Bool-cases (is_failure (apply_control_request q svc s r).1)) [
          | inr fine ↦ rw (print_service_fallback_if_ok, fine) (by_service fine)
          | inl fails ↦ elim (apply_control_request-Atomic q laws spaces svc s r).0 [
            | inl (_, same) ↦ rw (print_service_fallback_if_ok, fails, same) (nothing code pos)
            | inr (_, _, _, _, fine, _, _, _, _) ↦ cc
          ]
        ]

    or_service-Effect :
        (writable : Bool) (service : Service) (r : Request) (s : ServiceState)
        (out : ServiceState × Response)
        → ((s' : ServiceState) → Delivered r s' (service r s'))
        → Attempt writable s out
        → Effect writable out r s (or_service service r out)
    unfolding or_service
    or_service-Effect writable service r s out serves (refuses code pos) =
        let e : (code == 0) ≡ false = ground arith in
        rw (or_service, e) (fallback-Effect writable r s code (service r s) pos (serves s))
    or_service-Effect writable service r s out serves (writes o w fine) =
        let e = code_of-fine out.1 fine in rw (or_service, e) (by_client w fine)

    pub run_command-Effect :
        (env : Surroundings) (service : Service) (c : Command) (s : ServiceState)
        → IsCommand q env c
        → ((s' : ServiceState) → Delivered c.request s' (service c.request s'))
        → Effect env.writable (c.direct s) c.request s (run_command q env service c s)
    unfolding run_command
    run_command-Effect env service c s is serves =
        or_service-Effect env.writable service c.request s (c.direct s) serves
          (direct-Attempt q env c s is)

    after-raw_writes :
        (writable : Bool) (own : ServiceState × Response) (r : Request) (s : ServiceState)
        (out : Result × ServiceState) {mounts : List MountConfig}
        → writable ≡ false
        → read_mount_config q s.file ≡ some mounts
        → Effect writable own r s out
        → (mounts' : List MountConfig) × (read_mount_config q out.1.file ≡ some mounts')
          × All (Justified q svc mounts) mounts'
    after-raw_writes writable own r s out w read (by_client w' fine) = cc
    after-raw_writes writable own r s out w read (by_service fine) =
        apply_control_request-raw_writes q laws spaces svc s r read
    after-raw_writes writable own r s out {mounts} w read (nothing code pos) =
        (mounts, read, before q svc mounts)
    after-raw_writes writable own r s out w read (unheard code pos) =
        apply_control_request-raw_writes q laws spaces svc s r read

    -- Where a client may not write the configuration, which can be read, every mount with raw writes
    -- after a mount command is for a target that had them before, or for one that is, up to case, a
    -- text that the service verified to be APFS or that contains neither \\.\PhysicalDrive nor
    -- \\?\GLOBALROOT\Device\Harddisk.
    pub run_command-raw_writes :
        (env : Surroundings) (service : Service) (c : Command) (s : ServiceState)
        {mounts : List MountConfig}
        → IsCommand q env c
        → ((s' : ServiceState) → Delivered c.request s' (service c.request s'))
        → env.writable ≡ false
        → read_mount_config q s.file ≡ some mounts
        → (mounts' : List MountConfig) × (read_mount_config q (run_command q env service c s).1.file
            ≡ some mounts')
          × All (Justified q svc mounts) mounts'
    run_command-raw_writes env service c s {mounts} is serves w read =
        after-raw_writes env.writable (c.direct s) c.request s (run_command q env service c s) w
          read (run_command-Effect env service c s is serves)
