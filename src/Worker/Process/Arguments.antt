-- ===== src/Worker/Process/Arguments.antt =====
-- The command line that the service gives a worker, and what the worker makes of it.
use apfs_for_windows.Common.{
  All, Bool, List, Qt, Text, [], ap, codes, false, is_empty, not, refl, text_eq, trimmed,
  trimmed_nil, true, ℕ, ◌≡◌, ◌∙◌, ◌∷◌, ◌++◌, if◌then◌else◌,
}
use apfs_for_windows.Service.Config.{MountConfig}
use apfs_for_windows.Service.Supervisor.{worker_arguments}
use apfs_for_windows.Worker.Process.Options.{Given, flag, option, spell, is_declared, Parses, ideal}
use apfs_for_windows.Worker.Process.{Parsed, mounts, main_action}

-- The options that the service gives for a mount.
abbrev pub given_for : Text → Text → Bool → Bool → List Given
given_for target mount read_only raw =
    option (codes "target") target
      ∷ option (codes "mount") mount
      ∷ (if not read_only then flag (codes "read-write") ∷ [] else [])
    ++ (if raw then flag (codes "allow-raw-writes") ∷ [] else [])

worker_arguments-given_for :
    (m : MountConfig)
    → worker_arguments m ≡ spell (given_for m.target m.mount m.read_only m.allow_raw_writes)
unfolding worker_arguments
worker_arguments-given_for m = by_flags m.read_only m.allow_raw_writes
  where
    by_flags :
        (read_only raw : Bool)
        → codes "--target" ∷ m.target ∷ codes "--mount" ∷ m.mount ∷ []
            ++ (if not read_only then codes "--read-write" ∷ [] else [])
            ++ (if raw then codes "--allow-raw-writes" ∷ [] else [])
          ≡ spell (given_for m.target m.mount read_only raw)
    by_flags true true = refl
    by_flags true false = refl
    by_flags false true = refl
    by_flags false false = refl

is_declared-given_for :
    (target mount : Text) (read_only raw : Bool)
    → All (λ g. is_declared g ≡ true) (given_for target mount read_only raw)
unfolding text_eq
is_declared-given_for target mount true true = (refl, (refl, (refl, tt)))
is_declared-given_for target mount true false = (refl, (refl, tt))
is_declared-given_for target mount false true = (refl, (refl, (refl, (refl, tt))))
is_declared-given_for target mount false false = (refl, (refl, (refl, tt)))

-- What the parser finds of a mount's options.
record Finds (default : Text → Text) (target mount : Text) (read_only raw : Bool) (p : Parsed)
    : Type 0 where
  no_status : p.is_set (codes "status") ≡ false
  has_target : p.is_set (codes "target") ≡ true
  writes : p.is_set (codes "read-write") ≡ not read_only
  raw_writes : p.is_set (codes "allow-raw-writes") ≡ raw
  target_is : p.value (codes "target") ≡ target
  mount_is : p.value (codes "mount") ≡ mount
  phase_is : p.value (codes "test-fault-exit-phase") ≡ default (codes "test-fault-exit-phase")
  path_is : p.value (codes "test-fault-path") ≡ default (codes "test-fault-path")
  max_is : p.value (codes "max-file-read-bytes") ≡ default (codes "max-file-read-bytes")

ideal-Finds :
    (default : Text → Text) (target mount : Text) (read_only raw : Bool)
    → Finds default target mount read_only raw
        (ideal default (given_for target mount read_only raw))
unfolding text_eq
ideal-Finds default target mount true true = record {
  no_status = refl;
  has_target = refl;
  writes = refl;
  raw_writes = refl;
  target_is = refl;
  mount_is = refl;
  phase_is = refl;
  path_is = refl;
  max_is = refl;
}
ideal-Finds default target mount true false = record {
  no_status = refl;
  has_target = refl;
  writes = refl;
  raw_writes = refl;
  target_is = refl;
  mount_is = refl;
  phase_is = refl;
  path_is = refl;
  max_is = refl;
}
ideal-Finds default target mount false true = record {
  no_status = refl;
  has_target = refl;
  writes = refl;
  raw_writes = refl;
  target_is = refl;
  mount_is = refl;
  phase_is = refl;
  path_is = refl;
  max_is = refl;
}
ideal-Finds default target mount false false = record {
  no_status = refl;
  has_target = refl;
  writes = refl;
  raw_writes = refl;
  target_is = refl;
  mount_is = refl;
  phase_is = refl;
  path_is = refl;
  max_is = refl;
}

not-not : (b : Bool) → not (not b) ≡ b
not-not true = refl
not-not false = refl

module _ (default : Text → Text) (parse : List Text → Parsed) (law : Parses default parse) where
  parse-Finds :
      (target mount : Text) (read_only raw : Bool)
      → Finds default target mount read_only raw
          (parse (spell (given_for target mount read_only raw)))
  parse-Finds target mount read_only raw =
      let gs = given_for target mount read_only raw in
      let d = is_declared-given_for target mount read_only raw in
      let f = ideal-Finds default target mount read_only raw in
      record {
        no_status = law.sets gs d (codes "status") ∙ f.no_status;
        has_target = law.sets gs d (codes "target") ∙ f.has_target;
        writes = law.sets gs d (codes "read-write") ∙ f.writes;
        raw_writes = law.sets gs d (codes "allow-raw-writes") ∙ f.raw_writes;
        target_is = law.values gs d (codes "target") ∙ f.target_is;
        mount_is = law.values gs d (codes "mount") ∙ f.mount_is;
        phase_is = law.values gs d (codes "test-fault-exit-phase") ∙ f.phase_is;
        path_is = law.values gs d (codes "test-fault-path") ∙ f.path_is;
        max_is = law.values gs d (codes "max-file-read-bytes") ∙ f.max_is;
      }

  -- A mount whose target and directory are not empty and have no spaces at their ends is what the
  -- worker mounts that is started with worker_arguments: its target, directory and two flags come
  -- through the command line, with the largest size of a read from its default and no test fault.
  pub main_action-worker_arguments :
      (q : Qt) (to_number : Text → ℕ) (is_file : Text → Bool) (m : MountConfig)
      → q.to_lower [] ≡ []
      → default (codes "test-fault-exit-phase") ≡ []
      → default (codes "test-fault-path") ≡ []
      → trimmed q m.target ≡ m.target
      → trimmed q m.mount ≡ m.mount
      → is_empty m.target ≡ false
      → is_empty m.mount ≡ false
      → main_action q to_number is_file (parse (worker_arguments m))
        ≡ mounts (record {
          target = m.target;
          mount = m.mount;
          max_read = to_number (default (codes "max-file-read-bytes"));
          read_only = m.read_only;
          allow_raw_writes = m.allow_raw_writes;
          test_fault_exit_phase = [];
          test_fault_path = [];
        })
  unfolding main_action
  main_action-worker_arguments q to_number is_file m lower phase path target mount target_given
        mount_given =
      let f = parse-Finds m.target m.mount m.read_only m.allow_raw_writes in
      rw
        (
          worker_arguments-given_for m,
          f.no_status,
          f.has_target,
          f.writes,
          f.raw_writes,
          f.target_is,
          f.mount_is,
          f.phase_is,
          f.path_is,
          f.max_is,
          phase,
          path,
          trimmed_nil q,
          lower,
          target,
          mount,
          target_given,
          mount_given,
        )
        (ap
          (λ read_only.
            (mounts (record {
              target = m.target;
              mount = m.mount;
              max_read = to_number (default (codes "max-file-read-bytes"));
              read_only = read_only;
              allow_raw_writes = m.allow_raw_writes;
              test_fault_exit_phase = [];
              test_fault_path = [];
            })))
          (not-not m.read_only))
