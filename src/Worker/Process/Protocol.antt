-- ===== src/Worker/Process/Protocol.antt =====
-- runMount, consoleHandler and WinFsp: the order of their calls, and what is open when a file system is made.
use apfs_for_windows.Common.{
  Bool, List, Option, Qt, Text, [], false, inl, inr, none, not, refl, some, some-eq, sym, true, ℕ,
  ◌≡◌, ◌∙◌, ◌⊎◌, ◌∷◌,
}
use mathlib.Core.Path.{subst}
use apfs_for_windows.Worker.Call.{Outcome, ok, err, ended, is_success}
use apfs_for_windows.Worker.Core.{Core, Host}
use apfs_for_windows.Worker.Mount.{Mounted, unopened, open_target}
use apfs_for_windows.Worker.Mount.Open.{Opened, open_target-Opened}
use apfs_for_windows.Worker.Process.{
  Settings, VolumeParams, WinFsp, FspCall, create, set_mount_point, start_dispatcher,
  remove_mount_point, stop_dispatcher, delete, Signal, early, first, between, late, stop_calls, Run,
  volume_params, after_start, after_mount_point, after_create, after_open, run_mount,
}

-- The life of a file system of WinFsp, and the calls that it allows.
pub data Life : Type 0 where
  absent made placed serving hidden stalled halted gone : Life

abbrev pub allows : Life → FspCall → Option Life
allows absent (create true) = some made
allows absent (create false) = some absent
allows made (set_mount_point true) = some placed
allows made (set_mount_point false) = some made
allows placed (start_dispatcher true) = some serving
allows placed (start_dispatcher false) = some placed
allows serving remove_mount_point = some hidden
allows hidden stop_dispatcher = some halted
allows serving stop_dispatcher = some stalled
allows stalled remove_mount_point = some halted
allows halted stop_dispatcher = some halted
allows made delete = some gone
allows placed delete = some gone
allows halted delete = some gone
allows life call = none

abbrev pub follow : Life → List FspCall → Option Life
follow life [] = some life
follow life (c ∷ cs) = elim (allows life c) [ none ↦ none | some next ↦ follow next cs ]

abbrev pub is_late : Signal → Bool
is_late late = true
is_late other = false

follow-stop_calls :
    (signal : Signal) → is_late signal ≡ false → follow serving (stop_calls signal) ≡ some gone
follow-stop_calls early e = refl
follow-stop_calls first e = refl
follow-stop_calls between e = refl
follow-stop_calls late e = cc

module _ {W : Type 0} (q : Qt) (core : Core W) (host : Host W) (winfsp : WinFsp W) (entry_limit : ℕ)
    (signal : Signal) where
  -- A run that follows the life of a file system to its end, or never makes one.
  abbrev pub IsClean : Run W → Type 0
  IsClean r =
      (follow absent r.calls ≡ some gone)
      ⊎ ((follow absent r.calls ≡ some absent) × (is_success r.outcome ≡ false))

  start-IsClean :
      (is_late signal ≡ false)
      → (p : VolumeParams) (m : Mounted W) (out : Option ℕ × W)
      → IsClean (after_start q core host winfsp entry_limit signal p m out)
  start-IsClean timely p m (some code, w) = inl refl
  start-IsClean timely p m (none, w) = inl (follow-stop_calls signal timely)

  place-IsClean :
      (is_late signal ≡ false)
      → (p : VolumeParams) (m : Mounted W) (out : Option ℕ × W)
      → IsClean (after_mount_point q core host winfsp entry_limit signal p m out)
  place-IsClean timely p m (some code, w) = inl refl
  place-IsClean timely p m (none, w) =
      start-IsClean timely p (record m { world = w }) (winfsp.start_dispatcher w)

  create-IsClean :
      (is_late signal ≡ false)
      → (p : VolumeParams) (m : Mounted W) (out : Option ℕ × W)
      → IsClean (after_create q core host winfsp entry_limit signal p m out)
  create-IsClean timely p m (some code, w) = inr (refl, refl)
  create-IsClean timely p m (none, w) =
      place-IsClean timely p (record m { world = w }) (winfsp.set_mount_point m.mount_point w)

  open-IsClean :
      (is_late signal ≡ false)
      → (mount : Text) (read_only : Bool) (out : Outcome (Unit {0}) × Mounted W)
      → IsClean (after_open q core host winfsp entry_limit signal mount read_only out)
  open-IsClean timely mount read_only (ok u, m) =
      let named = record m { mount_point = mount } in
      let p = volume_params q core host winfsp entry_limit signal read_only named in
      create-IsClean timely p named (winfsp.create p named.world)
  open-IsClean timely mount read_only (err e, m) = inr (refl, refl)
  open-IsClean timely mount read_only (ended x, m) = inr (refl, refl)

  start-params :
      (p : VolumeParams) (m : Mounted W) (out : Option ℕ × W)
      → (after_start q core host winfsp entry_limit signal p m out).params ≡ some p
  start-params p m (some code, w) = refl
  start-params p m (none, w) = refl

  place-params :
      (p : VolumeParams) (m : Mounted W) (out : Option ℕ × W)
      → (after_mount_point q core host winfsp entry_limit signal p m out).params ≡ some p
  place-params p m (some code, w) = refl
  place-params p m (none, w) = start-params p (record m { world = w }) (winfsp.start_dispatcher w)

  create-params :
      (p : VolumeParams) (m : Mounted W) (out : Option ℕ × W)
      → (after_create q core host winfsp entry_limit signal p m out).params ≡ some p
  create-params p m (some code, w) = refl
  create-params p m (none, w) =
      place-params p (record m { world = w }) (winfsp.set_mount_point m.mount_point w)

  -- The volume that Windows is told of.
  pub record IsVolume (read_only : Bool) (p : VolumeParams) : Type 0 where
    pub says_read_only : p.read_only_volume ≡ read_only
    pub says_hard_links : p.hard_links ≡ not read_only

  volume_params-IsVolume :
      (read_only : Bool) (m : Mounted W)
      → IsVolume read_only (volume_params q core host winfsp entry_limit signal read_only m)
  unfolding volume_params
  volume_params-IsVolume read_only m = record { says_read_only = refl; says_hard_links = refl }

  open-guarded :
      (mount : Text) (read_only : Bool) (out : Outcome (Unit {0}) × Mounted W) (p : VolumeParams)
      → (after_open q core host winfsp entry_limit signal mount read_only out).params ≡ some p
      → (is_success out.0 ≡ true) × IsVolume read_only p
  open-guarded mount read_only (ok u, m) p e =
      let named = record m { mount_point = mount } in
      let p' = volume_params q core host winfsp entry_limit signal read_only named in
      let same : p' ≡ p =
        some-eq (sym (create-params p' named (winfsp.create p' named.world)) ∙ e) in
      (refl, subst (IsVolume read_only) same (volume_params-IsVolume read_only named))
  open-guarded mount read_only (err x, m) p e = cc
  open-guarded mount read_only (ended x, m) p e = cc

  -- If the signal of the console does not stop the dispatcher after the file system is deleted, then
  -- on every path runMount and consoleHandler use WinFsp in the order that the life of a file system allows: one that
  -- was made is deleted, last, and one whose dispatcher runs loses its mount point and its dispatcher
  -- before, in either order; where none was made runMount fails. It makes one only for a target that openTarget has
  -- opened with the flags asked for, so a writable one only where the policy and the confirmation of
  -- raw writes allow it, and tells Windows the same about writing.
  pub run_mount-Clean :
      (s : Settings) (w : W)
      → is_late signal ≡ false
      → let r = run_mount q core host winfsp entry_limit signal s w in
        let opened =
          open_target q core host entry_limit s.target s.max_read s.read_only s.allow_raw_writes
            s.test_fault_exit_phase s.test_fault_path
            (unopened q core host entry_limit w) in
        IsClean r
        × ((p : VolumeParams)
            → r.params ≡ some p
            → Opened q core host entry_limit s.target s.read_only s.allow_raw_writes opened.1
              × IsVolume s.read_only p)
  unfolding run_mount
  run_mount-Clean s w timely =
      let opened =
        open_target q core host entry_limit s.target s.max_read s.read_only s.allow_raw_writes
          s.test_fault_exit_phase s.test_fault_path (unopened q core host entry_limit w) in
      (
        open-IsClean timely s.mount s.read_only opened,
        λ p e.
            (let (success, is) = open-guarded s.mount s.read_only opened p e in
              (
                open_target-Opened q core host entry_limit s.target s.max_read s.read_only
                    s.allow_raw_writes s.test_fault_exit_phase s.test_fault_path
                    (unopened q core host entry_limit w) success,
                is,
              )),
      )
