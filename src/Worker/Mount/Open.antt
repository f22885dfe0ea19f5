-- ===== src/Worker/Mount/Open.antt =====
-- What a mount that openTarget has opened grants.
use apfs_for_windows.Common.{
  Bool, Option, Qt, Text, ap, false, inl, inr, is_some, none, not, refl, some, sym, true, ℕ, ◌≡◌,
  ◌∙◌, ◌⊎◌, ◌&&◌, ◌==◌, if◌then◌else◌,
}
use apfs_for_windows.Worker.ApfsPath.{root, normalize_apfs_path}
use apfs_for_windows.Worker.Volume.{
  Blocker, u64_max, writable_mount_policy_blocker, looks_like_windows_raw_target,
}
use apfs_for_windows.Worker.Call.{Status, is_success}
use apfs_for_windows.Worker.Call.Gives.{
  After, After-bind, After-success, After-fail_if, After-or_fail, After-or_library,
}
use apfs_for_windows.Worker.Core.{Core, Host, Detection, Listing}
use apfs_for_windows.Worker.Mount.{set_totals, Mounted, is_apfs, probe, probe_size, open_target}

-- A mount opened with these flags: it has a session on an APFS target whose root could be listed,
-- and it is writable only with a policy that allows it and, on a raw target, with the confirmation.
pub record Opened {W : Type 0} (q : Qt) (core : Core W) (host : Host W) (entry_limit : ℕ)
    (target : Text) (read_only allow : Bool) (m : Mounted W) : Type 0 where
  pub has_session : m.session ≡ true
  pub has_target : m.target ≡ target
  pub has_read_only : m.read_only ≡ read_only
  pub has_raw : m.raw_target ≡ looks_like_windows_raw_target q target
  pub has_allow : m.allow_raw_writes ≡ allow
  pub lists : (core.list_directory root 1 m.world).blocked ≡ false
  pub detects :
      (d : Detection) × (core.detect (probe_size q core host entry_limit m.world) m.world ≡ some d)
      × (is_apfs q d ≡ true)
  pub writable :
      (m.read_only ≡ true)
      ⊎ ((writable_mount_policy_blocker (core.list_directory root 1 m.world).policy ≡ none)
          × ((m.raw_target ≡ false) ⊎ (m.allow_raw_writes ≡ true)))

module _ {W : Type 0} (q : Qt) (core : Core W) (host : Host W) (entry_limit : ℕ) where
  allowed :
      (read_only raw allow : Bool) (blocker : Option Blocker)
      → (not read_only && raw && not allow) ≡ false
      → (not read_only && is_some blocker) ≡ false
      → (read_only ≡ true) ⊎ ((blocker ≡ none) × ((raw ≡ false) ⊎ (allow ≡ true)))
  allowed true raw allow blocker e e' = inl refl
  allowed false false allow none e e' = inr (refl, inl refl)
  allowed false true true none e e' = inr (refl, inr refl)
  allowed false true false none e e' = cc
  allowed false raw allow (some b) e e' = cc

  is_true_of : {b : Bool} → not b ≡ false → b ≡ true
  is_true_of {b = true} e = refl
  is_true_of {b = false} e = cc

  -- What probing has found on the way: the state is `m` still.
  record Probed (m : Mounted W) (found : Detection × Listing) (m' : Mounted W) : Type 0 where
    pub is_same : m' ≡ m
    pub is_detected :
        core.detect (probe_size q core host entry_limit m.world) m.world ≡ some found.0
    pub is_file_system : is_apfs q found.0 ≡ true
    pub is_listing : found.1 ≡ core.list_directory root 1 m.world

  probe_lem : (m : Mounted W) → After (Probed m) (probe q core host entry_limit m)
  unfolding probe
  probe_lem m =
      After-fail_if (Probed m) (not (core.opens m.world)) Status.access_denied _ m λ opens.
        After-or_fail (Probed m) (core.detect (probe_size q core host entry_limit m.world) m.world)
          Status.unrecognized_volume _ m
          λ d found.
            After-fail_if (Probed m) (not (is_apfs q d)) Status.unrecognized_volume _ m λ apfs.
              record {
                is_same = refl;
                is_detected = found;
                is_file_system = is_true_of apfs;
                is_listing = refl;
              }

  -- The mount after the steps that follow probing.
  opened :
      {label security : Text} (m m' : Mounted W) (found : Detection × Listing)
      → Probed m found m'
      → found.1.blocked ≡ false
      → (not m.read_only && is_some (writable_mount_policy_blocker found.1.policy)) ≡ false
      → (not m.read_only && m.raw_target && not m.allow_raw_writes) ≡ false
      → m.raw_target ≡ looks_like_windows_raw_target q m.target
      → Opened q core host entry_limit m.target m.read_only m.allow_raw_writes
          (record (set_totals q core host entry_limit found.0 m') {
            session = true;
            volume_label = label;
            security_descriptor = security;
          })
  opened m m' found p listed policy guarded raw =
      let same_world : m'.world ≡ m.world = ap (λ x. x.world) p.is_same in
      let same_read_only : m'.read_only ≡ m.read_only = ap (λ x. x.read_only) p.is_same in
      let same_raw : m'.raw_target ≡ m.raw_target = ap (λ x. x.raw_target) p.is_same in
      let same_allow : m'.allow_raw_writes ≡ m.allow_raw_writes =
        ap (λ x. x.allow_raw_writes) p.is_same in
      record {
        has_session = refl;
        has_target = ap (λ x. x.target) p.is_same;
        has_read_only = same_read_only;
        has_raw = same_raw ∙ raw;
        has_allow = same_allow;
        lists =
            ap (λ w. (core.list_directory root 1 w).blocked) same_world
            ∙ ap (λ l. l.blocked) (sym p.is_listing)
            ∙ listed;
        detects = (
          found.0,
          ap (λ w. core.detect (probe_size q core host entry_limit w) w) same_world ∙ p.is_detected,
          p.is_file_system,
        );
        writable =
            rw (same_read_only, same_raw, same_allow, same_world, sym p.is_listing)
              (allowed m.read_only m.raw_target m.allow_raw_writes _ guarded policy);
      }

  -- A mount that openTarget reports as opened is Opened, whatever the state before.
  pub open_target-Opened :
      (target : Text) (max_read : ℕ) (read_only allow : Bool) (phase fault_path : Text)
      → (m : Mounted W)
      → is_success
          (open_target q core host entry_limit target max_read read_only allow phase fault_path m).0
        ≡ true
      → Opened q core host entry_limit target read_only allow
          (open_target q core host entry_limit target max_read read_only allow phase fault_path m).1
  unfolding open_target
  open_target-Opened target max_read read_only allow phase fault_path m h =
      let raw = looks_like_windows_raw_target q target in
      let m₁ : Mounted W = record m {
        target = target;
        read_only = read_only;
        allow_raw_writes = allow;
        max_file_read_bytes = if max_read == 0 then u64_max else max_read;
        created_time = host.current_file_time m.world;
        raw_target = raw;
        test_fault_exit_phase = phase;
        test_fault_path = normalize_apfs_path q fault_path;
        world = if raw then m.world else host.recover_image_temps m.world;
      } in
      let Q : Unit {0} → Mounted W → Type 0 =
        λ _ m'. Opened q core host entry_limit target read_only allow m' in
      (After-success Q _
        (After-fail_if Q (not read_only && raw && not allow) Status.access_denied _ m₁ λ guarded.
          After-bind Q (Probed m₁) (probe q core host entry_limit m₁) _ (probe_lem m₁) λ found m' p.
            After-fail_if Q found.1.blocked Status.access_denied _ _ λ listed.
              After-fail_if Q
                (not read_only && is_some (writable_mount_policy_blocker found.1.policy))
                Status.media_write_protected _ _
                λ policy.
                  After-or_library Q (host.security_descriptor read_only m'.world) _ _
                    λ security e. opened m₁ m' found p listed policy guarded refl)
        h).1
