-- ===== src/Worker/Mount.antt =====
-- src/worker/apfs_winfs_worker.cpp, class ApfsMountState: the target that is mounted, how it is
-- opened and read again, and how a path is found on it. `session` says whether readerSession_ is set.
pub mod Safe
pub mod Open
pub mod Tests
use apfs_for_windows.Common.{
  Bool, List, Option, Qt, Text, [], codes, false, is_empty, is_some, ltb, none, not, some, take,
  text_eq, trimmed, true, ℕ, ◌*◌, ◌&&◌, ◌∷◌, ◌==◌, if◌then◌else◌,
}
use apfs_for_windows.Worker.ApfsPath.{root, normalize_apfs_path, parent_path, base_name}
use apfs_for_windows.Worker.Volume.{
  writable_mount_policy_blocker, align_allocation, file_time_from_unix_ns, u64_max,
  looks_like_windows_raw_target,
}
use apfs_for_windows.Worker.Call.{
  Status, Outcome, ok, err, ended, null_session, Call, pure, fail, gets, modify, fail_if, or_fail,
  or_library, ◌>>=◌, ◌>>◌,
}
use apfs_for_windows.Worker.Core.{FileEntry, Listing, Detection, Core, Host}

pub record ResolvedEntry : Type 0 where
  pub path : Text
  pub name : Text
  pub directory : Bool
  pub regular_file : Bool
  pub symlink : Bool
  pub object_id : ℕ
  pub size_bytes : ℕ
  pub hard_links : ℕ
  pub created_time_ns : ℕ
  pub modified_time_ns : ℕ
  pub changed_time_ns : ℕ
  pub accessed_time_ns : ℕ
  pub write_generation_counter : ℕ
  pub bsd_flags : ℕ
  pub owner_id : ℕ
  pub group_id : ℕ
  pub inode_mode : ℕ

pub record Mounted (W : Type 0) : Type 0 where
  pub target : Text
  pub mount_point : Text
  pub volume_label : Text
  pub test_fault_exit_phase : Text
  pub test_fault_path : Text
  pub session : Bool
  pub total_bytes : ℕ
  pub free_bytes : ℕ
  pub target_container_bytes : ℕ
  pub max_file_read_bytes : ℕ
  pub created_time : ℕ
  pub read_only : Bool
  pub raw_target : Bool
  pub allow_raw_writes : Bool
  pub security_descriptor : Text
  pub world : W

abbrev pub fallback_probe_bytes : ℕ
fallback_probe_bytes = 1024 * 1024 * 1024

abbrev pub max_mutation_bytes : ℕ
max_mutation_bytes = 64 * 1024 * 1024

-- kPartitionApfsDefaultBrowseEntryLimit, which the core declares, is an argument of what uses it.
pub fill_resolved : Qt → FileEntry → Text → ResolvedEntry
fill_resolved q e path = record {
  path = normalize_apfs_path q path;
  name = e.name;
  directory = e.directory;
  regular_file = e.regular_file;
  symlink = e.symlink;
  object_id = e.object_id;
  size_bytes = e.size_bytes;
  hard_links = e.hard_link_count;
  created_time_ns = e.created_time_ns;
  modified_time_ns = e.modified_time_ns;
  changed_time_ns = e.changed_time_ns;
  accessed_time_ns = e.accessed_time_ns;
  write_generation_counter = e.write_generation_counter;
  bsd_flags = e.bsd_flags;
  owner_id = e.owner_id;
  group_id = e.group_id;
  inode_mode = e.inode_mode;
}

-- The entry of the root, from its inode.
pub root_entry : FileEntry → ResolvedEntry
root_entry e = record {
  path = root;
  name = [];
  directory = true;
  regular_file = false;
  symlink = false;
  object_id = 2;
  size_bytes = 0;
  hard_links = 1;
  created_time_ns = e.created_time_ns;
  modified_time_ns = e.modified_time_ns;
  changed_time_ns = e.changed_time_ns;
  accessed_time_ns = e.accessed_time_ns;
  write_generation_counter = e.write_generation_counter;
  bsd_flags = e.bsd_flags;
  owner_id = e.owner_id;
  group_id = e.group_id;
  inode_mode = e.inode_mode;
}

-- The loop of resolvePathNoLock, with the first match without case so far.
pub find_entry : Qt → Text → List FileEntry → Option FileEntry → Option FileEntry
find_entry q wanted [] fallback = fallback
find_entry q wanted (e ∷ es) fallback =
    let rest =
      find_entry q wanted es
        (if not (is_some fallback) && q.equal_ci e.name wanted then some e else fallback) in
    if text_eq e.name wanted then some e else rest

-- The label, if it is not blank: trimmed and cut to 32 units.
pub label_or : Qt → Text → Text → Text
label_or q name old = if is_empty (trimmed q name) then old else take 32 (trimmed q name)

-- Whether a detection says APFS.
abbrev pub is_apfs : Qt → Detection → Bool
is_apfs q d = q.equal_ci d.file_system (codes "APFS")

-- readerSession_->…: the process ends where there is no session.
pub reads : {W A : Type 0} → (W → A) → Call (Mounted W) A
reads f m = if m.session then (ok (f m.world), m) else (ended null_session, m)

abbrev pub on_world : {W A : Type 0} → (W → A × W) → Call (Mounted W) A
on_world f m = let (a, w) = f m.world in (ok a, record m { world = w })

module _ {W : Type 0} (q : Qt) (core : Core W) (host : Host W) (entry_limit : ℕ) where
  pub resolve_path_no_lock : Text → Call (Mounted W) ResolvedEntry
  unfolding reads
  resolve_path_no_lock normalized =
      if text_eq normalized root
      then (do
        inode ← or_fail (← reads (core.debug_file normalized)) Status.object_name_not_found
        pure (root_entry inode))
      else (do
        listing ← reads (core.list_directory (parent_path q normalized) entry_limit)
        fail_if listing.blocked Status.object_name_not_found
        found ←
            or_fail (find_entry q (base_name q normalized) listing.entries none)
              Status.object_name_not_found
        pure (fill_resolved q found normalized))

  pub resolve_path : Text → Call (Mounted W) ResolvedEntry
  unfolding resolve_path_no_lock
  resolve_path path = resolve_path_no_lock (normalize_apfs_path q path)

  abbrev pub probe_size : W → ℕ
  probe_size w = if ltb 0 (core.device_size w) then core.device_size w else fallback_probe_bytes

  -- What opening and reloading have in common: the device, the detection and the root's listing.
  pub probe : Call (Mounted W) (Detection × Listing)
  probe = do
    m ← gets (λ m. m)
    fail_if (not (core.opens m.world)) Status.access_denied
    found ← or_fail (core.detect (probe_size m.world) m.world) Status.unrecognized_volume
    fail_if (not (is_apfs q found)) Status.unrecognized_volume
    pure (found, core.list_directory root 1 m.world)

  abbrev pub set_totals : Detection → Mounted W → Mounted W
  set_totals d m = record m {
    total_bytes = d.total_bytes;
    free_bytes = d.free_bytes;
    target_container_bytes = if not (d.total_bytes == 0) then d.total_bytes else probe_size m.world;
  }

  pub reload_target_no_lock : Call (Mounted W) (Unit {0})
  unfolding probe label_or
  reload_target_no_lock = do
    (found, listing) ← probe
    fail_if listing.blocked Status.access_denied
    modify (λ m. record (set_totals found m) {
      session = true;
      volume_label = label_or q listing.volume_name m.volume_label;
    })

  -- A mount before openTarget.
  abbrev pub unopened : W → Mounted W
  unopened w = record {
    target = [];
    mount_point = [];
    volume_label = codes "APFS";
    test_fault_exit_phase = [];
    test_fault_path = [];
    session = false;
    total_bytes = 0;
    free_bytes = 0;
    target_container_bytes = 0;
    max_file_read_bytes = u64_max;
    created_time = 0;
    read_only = true;
    raw_target = false;
    allow_raw_writes = false;
    security_descriptor = [];
    world = w;
  }

  pub open_target : Text → ℕ → Bool → Bool → Text → Text → Call (Mounted W) (Unit {0})
  unfolding probe label_or
  open_target target max_file_read_bytes read_only allow_raw_writes phase fault_path = do
    let raw = looks_like_windows_raw_target q target
    modify (λ m. record m {
      target = target;
      read_only = read_only;
      allow_raw_writes = allow_raw_writes;
      max_file_read_bytes = if max_file_read_bytes == 0 then u64_max else max_file_read_bytes;
      created_time = host.current_file_time m.world;
      raw_target = raw;
      test_fault_exit_phase = phase;
      test_fault_path = normalize_apfs_path q fault_path;
    })
    modify (λ m. record m { world = if raw then m.world else host.recover_image_temps m.world })
    fail_if (not read_only && raw && not allow_raw_writes) Status.access_denied
    (found, listing) ← probe
    modify (λ m. record (set_totals found m) {
      session = true;
      volume_label = label_or q listing.volume_name m.volume_label;
    })
    fail_if listing.blocked Status.access_denied
    fail_if (not read_only && is_some (writable_mount_policy_blocker listing.policy))
        Status.media_write_protected
    m ← gets (λ m. m)
    security ← or_library (host.security_descriptor read_only m.world)
    modify (λ m. record m { security_descriptor = security })
