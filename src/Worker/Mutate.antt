-- ===== src/Worker/Mutate.antt =====
-- src/worker/apfs_winfs_worker.cpp, class ApfsMountState: deleting, renaming, linking, and setting
-- the attributes and the security of what a handle has open.
pub mod Safe
use apfs_for_windows.Common.{
  Bool, Option, Qt, Text, [], false, is_empty, is_some, none, not, some, true, ℕ, ◌%◌, ◌^◌, ◌||◌,
  ◌==◌, if◌then◌else◌,
}
use apfs_for_windows.Worker.ApfsPath.{
  normalize_apfs_path, split_mutable_file_path, split_directory_create_path,
  split_mutable_root_directory_path,
}
use apfs_for_windows.Worker.Volume.{unix_ns_from_file_time}
use apfs_for_windows.Worker.Call.{
  Status, Outcome, ok, err, ended, Call, pure, fail, gets, modify, fail_if, or_fail, or_library,
  ◌>>=◌, ◌>>◌,
}
use apfs_for_windows.Worker.Core.{Core, Host, MetadataUpdate}
use apfs_for_windows.Worker.Mount.{Mounted, ResolvedEntry, reads, resolve_path}
use apfs_for_windows.Worker.FileInfo.{FileInfo, file_info, assign_flags}
use apfs_for_windows.Worker.Commit.{
  commit_file_delete, commit_directory_delete, commit_directory_rename, commit_file_rename,
  commit_file_hard_link, commit_inode_metadata,
}
use apfs_for_windows.Worker.Handle.{
  FileContext, Open, on_mount, get_context, get_mounted, set_entry, get_info, discard_staged_write,
  flush_file,
}

abbrev pub is_not_found : Status → Bool
is_not_found Status.object_name_not_found = true
is_not_found other = false

abbrev pub no_update : MetadataUpdate
no_update = record {
  bsd_flags = none;
  created_time_ns = none;
  accessed_time_ns = none;
  modified_time_ns = none;
  changed_time_ns = none;
  inode_mode = none;
  owner_id = none;
  group_id = none;
  xattr_mutations = [];
  symbolic_link_target = none;
}

-- A time that is not 0, in nanoseconds.
abbrev pub time_update : ℕ → Option ℕ
time_update t = if not (t == 0) then some (unix_ns_from_file_time t) else none

-- The update of setBasicInfo, and whether it changes anything. The attributes are `none` for
-- INVALID_FILE_ATTRIBUTES.
pub basic_update : Option ℕ → ℕ → ℕ → ℕ → ℕ → ℕ → MetadataUpdate
basic_update attributes creation access write change flags = record no_update {
  bsd_flags = elim attributes [
    | none ↦ none
    | some a ↦ if assign_flags a flags == flags then none else some (assign_flags a flags)
  ];
  created_time_ns = time_update creation;
  accessed_time_ns = time_update access;
  modified_time_ns = time_update write;
  changed_time_ns = time_update change;
}

pub is_changed : MetadataUpdate → Bool
is_changed u =
    is_some u.bsd_flags
    || is_some u.created_time_ns
    || is_some u.accessed_time_ns
    || is_some u.modified_time_ns
    || is_some u.changed_time_ns

module _ {W : Type 0} (q : Qt) (core : Core W) (host : Host W) (entry_limit : ℕ) where
  pub can_delete : Call (Open W) (Unit {0})
  can_delete = do
    c ← get_context
    m ← get_mounted
    fail_if m.read_only Status.media_write_protected
    if c.entry.directory
        then (do
          fail_if (not (is_some (split_mutable_root_directory_path q c.entry.path)))
              Status.not_supported
          listing ← on_mount (reads (core.list_directory c.entry.path 1))
          fail_if (not listing.listed || listing.blocked) Status.access_denied
          fail_if (not (is_empty listing.entries)) Status.directory_not_empty)
        else (do
          fail_if (not (is_some (split_mutable_file_path q c.entry.path))) Status.not_supported
          pure tt)

  pub delete_file : Call (Open W) (Unit {0})
  delete_file = do
    c ← get_context
    m ← get_mounted
    fail_if m.read_only Status.media_write_protected
    if c.entry.directory
        then (do
          fail_if (not (is_some (split_directory_create_path q c.entry.path))) Status.not_supported
          on_mount (commit_directory_delete q core host entry_limit c.entry.path))
        else (do
          discard_staged_write q core host entry_limit
          fail_if (not (is_some (split_mutable_file_path q c.entry.path))) Status.not_supported
          on_mount (commit_file_delete q core host entry_limit c.entry.path))

  -- What renaming over a name does first: a file of another object there is deleted. A path that is
  -- not found is fine.
  pub make_room_after :
      ℕ → Text → Outcome ResolvedEntry × Mounted W → Outcome (Unit {0}) × Mounted W
  make_room_after object_id path (ok e, m) =
      (if e.directory
          then fail Status.access_denied
          else (if e.object_id == object_id
              then pure tt
              else commit_file_delete q core host entry_limit path))
        m
  make_room_after object_id path (err e, m) = if is_not_found e then (ok tt, m) else (err e, m)
  make_room_after object_id path (ended x, m) = (ended x, m)

  pub make_room : ℕ → Text → Call (Mounted W) (Unit {0})
  unfolding make_room_after
  make_room object_id path m =
      make_room_after object_id path (resolve_path q core host entry_limit path m)

  pub rename_file : Text → Text → Bool → Call (Open W) (Unit {0})
  unfolding make_room
  rename_file old_path new_path replace_if_exists = do
    c₀ ← get_context
    m ← get_mounted
    fail_if m.read_only Status.media_write_protected
    let normalized_old = normalize_apfs_path q old_path
    let normalized_new = normalize_apfs_path q new_path
    if c₀.staged_write_dirty then flush_file q core host entry_limit else pure tt
    c ← get_context
    if c.entry.directory
        then (do
          fail_if (not (is_some (split_directory_create_path q normalized_old)))
              Status.not_supported
          fail_if (not (is_some (split_directory_create_path q normalized_new)))
              Status.not_supported
          fail_if replace_if_exists Status.access_denied
          updated ←
              on_mount
                (commit_directory_rename q core host entry_limit normalized_old normalized_new)
          set_entry updated)
        else (do
          fail_if (not (is_some (split_mutable_file_path q normalized_old))) Status.not_supported
          fail_if (not (is_some (split_mutable_file_path q normalized_new))) Status.not_supported
          if replace_if_exists
              then on_mount (make_room c.entry.object_id normalized_new)
              else pure tt
          updated ←
              on_mount (commit_file_rename q core host entry_limit normalized_old normalized_new)
          set_entry updated)

  -- createHardLink without the update of the other contexts: it gives the number of links.
  pub create_hard_link : Text → Bool → Call (Open W) ℕ
  create_hard_link new_path replace_if_exists = do
    c ← get_context
    m ← get_mounted
    fail_if m.read_only Status.media_write_protected
    fail_if (c.entry.directory || not c.entry.regular_file || c.entry.symlink) Status.not_supported
    fail_if replace_if_exists Status.not_supported
    if c.staged_write_dirty then flush_file q core host entry_limit else pure tt
    c' ← get_context
    linked ← on_mount (commit_file_hard_link q core host entry_limit c'.entry.path new_path)
    set_entry (record c'.entry { hard_links = linked.hard_links })
    pure linked.hard_links

  -- A change of the inode's metadata, after what is staged has been flushed.
  abbrev pub commit_metadata : (ResolvedEntry → MetadataUpdate) → Call (Open W) (Unit {0})
  commit_metadata update = do
    c ← get_context
    updated ← on_mount (
        commit_inode_metadata q core host entry_limit c.entry.path c.entry.directory
          (update c.entry))
    set_entry updated

  pub set_basic_info : Option ℕ → ℕ → ℕ → ℕ → ℕ → Call (Open W) FileInfo
  unfolding basic_update is_changed
  set_basic_info attributes creation access write change = do
    c₀ ← get_context
    m ← get_mounted
    fail_if m.read_only Status.media_write_protected
    if c₀.staged_write_dirty then flush_file q core host entry_limit else pure tt
    c ← get_context
    let update = basic_update attributes creation access write change c.entry.bsd_flags
    if is_changed update then commit_metadata (λ e. update) else pure tt
    get_info

  pub set_security : ℕ → Text → Call (Open W) (Unit {0})
  set_security information descriptor = do
    c ← get_context
    m ← get_mounted
    fail_if m.read_only Status.media_write_protected
    (owner, group, mode) ←
        or_library (host.set_security m.security_descriptor information descriptor m.world)
    let update : MetadataUpdate = record no_update {
      inode_mode = some (mode % 2 ^ 16);
      owner_id = some owner;
      group_id = some group;
      changed_time_ns = some (unix_ns_from_file_time (host.current_file_time m.world));
    }
    if c.staged_write_dirty then flush_file q core host entry_limit else pure tt
    commit_metadata (λ e. update)
