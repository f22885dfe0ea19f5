-- ===== src/Worker/Links.antt =====
-- src/worker/apfs_winfs_worker.cpp: the symbolic link of what a handle has open, read, set and
-- deleted.
pub mod Safe
use apfs_for_windows.Common.{
  List, Option, Qt, Text, [], false, inl, inr, is_empty, length, ltb, none, not, some, text_eq, ℕ,
  ◌+◌, ◌*◌, ◌⊎◌, ◌&&◌, ◌||◌, ◌∷◌, ◌==◌, if◌then◌else◌,
}
use apfs_for_windows.Worker.Ea.{symlink_name}
use apfs_for_windows.Worker.Volume.{unix_ns_from_file_time}
use apfs_for_windows.Worker.Call.{
  Status, Outcome, Call, pure, fail, gets, modify, fail_if, or_fail, ◌>>=◌, ◌>>◌,
}
use apfs_for_windows.Worker.Core.{Core, Host, MetadataUpdate}
use apfs_for_windows.Worker.Mount.{Mounted, ResolvedEntry, reads, resolve_path}
use apfs_for_windows.Worker.Commit.{commit_inode_metadata}
use apfs_for_windows.Worker.Handle.{Open, on_mount, get_context, get_mounted, set_entry}
use apfs_for_windows.Worker.Mutate.{no_update}
use apfs_for_windows.Worker.Reparse.{
  ReparseData, ReparseError, build_reparse, parse_reparse, fixed_bytes,
}

pub reparse_status : ReparseError → Status
reparse_status ReparseError.invalid = Status.io_reparse_data_invalid
reparse_status ReparseError.not_handled = Status.io_reparse_tag_not_handled
reparse_status ReparseError.too_long = Status.name_too_long

abbrev pub or_reparse : {S A : Type 0} → A ⊎ ReparseError → Call S A
or_reparse (inl a) = pure a
or_reparse (inr e) = fail (reparse_status e)

-- The error of a library, if it gave one.
abbrev pub or_code : {S : Type 0} → Option ℕ → Call S (Unit {0})
or_code none = pure tt
or_code (some code) = fail (Status.of_library code)

-- The value of the attribute that holds the target, without the zeros at its end.
pub link_value : List (Text × Text) → Option Text
link_value [] = none
link_value ((name, value) ∷ xs) = if text_eq name symlink_name then some value else link_value xs

pub drop_zeros : Text → Text
drop_zeros [] = []
drop_zeros (c ∷ cs) = let rest = drop_zeros cs in if c == 0 && is_empty rest then [] else c ∷ rest

-- The size of a buffer that holds the data: its fixed part and the path.
abbrev pub reparse_size : ReparseData → ℕ
reparse_size d = fixed_bytes + 2 * length d.path_buffer

module _ {W : Type 0} (q : Qt) (core : Core W) (host : Host W) (entry_limit : ℕ) where
  pub read_symbolic_link_target : ResolvedEntry → Call (Mounted W) Text
  unfolding link_value drop_zeros
  read_symbolic_link_target e = do
    fail_if (not e.symlink) Status.not_a_reparse_point
    attributes ← or_fail (← reads (core.read_xattrs e.path)) Status.access_denied
    value ← or_fail (link_value attributes) Status.io_reparse_data_invalid
    let target = q.from_utf8 (drop_zeros value)
    fail_if (is_empty target) Status.io_reparse_data_invalid
    pure target

  pub build_symbolic_link_reparse_data : ResolvedEntry → Call (Mounted W) ReparseData
  unfolding read_symbolic_link_target reparse_status
  build_symbolic_link_reparse_data e = do
    target ← read_symbolic_link_target e
    m ← gets (λ m. m)
    or_reparse (build_reparse m.mount_point target)

  -- The data for a buffer of this size.
  abbrev pub fits_buffer : ℕ → ReparseData → Call (Mounted W) ReparseData
  fits_buffer size d = do fail_if (ltb size (reparse_size d)) Status.buffer_too_small; pure d

  -- `none` where there is no buffer: only whether the path is a link is asked.
  abbrev pub fill_buffer : Option ℕ → ResolvedEntry → Call (Mounted W) (Option ReparseData)
  fill_buffer none e = pure none
  fill_buffer (some size) e = do
    d ← build_symbolic_link_reparse_data e
    fitting ← fits_buffer size d
    pure (some fitting)

  pub get_reparse_point_by_name : Text → Option ℕ → Call (Mounted W) (Option ReparseData)
  unfolding build_symbolic_link_reparse_data
  get_reparse_point_by_name path buffer_size = do
    e ← resolve_path q core host entry_limit path
    fail_if (not e.symlink) Status.not_a_reparse_point
    fill_buffer buffer_size e

  pub get_reparse_point : ℕ → Call (Open W) ReparseData
  unfolding build_symbolic_link_reparse_data
  get_reparse_point size = do
    c ← get_context
    on_mount (do d ← build_symbolic_link_reparse_data c.entry; fits_buffer size d)

  -- FspFileSystemCanReplaceReparsePoint of the current data, where the file is a link.
  abbrev pub check_replaceable :
      (ReparseData → ReparseData → ℕ → Option ℕ)
      → ResolvedEntry
      → ReparseData
      → ℕ
      → Call (Mounted W) (Unit {0})
  check_replaceable can_replace e d size = do
    current ← build_symbolic_link_reparse_data e
    or_code (can_replace current d size)

  abbrev commit_link : Option Text → Call (Open W) (Unit {0})
  commit_link target = do
    c ← get_context
    m ← get_mounted
    updated ← on_mount (
        commit_inode_metadata q core host entry_limit c.entry.path false (record no_update {
          changed_time_ns = some (unix_ns_from_file_time (host.current_file_time m.world));
          symbolic_link_target = target;
        }))
    set_entry updated

  pub set_reparse_point :
      (ReparseData → ReparseData → ℕ → Option ℕ) → ReparseData → ℕ → Call (Open W) (Unit {0})
  unfolding build_symbolic_link_reparse_data
  set_reparse_point can_replace d size = do
    c ← get_context
    m ← get_mounted
    fail_if m.read_only Status.media_write_protected
    fail_if (c.entry.directory || not (c.entry.size_bytes == 0)) Status.invalid_parameter
    if c.entry.symlink then on_mount (check_replaceable can_replace c.entry d size) else pure tt
    target ← or_reparse (parse_reparse q m.mount_point d size)
    commit_link (some target)

  -- An empty target takes the link away.
  pub delete_reparse_point :
      (ReparseData → ReparseData → ℕ → Option ℕ) → ReparseData → ℕ → Call (Open W) (Unit {0})
  unfolding build_symbolic_link_reparse_data
  delete_reparse_point can_replace d size = do
    c ← get_context
    m ← get_mounted
    fail_if m.read_only Status.media_write_protected
    fail_if (not c.entry.symlink) Status.not_a_reparse_point
    on_mount (check_replaceable can_replace c.entry d size)
    commit_link (some [])
