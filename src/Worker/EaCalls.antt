-- ===== src/Worker/EaCalls.antt =====
-- src/worker/apfs_winfs_worker.cpp: getEa and setEa, on what a handle has open.
pub mod Safe
use apfs_for_windows.Common.{List, Qt, is_empty, map, not, some, ℕ, if◌then◌else◌}
use apfs_for_windows.Worker.Volume.{unix_ns_from_file_time}
use apfs_for_windows.Worker.Ea.{validate_windows_ea_mutations}
use apfs_for_windows.Worker.Call.{
  Status, Outcome, Call, pure, fail, gets, modify, fail_if, or_fail, ◌>>=◌, ◌>>◌,
}
use apfs_for_windows.Worker.Core.{Core, Host, MetadataUpdate}
use apfs_for_windows.Worker.Mount.{Mounted, reads}
use apfs_for_windows.Worker.FileInfo.{FileInfo}
use apfs_for_windows.Worker.Handle.{Open, on_mount, get_context, get_mounted, get_info, flush_file}
use apfs_for_windows.Worker.Mutate.{no_update, commit_metadata}
use apfs_for_windows.Worker.EaWire.{WireEa, Collected, collect_all, wire_eas}

module _ {W : Type 0} (q : Qt) (core : Core W) (host : Host W) (entry_limit : ℕ) where
  pub get_ea : Call (Open W) (List WireEa)
  get_ea = do
    c ← get_context
    read ← on_mount (reads (core.read_xattrs c.entry.path))
    attributes ← or_fail read Status.access_denied
    pure (wire_eas q core.compressed_name core.resource_fork_name attributes)

  pub set_ea : List WireEa → Call (Open W) FileInfo
  set_ea eas = do
    c₀ ← get_context
    m ← get_mounted
    fail_if m.read_only Status.media_write_protected
    collected ←
        or_fail (collect_all q core.compressed_name core.resource_fork_name eas)
          Status.ea_list_inconsistent
    if is_empty collected then pure tt else (do
      if c₀.staged_write_dirty then flush_file q core host entry_limit else pure tt
      c ← get_context
      read ← on_mount (reads (core.read_xattrs c.entry.path))
      attributes ← or_fail read Status.access_denied
      let accepted =
          validate_windows_ea_mutations q (map (λ a. a.0) attributes)
            (map (λ x. x.policy) collected)
      fail_if (not accepted) Status.object_name_collision
      m' ← get_mounted
      let now = unix_ns_from_file_time (host.current_file_time m'.world)
      commit_metadata q core host entry_limit (λ e. record no_update {
        changed_time_ns = some now;
        xattr_mutations = map (λ x. x.mutation) collected;
      }))
    get_info
