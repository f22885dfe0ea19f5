-- ===== src/Worker/Callbacks.antt =====
-- src/worker/apfs_winfs_worker.cpp: the callbacks Fs… that WinFsp makes, and a history of them.
pub mod Safe
pub mod Session
pub mod ReadOnly
pub mod Histories
pub mod Tests
use apfs_for_windows.Common.{
  Bool, List, Option, Qt, Text, [], false, is_some, map, none, not, some, true, ℕ, ◌≡◌, ◌&&◌,
  if◌then◌else◌,
}
use apfs_for_windows.Worker.ApfsPath.{
  normalize_apfs_path, split_mutable_file_path, split_mutable_root_directory_path,
}
use apfs_for_windows.Worker.Call.{
  Status, Outcome, ok, err, ended, dangling_context, Call, pure, fail, gets, modify, fail_if,
  or_fail, ◌>>=◌, ◌>>◌,
}
use apfs_for_windows.Worker.Core.{Core, Host}
use apfs_for_windows.Worker.Mount.{Mounted, ResolvedEntry, reads, resolve_path, fill_resolved}
use apfs_for_windows.Worker.FileInfo.{FileInfo, file_info, attributes_for}
use apfs_for_windows.Worker.Commit.{attempt, commit_file_write, commit_directory_create}
use apfs_for_windows.Worker.Handle.{
  FileContext, Open, get_context, get_mounted, get_info, on_mount, change_context, read_file,
  write_file, set_file_size, overwrite_file, flush_file,
}
use apfs_for_windows.Worker.Mutate.{
  is_not_found, can_delete, delete_file, rename_file, create_hard_link, set_basic_info,
  set_security,
}
use apfs_for_windows.Worker.EaWire.{WireEa}
use apfs_for_windows.Worker.EaCalls.{get_ea, set_ea}
use apfs_for_windows.Worker.Listing.{Orders, listed_entries}
use apfs_for_windows.Worker.Reparse.{ReparseData}
use apfs_for_windows.Worker.Links.{
  get_reparse_point_by_name, get_reparse_point, set_reparse_point, delete_reparse_point,
}
use apfs_for_windows.Worker.FileSystem.{
  Known, FileSystem, Answer, succeeds, on_mounted, lookup_context, on_handle, on_context,
  on_writable, open_context, close_context, update_open_context_hard_links, copy_security,
  volume_info, answer_handle,
}

-- The process has not ended.
abbrev pub goes_on : {A : Type 0} → Outcome A → Bool
goes_on (ended x) = false
goes_on other = true

-- A callback with its arguments. `allocates` says whether a context gets its memory, and the last
-- argument of the reparse requests is FspFileSystemCanReplaceReparsePoint.
pub data Request : Type 0 where
  get_volume_info set_volume_label : Request
  get_security_by_name : Text → Option ℕ → Bool → Request
  create : Text → Bool → Bool → Request
  open_existing : Text → Bool → Request
  overwrite close flush get_file_info can_be_deleted : Option ℕ → Request
  cleans_up : Option ℕ → Bool → Request
  read_at : Option ℕ → ℕ → ℕ → Request
  write_at : Option ℕ → Text → ℕ → Bool → Request
  set_info : Option ℕ → Option ℕ → ℕ → ℕ → ℕ → ℕ → Request
  set_size : Option ℕ → ℕ → Bool → Request
  rename : Option ℕ → Text → Text → Bool → Request
  link : Option ℕ → Text → Bool → Request
  get_security : Option ℕ → Option ℕ → Request
  put_security : Option ℕ → ℕ → Text → Request
  read_eas : Option ℕ → Request
  write_eas : Option ℕ → List WireEa → Request
  read_directory : Option ℕ → Text → Request
  reparse_by_name : Text → Option ℕ → Request
  read_reparse : Option ℕ → ℕ → Request
  write_reparse delete_reparse :
      Option ℕ → ReparseData → ℕ → (ReparseData → ReparseData → ℕ → Option ℕ) → Request

-- The file context of a callback.
abbrev pub handle_of : Request → Option ℕ
handle_of (Request.overwrite h) = h
handle_of (Request.close h) = h
handle_of (Request.flush h) = h
handle_of (Request.get_file_info h) = h
handle_of (Request.can_be_deleted h) = h
handle_of (Request.cleans_up h deletes) = h
handle_of (Request.read_at h offset len) = h
handle_of (Request.write_at h buffer offset to_end) = h
handle_of (Request.set_info h attributes creation access write change) = h
handle_of (Request.set_size h size allocation) = h
handle_of (Request.rename h old_path new_path replace) = h
handle_of (Request.link h new_path replace) = h
handle_of (Request.get_security h size) = h
handle_of (Request.put_security h information descriptor) = h
handle_of (Request.read_eas h) = h
handle_of (Request.write_eas h eas) = h
handle_of (Request.read_directory h marker) = h
handle_of (Request.read_reparse h size) = h
handle_of (Request.write_reparse h d size can_replace) = h
handle_of (Request.delete_reparse h d size can_replace) = h
handle_of other = none

module _ {W : Type 0} (q : Qt) (core : Core W) (host : Host W) (entry_limit : ℕ)
    (orders : Orders) where
  -- createNode
  pub create_node : Text → Bool → Bool → Call (FileSystem W) Answer
  create_node path directory allocates = do
    fs ← gets (λ fs. fs)
    fail_if fs.mounted.read_only Status.media_write_protected
    let normalized = normalize_apfs_path q path
    let splits =
        if directory
        then is_some (split_mutable_root_directory_path q normalized)
        else is_some (split_mutable_file_path q normalized)
    fail_if (not splits) Status.not_supported
    exists ← succeeds (on_mounted (resolve_path q core host entry_limit normalized))
    fail_if exists Status.object_name_collision
    created ← on_mounted (
        if directory
        then commit_directory_create q core host entry_limit normalized
        else commit_file_write q core host entry_limit normalized [])
    h ← (λ fs. let (h, fs') = open_context allocates created true fs in (ok h, fs'))
    answer_handle h created

  -- FsOpen
  pub open_file : Text → Bool → Call (FileSystem W) Answer
  open_file path allocates = do
    entry ← on_mounted (resolve_path q core host entry_limit path)
    h ← (λ fs. let (h, fs') = open_context allocates entry false fs in (ok h, fs'))
    answer_handle h entry

  -- FsGetSecurityByName, once the path was looked up; `finds_link` says whether
  -- FspFileSystemFindReparsePoint finds a link on the way.
  pub security_after :
      Option ℕ
      → Bool
      → Outcome ResolvedEntry × Mounted W
      → FileSystem W
      → Outcome Answer × FileSystem W
  security_after size finds_link (ok e, m) fs =
      (do
        answer ← on_mounted (copy_security size)
        pure (Answer.attributes (attributes_for m.read_only e)))
        (record fs { mounted = m })
  security_after size finds_link (err e, m) fs = (
    err (if finds_link && is_not_found e then Status.is_reparse else e),
    record fs { mounted = m },
  )
  security_after size finds_link (ended x, m) fs = (ended x, record fs { mounted = m })

  pub security_by_name : Text → Option ℕ → Bool → Call (FileSystem W) Answer
  unfolding security_after
  security_by_name path size finds_link fs =
      security_after size finds_link (resolve_path q core host entry_limit path fs.mounted) fs

  -- listDirectory, of all the entries behind the marker
  pub list_directory : Text → Call (Open W) (List (Text × FileInfo))
  list_directory marker = do
    c ← get_context
    m ← get_mounted
    fail_if (not c.entry.directory) Status.not_a_directory
    listing ← on_mount (reads (core.list_directory c.entry.path entry_limit))
    fail_if listing.blocked Status.object_name_not_found
    pure (
        map (λ e. (e.name, file_info m (fill_resolved q e e.path)))
          (listed_entries orders marker listing.entries))

  -- FsCleanup of a context: its statuses are only traced.
  pub cleanup : Bool → Call (Open W) (Unit {0})
  cleanup deletes =
      if deletes
      then (do
        change_context (λ c. record c { delete_pending = true })
        attempt (delete_file q core host entry_limit))
      else attempt (flush_file q core host entry_limit)

  -- FsCreateHardLink: the other open contexts of the object learn the number of links.
  pub relink : ℕ → Option FileContext → Call (FileSystem W) Answer
  relink links none = pure Answer.done
  relink links (some c) = do
    modify (update_open_context_hard_links c.entry.object_id links)
    fs ← gets (λ fs. fs)
    pure (Answer.info (file_info fs.mounted c.entry))

  pub hard_link : ℕ → Text → Bool → Call (FileSystem W) Answer
  unfolding relink
  hard_link h new_path replace = do
    links ← on_handle h (create_hard_link q core host entry_limit new_path replace)
    fs ← gets (λ fs. fs)
    relink links (lookup_context h fs)

  -- A call with no answer, and one whose result is the answer.
  abbrev pub done_after : {A : Type 0} → Call (FileSystem W) A → Call (FileSystem W) Answer
  done_after m = do answer ← m; pure Answer.done

  abbrev pub answered :
      {A : Type 0} → (A → Answer) → Call (FileSystem W) A → Call (FileSystem W) Answer
  answered f m = do answer ← m; pure (f answer)

  pub serve : Request → Call (FileSystem W) Answer
  unfolding create_node open_file security_by_name list_directory cleanup hard_link
  serve Request.get_volume_info = gets (λ fs. volume_info fs.mounted)
  serve Request.set_volume_label = fail Status.media_write_protected
  serve (Request.get_security_by_name path size finds_link) =
      security_by_name (normalize_apfs_path q path) size finds_link
  serve (Request.create path directory allocates) =
      create_node (normalize_apfs_path q path) directory allocates
  serve (Request.open_existing path allocates) = open_file (normalize_apfs_path q path) allocates
  serve (Request.overwrite h) =
      answered Answer.info
        (on_writable h Status.not_supported (overwrite_file q core host entry_limit))
  serve (Request.cleans_up none deletes) = pure Answer.done
  serve (Request.cleans_up (some h) deletes) = done_after (on_handle h (cleanup deletes))
  serve (Request.close none) = pure Answer.done
  serve (Request.close (some h)) = done_after (modify (close_context h))
  serve (Request.read_at h offset len) =
      answered Answer.bytes
        (on_context h Status.invalid_parameter (read_file q core host entry_limit offset len))
  serve (Request.write_at h buffer offset to_end) =
      answered (λ r. Answer.written r.0 r.1)
        (on_writable h Status.not_supported
          (write_file q core host entry_limit buffer offset to_end))
  serve (Request.flush none) = pure Answer.done
  serve (Request.flush (some h)) = done_after (on_handle h (flush_file q core host entry_limit))
  serve (Request.get_file_info h) =
      answered Answer.info (on_context h Status.invalid_parameter get_info)
  serve (Request.set_info h attributes creation access write change) = answered Answer.info (
      on_writable h Status.invalid_parameter
        (set_basic_info q core host entry_limit attributes creation access write change))
  serve (Request.set_size h size allocation) =
      answered Answer.info
        (on_writable h Status.not_supported (set_file_size q core host entry_limit size allocation))
  serve (Request.can_be_deleted h) =
      done_after (on_writable h Status.not_supported (can_delete q core host entry_limit))
  serve (Request.rename h old_path new_path replace) = done_after (
      on_writable h Status.not_supported (
        rename_file q core host entry_limit (normalize_apfs_path q old_path)
          (normalize_apfs_path q new_path) replace))
  serve (Request.link none new_path replace) =
      on_writable none Status.not_supported (pure Answer.done)
  serve (Request.link (some h) new_path replace) =
      hard_link h (normalize_apfs_path q new_path) replace
  serve (Request.get_security h size) =
      on_context h Status.invalid_parameter (on_mount (copy_security size))
  serve (Request.put_security h information descriptor) = done_after (
      on_writable h Status.invalid_parameter
        (set_security q core host entry_limit information descriptor))
  serve (Request.read_eas h) =
      answered Answer.eas (on_context h Status.invalid_parameter (get_ea q core host entry_limit))
  serve (Request.write_eas h eas) =
      answered Answer.info
        (on_writable h Status.invalid_parameter (set_ea q core host entry_limit eas))
  serve (Request.read_directory h marker) =
      answered Answer.names (on_context h Status.invalid_parameter (list_directory marker))
  serve (Request.reparse_by_name path size) = answered Answer.reparse (
      on_mounted
        (get_reparse_point_by_name q core host entry_limit (normalize_apfs_path q path) size))
  serve (Request.read_reparse h size) =
      answered (λ d. Answer.reparse (some d))
        (on_context h Status.invalid_parameter (get_reparse_point q core host entry_limit size))
  serve (Request.write_reparse h d size can_replace) = done_after (
      on_writable h Status.invalid_parameter
        (set_reparse_point q core host entry_limit can_replace d size))
  serve (Request.delete_reparse h d size can_replace) = done_after (
      on_writable h Status.not_a_reparse_point
        (delete_reparse_point q core host entry_limit can_replace d size))

  -- Histories of callbacks: a callback may come again after an error, but none comes where the
  -- process has ended.
  pub data History : FileSystem W → FileSystem W → Type 0 where
    start : (fs : FileSystem W) → History fs fs
    served :
        (c : Request) (fs fs' : FileSystem W)
        → History fs fs'
        → Known (handle_of c) fs'
        → goes_on (serve c fs').0 ≡ true
        → History fs (serve c fs').1
