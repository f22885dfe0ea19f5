-- ===== src/Worker/Handle.antt =====
-- src/worker/apfs_winfs_worker.cpp, struct FileContext and the methods that read and write a file
-- through an open handle. Writes are staged in the context, in memory or in a file of the host, and
-- committed by flushFile. A call's state is the context beside the mount.
pub mod Safe
pub mod Staged
pub mod Tests
use apfs_for_windows.Common.{
  Bool, Qt, Text, [], drop, false, is_empty, is_some, leb, length, ltb, min, not, take, true, ℕ,
  ◌+◌, ◌-◌, ◌&&◌, ◌||◌, ◌++◌, ◌==◌, if◌then◌else◌,
}
use apfs_for_windows.Worker.ApfsPath.{split_mutable_file_path}
use apfs_for_windows.Worker.Volume.{u64_max}
use apfs_for_windows.Worker.Call.{
  Status, Outcome, Call, pure, fail, gets, modify, fail_if, or_fail, ◌>>=◌, ◌>>◌,
}
use apfs_for_windows.Worker.Core.{Core, Host}
use apfs_for_windows.Worker.Mount.{Mounted, ResolvedEntry, max_mutation_bytes, on_world, reads}
use apfs_for_windows.Worker.FileInfo.{FileInfo, file_info}
use apfs_for_windows.Worker.Commit.{fits_qint64, commit_file_write, commit_file_write_from_path}

pub record FileContext : Type 0 where
  pub handle_id : ℕ
  pub entry : ResolvedEntry
  pub created_by_this_handle : Bool
  pub staged_write_active : Bool
  pub staged_write_dirty : Bool
  pub delete_pending : Bool
  pub closed : Bool
  pub staged_write_data : Text
  pub staged_write_path : Text
  pub staged_write_file_backed : Bool

pub record Open (W : Type 0) : Type 0 where
  pub context : FileContext
  pub mounted : Mounted W

-- memcpy of the buffer to the offset, where the bytes reach that far.
pub splice : Text → ℕ → Text → Text
splice bytes offset buffer = take offset bytes ++ (buffer ++ drop (offset + length buffer) bytes)

abbrev pub with_size : ℕ → ResolvedEntry → ResolvedEntry
with_size n e = record e { size_bytes = n }

-- The staged write goes on, and the file has this size.
abbrev pub stage : ℕ → FileContext → FileContext
stage n c = record c {
  staged_write_active = true;
  staged_write_dirty = true;
  entry = with_size n c.entry;
}

abbrev pub is_staged : FileContext → Bool
is_staged c = c.created_by_this_handle || c.staged_write_active

abbrev pub unstaged : FileContext → FileContext
unstaged c = record c {
  staged_write_active = false;
  staged_write_dirty = false;
  staged_write_data = [];
  staged_write_path = [];
  staged_write_file_backed = false;
}

-- readBytes
pub read_bytes : {S : Type 0} → Text → ℕ → ℕ → Call S Text
read_bytes bytes offset len =
    if leb (length bytes) offset
    then fail Status.end_of_file
    else pure (take (min len (length bytes - offset)) (drop offset bytes))

module _ {W : Type 0} where
  abbrev pub on_mount : {A : Type 0} → Call (Mounted W) A → Call (Open W) A
  on_mount m o = ((m o.mounted).0, record o { mounted = (m o.mounted).1 })

  abbrev pub get_context : Call (Open W) FileContext
  get_context o = (Outcome.ok o.context, o)

  abbrev pub get_mounted : Call (Open W) (Mounted W)
  get_mounted o = (Outcome.ok o.mounted, o)

  abbrev pub change_context : (FileContext → FileContext) → Call (Open W) (Unit {0})
  change_context f o = (Outcome.ok tt, record o { context = f o.context })

  abbrev pub set_entry : ResolvedEntry → Call (Open W) (Unit {0})
  set_entry e = change_context (λ c. record c { entry = e })

  -- fillFileInfo of the context's entry
  abbrev pub get_info : Call (Open W) FileInfo
  get_info o = (Outcome.ok (file_info o.mounted o.context.entry), o)

module _ {W : Type 0} (q : Qt) (core : Core W) (host : Host W) (entry_limit : ℕ) where
  -- QByteArray::resize
  pub resize_bytes : Text → ℕ → W → Text
  resize_bytes bytes n w =
      if leb n (length bytes) then take n bytes else bytes ++ host.fresh_bytes (n - length bytes) w

  abbrev pub on_host : {A : Type 0} → (W → A × W) → Call (Open W) A
  on_host f = on_mount (on_world f)

  pub is_mutable_file : ResolvedEntry → Bool
  is_mutable_file e = not e.directory && is_some (split_mutable_file_path q e.path)

  pub read_mutable_bytes : ResolvedEntry → Call (Mounted W) Text
  read_mutable_bytes e =
      if ltb max_mutation_bytes e.size_bytes
      then fail Status.file_too_large
      else (if e.size_bytes == 0
          then pure []
          else (do or_fail (← reads (core.read_file e.path e.size_bytes)) Status.access_denied))

  pub read_host_file_bytes : Text → ℕ → ℕ → Call (Mounted W) Text
  read_host_file_bytes path offset len = do
    m ← gets (λ m. m)
    let size = host.file_size path m.world
    fail_if (not (host.opens_to_read path m.world)) Status.access_denied
    fail_if (leb size offset) Status.end_of_file
    fail_if (not (fits_qint64 offset)) Status.access_denied
    or_fail (host.read_at path offset (min len (size - offset)) m.world) Status.access_denied

  pub read_file : ℕ → ℕ → Call (Open W) Text
  unfolding read_host_file_bytes read_bytes
  read_file offset len = do
    c ← get_context
    m ← get_mounted
    fail_if c.entry.directory Status.invalid_device_request
    if c.staged_write_active
        then (if c.staged_write_file_backed
            then on_mount (read_host_file_bytes c.staged_write_path offset len)
            else read_bytes c.staged_write_data offset len)
        else (do
          fail_if (leb c.entry.size_bytes offset) Status.end_of_file
          fail_if (leb m.max_file_read_bytes offset) Status.end_of_file
          let available = min (c.entry.size_bytes - offset) (m.max_file_read_bytes - offset)
          read ← on_mount (reads (core.read_file_range c.entry.path offset (min len available)))
          bytes ← or_fail read Status.access_denied
          fail_if (is_empty bytes) Status.end_of_file
          pure (take (min len (length bytes)) bytes))

  pub ensure_staged_write_data : Call (Open W) (Unit {0})
  unfolding read_mutable_bytes
  ensure_staged_write_data = do
    c ← get_context
    fail_if c.entry.directory Status.not_supported
    if c.staged_write_active then pure tt else (do
      change_context (λ c. record c { staged_write_data = [] })
      bytes ←
          if c.created_by_this_handle && c.entry.size_bytes == 0
          then pure []
          else on_mount (read_mutable_bytes c.entry)
      change_context (λ c. record c { staged_write_data = bytes; staged_write_active = true }))

  -- A step on the file at `path`, which is removed where the step fails.
  abbrev pub or_remove : Text → Bool → Call (Open W) (Unit {0})
  or_remove path true = pure tt
  or_remove path false = do
    on_mount (modify (λ m. record m { world = host.remove path m.world }))
    fail Status.access_denied

  pub ensure_file_backed_stage : Text → Call (Open W) (Unit {0})
  ensure_file_backed_stage initial = do
    c ← get_context
    m ← get_mounted
    fail_if c.entry.directory Status.not_supported
    if c.staged_write_file_backed then pure tt else (do
      let target_size =
          if leb c.entry.size_bytes (length initial) then length initial else c.entry.size_bytes
      fail_if (not (fits_qint64 target_size)) Status.file_too_large
      let path = host.staged_temp_path c.handle_id m.world
      fail_if (not (← on_host (host.open_new path))) Status.access_denied
      written ← if is_empty initial then pure true else on_host (host.write path initial)
      or_remove path written
      resized ←
          if target_size == length initial
          then pure true
          else on_host (host.resize path target_size)
      or_remove path resized
      change_context (λ c. record c {
        staged_write_path = path;
        staged_write_file_backed = true;
        staged_write_data = [];
      }))

  -- file.size() < n && !file.resize(n)
  abbrev pub grow_to : Text → ℕ → Call (Open W) (Unit {0})
  grow_to path n = do
    m ← get_mounted
    grown ← if ltb (host.file_size path m.world) n then on_host (host.resize path n) else pure true
    fail_if (not grown) Status.access_denied

  pub write_staged_file : Text → ℕ → ℕ → Call (Open W) (Unit {0})
  write_staged_file buffer offset required_size = do
    c ← get_context
    let path = c.staged_write_path
    fail_if (not c.staged_write_file_backed || is_empty path) Status.invalid_parameter
    fail_if (not (fits_qint64 offset) || not (fits_qint64 required_size)) Status.file_too_large
    fail_if (not (← on_host (host.open_existing path))) Status.access_denied
    grow_to path offset
    m ← get_mounted
    fail_if (not (host.seeks path offset m.world)) Status.access_denied
    fail_if (not (← on_host (host.write_at path offset buffer))) Status.access_denied
    grow_to path required_size

  -- The bytes that a write changes.
  abbrev pub mutable_data : Call (Open W) Text
  mutable_data = do
    c ← get_context
    if is_staged c
        then (do ensure_staged_write_data; gets (λ o. o.context.staged_write_data))
        else on_mount (read_mutable_bytes c.entry)

  -- The new bytes, staged or committed at once.
  abbrev pub put_data : Text → Call (Open W) FileInfo
  put_data bytes = do
    c ← get_context
    if is_staged c
        then (do
          change_context (λ c. record (stage (length bytes) c) { staged_write_data = bytes })
          get_info)
        else (do
          updated ← on_mount (commit_file_write q core host entry_limit c.entry.path bytes)
          set_entry updated
          get_info)

  -- The number of bytes written, and the file's information.
  pub write_file : Text → ℕ → Bool → Call (Open W) (ℕ × FileInfo)
  unfolding is_mutable_file ensure_staged_write_data read_mutable_bytes ensure_file_backed_stage
      write_staged_file resize_bytes splice
  write_file buffer offset write_to_end = do
    c₀ ← get_context
    m ← get_mounted
    fail_if m.read_only Status.media_write_protected
    fail_if (not (is_mutable_file c₀.entry)) Status.not_supported
    if is_empty buffer then (do info ← get_info; pure (0, info)) else (do
      bytes ← mutable_data
      c ← get_context
      let staged_size = if c.staged_write_file_backed then c.entry.size_bytes else length bytes
      let write_offset = if write_to_end then staged_size else offset
      let required_size = write_offset + length buffer
      fail_if (ltb (u64_max - write_offset) (length buffer)) Status.file_too_large
      if is_staged c
            && m.raw_target
            && (c.staged_write_file_backed || ltb max_mutation_bytes required_size)
          then (do
            ensure_file_backed_stage bytes
            write_staged_file buffer write_offset required_size
            change_context (λ c.
                stage
                  (if leb c.entry.size_bytes required_size
                    then required_size
                    else c.entry.size_bytes)
                  c)
            info ← get_info
            pure (length buffer, info))
          else (do
            fail_if (ltb max_mutation_bytes required_size) Status.file_too_large
            m' ← get_mounted
            let grown =
                if ltb (length bytes) required_size
                then resize_bytes bytes required_size m'.world
                else bytes
            info ← put_data (splice grown write_offset buffer)
            pure (length buffer, info)))

  pub set_file_size : ℕ → Bool → Call (Open W) FileInfo
  unfolding is_mutable_file ensure_staged_write_data read_mutable_bytes ensure_file_backed_stage
      resize_bytes
  set_file_size new_size set_allocation_size = do
    c₀ ← get_context
    m ← get_mounted
    fail_if m.read_only Status.media_write_protected
    fail_if (not (is_mutable_file c₀.entry)) Status.not_supported
    fail_if (ltb max_mutation_bytes new_size && not (is_staged c₀ && m.raw_target))
        Status.file_too_large
    if set_allocation_size && leb c₀.entry.size_bytes new_size then get_info else (do
      bytes ← mutable_data
      c ← get_context
      if is_staged c
            && m.raw_target
            && (c.staged_write_file_backed || ltb max_mutation_bytes new_size)
          then (do
            ensure_file_backed_stage bytes
            backed ← get_context
            opened ← on_host (host.open_existing backed.staged_write_path)
            fail_if (not opened) Status.access_denied
            resized ← on_host (host.resize backed.staged_write_path new_size)
            fail_if (not resized) Status.access_denied
            change_context (stage new_size)
            get_info)
          else (do m' ← get_mounted; put_data (resize_bytes bytes new_size m'.world)))

  abbrev pub remove_stage : FileContext → Call (Open W) (Unit {0})
  remove_stage c =
      if c.staged_write_file_backed
      then on_mount (modify (λ m. record m { world = host.remove c.staged_write_path m.world }))
      else pure tt

  pub overwrite_file : Call (Open W) FileInfo
  unfolding is_mutable_file
  overwrite_file = do
    c ← get_context
    m ← get_mounted
    fail_if m.read_only Status.media_write_protected
    fail_if (not (is_mutable_file c.entry)) Status.not_supported
    if is_empty c.staged_write_path then pure tt else remove_stage c
    change_context (λ c. record (unstaged c) {
      staged_write_active = true;
      staged_write_dirty = not (c.entry.size_bytes == 0);
      entry = with_size 0 c.entry;
    })
    get_info

  pub flush_file : Call (Open W) (Unit {0})
  flush_file = do
    c ← get_context
    m ← get_mounted
    if not c.staged_write_dirty then pure tt else (do
      fail_if m.read_only Status.media_write_protected
      if c.entry.directory || c.delete_pending then pure tt else (do
        updated ← on_mount (
            if c.staged_write_file_backed
            then commit_file_write_from_path q core host entry_limit c.entry.path
                c.staged_write_path c.entry.size_bytes
            else commit_file_write q core host entry_limit c.entry.path c.staged_write_data)
        set_entry updated
        remove_stage c
        change_context unstaged))

  pub discard_staged_write : Call (Open W) (Unit {0})
  discard_staged_write = do c ← get_context; remove_stage c; change_context unstaged
