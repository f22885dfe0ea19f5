-- ===== src/Worker/Commit.antt =====
-- src/worker/apfs_winfs_worker.cpp, class ApfsMountState: the functions commit…, which change the
-- target. Each drops the reader, gives the writer its request (on the raw target, or to a new image
-- that then replaces the target), and reads the target again.
pub mod Safe
use apfs_for_windows.Common.{
  Bool, Option, Qt, Text, [], codes, false, is_empty, length, ltb, none, not, some, text_eq, true,
  ℕ, ◌^◌, ◌||◌, ◌==◌, if◌then◌else◌,
}
use apfs_for_windows.Worker.ApfsPath.{
  root, normalize_apfs_path, split_mutable_file_path, split_directory_create_path,
}
use apfs_for_windows.Worker.Call.{
  Status, Outcome, ok, err, ended, test_fault, Call, pure, fail, proceed, gets, modify, fail_if,
  or_fail, ◌>>=◌, ◌>>◌,
}
use apfs_for_windows.Worker.Core.{Core, Host, Mutation, MetadataUpdate, RawRequest}
use apfs_for_windows.Worker.Mount.{
  Mounted, ResolvedEntry, max_mutation_bytes, on_world, resolve_path_no_lock, reload_target_no_lock,
}

-- A step whose error the code does not look at.
abbrev pub attempt : {S A : Type 0} → Call S A → Call S (Unit {0})
attempt m s = elim (m s).0 [
  | ok a ↦ (ok tt, (m s).1)
  | err e ↦ (ok tt, (m s).1)
  | ended x ↦ (ended x, (m s).1)
]

-- value <= max of qint64
abbrev pub fits_qint64 : ℕ → Bool
fits_qint64 n = ltb n (2 ^ 63)

-- resultStatus, by the blockers joined
pub result_status : {S : Type 0} → Qt → Option Text → Call S (Unit {0})
result_status q none = pure tt
result_status q (some blockers) =
    if q.contains_ci blockers (codes "already exists")
    then fail Status.object_name_collision
    else (if q.contains_ci blockers (codes "not found")
        then fail Status.object_name_not_found
        else (if q.contains_ci blockers (codes "exceeds")
            then fail Status.file_too_large
            else (if q.contains_ci blockers (codes "empty")
                then fail Status.directory_not_empty
                else fail Status.access_denied)))

module _ {W : Type 0} (q : Qt) (core : Core W) (host : Host W) (entry_limit : ℕ) where
  pub raw_request : Mounted W → Mutation → RawRequest
  raw_request m mutation = record {
    container_bytes = m.target_container_bytes;
    mutation_confirmed = m.allow_raw_writes;
    allow_raw_device = m.allow_raw_writes;
    mutation = mutation;
  }

  pub replace_target_with_temp : Text → W → Bool × W
  replace_target_with_temp temp w =
      let backup = host.mutation_temp_path (codes "backup") w in
      let (replaced, w') = host.replace_target temp backup (host.remove backup w) in
      (replaced, host.remove (if replaced then backup else temp) w')

  -- maybeExitForTestFault, where the commit has a fault point: its path and the bytes written.
  pub maybe_exit_for_test_fault : Text → Option (Text × ℕ) → Call (Mounted W) (Unit {0})
  maybe_exit_for_test_fault phase none m = (ok tt, m)
  maybe_exit_for_test_fault phase (some (path, mutation_bytes)) m =
      if mutation_bytes == 0
        || m.raw_target
        || not (text_eq m.test_fault_exit_phase phase)
        || not (text_eq (normalize_apfs_path q path) m.test_fault_path)
      then (ok tt, m)
      else (ended test_fault, m)

  -- The writer's result on an image that is written anew and put in the target's place.
  pub commit_to_image : Text → Option (Text × ℕ) → Mutation → Call (Mounted W) (Option Text)
  unfolding replace_target_with_temp maybe_exit_for_test_fault
  commit_to_image operation fault mutation = do
    m ← gets (λ m. m)
    let temp = host.mutation_temp_path operation m.world
    result ← on_world (core.commit_image temp mutation)
    elim result [
      | some blockers ↦ do
        modify (λ m. record m { world = host.remove temp m.world })
        pure (some blockers)
      | none ↦ do
        maybe_exit_for_test_fault (codes "before-image-replace") fault
        replaced ← on_world (replace_target_with_temp temp)
        elim replaced [
          | false ↦ do
            attempt (reload_target_no_lock q core host entry_limit)
            fail Status.access_denied
          | true ↦ do maybe_exit_for_test_fault (codes "after-image-replace") fault; pure none
        ]
    ]

  pub commit_mutation : Text → Option (Text × ℕ) → Mutation → Call (Mounted W) (Unit {0})
  unfolding commit_to_image raw_request result_status
  commit_mutation operation fault mutation = do
    modify (λ m. record m { session = false })
    m ← gets (λ m. m)
    result ← elim m.raw_target [
      | true ↦ on_world (core.commit_raw (raw_request m mutation))
      | false ↦ commit_to_image operation fault mutation
    ]
    reload_target_no_lock q core host entry_limit
    result_status q result

  pub commit_file_write : Text → Text → Call (Mounted W) ResolvedEntry
  unfolding commit_mutation
  commit_file_write path bytes = do
    fail_if (ltb max_mutation_bytes (length bytes)) Status.file_too_large
    let normalized = normalize_apfs_path q path
    (parent, name) ← or_fail (split_mutable_file_path q normalized) Status.not_supported
    commit_mutation (codes "write") (some (normalized, length bytes))
        (Mutation.file_write parent name bytes)
    resolve_path_no_lock q core host entry_limit normalized

  pub commit_file_write_from_path : Text → Text → ℕ → Call (Mounted W) ResolvedEntry
  unfolding commit_file_write
  commit_file_write_from_path path data_path data_size = do
    m ← gets (λ m. m)
    fail_if (is_empty data_path || not (host.exists data_path m.world)) Status.object_name_not_found
    if not m.raw_target
        then (do
          fail_if (ltb max_mutation_bytes data_size || not (fits_qint64 data_size))
              Status.file_too_large
          fail_if (not (host.opens_to_read data_path m.world)) Status.access_denied
          let bytes = host.read_all data_path m.world
          fail_if (not (length bytes == data_size)) Status.access_denied
          commit_file_write path bytes)
        else (do
          let normalized = normalize_apfs_path q path
          (parent, name) ← or_fail (split_mutable_file_path q normalized) Status.not_supported
          commit_mutation (codes "write") none
              (Mutation.file_write_stream parent name data_path data_size)
          resolve_path_no_lock q core host entry_limit normalized)

  pub commit_file_delete : Text → Call (Mounted W) (Unit {0})
  unfolding commit_mutation
  commit_file_delete path = do
    (parent, name) ←
        or_fail (split_mutable_file_path q (normalize_apfs_path q path)) Status.not_supported
    commit_mutation (codes "delete") none (Mutation.file_delete parent name)

  pub commit_directory_create : Text → Call (Mounted W) ResolvedEntry
  unfolding commit_mutation
  commit_directory_create path = do
    let normalized = normalize_apfs_path q path
    (parent, name) ← or_fail (split_directory_create_path q normalized) Status.not_supported
    commit_mutation (codes "mkdir") none (Mutation.directory_create parent name)
    resolve_path_no_lock q core host entry_limit normalized

  pub commit_directory_delete : Text → Call (Mounted W) (Unit {0})
  unfolding commit_mutation
  commit_directory_delete path = do
    (parent, name) ←
        or_fail (split_directory_create_path q (normalize_apfs_path q path)) Status.not_supported
    commit_mutation (codes "rmdir") none (Mutation.directory_delete parent name)

  pub commit_directory_rename : Text → Text → Call (Mounted W) ResolvedEntry
  unfolding commit_mutation
  commit_directory_rename old_path new_path = do
    let normalized_new = normalize_apfs_path q new_path
    (old_parent, old_name) ←
        or_fail (split_directory_create_path q (normalize_apfs_path q old_path))
          Status.not_supported
    (new_parent, new_name) ←
        or_fail (split_directory_create_path q normalized_new) Status.not_supported
    commit_mutation (codes "renamedir") none
        (Mutation.directory_rename old_parent old_name new_parent new_name)
    resolve_path_no_lock q core host entry_limit normalized_new

  pub commit_file_rename : Text → Text → Call (Mounted W) ResolvedEntry
  unfolding commit_mutation
  commit_file_rename old_path new_path = do
    let normalized_new = normalize_apfs_path q new_path
    (old_directory, old_file) ←
        or_fail (split_mutable_file_path q (normalize_apfs_path q old_path)) Status.not_supported
    (new_directory, new_file) ←
        or_fail (split_mutable_file_path q normalized_new) Status.not_supported
    commit_mutation (codes "rename") none (
        if text_eq old_directory new_directory
        then Mutation.file_rename old_directory old_file new_file
        else Mutation.file_move old_directory old_file new_directory new_file)
    resolve_path_no_lock q core host entry_limit normalized_new

  pub commit_file_hard_link : Text → Text → Call (Mounted W) ResolvedEntry
  unfolding commit_mutation
  commit_file_hard_link source_path link_path = do
    let normalized_link = normalize_apfs_path q link_path
    (source_parent, source_name) ←
        or_fail (split_mutable_file_path q (normalize_apfs_path q source_path)) Status.not_supported
    (link_parent, link_name) ←
        or_fail (split_mutable_file_path q normalized_link) Status.not_supported
    commit_mutation (codes "hardlink") none
        (Mutation.file_hardlink source_parent source_name link_parent link_name)
    resolve_path_no_lock q core host entry_limit normalized_link

  -- The name and parent of the inode that metadata goes to: the root has no parent.
  pub metadata_target : Text → Bool → Option (Text × Text)
  metadata_target normalized directory =
      if text_eq normalized root
      then (if directory then some ([], root) else none)
      else split_directory_create_path q normalized

  pub commit_inode_metadata : Text → Bool → MetadataUpdate → Call (Mounted W) ResolvedEntry
  unfolding commit_mutation metadata_target
  commit_inode_metadata path directory metadata = do
    let normalized = normalize_apfs_path q path
    (parent, name) ← or_fail (metadata_target normalized directory) Status.not_supported
    commit_mutation (codes "metadata") none (Mutation.inode_metadata parent name directory metadata)
    resolve_path_no_lock q core host entry_limit normalized
