-- ===== src/Worker/Core.antt =====
-- src/worker/apfs_winfs_worker.cpp: what the worker calls outside itself, as parameters over the
-- world `W`: the reader and the writer of the APFS core on the mount's target, the files of the host
-- and the functions of WinFsp and Windows. Reading leaves the world as it is.
use apfs_for_windows.Common.{Bool, List, Option, Text, ℕ, ◌⊎◌}
use apfs_for_windows.Worker.Volume.{VolumePolicy}

-- sak::PartitionApfsFileEntry
pub record FileEntry : Type 0 where
  pub path : Text
  pub name : Text
  pub directory : Bool
  pub regular_file : Bool
  pub symlink : Bool
  pub object_id : ℕ
  pub size_bytes : ℕ
  pub hard_link_count : ℕ
  pub created_time_ns : ℕ
  pub modified_time_ns : ℕ
  pub changed_time_ns : ℕ
  pub accessed_time_ns : ℕ
  pub write_generation_counter : ℕ
  pub bsd_flags : ℕ
  pub owner_id : ℕ
  pub group_id : ℕ
  pub inode_mode : ℕ

-- The result of listDirectory; `blocked` is a list of blockers that is not empty.
pub record Listing : Type 0 where
  pub entries : List FileEntry
  pub listed : Bool
  pub blocked : Bool
  pub volume_name : Text
  pub policy : VolumePolicy

pub record Detection : Type 0 where
  pub file_system : Text
  pub total_bytes : ℕ
  pub free_bytes : ℕ

pub record XattrMutation : Type 0 where
  pub name : Text
  pub value : Text
  pub remove : Bool

-- sak::PartitionApfsInodeMetadataUpdate: `none` is a field whose update flag is not set.
pub record MetadataUpdate : Type 0 where
  pub bsd_flags : Option ℕ
  pub created_time_ns : Option ℕ
  pub accessed_time_ns : Option ℕ
  pub modified_time_ns : Option ℕ
  pub changed_time_ns : Option ℕ
  pub inode_mode : Option ℕ
  pub owner_id : Option ℕ
  pub group_id : Option ℕ
  pub xattr_mutations : List XattrMutation
  pub symbolic_link_target : Option Text

-- The writer's requests, with the names and parent directories that they carry.
pub data Mutation : Type 0 where
  file_write : Text → Text → Text → Mutation
  file_write_stream : Text → Text → Text → ℕ → Mutation
  file_delete : Text → Text → Mutation
  directory_create directory_delete : Text → Text → Mutation
  directory_rename : Text → Text → Text → Text → Mutation
  file_rename : Text → Text → Text → Mutation
  file_move : Text → Text → Text → Text → Mutation
  file_hardlink : Text → Text → Text → Text → Mutation
  inode_metadata : Text → Text → Bool → MetadataUpdate → Mutation

-- commitRaw…: target_container_bytes, and the two confirmations.
pub record RawRequest : Type 0 where
  pub container_bytes : ℕ
  pub mutation_confirmed : Bool
  pub allow_raw_device : Bool
  pub mutation : Mutation

pub record Core (W : Type 0) : Type 0 where
  pub opens : W → Bool
  pub device_size : W → ℕ
  -- detectFromDevice, of the size given
  pub detect : ℕ → W → Option Detection
  pub list_directory : Text → ℕ → W → Listing
  -- `none` where the result is not ok or has blockers
  pub debug_file : Text → W → Option FileEntry
  pub read_file : Text → ℕ → W → Option Text
  pub read_file_range : Text → ℕ → ℕ → W → Option Text
  pub read_xattrs : Text → W → Option (List (Text × Text))
  -- `none` where the commit is ok, else its blockers joined
  pub commit_raw : RawRequest → W → Option Text × W
  pub commit_image : Text → Mutation → W → Option Text × W
  -- the two names of isContentCriticalXattr that the core declares
  pub compressed_name : Text
  pub resource_fork_name : Text

pub record Host (W : Type 0) : Type 0 where
  -- mutationTempPathNoLock of an operation, stagedTempPath of a handle, and currentFileTime
  pub mutation_temp_path : Text → W → Text
  pub staged_temp_path : ℕ → W → Text
  pub current_file_time : W → ℕ
  pub recover_image_temps : W → W
  -- ReplaceFileW of the target by the first file, with the second as backup
  pub replace_target : Text → Text → W → Bool × W
  pub remove : Text → W → W
  pub exists : Text → W → Bool
  pub opens_to_read : Text → W → Bool
  pub file_size : Text → W → ℕ
  -- the bytes that QByteArray::resize adds, which are not initialised
  pub fresh_bytes : ℕ → W → Text
  -- `none` where the seek fails
  pub read_at : Text → ℕ → ℕ → W → Option Text
  pub read_all : Text → W → Text
  -- open for writing, which empties the file, and open to read and write
  pub open_new : Text → W → Bool × W
  pub open_existing : Text → W → Bool × W
  pub write : Text → Text → W → Bool × W
  pub seeks : Text → ℕ → W → Bool
  pub write_at : Text → ℕ → Text → W → Bool × W
  pub resize : Text → ℕ → W → Bool × W
  -- A number is an error: ConvertStringSecurityDescriptorToSecurityDescriptorW for a read-only mount or not
  pub security_descriptor : Bool → W → ℕ ⊎ Text
  -- FspSetSecurityDescriptor, then FspPosixMapSecurityDescriptorToPermissions: owner, group, mode
  pub set_security : Text → ℕ → Text → W → ℕ ⊎ (ℕ × ℕ × ℕ)
