-- ===== src/Worker/Example.antt =====
-- A volume with one file, whose world is the list of the changes that were committed, and a file
-- system with one open file on it: what the theorems on the mounted volume are applied to.
use apfs_for_windows.Common.{
  Bool, List, Text, [], ap, ascii_qt, codes, drop, false, inr, length, none, refl, some, suc, take,
  text_eq, true, upper, zero, ℕ, ◌≡◌, ◌∷◌,
}
use apfs_for_windows.Worker.Core.{FileEntry, Listing, Detection, Mutation, Core, Host}
use apfs_for_windows.Worker.Mount.{Mounted, ResolvedEntry, unopened}
use apfs_for_windows.Worker.Mount.Safe.{Reopens}
use apfs_for_windows.Worker.Handle.{FileContext, Open}
use apfs_for_windows.Worker.Listing.{Orders}
use apfs_for_windows.Worker.EaWire.{text_lt}
use apfs_for_windows.Worker.FileSystem.{FileSystem}

abbrev pub example_file : FileEntry
example_file = record {
  path = codes "/a.txt";
  name = codes "a.txt";
  directory = false;
  regular_file = true;
  symlink = false;
  object_id = 20;
  size_bytes = 3;
  hard_link_count = 1;
  created_time_ns = 0;
  modified_time_ns = 0;
  changed_time_ns = 0;
  accessed_time_ns = 0;
  write_generation_counter = 1;
  bsd_flags = 0;
  owner_id = 501;
  group_id = 20;
  inode_mode = 33188;
}

abbrev pub example_listing : Listing
example_listing = record {
  entries = example_file ∷ [];
  listed = true;
  blocked = false;
  volume_name = codes "Vol";
  policy = record {
    known = true;
    sealed = false;
    encrypted = false;
    one_key = false;
    per_file_keys = false;
  };
}

abbrev pub example_detection : Detection
example_detection = record { file_system = codes "APFS"; total_bytes = 1000; free_bytes = 500 }

abbrev pub example_core : Core (List Mutation)
example_core = record {
  opens = λ w. true;
  device_size = λ w. 1000;
  detect = λ n w. some example_detection;
  list_directory = λ path n w. example_listing;
  debug_file = λ path w. some example_file;
  read_file = λ path n w. some (1 ∷ 2 ∷ 3 ∷ []);
  read_file_range = λ path offset n w. some (take n (drop offset (1 ∷ 2 ∷ 3 ∷ [])));
  read_xattrs = λ path w. some [];
  commit_raw = λ r w. (none, r.mutation ∷ w);
  commit_image = λ temp m w. (none, m ∷ w);
  compressed_name = codes "com.apple.decmpfs";
  resource_fork_name = codes "com.apple.ResourceFork";
}

pub zeros : ℕ → Text
zeros zero = []
zeros (suc n) = 0 ∷ zeros n

pub length-zeros : (n : ℕ) → length (zeros n) ≡ n
unfolding zeros
length-zeros zero = refl
length-zeros (suc n) = ap suc (length-zeros n)

abbrev pub example_host : Host (List Mutation)
example_host = record {
  mutation_temp_path = λ operation w. codes "temp";
  staged_temp_path = λ h w. codes "stage";
  current_file_time = λ w. 132223104000000000;
  recover_image_temps = λ w. w;
  replace_target = λ temp backup w. (true, w);
  remove = λ path w. w;
  exists = λ path w. true;
  opens_to_read = λ path w. true;
  file_size = λ path w. 0;
  fresh_bytes = λ n w. zeros n;
  read_at = λ path offset n w. some [];
  read_all = λ path w. [];
  open_new = λ path w. (true, w);
  open_existing = λ path w. (true, w);
  write = λ path bytes w. (true, w);
  seeks = λ path offset w. true;
  write_at = λ path offset bytes w. (true, w);
  resize = λ path n w. (true, w);
  security_descriptor = λ read_only w. inr [];
  set_security = λ old information new w. inr (501, 20, 420);
}

abbrev pub example_orders : Orders
example_orders = record { lt_ci = text_lt ascii_qt [] []; lt = text_lt ascii_qt [] [] }

abbrev pub example_mount : Bool → Mounted (List Mutation)
example_mount read_only = record (unopened ascii_qt example_core example_host 100 []) {
  session = true;
  read_only = read_only;
}

abbrev pub example_entry : ResolvedEntry
example_entry = record {
  path = codes "/a.txt";
  name = codes "a.txt";
  directory = false;
  regular_file = true;
  symlink = false;
  object_id = 20;
  size_bytes = 3;
  hard_links = 1;
  created_time_ns = 0;
  modified_time_ns = 0;
  changed_time_ns = 0;
  accessed_time_ns = 0;
  write_generation_counter = 1;
  bsd_flags = 0;
  owner_id = 501;
  group_id = 20;
  inode_mode = 33188;
}

-- The file open with a stage in memory.
abbrev pub example_context : FileContext
example_context = record {
  handle_id = 1;
  entry = example_entry;
  created_by_this_handle = false;
  staged_write_active = true;
  staged_write_dirty = true;
  delete_pending = false;
  closed = false;
  staged_write_data = 7 ∷ 8 ∷ 9 ∷ [];
  staged_write_path = [];
  staged_write_file_backed = false;
}

abbrev pub example_open : Open (List Mutation)
example_open = record { context = example_context; mounted = example_mount false }

abbrev pub example_system : Bool → FileSystem (List Mutation)
example_system read_only = record {
  mounted = example_mount read_only;
  active = example_context ∷ [];
  retired = [];
  next_handle_id = 2;
}

pub example_core-Reopens : Reopens ascii_qt example_core
unfolding ascii_qt text_eq upper
example_core-Reopens = record {
  opens_again = λ w. refl;
  detected = λ n w. (example_detection, refl, refl);
  unblocked = λ w. refl;
}
