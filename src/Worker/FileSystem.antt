-- ===== src/Worker/FileSystem.antt =====
-- src/worker/apfs_winfs_worker.cpp: the table of open contexts, and the callbacks Fs… that WinFsp
-- makes. A PVOID file context is the handle's number, `none` where it is null; a number that is in no
-- table is a context that was freed. Numbers are not used again before 2 ^ 64 of them.
pub mod Safe
pub mod Tables
pub mod Tests
use apfs_for_windows.Common.{
  Bool, List, Option, Text, [], drop, false, find_if, is_some, keep, length, ltb, map, none, not,
  some, take, true, ℕ, ◌+◌, ◌-◌, ◌≡◌, ◌∷◌, ◌++◌, ◌==◌, if◌then◌else◌,
}
use apfs_for_windows.Worker.ApfsPath.{
  normalize_apfs_path, split_mutable_file_path, split_mutable_root_directory_path,
}
use apfs_for_windows.Worker.Call.{
  Status, Outcome, ok, err, ended, dangling_context, Call, pure, fail, gets, modify, fail_if,
  or_fail, ◌>>=◌, ◌>>◌,
}
use apfs_for_windows.Worker.Core.{Core, Host}
use apfs_for_windows.Worker.Mount.{Mounted, ResolvedEntry, reads, resolve_path, fill_resolved}
use apfs_for_windows.Worker.FileInfo.{FileInfo, file_info, attributes_for}
use apfs_for_windows.Worker.Commit.{attempt, commit_file_write, commit_directory_create}
use apfs_for_windows.Worker.Handle.{
  FileContext, Open, get_context, get_mounted, get_info, on_mount, change_context, read_file,
  write_file, set_file_size, overwrite_file, flush_file,
}
use apfs_for_windows.Worker.Mutate.{
  can_delete, delete_file, rename_file, create_hard_link, set_basic_info, set_security,
}
use apfs_for_windows.Worker.EaWire.{WireEa}
use apfs_for_windows.Worker.EaCalls.{get_ea, set_ea}
use apfs_for_windows.Worker.Listing.{Orders, listed_entries}
use apfs_for_windows.Worker.Reparse.{ReparseData}
use apfs_for_windows.Worker.Links.{
  get_reparse_point_by_name, get_reparse_point, set_reparse_point, delete_reparse_point,
}

pub record FileSystem (W : Type 0) : Type 0 where
  pub mounted : Mounted W
  pub active : List FileContext
  pub retired : List FileContext
  pub next_handle_id : ℕ

-- What a callback gives WinFsp, beside its status.
pub data Answer : Type 0 where
  done : Answer
  volume : ℕ → ℕ → Text → Answer
  attributes : ℕ → Answer
  handle : ℕ → FileInfo → Answer
  info : FileInfo → Answer
  written : ℕ → FileInfo → Answer
  bytes : Text → Answer
  eas : List WireEa → Answer
  names : List (Text × FileInfo) → Answer
  reparse : Option ReparseData → Answer

abbrev pub retired_limit : ℕ
retired_limit = 4096

abbrev pub find_context : ℕ → List FileContext → Option FileContext
find_context h = find_if (λ c. c.handle_id == h)

-- The context with this one's number, replaced.
pub put_context : FileContext → List FileContext → List FileContext
put_context c [] = []
put_context c (x ∷ xs) = (if x.handle_id == c.handle_id then c else x) ∷ put_context c xs

pub prune_retired : List FileContext → List FileContext
prune_retired cs = drop (length cs - retired_limit) cs

-- The outcome of a call as a value: whether it succeeded.
abbrev pub succeeds : {S A : Type 0} → Call S A → Call S Bool
succeeds m s = elim (m s).0 [
  | ok a ↦ (ok true, (m s).1)
  | err e ↦ (ok false, (m s).1)
  | ended x ↦ (ended x, (m s).1)
]

abbrev pub set_links : ℕ → ℕ → FileContext → FileContext
set_links object_id links c =
    if c.entry.object_id == object_id
    then record c { entry = record c.entry { hard_links = links } }
    else c

abbrev pub closed_context : FileContext → FileContext
closed_context c = record c { closed = true }

module _ {W : Type 0} where
  abbrev pub on_mounted : {A : Type 0} → Call (Mounted W) A → Call (FileSystem W) A
  on_mounted m fs = ((m fs.mounted).0, record fs { mounted = (m fs.mounted).1 })

  -- What a call on an open context leaves in the tables.
  pub store_context : FileSystem W → Open W → FileSystem W
  unfolding put_context
  store_context fs o = record fs {
    mounted = o.mounted;
    active = put_context o.context fs.active;
    retired = put_context o.context fs.retired;
  }

  abbrev pub lookup_context : ℕ → FileSystem W → Option FileContext
  lookup_context h fs = elim (find_context h fs.active) [
    | some c ↦ some c
    | none ↦ find_context h fs.retired
  ]

  -- A call on the context of a handle.
  pub on_handle : {A : Type 0} → ℕ → Call (Open W) A → Call (FileSystem W) A
  unfolding store_context
  on_handle h m fs = elim (lookup_context h fs) [
    | none ↦ (ended dangling_context, fs)
    | some c ↦
        let out = m (record { context = c; mounted = fs.mounted }) in
        (out.0, store_context fs out.1)
  ]

  -- The same, where the pointer may be null: then `null_status` is the answer.
  abbrev pub on_context : {A : Type 0} → Option ℕ → Status → Call (Open W) A → Call (FileSystem W) A
  on_context none null_status m = fail null_status
  on_context (some h) null_status m = on_handle h m

  -- … and a read-only mount is refused before the pointer is looked at.
  abbrev pub on_writable :
      {A : Type 0} → Option ℕ → Status → Call (Open W) A → Call (FileSystem W) A
  on_writable h null_status m fs =
      if fs.mounted.read_only
      then (err Status.media_write_protected, fs)
      else on_context h null_status m fs

  -- openContext; `none` where there is no memory.
  pub open_context : Bool → ResolvedEntry → Bool → FileSystem W → Option ℕ × FileSystem W
  open_context allocates entry created fs =
      if allocates
      then (
        some fs.next_handle_id,
        record fs {
          active =
              fs.active
              ++ (record {
                handle_id = fs.next_handle_id;
                entry = entry;
                created_by_this_handle = created;
                staged_write_active = false;
                staged_write_dirty = false;
                delete_pending = false;
                closed = false;
                staged_write_data = [];
                staged_write_path = [];
                staged_write_file_backed = false;
              })
                ∷ [];
          next_handle_id = fs.next_handle_id + 1;
        },
      )
      else (none, fs)

  pub close_context : ℕ → FileSystem W → FileSystem W
  unfolding prune_retired put_context
  close_context h fs = elim (find_context h fs.active) [
    | some c ↦ record fs {
      active = keep (λ x. not (x.handle_id == h)) fs.active;
      retired = prune_retired (fs.retired ++ closed_context c ∷ []);
    }
    | none ↦ elim (find_context h fs.retired) [
      | some c ↦ record fs { retired = put_context (closed_context c) fs.retired }
      | none ↦ fs
    ]
  ]

  pub update_open_context_hard_links : ℕ → ℕ → FileSystem W → FileSystem W
  update_open_context_hard_links object_id links fs = record fs {
    active = map (set_links object_id links) fs.active;
  }

  pub copy_security : Option ℕ → Call (Mounted W) Answer
  copy_security none = pure Answer.done
  copy_security (some size) = do
    m ← gets (λ m. m)
    fail_if (ltb size (length m.security_descriptor)) Status.buffer_overflow
    pure (Answer.bytes m.security_descriptor)

  pub volume_info : Mounted W → Answer
  volume_info m = Answer.volume m.total_bytes m.free_bytes (take 32 m.volume_label)

  abbrev pub answer_handle : Option ℕ → ResolvedEntry → Call (FileSystem W) Answer
  answer_handle none e fs = (err Status.insufficient_resources, fs)
  answer_handle (some h) e fs = (ok (Answer.handle h (file_info fs.mounted e)), fs)

-- The pointer is null, or of a context that is in a table.
abbrev pub Known : {W : Type 0} → Option ℕ → FileSystem W → Type 0
Known none fs = Unit
Known (some h) fs = is_some (lookup_context h fs) ≡ true
