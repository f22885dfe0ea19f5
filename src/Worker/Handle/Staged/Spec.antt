-- ===== src/Worker/Handle/Staged/Spec.antt =====
-- What calls may do to an abstract file, and the handles that stand for one.
use apfs_for_windows.Common.{
  Bool, List, Qt, Text, [], false, is_empty, length, true, ℕ, ◌+◌, ◌≤◌, ◌<◌, ◌≡◌, ◌⊎◌, ◌∷◌,
  if◌then◌else◌,
}
use apfs_for_windows.Worker.Core.{Core, Host}
use apfs_for_windows.Worker.Mount.{max_mutation_bytes}
use apfs_for_windows.Worker.Handle.{Open, stage, is_mutable_file, write_file, set_file_size}
use apfs_for_windows.Worker.Handle.Staged.Overlay.{Overlay, Resized}

-- The calls that change the bytes: a write, at an offset or at the end, and a new size, which may be
-- one of the allocation only.
pub data Op : Type 0 where
  writes : Text → ℕ → Bool → Op
  resizes : ℕ → Bool → Op

abbrev pub start : Bool → ℕ → Text → ℕ
start to_end offset bytes = if to_end then length bytes else offset

-- What each call may do to an abstract file.
pub data FileStep : Op → Text → Text → Type 0 where
  wrote :
      {buffer a b : Text} {offset : ℕ} {to_end : Bool}
      → start to_end offset a + length buffer ≤ max_mutation_bytes
      → Overlay buffer (start to_end offset a) a b
      → FileStep (writes buffer offset to_end) a b
  wrote_nothing :
      {buffer a : Text} {offset : ℕ} {to_end : Bool}
      → is_empty buffer ≡ true
      → FileStep (writes buffer offset to_end) a a
  too_large :
      {buffer a : Text} {offset : ℕ} {to_end : Bool}
      → max_mutation_bytes < start to_end offset a + length buffer
      → FileStep (writes buffer offset to_end) a a
  resized :
      {a b : Text} {n : ℕ} {allocation : Bool}
      → n ≤ max_mutation_bytes
      → Resized n a b
      → FileStep (resizes n allocation) a b
  size_too_large :
      {a : Text} {n : ℕ} {allocation : Bool}
      → max_mutation_bytes < n
      → FileStep (resizes n allocation) a a
  allocated : {a : Text} {n : ℕ} → length a ≤ n → FileStep (resizes n true) a a

pub data FileSteps : List Op → Text → Text → Type 0 where
  none_left : {a : Text} → FileSteps [] a a
  then_more :
      {a c : Text} {op : Op} {ops : List Op} (b : Text)
      → FileStep op a b
      → FileSteps ops b c
      → FileSteps (op ∷ ops) a c

abbrev pub put : {W : Type 0} → Text → Open W → Open W
put b o = record o { context = record (stage (length b) o.context) { staged_write_data = b } }

-- The abstract step of a call on a handle, and nothing else.
abbrev pub IsStep : {W : Type 0} → Op → Open W → Open W → Type 0
IsStep op o o' =
    (b : Text) × FileStep op o.context.staged_write_data b
    × ((o' ≡ put b o) ⊎ ((o' ≡ o) × (b ≡ o.context.staged_write_data)))

module _ {W : Type 0} (q : Qt) (core : Core W) (host : Host W) (entry_limit : ℕ) where
  abbrev pub apply : Op → Open W → Open W
  apply (writes buffer offset to_end) o =
      (write_file q core host entry_limit buffer offset to_end o).1
  apply (resizes n allocation) o = (set_file_size q core host entry_limit n allocation o).1

  abbrev pub apply_all : List Op → Open W → Open W
  apply_all [] o = o
  apply_all (op ∷ ops) o = apply_all ops (apply op o)

  -- A writable image, and a file that can change with a stage in memory, of its size.
  pub record IsStaged (o : Open W) : Type 0 where
    pub writable : o.mounted.read_only ≡ false
    pub image : o.mounted.raw_target ≡ false
    pub mutable : is_mutable_file q core host entry_limit o.context.entry ≡ true
    pub active : o.context.staged_write_active ≡ true
    pub in_memory : o.context.staged_write_file_backed ≡ false
    pub size : o.context.entry.size_bytes ≡ length o.context.staged_write_data
