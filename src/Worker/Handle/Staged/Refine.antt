-- ===== src/Worker/Handle/Staged/Refine.antt =====
-- A handle with a stage in memory is a byte sequence: any writes and resizes change it as an abstract
-- file changes.
use apfs_for_windows.Common.{List, Qt, length, true, ℕ, ◌≡◌}
use apfs_for_windows.Worker.Core.{Core, Host}
use apfs_for_windows.Worker.Handle.{Open}
use apfs_for_windows.Worker.Handle.Staged.Spec.{Op, FileSteps, IsStaged}

module _ {W : Type 0} (q : Qt) (core : Core W) (host : Host W) (entry_limit : ℕ) where
  module _ (fresh : (k : ℕ) (w : W) → length (host.fresh_bytes k w) ≡ k) where
    -- The handle after the calls: still staged, on the mount as it was, with the bytes of the abstract
    -- file.
    pub record Refines (ops : List Op) (o o' : Open W) : Type 0 where
      pub steps : FileSteps ops o.context.staged_write_data o'.context.staged_write_data
      pub staged : IsStaged q core host entry_limit o'
      pub mounted : o'.mounted ≡ o.mounted
      pub path : o'.context.entry.path ≡ o.context.entry.path
      pub dirty : o.context.staged_write_dirty ≡ true → o'.context.staged_write_dirty ≡ true
      pub pending : o'.context.delete_pending ≡ o.context.delete_pending
