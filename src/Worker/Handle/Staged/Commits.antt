-- ===== src/Worker/Handle/Staged/Commits.antt =====
-- What a handle with a stage in memory reads, and what its flush commits.
use apfs_for_windows.Common.{Qt, Text, drop, length, min, take, ℕ, ◌-◌, ◌≤◌, ◌<◌, ◌≡◌, ◌⊎◌}
use apfs_for_windows.Worker.Call.{Status, Outcome, ok, err}
use apfs_for_windows.Worker.Core.{Core, Host}

module _ {W : Type 0} (q : Qt) (core : Core W) (host : Host W) (entry_limit : ℕ) where
  -- What a read of the bytes gives.
  abbrev pub IsRead : Text → ℕ → ℕ → Outcome Text → Type 0
  IsRead bytes offset len out =
      ((offset < length bytes)
        × (out ≡ ok (take (min len (length bytes - offset)) (drop offset bytes))))
      ⊎ ((length bytes ≤ offset) × (out ≡ err Status.end_of_file))
