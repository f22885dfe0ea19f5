-- ===== src/Worker/FileSystem/Tests.antt =====
-- The theorem on closing a context, applied to the file system with one open file.
use apfs_for_windows.Common.{arith, false, is_some, length, none, refl, true, ◌≤◌, ◌≡◌}
use apfs_for_windows.Worker.Example.{example_system}
use apfs_for_windows.Worker.FileSystem.{retired_limit, find_context, lookup_context, close_context}
use apfs_for_windows.Worker.FileSystem.Tables.{close_context_lem}

close_context_lem_example :
    let after = close_context 1 (example_system false) in
    (find_context 1 after.active ≡ none)
    × (length after.retired ≤ retired_limit)
    × (is_some (lookup_context 1 after) ≡ true)
close_context_lem_example = close_context_lem 1 (example_system false) (omega arith) refl
