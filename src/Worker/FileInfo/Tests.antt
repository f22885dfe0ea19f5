-- ===== src/Worker/FileInfo/Tests.antt =====
-- The theorem on attributes, applied to a file.
use apfs_for_windows.Common.{false, ◌≡◌}
use apfs_for_windows.Worker.Example.{example_entry}
use apfs_for_windows.Worker.FileInfo.{
  SameOthers, has_bit, assign_flags, attributes_for, attributes_for-assign_flags,
}

-- Read-only and archive, set on a file without flags.
attributes_for-assign_flags_example :
    let flags = assign_flags 33 0 in
    let shown = attributes_for false (record example_entry { bsd_flags = flags }) in
    (has_bit shown 0 ≡ has_bit 33 0)
    × (has_bit shown 1 ≡ has_bit 33 1)
    × (has_bit shown 5 ≡ has_bit 33 5)
    × SameOthers flags 0
attributes_for-assign_flags_example = attributes_for-assign_flags 33 example_entry
