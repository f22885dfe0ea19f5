-- ===== src/Worker/ApfsPath/Tests.antt =====
-- The theorems on paths, applied to one with spaces, backslashes and double slashes.
use apfs_for_windows.Common.{
  All, Text, ascii_qt, codes, is_some, refl, some, text_eq, trimmed, true, ◌≡◌, ◌∷◌,
}
use apfs_for_windows.Worker.ApfsPath.{
  join, normalize_apfs_path, path_components, split_mutable_file_path,
}
use apfs_for_windows.Worker.ApfsPath.Normal.{IsNormal, normalize_apfs_path-IsNormal}
use apfs_for_windows.Worker.ApfsPath.Split.{IsName, path_components-join}

abbrev messy : Text
messy = codes " \\dir//file/ "

normalize_apfs_path-IsNormal_example : IsNormal (normalize_apfs_path ascii_qt messy)
normalize_apfs_path-IsNormal_example = normalize_apfs_path-IsNormal ascii_qt messy

path_components-join_example :
    (normalize_apfs_path ascii_qt messy ≡ 47 ∷ join (path_components ascii_qt messy))
    × All IsName (path_components ascii_qt messy)
path_components-join_example = path_components-join ascii_qt messy

messy_splits : split_mutable_file_path ascii_qt messy ≡ some (codes "/dir", codes "file")
unfolding split_mutable_file_path ascii_qt path_components text_eq normalize_apfs_path trimmed
messy_splits = refl

pub file_splits : is_some (split_mutable_file_path ascii_qt (codes "/a.txt")) ≡ true
unfolding split_mutable_file_path ascii_qt path_components text_eq normalize_apfs_path trimmed
file_splits = refl
