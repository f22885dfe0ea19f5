-- ===== src/Worker/Reparse.antt =====
-- src/worker/apfs_winfs_worker.cpp: a symbolic link as Windows reads and writes it. A reparse buffer
-- is the fields of SymbolicLinkReparseBuffer with the wide characters of its path buffer; its fixed
-- part has 20 bytes, of which 8 are the header. Texts are UTF-16, as wchar_t is on Windows.

use apfs_for_windows.Common.{
  Bool, Qt, Text, [], any, codes, drop, false, inl, inr, is_empty, length, ltb, map, not,
  starts_with, take, true, ℕ, ◌+◌, ◌-◌, ◌*◌, ◌/◌, ◌%◌, ◌⊎◌, ◌&&◌, ◌||◌, ◌∷◌, ◌++◌, ◌==◌,
  if◌then◌else◌,
}
use mathlib.Core.List.{reverse}

pub record ReparseData : Type 0 where
  pub is_symlink_tag : Bool
  pub data_length : ℕ
  pub substitute_offset : ℕ
  pub substitute_length : ℕ
  pub print_offset : ℕ
  pub print_length : ℕ
  pub is_relative : Bool
  pub path_buffer : Text

pub data ReparseError : Type 0 where
  invalid not_handled too_long : ReparseError

abbrev pub fixed_bytes : ℕ
fixed_bytes = 20

abbrev pub header_bytes : ℕ
header_bytes = 8

-- replace('\\', '/'), and toNativeSeparators
abbrev pub to_slash : Text → Text
to_slash = map (λ c. if c == 92 then 47 else c)

abbrev pub to_native : Text → Text
to_native = map (λ c. if c == 47 then 92 else c)

-- while (endsWith('\\')) chop(1), on the reversed text
pub drop_backslashes : Text → Text
drop_backslashes [] = []
drop_backslashes (c ∷ cs) = let rest = drop_backslashes cs in if c == 92 then rest else c ∷ cs

pub chopped_mount : Text → Text
unfolding drop_backslashes
chopped_mount mount = reverse (drop_backslashes (reverse mount))

-- The buffer for the two names, if it fits its 16-bit lengths.
pub pack_names : Bool → Text → Text → ReparseData ⊎ ReparseError
pack_names relative substitute print =
    let path_bytes = 2 * (length substitute + length print) in
    if ltb 65535 path_bytes || ltb 65535 (fixed_bytes + path_bytes)
    then inr ReparseError.too_long
    else inl (record {
      is_symlink_tag = true;
      data_length = fixed_bytes + path_bytes - header_bytes;
      substitute_offset = 0;
      substitute_length = 2 * length substitute;
      print_offset = 2 * length substitute;
      print_length = 2 * length print;
      is_relative = relative;
      path_buffer = substitute ++ print;
    })

-- buildSymbolicLinkReparseData, of the link's target.
pub build_reparse : Text → Text → ReparseData ⊎ ReparseError
unfolding pack_names chopped_mount
build_reparse mount_point target =
    if not (starts_with (47 ∷ []) target)
    then pack_names true (to_native target) (to_native target)
    else (if is_empty mount_point
        then inr ReparseError.not_handled
        else (let print = chopped_mount mount_point ++ to_native target in
            pack_names false (codes "\\??\\" ++ print) print))

-- The part of the path buffer that a name takes: its offset and length are even and inside the
-- `available` bytes of the buffer.
pub name_at : ℕ → Text → ℕ → ℕ → Text ⊎ ReparseError
name_at available path offset len =
    if not (offset % 2 == 0)
      || not (len % 2 == 0)
      || ltb available offset
      || ltb (available - offset) len
    then inr ReparseError.invalid
    else inl (take (len / 2) (drop (offset / 2) path))

-- The target inside the mount, for a link that is not relative.
pub inside_mount : Qt → Text → Text → Text ⊎ ReparseError
unfolding chopped_mount
inside_mount q mount_point parsed =
    let path = if starts_with (codes "\\??\\") parsed then drop 4 parsed else parsed in
    let mount = chopped_mount mount_point in
    if is_empty mount || not (q.starts_with_ci mount path)
    then inr ReparseError.not_handled
    else (let rest = drop (length mount) path in
        inl (
          if not (starts_with (92 ∷ []) rest) && not (starts_with (47 ∷ []) rest)
          then 92 ∷ rest
          else rest))

finish : Text ⊎ ReparseError → Text ⊎ ReparseError
finish (inr e) = inr e
finish (inl parsed) =
    if is_empty parsed || any (λ c. c == 0) (to_slash parsed)
    then inr ReparseError.invalid
    else inl (to_slash parsed)

locate : Qt → Text → Bool → Text ⊎ ReparseError → Text ⊎ ReparseError
unfolding inside_mount finish
locate q mount_point relative (inr e) = inr e
locate q mount_point relative (inl parsed) =
    finish (if not relative then inside_mount q mount_point parsed else inl parsed)

-- parseSymbolicLinkReparseData, of a buffer of `size` bytes.
pub parse_reparse : Qt → Text → ReparseData → ℕ → Text ⊎ ReparseError
unfolding name_at locate
parse_reparse q mount_point d size =
    if ltb size fixed_bytes
    then inr ReparseError.invalid
    else (if not d.is_symlink_tag || ltb size (d.data_length + header_bytes)
        then inr ReparseError.not_handled
        else (let available = size - fixed_bytes in
            locate q mount_point d.is_relative (
              if not (d.print_length == 0)
              then name_at available d.path_buffer d.print_offset d.print_length
              else name_at available d.path_buffer d.substitute_offset d.substitute_length)))
