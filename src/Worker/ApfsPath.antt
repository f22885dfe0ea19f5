-- ===== src/Worker/ApfsPath.antt =====
-- src/worker/apfs_winfs_worker.cpp: normalizeApfsPath and the functions that take a path apart.
-- A path is a list of UTF-16 units; 47 is the slash and 92 the backslash.
pub mod Tests
pub mod Squeeze
pub mod Normal
pub mod Split
pub mod Parent
use apfs_for_windows.Common.{
  Bool, List, Option, Qt, Text, [], drop, false, is_empty, length, ltb, map, none, not, some, suc,
  take, text_eq, trimmed, true, zero, ℕ, ◌+◌, ◌&&◌, ◌||◌, ◌∷◌, ◌++◌, ◌==◌, if◌then◌else◌,
}

abbrev pub root : Text
root = 47 ∷ []

-- path.contains("//")
abbrev pub has_double : Text → Bool
has_double [] = false
has_double (x ∷ []) = false
has_double (x ∷ y ∷ r) = x == 47 && y == 47 || has_double (y ∷ r)

-- path.replace("//", "/"): one pass from the left, over pairs that do not overlap.
pub halve : Text → Text
halve [] = []
halve (x ∷ []) = x ∷ []
halve (x ∷ y ∷ r) = elim (x == 47 && y == 47) [ true ↦ 47 ∷ halve r | false ↦ x ∷ halve (y ∷ r) ]

-- while (path.contains("//")) path.replace("//", "/"), with at most `fuel` rounds.
pub squeeze_loop : ℕ → Text → Text
unfolding halve
squeeze_loop zero path = path
squeeze_loop (suc fuel) path = elim (has_double path) [
  | true ↦ squeeze_loop fuel (halve path)
  | false ↦ path
]

-- path.endsWith('/') and path.chop(1)
abbrev pub ends_with_slash : Text → Bool
ends_with_slash [] = false
ends_with_slash (x ∷ []) = x == 47
ends_with_slash (x ∷ y ∷ r) = ends_with_slash (y ∷ r)

abbrev pub drop_last : Text → Text
drop_last [] = []
drop_last (x ∷ []) = []
drop_last (x ∷ y ∷ r) = x ∷ drop_last (y ∷ r)

-- while (path.size() > 1 && path.endsWith('/')) path.chop(1)
pub chop_loop : ℕ → Text → Text
chop_loop zero path = path
chop_loop (suc fuel) path = elim (ltb 1 (length path) && ends_with_slash path) [
  | true ↦ chop_loop fuel (drop_last path)
  | false ↦ path
]

abbrev pub starts_with_slash : Text → Bool
starts_with_slash [] = false
starts_with_slash (x ∷ xs) = x == 47

-- The part of normalizeApfsPath after the replacements.
pub anchor : Text → Text
unfolding chop_loop
anchor path =
    if is_empty path || text_eq path root
    then root
    else (let path' = if starts_with_slash path then path else 47 ∷ path in
        chop_loop (length path') path')

abbrev pub forward : ℕ → ℕ
forward c = if c == 92 then 47 else c

pub normalize_apfs_path : Qt → Text → Text
unfolding squeeze_loop anchor
normalize_apfs_path q input =
    let path = map forward (trimmed q input) in anchor (squeeze_loop (length path) path)

-- lastIndexOf('/')
abbrev pub last_slash : Text → Option ℕ
last_slash [] = none
last_slash (x ∷ xs) = elim (last_slash xs) [
  | some i ↦ some (suc i)
  | none ↦ if x == 47 then some 0 else none
]

-- What parentPath and baseName do with a normalized path.
parent_of : Text → Text
parent_of path = if text_eq path root then root else elim (last_slash path) [
  | none ↦ root
  | some slash ↦ if slash == 0 then root else take slash path
]

base_of : Text → Text
base_of path =
    if text_eq path root
    then root
    else elim (last_slash path) [ none ↦ path | some slash ↦ drop (slash + 1) path ]

pub parent_path : Qt → Text → Text
unfolding parent_of
parent_path q path = parent_of (normalize_apfs_path q path)

pub base_name : Qt → Text → Text
unfolding base_of
base_name q path = base_of (normalize_apfs_path q path)

abbrev pub count_slashes : Text → ℕ
count_slashes [] = 0
count_slashes (x ∷ xs) = if x == 47 then suc (count_slashes xs) else count_slashes xs

pub is_root_child_path : Qt → Text → Bool
unfolding base_name
is_root_child_path q path =
    let normalized = normalize_apfs_path q path in
    not (text_eq normalized root)
    && count_slashes normalized == 1
    && not (is_empty (base_name q normalized))

-- split('/', Qt::SkipEmptyParts), with the part read so far.
pub split_parts : Text → Text → List Text
split_parts part [] = if is_empty part then [] else part ∷ []
split_parts part (x ∷ xs) =
    let rest = split_parts (if x == 47 then [] else part ++ x ∷ []) xs in
    if x == 47 && not (is_empty part) then part ∷ rest else rest

components_of : Text → List Text
unfolding split_parts
components_of path =
    if text_eq path root
    then []
    else split_parts [] (if starts_with_slash path then drop 1 path else path)

pub path_components : Qt → Text → List Text
unfolding components_of
path_components q path = components_of (normalize_apfs_path q path)

-- join('/')
abbrev pub join : List Text → Text
join [] = []
join (p ∷ []) = p
join (p ∷ r ∷ rs) = p ++ 47 ∷ join (r ∷ rs)

abbrev pub init : List Text → List Text
init [] = []
init (p ∷ []) = []
init (p ∷ r ∷ rs) = p ∷ init (r ∷ rs)

abbrev pub last_or : Text → List Text → Text
last_or d [] = d
last_or d (p ∷ []) = p
last_or d (p ∷ r ∷ rs) = last_or d (r ∷ rs)

-- splitMutableFilePath and splitDirectoryCreatePath: the parent directory, empty for the root, and
-- the last name.
split_parent : List Text → Option (Text × Text)
split_parent [] = none
split_parent (p ∷ []) = some ([], p)
split_parent (p ∷ r ∷ rs) = some (47 ∷ join (init (p ∷ r ∷ rs)), last_or [] (p ∷ r ∷ rs))

pub split_mutable_file_path : Qt → Text → Option (Text × Text)
unfolding split_parent
split_mutable_file_path q path = split_parent (path_components q path)

pub split_directory_create_path : Qt → Text → Option (Text × Text)
unfolding split_parent
split_directory_create_path q path = split_parent (path_components q path)

-- splitMutableRootDirectoryPath
pub split_mutable_root_directory_path : Qt → Text → Option Text
split_mutable_root_directory_path q path =
    let parts = path_components q path in if is_empty parts then none else some (join parts)
