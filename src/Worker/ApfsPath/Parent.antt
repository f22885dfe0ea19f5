-- ===== src/Worker/ApfsPath/Parent.antt =====
-- The functions that give a path's directory and last name agree with one another.
use apfs_for_windows.Common.{
  All, List, Option, Qt, Text, [], ap, arith, drop, false, is_empty, length, none, refl, some, suc,
  sym, take-append, text_eq, ℕ, ◌≡◌, ◌∙◌, ◌∷◌, ◌++◌, ◌==◌, if◌then◌else◌,
}
use mathlib.Core.List.{append_assoc}
use native.Mathlib.Numerals.{add-one}
use apfs_for_windows.Worker.ApfsPath.{
  root, last_slash, normalize_apfs_path, parent_of, base_of, parent_path, base_name,
  path_components, join, init, last_or, split_parent, split_mutable_file_path,
}
use apfs_for_windows.Worker.ApfsPath.Split.{IsName, path_components-join}

no_slash : (s : Text) → All (λ c. (c == 47) ≡ false) s → last_slash s ≡ none
no_slash [] h = refl
no_slash (x ∷ xs) h = rw (no_slash xs h.1, h.0) refl

last_slash-append :
    (dir name : Text)
    → All (λ c. (c == 47) ≡ false) name
    → last_slash (dir ++ 47 ∷ name) ≡ some (length dir)
last_slash-append [] name h = rw (no_slash name h) refl
last_slash-append (x ∷ xs) name h = rw (last_slash-append xs name h) refl

not_root : (dir name : Text) → IsName name → text_eq (dir ++ 47 ∷ name) root ≡ false
unfolding text_eq
not_root dir [] h = cc
not_root [] (n ∷ ns) h = refl
not_root (d ∷ []) (n ∷ ns) h = ground arith
not_root (d ∷ e ∷ ds) (n ∷ ns) h = ground arith

drop_past : (dir name : Text) (x : ℕ) → drop (suc (length dir)) (dir ++ x ∷ name) ≡ name
drop_past [] name x = refl
drop_past (d ∷ ds) name x = drop_past ds name x

-- What the two functions give for a path that ends in a name.
base_of-append : (dir name : Text) → IsName name → base_of (dir ++ 47 ∷ name) ≡ name
unfolding base_of
base_of-append dir name h =
    rw (not_root dir name h, last_slash-append dir name h.1, add-one) (drop_past dir name 47)

parent_of-append :
    (dir name : Text)
    → IsName name
    → parent_of (dir ++ 47 ∷ name) ≡ (if is_empty dir then root else dir)
unfolding parent_of
parent_of-append [] name h = rw (not_root [] name h, last_slash-append [] name h.1) refl
parent_of-append (d ∷ ds) name h =
    rw (not_root (d ∷ ds) name h, last_slash-append (d ∷ ds) name h.1)
      (let nz : (suc (length ds) == 0) ≡ false = ground arith in
        rw nz (take-append (d ∷ ds) (47 ∷ name)))

join-init_last :
    (p r : Text) (rs : List Text)
    → join (p ∷ r ∷ rs) ≡ join (init (p ∷ r ∷ rs)) ++ 47 ∷ last_or [] (p ∷ r ∷ rs)
join-init_last p r [] = refl
join-init_last p r (s ∷ ss) =
    rw (join-init_last r s ss)
      (sym (append_assoc p (47 ∷ join (r ∷ init (s ∷ ss))) (47 ∷ last_or [] (s ∷ ss))))

last_or-IsName : (p : Text) (rs : List Text) → All IsName (p ∷ rs) → IsName (last_or [] (p ∷ rs))
last_or-IsName p [] h = h.0
last_or-IsName p (r ∷ rs) h = last_or-IsName r rs h.1

-- A path splits into a directory and a name exactly if it is not the root.
abbrev Splits : Text → Text → Text → Type 0
Splits path dir name =
    (path ≡ dir ++ 47 ∷ name)
    × IsName name
    × (base_of path ≡ name)
    × (parent_of path ≡ (if is_empty dir then root else dir))

splits : (path dir name : Text) → path ≡ dir ++ 47 ∷ name → IsName name → Splits path dir name
splits path dir name e h = rw e (refl, h, base_of-append dir name h, parent_of-append dir name h)

pair_parts :
    {d n dir name : Text}
    → ◌≡◌ {A = Option (Text × Text)} (some (d, n)) (some (dir, name))
    → (d ≡ dir) × (n ≡ name)
pair_parts h = (cc, cc)

split_parent-Splits :
    (path : Text) (parts : List Text) {dir name : Text}
    → path ≡ 47 ∷ join parts
    → All IsName parts
    → split_parent parts ≡ some (dir, name)
    → Splits path dir name
unfolding split_parent
split_parent-Splits path [] e h s = cc
split_parent-Splits path (p ∷ []) e h s =
    let (d, n) = pair_parts s in rw (← d, ← n) (splits path [] p e h.0)
split_parent-Splits path (p ∷ r ∷ rs) e h s =
    let (d, n) = pair_parts s in
    rw (← d, ← n)
      (splits path (47 ∷ join (init (p ∷ r ∷ rs))) (last_or [] (p ∷ r ∷ rs))
        (e ∙ ap (λ t. 47 ∷ t) (join-init_last p r rs)) (last_or-IsName p (r ∷ rs) h))

-- Where splitMutableFilePath gives a directory and a name, the normalized path is the directory, a
-- slash and the name; the name is not empty and has no slash; baseName gives that name, and
-- parentPath that directory, or the root where the directory is empty.
pub split_mutable_file_path_lem :
    (q : Qt) (path : Text) {dir name : Text}
    → split_mutable_file_path q path ≡ some (dir, name)
    → (normalize_apfs_path q path ≡ dir ++ 47 ∷ name)
      × IsName name
      × (base_name q path ≡ name)
      × (parent_path q path ≡ (if is_empty dir then root else dir))
unfolding split_mutable_file_path base_name parent_path
split_mutable_file_path_lem q path s =
    let (e, h) = path_components-join q path in
    split_parent-Splits (normalize_apfs_path q path) (path_components q path) e h s
