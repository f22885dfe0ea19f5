-- ===== src/Worker/ApfsPath/Split.antt =====
-- parentPath, baseName and pathComponents take a normalized path apart without loss.
use apfs_for_windows.Common.{
  All, All-append, Bool-cases, List, Qt, Text, [], ap, arith, false, inl, inr, is_empty, refl, sym,
  text_eq, true, ℕ, ◌≡◌, ◌∙◌, ◌≢◌, ◌∷◌, ◌++◌, ◌==◌,
}
use mathlib.Core.List.{append_assoc, append-nil}
use apfs_for_windows.Worker.ApfsPath.{
  normalize_apfs_path, split_parts, components_of, path_components, join,
}
use apfs_for_windows.Worker.ApfsPath.Normal.{is_clean, IsNormal, normalize_apfs_path-IsNormal}

-- A name: not empty, and without a slash.
abbrev pub IsName : Text → Type 0
IsName p = (is_empty p ≡ false) × All (λ c. (c == 47) ≡ false) p

is_empty-snoc : (part : Text) (x : ℕ) → is_empty (part ++ x ∷ []) ≡ false
is_empty-snoc [] x = refl
is_empty-snoc (y ∷ ys) x = refl

join-cons : (p : Text) (ps : List Text) → ps ≢ [] → join (p ∷ ps) ≡ p ++ 47 ∷ join ps
join-cons p [] h = absurd (h refl)
join-cons p (r ∷ rs) h = refl

join-split_parts :
    (part s : Text)
    → is_clean (is_empty part) s ≡ true
    → (join (split_parts part s) ≡ part ++ s) × (split_parts part s ≢ [])
unfolding split_parts
join-split_parts [] [] h = cc
join-split_parts (y ∷ ys) [] h = (sym (append-nil (y ∷ ys)), λ e. cc)
join-split_parts part (x ∷ xs) h = elim (Bool-cases (x == 47)) [
  | inl e ↦ elim (Bool-cases (is_empty part)) [
    | inl p ↦ cc (rw (e, is_clean, p) at h)
    | inr p ↦
        let (j, ne) = join-split_parts [] xs (rw (e, is_clean, p) at h) in
        let is_slash : x ≡ 47 = ground arith in
        rw (e, p) (join-cons part _ ne ∙ rw (j, is_slash) refl, λ z. cc)
  ]
  | inr e ↦
      let (j, ne) =
        join-split_parts (part ++ x ∷ []) xs (rw (is_empty-snoc part x) (rw (e, is_clean) at h)) in
      rw e (j ∙ append_assoc part (x ∷ []) xs, ne)
]

split_parts-IsName :
    (part s : Text) → All (λ c. (c == 47) ≡ false) part → All IsName (split_parts part s)
unfolding split_parts
split_parts-IsName [] [] h = tt
split_parts-IsName (y ∷ ys) [] h = ((refl, h), tt)
split_parts-IsName part (x ∷ xs) h = elim (Bool-cases (x == 47)) [
  | inl e ↦ elim (Bool-cases (is_empty part)) [
    | inl p ↦ rw (e, p) (split_parts-IsName [] xs tt)
    | inr p ↦ rw (e, p) ((p, h), split_parts-IsName [] xs tt)
  ]
  | inr e ↦ rw e (
      split_parts-IsName (part ++ x ∷ []) xs
        (All-append (λ c. (c == 47) ≡ false) part (x ∷ []) h (e, tt)))
]

components_of-IsNormal :
    (path : Text)
    → IsNormal path
    → (path ≡ 47 ∷ join (components_of path)) × All IsName (components_of path)
unfolding components_of text_eq
components_of-IsNormal path (inl e, f) = rw e (refl, tt)
components_of-IsNormal path (inr (s, e, c), f) = rw e (components_of-cons s c)
  where
    components_of-cons :
        (s : Text)
        → is_clean true s ≡ true
        → (47 ∷ s ≡ 47 ∷ join (components_of (47 ∷ s))) × All IsName (components_of (47 ∷ s))
    components_of-cons [] c = cc
    components_of-cons (x ∷ xs) c = (
      ap (λ t. 47 ∷ t) (sym (join-split_parts [] (x ∷ xs) c).0),
      split_parts-IsName [] (x ∷ xs) tt,
    )

-- The components are names, and the normalized path is a slash before each of them.
pub path_components-join :
    (q : Qt) (path : Text)
    → (normalize_apfs_path q path ≡ 47 ∷ join (path_components q path))
      × All IsName (path_components q path)
unfolding path_components
path_components-join q path =
    components_of-IsNormal (normalize_apfs_path q path) (normalize_apfs_path-IsNormal q path)
