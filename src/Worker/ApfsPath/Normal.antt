-- ===== src/Worker/ApfsPath/Normal.antt =====
-- Every path that normalizeApfsPath returns is the root, or names each joined by one slash.
use apfs_for_windows.Common.{
  Bool, Bool-cases, Qt, Text, [], arith, false, inl, inr, length, ltb, map, not, refl, suc, text_eq,
  trimmed, true, zero, ℕ, ◌≡◌, ◌≢◌, ◌⊎◌, ◌&&◌, ◌∷◌, ◌==◌,
}
use apfs_for_windows.Worker.ApfsPath.{
  root, has_double, ends_with_slash, drop_last, chop_loop, anchor, forward, normalize_apfs_path,
}
use apfs_for_windows.Worker.ApfsPath.Squeeze.{
  IsForward, has_double-squeeze_loop, squeeze_loop-IsForward, drop_last-IsForward,
  has_double-drop_last, ends_with_slash-drop_last,
}

-- `is_clean true s`: s is made of non-empty names with one slash between them.
abbrev pub is_clean : Bool → Text → Bool
is_clean b [] = not b
is_clean b (x ∷ xs) = elim (x == 47) [
  | true ↦ not b && is_clean true xs
  | false ↦ is_clean false xs
]

-- The root, or a slash and clean names; no backslash.
abbrev pub IsNormal : Text → Type 0
IsNormal path =
    ((path ≡ root) ⊎ ((s : Text) × (path ≡ 47 ∷ s) × (is_clean true s ≡ true))) × IsForward path

-- After a slash (`b`) or not, what has no double slash and no slash at the end is clean.
abbrev after : Bool → Text → Text
after true s = 47 ∷ s
after false s = s

clean_of :
    (b : Bool) (s : Text)
    → has_double (after b s) ≡ false
    → ends_with_slash (after b s) ≡ false
    → is_clean b s ≡ true
clean_of true [] h e = ground arith
clean_of false [] h e = refl
clean_of true (x ∷ xs) h e = ground (arith, clean_of true xs, clean_of false xs)
clean_of false (x ∷ xs) h e = ground (arith, clean_of true xs, clean_of false xs)

chop_done : (f : ℕ) (path : Text) → ends_with_slash path ≡ false → chop_loop f path ≡ path
unfolding chop_loop
chop_done zero path e = refl
chop_done (suc f) path e =
    let t : (ltb 1 (length path) && ends_with_slash path) ≡ false = ground arith in
    rw (t, chop_loop) refl

chop_once :
    (f : ℕ) (y : ℕ) (r : Text)
    → ends_with_slash (y ∷ r) ≡ true
    → chop_loop (suc f) (47 ∷ y ∷ r) ≡ chop_loop f (47 ∷ drop_last (y ∷ r))
unfolding chop_loop
chop_once f y r e =
    let t : (ltb 1 (length (47 ∷ y ∷ r)) && ends_with_slash (47 ∷ y ∷ r)) ≡ true = ground arith in
    rw (t, chop_loop) refl

IsNormal-of :
    (s : Text)
    → has_double (47 ∷ s) ≡ false
    → ends_with_slash (47 ∷ s) ≡ false
    → IsForward (47 ∷ s)
    → IsNormal (47 ∷ s)
IsNormal-of s h e f = (inr (s, refl, clean_of true s h e), f)

chop_loop-IsNormal :
    (fuel y : ℕ) (r : Text)
    → has_double (47 ∷ y ∷ r) ≡ false
    → IsForward (47 ∷ y ∷ r)
    → IsNormal (chop_loop (suc fuel) (47 ∷ y ∷ r))
chop_loop-IsNormal fuel y r h f = elim (Bool-cases (ends_with_slash (y ∷ r))) [
  | inr e ↦ rw (chop_done (suc fuel) (47 ∷ y ∷ r) e) (IsNormal-of (y ∷ r) h e f)
  | inl e ↦
      let e' : ends_with_slash (drop_last (47 ∷ y ∷ r)) ≡ false =
        ends_with_slash-drop_last (47 ∷ y ∷ r) h e in
      rw (chop_once fuel y r e, chop_done fuel (47 ∷ drop_last (y ∷ r)) e')
        (IsNormal-of (drop_last (y ∷ r)) (has_double-drop_last (47 ∷ y ∷ r) h) e'
          (drop_last-IsForward (47 ∷ y ∷ r) f))
]

slash-IsForward : ◌≢◌ {A = ℕ} 47 92
slash-IsForward = omega arith

anchor-IsNormal : (path : Text) → has_double path ≡ false → IsForward path → IsNormal (anchor path)
unfolding anchor text_eq
anchor-IsNormal [] h f = (inl refl, (slash-IsForward, tt))
anchor-IsNormal (x ∷ []) h f = elim (Bool-cases (x == 47)) [
  | inl e ↦ rw e (inl refl, (slash-IsForward, tt))
  | inr e ↦ rw e (chop_loop-IsNormal 1 x [] (ground arith) (slash-IsForward, f))
]
anchor-IsNormal (x ∷ y ∷ r) h f = elim (Bool-cases (x == 47)) [
  | inl e ↦
      let p : x ≡ 47 = ground arith in
      rw p (chop_loop-IsNormal (suc (length r)) y r (rw p at h) (rw p at f))
  | inr e ↦
      rw e (chop_loop-IsNormal (suc (suc (length r))) x (y ∷ r) (ground arith) (slash-IsForward, f))
]

map-forward-IsForward : (xs : Text) → IsForward (map forward xs)
map-forward-IsForward [] = tt
map-forward-IsForward (x ∷ xs) = (ground arith, map-forward-IsForward xs)

-- Whatever the input, the result is the root or a slash and names that are not empty, with one
-- slash between them and none at the end; it holds no backslash.
pub normalize_apfs_path-IsNormal : (q : Qt) (input : Text) → IsNormal (normalize_apfs_path q input)
unfolding normalize_apfs_path
normalize_apfs_path-IsNormal q input =
    let path = map forward (trimmed q input) in
    anchor-IsNormal _ (has_double-squeeze_loop (length path) path (omega arith))
      (squeeze_loop-IsForward (length path) path (map-forward-IsForward (trimmed q input)))
