-- ===== src/Worker/ApfsPath/Squeeze.antt =====
-- The loops of normalizeApfsPath end, and what they leave.
use apfs_for_windows.Common.{
  All, Bool-cases, Text, [], arith, false, inl, inr, length, refl, suc, true, zero, ℕ, ◌≤◌, ◌<◌,
  ◌≡◌, ◌≢◌, ◌&&◌, ◌∷◌, ◌==◌,
}
use apfs_for_windows.Worker.ApfsPath.{has_double, halve, squeeze_loop, ends_with_slash, drop_last}

length-halve_le : (xs : Text) → length (halve xs) ≤ length xs
unfolding halve
length-halve_le [] = omega arith
length-halve_le (x ∷ []) = omega arith
length-halve_le (x ∷ y ∷ r) = ground (arith, length-halve_le r, length-halve_le (y ∷ r))

length-halve_lt : (xs : Text) → has_double xs ≡ true → length (halve xs) < length xs
unfolding halve
length-halve_lt [] h = cc
length-halve_lt (x ∷ []) h = cc
length-halve_lt (x ∷ y ∷ r) h = ground (arith, length-halve_le r, length-halve_lt (y ∷ r))

-- With fuel for its length, the loop ends by its test: no two slashes are left side by side.
pub has_double-squeeze_loop :
    (fuel : ℕ) (path : Text) → length path ≤ fuel → has_double (squeeze_loop fuel path) ≡ false
unfolding squeeze_loop
has_double-squeeze_loop zero [] h = refl
has_double-squeeze_loop zero (x ∷ xs) h = absurd (omega arith)
has_double-squeeze_loop (suc fuel) path h = elim (Bool-cases (has_double path)) [
  | inl e ↦
      rw (e, squeeze_loop)
        (has_double-squeeze_loop fuel (halve path) (omega (arith, length-halve_lt path e)))
  | inr e ↦ rw (e, squeeze_loop) e
]

-- No backslash.
abbrev pub IsForward : Text → Type 0
IsForward = All (λ c. c ≢ 92)

halve-IsForward : (xs : Text) → IsForward xs → IsForward (halve xs)
unfolding halve
halve-IsForward [] h = tt
halve-IsForward (x ∷ []) h = h
halve-IsForward (x ∷ y ∷ r) h = elim (Bool-cases (x == 47 && y == 47)) [
  | inl e ↦ rw (e, halve) ((λ p. absurd (omega (arith, p))), halve-IsForward r h.1.1)
  | inr e ↦ rw (e, halve) (h.0, halve-IsForward (y ∷ r) h.1)
]

pub squeeze_loop-IsForward :
    (fuel : ℕ) (xs : Text) → IsForward xs → IsForward (squeeze_loop fuel xs)
unfolding squeeze_loop
squeeze_loop-IsForward zero xs h = h
squeeze_loop-IsForward (suc fuel) xs h = elim (Bool-cases (has_double xs)) [
  | inl e ↦ rw (e, squeeze_loop) (squeeze_loop-IsForward fuel (halve xs) (halve-IsForward xs h))
  | inr e ↦ rw (e, squeeze_loop) h
]

pub drop_last-IsForward : (xs : Text) → IsForward xs → IsForward (drop_last xs)
drop_last-IsForward [] h = tt
drop_last-IsForward (x ∷ []) h = tt
drop_last-IsForward (x ∷ y ∷ r) h = (h.0, drop_last-IsForward (y ∷ r) h.1)

pub has_double-drop_last : (xs : Text) → has_double xs ≡ false → has_double (drop_last xs) ≡ false
has_double-drop_last [] h = refl
has_double-drop_last (x ∷ []) h = refl
has_double-drop_last (x ∷ y ∷ []) h = refl
has_double-drop_last (x ∷ y ∷ z ∷ r) h = ground (arith, has_double-drop_last (y ∷ z ∷ r))

-- Below two slashes there is none, so that one chop leaves a path that does not end in a slash.
pub ends_with_slash-drop_last :
    (xs : Text)
    → has_double xs ≡ false
    → ends_with_slash xs ≡ true
    → ends_with_slash (drop_last xs) ≡ false
ends_with_slash-drop_last [] h e = refl
ends_with_slash-drop_last (x ∷ []) h e = refl
ends_with_slash-drop_last (x ∷ y ∷ []) h e = ground arith
ends_with_slash-drop_last (x ∷ y ∷ z ∷ r) h e =
    ground (arith, ends_with_slash-drop_last (y ∷ z ∷ r))
