-- ===== src/Common/QtText.antt =====
-- The text functions of the Qt library that the sources call, as parameters, with the documented
-- behaviour that the code relies on.
use mathlib.Core.Path.{◌≡◌, refl, sym, ◌∙◌, ap}
use mathlib.Core.Bool.{Bool, true, false, ◌&&◌, ◌||◌}
use mathlib.Core.List.{[], ◌∷◌, ◌++◌, map, reverse, reverse-reverse, reverse-append}
use mathlib.Core.Logic.{inl, inr}
use apfs_for_windows.Common.Lists.{length, length-append}
use Prim.Native.Nat.{ℕ, ◌+◌}
use native.Mathlib.Omega.{arith}
use apfs_for_windows.Common.Tests.{leb, Bool-cases, if◌then◌else◌}
use apfs_for_windows.Common.Codes.{Text, text_eq, text_eq→eq, text_eq_refl, starts_with, upper}

pub record Qt : Type 0 where
  pub to_utf8 : Text → Text
  pub from_utf8 : Text → Text
  pub to_latin1 : Text → Text
  pub from_latin1 : Text → Text
  pub to_case_folded : Text → Text
  pub to_upper : Text → Text
  pub to_lower : Text → Text
  -- QChar::isSpace and QChar::isLetter
  pub is_space : ℕ → Bool
  pub is_letter : ℕ → Bool
  -- compare(a, b, Qt::CaseInsensitive) == 0, and startsWith in that mode, the prefix first
  pub equal_ci : Text → Text → Bool
  pub starts_with_ci : Text → Text → Bool
  -- text.contains(part, Qt::CaseInsensitive), the text first
  pub contains_ci : Text → Text → Bool

-- Comparison without case is an equivalence.
pub record ComparesByCase (q : Qt) : Type 0 where
  pub ci_refl : (x : Text) → q.equal_ci x x ≡ true
  pub ci_sym : (x y : Text) → q.equal_ci x y ≡ true → q.equal_ci y x ≡ true
  pub ci_trans :
      (x y z : Text) → q.equal_ci x y ≡ true → q.equal_ci y z ≡ true → q.equal_ci x z ≡ true

pub skip_spaces : (ℕ → Bool) → Text → Text
skip_spaces is_space [] = []
skip_spaces is_space (x ∷ xs) = if is_space x then skip_spaces is_space xs else x ∷ xs

-- QString::trimmed: the spaces at both ends are removed.
unfoldable pub trimmed : Qt → Text → Text
unfolding skip_spaces
trimmed q xs = reverse (skip_spaces q.is_space (reverse (skip_spaces q.is_space xs)))

pub trimmed_nil : (q : Qt) → trimmed q [] ≡ []
unfolding trimmed skip_spaces
trimmed_nil q = refl

lower : ℕ → ℕ
lower c = if leb 65 c && leb c 90 then c + 32 else c

has_part : Text → Text → Bool
has_part [] p = text_eq p []
has_part (x ∷ xs) p = starts_with p (x ∷ xs) || has_part xs p

-- An instance over ASCII text.
unfoldable pub ascii_qt : Qt
unfolding lower has_part
ascii_qt = record {
  to_utf8 = λ x. x;
  from_utf8 = λ x. x;
  to_latin1 = λ x. x;
  from_latin1 = λ x. x;
  to_case_folded = map upper;
  to_upper = map upper;
  to_lower = map lower;
  is_space = λ c. leb 9 c && leb c 13 || leb 32 c && leb c 32;
  is_letter = λ c. leb 65 (upper c) && leb (upper c) 90;
  equal_ci = λ x y. text_eq (map upper x) (map upper y);
  starts_with_ci = λ p x. starts_with (map upper p) (map upper x);
  contains_ci = λ x p. has_part (map upper x) (map upper p);
}

pub ascii_qt-ComparesByCase : ComparesByCase ascii_qt
unfolding ascii_qt
ascii_qt-ComparesByCase = record {
  ci_refl = λ x. text_eq_refl (map upper x);
  ci_sym = λ x y h.
      (let e = text_eq→eq (map upper x) (map upper y) h in rw e (text_eq_refl (map upper y)));
  ci_trans = λ x y z h k. (let e = text_eq→eq (map upper x) (map upper y) h in rw e k);
}

-- Trimming once is enough.
skip_suffix : (p : ℕ → Bool) (xs : Text) → (pre : Text) × (xs ≡ pre ++ skip_spaces p xs)
unfolding skip_spaces
skip_suffix p [] = ([], refl)
skip_suffix p (x ∷ xs) = elim (Bool-cases (p x)) [
  | inl e ↦ let (pre, h) = skip_suffix p xs in (x ∷ pre, rw e (ap (λ t. x ∷ t) h))
  | inr e ↦ ([], rw e refl)
]

skip_twice : (p : ℕ → Bool) (xs : Text) → skip_spaces p (skip_spaces p xs) ≡ skip_spaces p xs
unfolding skip_spaces
skip_twice p [] = refl
skip_twice p (x ∷ xs) = elim (Bool-cases (p x)) [
  | inl e ↦ rw e (skip_twice p xs)
  | inr e ↦ rw (e, e) refl
]

-- What is left of a text that does not start with a space does not start with one either.
skip_prefix :
    (p : ℕ → Bool) (xs ys : Text) → skip_spaces p (xs ++ ys) ≡ xs ++ ys → skip_spaces p xs ≡ xs
unfolding skip_spaces
skip_prefix p [] ys h = refl
skip_prefix p (x ∷ xs) ys h = elim (Bool-cases (p x)) [
  | inl e ↦ absurd (shorter xs ys (rw e at h))
  | inr e ↦ rw e refl
]
  where
    shorter : (xs ys : Text) → ¬ (skip_spaces p (xs ++ ys) ≡ x ∷ (xs ++ ys))
    shorter xs ys e =
        let (pre, h) = skip_suffix p (xs ++ ys) in
        omega (arith, ap length h, ap length e, length-append pre (skip_spaces p (xs ++ ys)))

pub trimmed-trimmed : (q : Qt) (xs : Text) → trimmed q (trimmed q xs) ≡ trimmed q xs
unfolding trimmed
trimmed-trimmed q xs =
    let p = q.is_space in
    let ys = skip_spaces p xs in
    let (pre, h) = skip_suffix p (reverse ys) in
    let whole : ys ≡ reverse (skip_spaces p (reverse ys)) ++ reverse pre =
      sym (reverse-reverse ys) ∙ ap reverse h ∙ reverse-append pre (skip_spaces p (reverse ys)) in
    let front : skip_spaces p (reverse (skip_spaces p (reverse ys)))
        ≡ reverse (skip_spaces p (reverse ys)) =
      skip_prefix p _ (reverse pre) (ap (skip_spaces p) (sym whole) ∙ skip_twice p xs ∙ whole) in
    rw (front, reverse-reverse (skip_spaces p (reverse ys)), skip_twice p (reverse ys)) refl

-- Letters and the colon are not spaces.
pub record SeparatesSpaces (q : Qt) : Type 0 where
  pub letter_no_space : (c : ℕ) → q.is_letter c ≡ true → q.is_space c ≡ false
  pub colon_no_space : q.is_space 58 ≡ false

pub ascii_qt-SeparatesSpaces : SeparatesSpaces ascii_qt
unfolding ascii_qt upper
ascii_qt-SeparatesSpaces = record { letter_no_space = λ c h. ground arith; colon_no_space = refl }

pub trimmed-pair :
    (q : Qt) (a b : ℕ)
    → q.is_space a ≡ false
    → q.is_space b ≡ false
    → trimmed q (a ∷ b ∷ []) ≡ a ∷ b ∷ []
unfolding trimmed
trimmed-pair q a b ha hb = rw (ha, hb) refl
