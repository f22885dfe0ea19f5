-- ===== src/Common/Lists.antt =====
-- Lists measured, indexed and searched, over the native numbers.
use Prim.Native.Nat.{ℕ, zero, suc, ◌+◌, ◌-◌, ◌≤◌, min}
use mathlib.Core.Path.{◌≡◌, refl, sym, ap, ◌∙◌}
use mathlib.Core.Bool.{Bool, true, false, ◌&&◌, ◌||◌}
use mathlib.Core.Logic.{◌⊎◌, inl, inr}
use mathlib.Core.List.{List, [], ◌∷◌, ◌++◌, Memᴰ}
use mathlib.Core.Option.{Option, none, some}
use native.Mathlib.Omega.{arith}
use apfs_for_windows.Common.Tests.{if◌then◌else◌, Bool-cases}

module _ {ℓ} {A : Type ℓ} where
  abbrev pub length : List A → ℕ
  length [] = 0
  length (x ∷ xs) = suc (length xs)

  abbrev pub get_elem? : List A → ℕ → Option A
  get_elem? [] i = none
  get_elem? (x ∷ xs) zero = some x
  get_elem? (x ∷ xs) (suc i) = get_elem? xs i

  abbrev pub get_or : List A → ℕ → A → A
  get_or [] i d = d
  get_or (x ∷ xs) zero d = x
  get_or (x ∷ xs) (suc i) d = get_or xs i d

  abbrev pub take : ℕ → List A → List A
  take zero xs = []
  take (suc n) [] = []
  take (suc n) (x ∷ xs) = x ∷ take n xs

  abbrev pub drop : ℕ → List A → List A
  drop zero xs = xs
  drop (suc n) [] = []
  drop (suc n) (x ∷ xs) = drop n xs

  abbrev pub is_empty : List A → Bool
  is_empty [] = true
  is_empty (x ∷ xs) = false

  -- std::any_of, std::all_of, and the elements that pass a test.
  abbrev pub any : (A → Bool) → List A → Bool
  any p [] = false
  any p (x ∷ xs) = p x || any p xs

  abbrev pub all : (A → Bool) → List A → Bool
  all p [] = true
  all p (x ∷ xs) = p x && all p xs

  abbrev pub keep : (A → Bool) → List A → List A
  keep p [] = []
  keep p (x ∷ xs) = if p x then x ∷ keep p xs else keep p xs

  -- std::find_if.
  abbrev pub find_if : (A → Bool) → List A → Option A
  find_if p [] = none
  find_if p (x ∷ xs) = if p x then some x else find_if p xs

  -- A property of every element, and of every pair in order.
  abbrev pub All {κ} : (A → Type κ) → List A → Type κ
  All P [] = Unit
  All P (x ∷ xs) = P x × All P xs

  abbrev pub Pairs {κ} : (A → A → Type κ) → List A → Type κ
  Pairs R [] = Unit
  Pairs R (x ∷ xs) = All (R x) xs × Pairs R xs

module _ {ℓ} {A : Type ℓ} where
  pub length-append : (xs ys : List A) → length (xs ++ ys) ≡ length xs + length ys
  length-append [] ys = omega arith
  length-append (x ∷ xs) ys = omega (arith, length-append xs ys)

  pub take-append-drop : (n : ℕ) (xs : List A) → take n xs ++ drop n xs ≡ xs
  take-append-drop zero xs = refl
  take-append-drop (suc n) [] = refl
  take-append-drop (suc n) (x ∷ xs) = rw (take-append-drop n xs)

  pub length-take : (n : ℕ) (xs : List A) → length (take n xs) ≡ min n (length xs)
  length-take zero xs = omega arith
  length-take (suc n) [] = omega arith
  length-take (suc n) (x ∷ xs) = omega (arith, length-take n xs)

  pub length-drop : (n : ℕ) (xs : List A) → length (drop n xs) ≡ length xs - n
  length-drop zero xs = omega arith
  length-drop (suc n) [] = omega arith
  length-drop (suc n) (x ∷ xs) = omega (arith, length-drop n xs)

  pub take-append : (xs ys : List A) → take (length xs) (xs ++ ys) ≡ xs
  take-append [] ys = refl
  take-append (x ∷ xs) ys = rw (take-append xs ys)

  pub drop-append : (xs ys : List A) → drop (length xs) (xs ++ ys) ≡ ys
  drop-append [] ys = refl
  drop-append (x ∷ xs) ys = drop-append xs ys

  pub length-keep-le : (p : A → Bool) (xs : List A) → length (keep p xs) ≤ length xs
  length-keep-le p [] = omega arith
  length-keep-le p (x ∷ xs) = ground (arith, length-keep-le p xs)

module _ {ℓ κ} {A : Type ℓ} (P : A → Type κ) where
  pub All-append : (xs ys : List A) → All P xs → All P ys → All P (xs ++ ys)
  All-append [] ys h k = k
  All-append (x ∷ xs) ys h k = (h.0, All-append xs ys h.1 k)

  pub All-keep : (p : A → Bool) (xs : List A) → All P xs → All P (keep p xs)
  All-keep p [] h = tt
  All-keep p (x ∷ xs) h = elim (Bool-cases (p x)) [
    | inl e ↦ rw e (h.0, All-keep p xs h.1)
    | inr e ↦ rw e (All-keep p xs h.1)
  ]

  pub All-Memᴰ : {a : A} (xs : List A) → All P xs → Memᴰ a xs → P a
  All-Memᴰ [] h m = elim m [ ]
  All-Memᴰ (x ∷ xs) h (Memᴰ.head e) = rw e h.0
  All-Memᴰ (x ∷ xs) h (Memᴰ.tail m) = All-Memᴰ xs h.1 m

  pub All-mono {μ} : {Q : A → Type μ} → ((a : A) → P a → Q a) → (xs : List A) → All P xs → All Q xs
  All-mono f [] h = tt
  All-mono f (x ∷ xs) h = (f x h.0, All-mono f xs h.1)

  pub All-All : ((a : A) → P a) → (xs : List A) → All P xs
  All-All f [] = tt
  All-All f (x ∷ xs) = (f x, All-All f xs)

module _ {ℓ} {A : Type ℓ} where
  -- The elements kept pass the test.
  pub keep-All : (p : A → Bool) (xs : List A) → All (λ x. p x ≡ true) (keep p xs)
  keep-All p [] = tt
  keep-All p (x ∷ xs) = elim (Bool-cases (p x)) [
    | inl e ↦ rw e (e, keep-All p xs)
    | inr e ↦ rw e (keep-All p xs)
  ]

  pub any-false : (p : A → Bool) (xs : List A) → any p xs ≡ false → All (λ x. p x ≡ false) xs
  any-false p [] h = tt
  any-false p (x ∷ xs) h = elim (Bool-cases (p x)) [
    | inl e ↦ cc (rw e at h)
    | inr e ↦ (e, any-false p xs (rw e at h))
  ]

  pub any-true : (p : A → Bool) (xs : List A) → any p xs ≡ true → (a : A) × Memᴰ a xs × (p a ≡ true)
  any-true p [] h = cc
  any-true p (x ∷ xs) h = elim (Bool-cases (p x)) [
    | inl e ↦ (x, Memᴰ.head refl, e)
    | inr e ↦ let (a, m, q) = any-true p xs (rw e at h) in (a, Memᴰ.tail m, q)
  ]

  pub find_if-some :
      (p : A → Bool) (xs : List A) {a : A} → find_if p xs ≡ some a → Memᴰ a xs × (p a ≡ true)
  find_if-some p [] h = cc
  find_if-some p (x ∷ xs) h = elim (Bool-cases (p x)) [
    | inl e ↦ (Memᴰ.head (ground arith), ground arith)
    | inr e ↦ let (m, q) = find_if-some p xs (rw e at h) in (Memᴰ.tail m, q)
  ]

module _ {ℓ κ} {A : Type ℓ} (R : A → A → Type κ) where
  pub Pairs-keep : (p : A → Bool) (xs : List A) → Pairs R xs → Pairs R (keep p xs)
  Pairs-keep p [] h = tt
  Pairs-keep p (x ∷ xs) h = elim (Bool-cases (p x)) [
    | inl e ↦ rw e (All-keep (R x) p xs h.0, Pairs-keep p xs h.1)
    | inr e ↦ rw e (Pairs-keep p xs h.1)
  ]

  pub Pairs-snoc : (xs : List A) (y : A) → Pairs R xs → All (λ x. R x y) xs → Pairs R (xs ++ y ∷ [])
  Pairs-snoc [] y h k = (tt, tt)
  Pairs-snoc (x ∷ xs) y h k = (All-append (R x) xs (y ∷ []) h.0 (k.0, tt), Pairs-snoc xs y h.1 k.1)

module _ {ℓ} {A : Type ℓ} where
  pub Memᴰ-cons_mono :
      {a x : A} {xs ys : List A} → (Memᴰ a xs → Memᴰ a ys) → Memᴰ a (x ∷ xs) → Memᴰ a (x ∷ ys)
  Memᴰ-cons_mono f (Memᴰ.head e) = Memᴰ.head e
  Memᴰ-cons_mono f (Memᴰ.tail t) = Memᴰ.tail (f t)

  pub Memᴰ-keep : {a : A} (p : A → Bool) (xs : List A) → Memᴰ a (keep p xs) → Memᴰ a xs
  Memᴰ-keep p [] m = m
  Memᴰ-keep p (x ∷ xs) m = elim (Bool-cases (p x)) [
    | inl e ↦ Memᴰ-cons_mono (Memᴰ-keep p xs) (rw e at m)
    | inr e ↦ Memᴰ.tail (Memᴰ-keep p xs (rw e at m))
  ]

  pub Memᴰ-snoc : {a y : A} (xs : List A) → Memᴰ a (xs ++ y ∷ []) → Memᴰ a xs ⊎ (a ≡ y)
  Memᴰ-snoc [] (Memᴰ.head e) = inr e
  Memᴰ-snoc [] (Memᴰ.tail t) = elim t [ ]
  Memᴰ-snoc (x ∷ xs) (Memᴰ.head e) = inl (Memᴰ.head e)
  Memᴰ-snoc (x ∷ xs) (Memᴰ.tail t) = elim (Memᴰ-snoc xs t) [
    | inl m ↦ inl (Memᴰ.tail m)
    | inr e ↦ inr e
  ]

  pub Memᴰ-append_left : {a : A} (xs ys : List A) → Memᴰ a xs → Memᴰ a (xs ++ ys)
  Memᴰ-append_left [] ys m = elim m [ ]
  Memᴰ-append_left (x ∷ xs) ys (Memᴰ.head e) = Memᴰ.head e
  Memᴰ-append_left (x ∷ xs) ys (Memᴰ.tail t) = Memᴰ.tail (Memᴰ-append_left xs ys t)

  pub Memᴰ-append_right : {a : A} (xs ys : List A) → Memᴰ a ys → Memᴰ a (xs ++ ys)
  Memᴰ-append_right [] ys m = m
  Memᴰ-append_right (x ∷ xs) ys m = Memᴰ.tail (Memᴰ-append_right xs ys m)

  pub any-Memᴰ : {a : A} (p : A → Bool) (xs : List A) → Memᴰ a xs → p a ≡ true → any p xs ≡ true
  any-Memᴰ p [] m h = elim m [ ]
  any-Memᴰ p (x ∷ xs) (Memᴰ.head e) h = let q : p x ≡ true = ap p (sym e) ∙ h in rw q refl
  any-Memᴰ p (x ∷ xs) (Memᴰ.tail t) h = ground (arith, any-Memᴰ p xs t h)

  pub Memᴰ-keep_intro :
      {a : A} (p : A → Bool) (xs : List A) → Memᴰ a xs → p a ≡ true → Memᴰ a (keep p xs)
  Memᴰ-keep_intro p [] m h = elim m [ ]
  Memᴰ-keep_intro p (x ∷ xs) (Memᴰ.head e) h =
      let q : p x ≡ true = ap p (sym e) ∙ h in rw q (Memᴰ.head e)
  Memᴰ-keep_intro p (x ∷ xs) (Memᴰ.tail t) h = elim (Bool-cases (p x)) [
    | inl e ↦ rw e (Memᴰ.tail (Memᴰ-keep_intro p xs t h))
    | inr e ↦ rw e (Memᴰ-keep_intro p xs t h)
  ]

  pub Memᴰ-tail : {a x : A} {xs : List A} → Memᴰ a (x ∷ xs) → ¬ (a ≡ x) → Memᴰ a xs
  Memᴰ-tail (Memᴰ.head e) ne = absurd (ne e)
  Memᴰ-tail (Memᴰ.tail t) ne = t

  pub All-intro {κ} : {P : A → Type κ} (xs : List A) → ((a : A) → Memᴰ a xs → P a) → All P xs
  All-intro [] f = tt
  All-intro (x ∷ xs) f = (f x (Memᴰ.head refl), All-intro xs (λ a m. f a (Memᴰ.tail m)))

  pub All-self : (xs : List A) → All (λ x. Memᴰ x xs) xs
  All-self xs = All-intro xs (λ a m. m)

module _ {ℓ κ} {A : Type ℓ} (P : A → Type κ) where
  pub All-take : (n : ℕ) (xs : List A) → All P xs → All P (take n xs)
  All-take zero xs h = tt
  All-take (suc n) [] h = tt
  All-take (suc n) (x ∷ xs) h = (h.0, All-take n xs h.1)

  pub All-drop : (n : ℕ) (xs : List A) → All P xs → All P (drop n xs)
  All-drop zero xs h = h
  All-drop (suc n) [] h = tt
  All-drop (suc n) (x ∷ xs) h = All-drop n xs h.1
