-- ===== src/Worker/Handle/Staged/Overlay.antt =====
-- Bytes written over bytes, seen one by one.
use apfs_for_windows.Common.{
  Option, Text, [], ap, arith, drop, get_elem?, inl, inr, length, length-append, length-drop,
  length-take, refl, suc, sym, take, zero, ℕ, ◌+◌, ◌-◌, ◌≤◌, ◌<◌, ◌≡◌, ◌∙◌, ◌⊎◌, ◌∷◌, ◌++◌,
}
use Prim.Native.Nat.{max}
use apfs_for_windows.Worker.Handle.{splice}

-- `new` is `old` with `buffer` written at the offset: longer if need be, where nothing is said of
-- bytes between the old end and the offset.
pub record Overlay (buffer : Text) (offset : ℕ) (old new : Text) : Type 0 where
  pub size : length new ≡ max (length old) (offset + length buffer)
  pub inside : (j : ℕ) → j < length buffer → get_elem? new (offset + j) ≡ get_elem? buffer j
  pub kept :
      (i : ℕ)
      → i < length old
      → (i < offset) ⊎ (offset + length buffer ≤ i)
      → get_elem? new i ≡ get_elem? old i

-- `new` is `old` cut or made longer.
pub record Resized (size : ℕ) (old new : Text) : Type 0 where
  pub size_is : length new ≡ size
  pub kept : (i : ℕ) → i < length old → i < size → get_elem? new i ≡ get_elem? old i

get-append_left : (i : ℕ) (xs ys : Text) → i < length xs → get_elem? (xs ++ ys) i ≡ get_elem? xs i
get-append_left i [] ys h = absurd (omega arith)
get-append_left zero (x ∷ xs) ys h = refl
get-append_left (suc i) (x ∷ xs) ys h = get-append_left i xs ys (omega arith)

get-append_right : (xs ys : Text) (j : ℕ) → get_elem? (xs ++ ys) (length xs + j) ≡ get_elem? ys j
get-append_right [] ys j = ap (get_elem? ys) (omega arith)
get-append_right (x ∷ xs) ys j =
    let e : length (x ∷ xs) + j ≡ suc (length xs + j) = omega arith in
    ap (get_elem? (x ∷ (xs ++ ys))) e ∙ get-append_right xs ys j

get-take : (n i : ℕ) (xs : Text) → i < n → get_elem? (take n xs) i ≡ get_elem? xs i
get-take zero i xs h = absurd (omega arith)
get-take (suc n) i [] h = refl
get-take (suc n) zero (x ∷ xs) h = refl
get-take (suc n) (suc i) (x ∷ xs) h = get-take n i xs (omega arith)

get-drop : (n j : ℕ) (xs : Text) → get_elem? (drop n xs) j ≡ get_elem? xs (n + j)
get-drop zero j xs = ap (get_elem? xs) (omega arith)
get-drop (suc n) j [] = refl
get-drop (suc n) j (x ∷ xs) =
    let e : suc n + j ≡ suc (n + j) = omega arith in
    get-drop n j xs ∙ ap (get_elem? (x ∷ xs)) (sym e)

module _ (old gap buffer : Text) (offset : ℕ)
    (reaches : offset + length buffer ≤ length (old ++ gap)) where
  -- The bytes behind the buffer.
  rest : Text
  rest = drop (offset + length buffer) (old ++ gap)

  before_length : length (take offset (old ++ gap)) ≡ offset
  before_length = omega (arith, length-take offset (old ++ gap))

  at : ℕ → Option ℕ
  at i = get_elem? (take offset (old ++ gap) ++ (buffer ++ rest)) i

  inside_is : (j : ℕ) → j < length buffer → at (offset + j) ≡ get_elem? buffer j
  unfolding at
  inside_is j h =
      let e : offset + j ≡ length (take offset (old ++ gap)) + j = omega (arith, before_length) in
      ap (get_elem? (take offset (old ++ gap) ++ (buffer ++ rest))) e
      ∙ get-append_right (take offset (old ++ gap)) (buffer ++ rest) j
      ∙ get-append_left j buffer rest h

  before_is : (i : ℕ) → i < length old → i < offset → at i ≡ get_elem? old i
  unfolding at
  before_is i h lt =
      get-append_left i (take offset (old ++ gap)) (buffer ++ rest) (omega (arith, before_length))
      ∙ get-take offset i (old ++ gap) lt
      ∙ get-append_left i old gap h

  after_is :
      (j : ℕ)
      → offset + length buffer + j < length old
      → at (offset + length buffer + j) ≡ get_elem? old (offset + length buffer + j)
  unfolding at rest
  after_is j h =
      let e : offset + length buffer + j ≡ length (take offset (old ++ gap)) + (length buffer + j) =
        omega (arith, before_length) in
      ap (get_elem? (take offset (old ++ gap) ++ (buffer ++ rest))) e
      ∙ get-append_right (take offset (old ++ gap)) (buffer ++ rest) (length buffer + j)
      ∙ get-append_right buffer rest j
      ∙ get-drop (offset + length buffer) j (old ++ gap)
      ∙ get-append_left (offset + length buffer + j) old gap h

  whole_length : length (take offset (old ++ gap) ++ (buffer ++ rest)) ≡ length (old ++ gap)
  unfolding rest
  whole_length = omega (
    arith,
    length-append (take offset (old ++ gap)) (buffer ++ rest),
    length-append buffer rest,
    length-take offset (old ++ gap),
    length-drop (offset + length buffer) (old ++ gap),
  )

  -- A splice is an overlay of the old bytes, whatever was added to make them long enough, if no more
  -- was added than that.
  pub splice-Overlay :
      length (old ++ gap) ≡ max (length old) (offset + length buffer)
      → Overlay buffer offset old (splice (old ++ gap) offset buffer)
  unfolding splice rest at
  splice-Overlay fits = record {
    size = whole_length ∙ fits;
    inside = inside_is;
    kept = λ i h where_it_is. elim where_it_is [
      | inl lt ↦ before_is i h lt
      | inr le ↦
          let j = i - (offset + length buffer) in
          let e : offset + length buffer + j ≡ i = omega arith in rw e at (after_is j (omega arith))
    ];
  }

pub cut-Resized : (n : ℕ) (old : Text) → n ≤ length old → Resized n old (take n old)
cut-Resized n old h = record {
  size_is = omega (arith, length-take n old);
  kept = λ i lt lt'. get-take n i old lt';
}

pub grown-Resized :
    (n : ℕ) (old gap : Text) → length old + length gap ≡ n → Resized n old (old ++ gap)
grown-Resized n old gap h = record {
  size_is = omega (arith, length-append old gap);
  kept = λ i lt lt'. get-append_left i old gap lt;
}
