-- ===== src/Worker/Ea/Collision.antt =====
-- Names that differ by case only: the keys that the listing finds, and the policy on mutations.
use apfs_for_windows.Common.{
  All, All-Memᴰ, All-self, Bool-cases, List, Memᴰ, Memᴰ-tail, Option-cases, Qt, Text, [], ap, arith,
  false, inl, inr, none, refl, some, sym, text_eq, text_eq_refl, text_eq→eq, ◌≡◌, ◌∙◌, ◌≢◌, ◌↔◌,
  ◌∷◌,
}
use apfs_for_windows.Worker.Ea.{
  windows_ea_case_key, lookup_name, collision_loop, windows_ea_collision_keys,
}

-- Two different names of the list have the key.
abbrev pub Collides : Qt → List Text → Text → Type 0
Collides q names key =
    (a : Text) × (b : Text) × Memᴰ a names
    × Memᴰ b names
    × (a ≢ b)
    × (windows_ea_case_key q a ≡ key)
    × (windows_ea_case_key q b ≡ key)

pub text_eq-false : (x y : Text) → text_eq x y ≡ false → x ≢ y
text_eq-false x y h e = cc (sym (text_eq_refl y), sym (ap (λ z. text_eq z y) e), h)

pub text_eq-ne : (x y : Text) → x ≢ y → text_eq x y ≡ false
text_eq-ne x y h = elim (Bool-cases (text_eq x y)) [
  | inl e ↦ absurd (h (text_eq→eq x y e))
  | inr e ↦ e
]

module _ (q : Qt) (names : List Text) where
  abbrev Recorded : Text × Text → Type 0
  Recorded p = Memᴰ p.1 names × (windows_ea_case_key q p.1 ≡ p.0)

  lookup_name-Recorded :
      (key : Text) (firsts : List (Text × Text)) {n : Text}
      → All Recorded firsts
      → lookup_name key firsts ≡ some n
      → Recorded (key, n)
  unfolding lookup_name
  lookup_name-Recorded key [] h e = cc
  lookup_name-Recorded key ((k, m) ∷ rest) {n} h e = elim (Bool-cases (text_eq k key)) [
    | inl hit ↦ let same : m ≡ n = ground arith in rw (← same, ← text_eq→eq k key hit) h.0
    | inr miss ↦ lookup_name-Recorded key rest h.1 (rw miss at e)
  ]

  collision_loop_sound :
      (todo : List Text) (firsts : List (Text × Text)) (found : List Text)
      → All (λ n. Memᴰ n names) todo
      → All Recorded firsts
      → All (Collides q names) found
      → All (Collides q names) (collision_loop q todo firsts found)
  unfolding collision_loop
  collision_loop_sound [] firsts found t f c = c
  collision_loop_sound (n ∷ todo) firsts found t f c =
      elim (Option-cases (lookup_name (windows_ea_case_key q n) firsts)) [
        | inl e ↦ rw (e, collision_loop) (collision_loop_sound todo _ found t.1 ((t.0, refl), f) c)
        | inr (first, e) ↦
            let (m, k) = lookup_name-Recorded (windows_ea_case_key q n) firsts f e in
            elim (Bool-cases (text_eq first n)) [
              | inl same ↦
                  rw (e, collision_loop, same) (collision_loop_sound todo firsts found t.1 f c)
              | inr other ↦
                  rw (e, collision_loop, other)
                    (collision_loop_sound todo firsts _ t.1 f
                      ((first, n, m, t.0, text_eq-false first n other, k, refl), c))
            ]
      ]

module _ (q : Qt) where
  collision_loop_mono :
      {key : Text} (todo : List Text) (firsts : List (Text × Text)) (found : List Text)
      → Memᴰ key found
      → Memᴰ key (collision_loop q todo firsts found)
  unfolding collision_loop
  collision_loop_mono [] firsts found m = m
  collision_loop_mono (n ∷ todo) firsts found m =
      elim (Option-cases (lookup_name (windows_ea_case_key q n) firsts)) [
        | inl e ↦ rw (e, collision_loop) (collision_loop_mono todo _ found m)
        | inr (first, e) ↦ elim (Bool-cases (text_eq first n)) [
          | inl same ↦ rw (e, collision_loop, same) (collision_loop_mono todo firsts found m)
          | inr other ↦
              rw (e, collision_loop, other) (collision_loop_mono todo firsts _ (Memᴰ.tail m))
        ]
      ]

  -- Once a first name is recorded, any other name with the key is reported.
  collision_loop-other :
      (key first b : Text) (todo : List Text) (firsts : List (Text × Text)) (found : List Text)
      → lookup_name key firsts ≡ some first
      → Memᴰ b todo
      → first ≢ b
      → windows_ea_case_key q b ≡ key
      → Memᴰ key (collision_loop q todo firsts found)
  unfolding collision_loop lookup_name
  collision_loop-other key first b [] firsts found l m ne kb = elim m [ ]
  collision_loop-other key first b (n ∷ todo) firsts found l (Memᴰ.head e) ne kb =
      let key_n : windows_ea_case_key q n ≡ key = ap (windows_ea_case_key q) (sym e) ∙ kb in
      let found_n : lookup_name (windows_ea_case_key q n) firsts ≡ some first =
        ap (λ k. lookup_name k firsts) key_n ∙ l in
      rw (found_n, collision_loop, text_eq-ne first n (λ p. ne (p ∙ sym e)))
        (collision_loop_mono todo firsts _ (Memᴰ.head (sym key_n)))
  collision_loop-other key first b (n ∷ todo) firsts found l (Memᴰ.tail m) ne kb =
      elim (Option-cases (lookup_name (windows_ea_case_key q n) firsts)) [
        | inl e ↦
            let fresh : text_eq (windows_ea_case_key q n) key ≡ false =
              text_eq-ne _ _ (λ p. cc (e, l, ap (λ k. lookup_name k firsts) p)) in
            rw (e, collision_loop)
              (collision_loop-other key first b todo _ found (rw (fresh, lookup_name) l) m ne kb)
        | inr (f, e) ↦
            rw (e, collision_loop) (collision_loop-other key first b todo firsts _ l m ne kb)
      ]

  collision_loop-two :
      (key a b : Text) (todo : List Text) (firsts : List (Text × Text)) (found : List Text)
      → lookup_name key firsts ≡ none
      → Memᴰ a todo
      → Memᴰ b todo
      → a ≢ b
      → windows_ea_case_key q a ≡ key
      → windows_ea_case_key q b ≡ key
      → Memᴰ key (collision_loop q todo firsts found)
  unfolding collision_loop lookup_name
  collision_loop-two key a b [] firsts found l ma mb ne ka kb = elim ma [ ]
  collision_loop-two key a b (n ∷ todo) firsts found l ma mb ne ka kb =
      elim (Bool-cases (text_eq (windows_ea_case_key q n) key)) [
        | inl hit ↦
            let key_n : windows_ea_case_key q n ≡ key = text_eq→eq _ _ hit in
            let fresh : lookup_name (windows_ea_case_key q n) firsts ≡ none =
              ap (λ k. lookup_name k firsts) key_n ∙ l in
            elim (Bool-cases (text_eq n a)) [
              | inl is_a ↦
                  rw (fresh, collision_loop)
                    (collision_loop-other key n b todo _ found (rw (hit, lookup_name) refl)
                      (Memᴰ-tail mb (λ e. ne (sym (text_eq→eq n a is_a) ∙ sym e)))
                      (λ e. ne (sym (text_eq→eq n a is_a) ∙ e)) kb)
              | inr not_a ↦
                  rw (fresh, collision_loop)
                    (collision_loop-other key n a todo _ found (rw (hit, lookup_name) refl)
                      (Memᴰ-tail ma (λ e. text_eq-false n a not_a (sym e)))
                      (text_eq-false n a not_a) ka)
            ]
        | inr miss ↦
            let rest = λ (f : List (Text × Text)) (c : List Text) (e : lookup_name key f ≡ none).
              collision_loop-two key a b todo f c e
                (Memᴰ-tail ma
                  (λ e. text_eq-false _ _ miss (ap (windows_ea_case_key q) (sym e) ∙ ka)))
                (Memᴰ-tail mb
                  (λ e. text_eq-false _ _ miss (ap (windows_ea_case_key q) (sym e) ∙ kb)))
                ne ka kb in
            elim (Option-cases (lookup_name (windows_ea_case_key q n) firsts)) [
              | inl e ↦ rw (e, collision_loop) (rest _ found (rw (miss, lookup_name) l))
              | inr (f, e) ↦ rw (e, collision_loop) (rest firsts _ l)
            ]
      ]

  -- The listing finds exactly the keys that two different names of the list share.
  pub windows_ea_collision_keys_iff :
      (names : List Text) (key : Text)
      → Memᴰ key (windows_ea_collision_keys q names) ↔ Collides q names key
  unfolding windows_ea_collision_keys lookup_name
  windows_ea_collision_keys_iff names key = (
    λ m.
        All-Memᴰ (Collides q names) _
          (collision_loop_sound q names names [] [] (All-self names) tt tt) m,
    λ c. collision_loop-two key c.0 c.1 names [] [] refl c.2 c.3 c.4 c.5 c.6,
  )
