-- ===== src/Worker/Ea/Policy.antt =====
-- The policy on mutations keeps a volume free of names that differ by case only.
use apfs_for_windows.Common.{
  Bool, Bool-cases, List, Memᴰ, Memᴰ-keep, Memᴰ-snoc, Option-cases, Qt, Text, [], any, any-Memᴰ, ap,
  false, inl, inr, keep, not, refl, some, sym, text_eq, text_eq_refl, text_eq→eq, true, ◌≡◌, ◌∙◌,
  ◌⊎◌, ◌&&◌, ◌∷◌, ◌++◌,
}
use apfs_for_windows.Worker.Ea.{
  windows_ea_case_key, contains_text, windows_ea_collision_keys, PolicyMutation, apply_mutation,
  apply_mutations,
}
use apfs_for_windows.Worker.Ea.Collision.{windows_ea_collision_keys_iff}

nil_of_no_member {ℓ} : {A : Type ℓ} (xs : List A) → ((a : A) → ¬ (Memᴰ a xs)) → xs ≡ []
nil_of_no_member [] h = refl
nil_of_no_member (x ∷ xs) h = absurd (h x (Memᴰ.head refl))

-- Two names of the list with one key are one name.
SameName : Qt → List Text → Type 0
SameName q names =
    (a b : Text)
    → Memᴰ a names
    → Memᴰ b names
    → windows_ea_case_key q a ≡ windows_ea_case_key q b
    → a ≡ b

module _ (q : Qt) where
  keys→SameName : (names : List Text) → windows_ea_collision_keys q names ≡ [] → SameName q names
  unfolding SameName
  keys→SameName names h a b ma mb e = elim (Bool-cases (text_eq a b)) [
    | inl same ↦ text_eq→eq a b same
    | inr other ↦
        let m : Memᴰ (windows_ea_case_key q b) (windows_ea_collision_keys q names) =
          (windows_ea_collision_keys_iff q names _).1 (
            a,
            b,
            ma,
            mb,
            (λ p. cc (sym (text_eq_refl b), sym (ap (λ z. text_eq z b) p), other)),
            e,
            refl,
          ) in
        absurd (not_member (rw h at m))
  ]
    where
      not_member : {k : Text} → ¬ (Memᴰ k [])
      not_member m = elim m [ ]

  SameName→keys : (names : List Text) → SameName q names → windows_ea_collision_keys q names ≡ []
  unfolding SameName
  SameName→keys names s = nil_of_no_member _ (λ key m.
      (let (a, b, ma, mb, ne, ka, kb) = (windows_ea_collision_keys_iff q names key).0 m in
        ne (s a b ma mb (ka ∙ sym kb))))

  abbrev differs : Text → Text → Bool
  differs name n =
      not (text_eq n name) && text_eq (windows_ea_case_key q n) (windows_ea_case_key q name)

  new_name :
      (names : List Text) (name a : Text)
      → any (differs name) names ≡ false
      → Memᴰ a names
      → windows_ea_case_key q a ≡ windows_ea_case_key q name
      → a ≡ name
  new_name names name a d m k = elim (Bool-cases (text_eq a name)) [
    | inl same ↦ text_eq→eq a name same
    | inr other ↦
        let x : differs name a ≡ true =
          rw (other, k, text_eq_refl (windows_ea_case_key q name)) refl in
        cc (any-Memᴰ (differs name) names m x, d)
  ]

  SameName-snoc :
      (names : List Text) (name : Text)
      → SameName q names
      → any (differs name) names ≡ false
      → SameName q (names ++ name ∷ [])
  unfolding SameName
  SameName-snoc names name s d a b ma mb k = elim (Memᴰ-snoc names ma) [
    | inl pa ↦ elim (Memᴰ-snoc names mb) [
      | inl pb ↦ s a b pa pb k
      | inr eb ↦ new_name names name a d pa (k ∙ ap (windows_ea_case_key q) eb) ∙ sym eb
    ]
    | inr ea ↦ elim (Memᴰ-snoc names mb) [
      | inl pb ↦ ea ∙ sym (new_name names name b d pb (sym k ∙ ap (windows_ea_case_key q) ea))
      | inr eb ↦ ea ∙ sym eb
    ]
  ]

  -- An accepted mutation leaves names of the list, or adds one that no name differs from by case.
  abbrev Accepted : List Text → PolicyMutation → List Text → Type 0
  Accepted names m names' =
      ((a : Text) → Memᴰ a names' → Memᴰ a names)
      ⊎ ((names' ≡ names ++ m.name ∷ []) × (any (differs m.name) names ≡ false))

  some-eq : {xs ys : List Text} → some xs ≡ some ys → xs ≡ ys
  some-eq h = cc

  removed :
      (names : List Text) (m : PolicyMutation) {names' : List Text}
      → some (keep (λ n. not (text_eq n m.name)) names) ≡ some names'
      → Accepted names m names'
  removed names m e = inl (λ a t. Memᴰ-keep _ names (rw (← some-eq e) at t))

  unchanged :
      (names : List Text) (m : PolicyMutation) {names' : List Text}
      → some names ≡ some names'
      → Accepted names m names'
  unchanged names m e = inl (λ a t. rw (← some-eq e) at t)

  apply_mutation-Accepted :
      (names : List Text) (m : PolicyMutation) {names' : List Text}
      → apply_mutation q names m ≡ some names'
      → Accepted names m names'
  unfolding apply_mutation
  apply_mutation-Accepted names m e = elim (Bool-cases (any (differs m.name) names)) [
    | inl d ↦ elim (Bool-cases (contains_text m.name names)) [
      | inl x ↦ elim (Bool-cases m.aliased) [
        | inl al ↦ elim (Bool-cases m.remove) [
          | inl r ↦ removed names m (rw (d, x, al, r) at e)
          | inr r ↦ unchanged names m (rw (d, x, al, r) at e)
        ]
        | inr al ↦ cc (rw (d, x, al) at e)
      ]
      | inr x ↦ cc (rw (d, x) at e)
    ]
    | inr d ↦ elim (Bool-cases m.remove) [
      | inl r ↦ removed names m (rw (d, r) at e)
      | inr r ↦ elim (Bool-cases (contains_text m.name names)) [
        | inl x ↦ unchanged names m (rw (d, r, x) at e)
        | inr x ↦ inr (sym (some-eq (rw (d, r, x) at e)), d)
      ]
    ]
  ]

  apply_mutation-SameName :
      (names : List Text) (m : PolicyMutation) {names' : List Text}
      → SameName q names
      → apply_mutation q names m ≡ some names'
      → SameName q names'
  unfolding SameName
  apply_mutation-SameName names m {names'} s e = elim (apply_mutation-Accepted names m e) [
    | inl sub ↦ λ a b ma mb k. s a b (sub a ma) (sub b mb) k
    | inr (e', d) ↦ rw e' (SameName-snoc names m.name s d)
  ]

  -- Where no two names of a volume differ by case only, none do after mutations that were accepted.
  pub apply_mutations-collision_keys :
      (names : List Text) (ms : List PolicyMutation) {names' : List Text}
      → windows_ea_collision_keys q names ≡ []
      → apply_mutations q names ms ≡ some names'
      → windows_ea_collision_keys q names' ≡ []
  unfolding apply_mutations
  apply_mutations-collision_keys names [] h e = rw (← some-eq e) h
  apply_mutations-collision_keys names (m ∷ ms) h e =
      elim (Option-cases (apply_mutation q names m)) [
        | inl n ↦ cc (rw (n, apply_mutations) at e)
        | inr (names₁, n) ↦
            apply_mutations-collision_keys names₁ ms
              (SameName→keys names₁ (apply_mutation-SameName names m (keys→SameName names h) n))
              (rw (n, apply_mutations) at e)
      ]
