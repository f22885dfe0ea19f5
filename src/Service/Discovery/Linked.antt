-- ===== src/Service/Discovery/Linked.antt =====
-- canonicalizeDiscoveredMountAliases loses no mount without one that stands for it.
use apfs_for_windows.Common.{
  Bool, Bool-cases, List, Memᴰ, Memᴰ-append_left, Memᴰ-append_right, Qt, [], any, inl, inr, not,
  refl, true, ◌≡◌, ◌⊎◌, ◌&&◌, ◌∷◌, ◌++◌,
}
use mathlib.Core.Path.{subst}
use apfs_for_windows.Service.Config.{MountConfig}
use apfs_for_windows.Service.Target.{Names, DiscoveredApfsVolume}
use apfs_for_windows.Service.Discovery.{Kept, candidate_of, duplicates, replace_first, aliases_loop}

module _ (q : Qt) (n : Names) (volumes : List DiscoveredApfsVolume) where
  -- A mount and one that stands for it: itself with its canonical target, or, step by step, a
  -- duplicate of one that stands for it.
  pub data Linked (m : MountConfig) : Kept → Type 0 where
    itself : Linked m (candidate_of q n volumes m).0
    gives_way : (c k : Kept) → duplicates q n volumes c k ≡ true → Linked m k → Linked m c
    joins : (c k : Kept) → duplicates q n volumes c k ≡ true → Linked m c → Linked m k

  abbrev pub HasKept : MountConfig → List Kept → Type 0
  HasKept m ks = (k : Kept) × Memᴰ k ks × Linked m k

  HasKept-tail : (m : MountConfig) (k : Kept) (ks : List Kept) → HasKept m ks → HasKept m (k ∷ ks)
  HasKept-tail m k ks (x, at, l) = (x, Memᴰ.tail at, l)

  replace_first-HasKept :
      (m : MountConfig) (c : Kept) (ks : List Kept)
      → HasKept m ks
      → HasKept m (replace_first q n volumes c ks)
  unfolding replace_first
  replace_first-HasKept m c [] h = h
  replace_first-HasKept m c (k ∷ ks) (x, at, l) = elim (Bool-cases (duplicates q n volumes c k)) [
    | inr e ↦ rw e (elim at [
      | Memᴰ.head same ↦ (x, Memᴰ.head same, l)
      | Memᴰ.tail at' ↦
          HasKept-tail m k (replace_first q n volumes c ks)
            (replace_first-HasKept m c ks (x, at', l))
    ])
    | inl e ↦ elim (Bool-cases (c.exact && not k.exact)) [
      | inr f ↦ rw (e, f) (x, at, l)
      | inl f ↦
          rw (e, f)
            (elim at [
              | Memᴰ.head same ↦ (c, Memᴰ.head refl, gives_way c k e (subst (Linked m) same l))
              | Memᴰ.tail at' ↦ (x, Memᴰ.tail at', l)
            ])
    ]
  ]

  replace_first-joins :
      (m : MountConfig) (c : Kept) (ks : List Kept)
      → any (duplicates q n volumes c) ks ≡ true
      → Linked m c
      → HasKept m (replace_first q n volumes c ks)
  unfolding replace_first
  replace_first-joins m c [] found l = cc
  replace_first-joins m c (k ∷ ks) found l = elim (Bool-cases (duplicates q n volumes c k)) [
    | inr e ↦ rw e (
        HasKept-tail m k (replace_first q n volumes c ks)
          (replace_first-joins m c ks (rw e at found) l))
    | inl e ↦ elim (Bool-cases (c.exact && not k.exact)) [
      | inl f ↦ rw (e, f) (c, Memᴰ.head refl, l)
      | inr f ↦ rw (e, f) (k, Memᴰ.head refl, joins c k e l)
    ]
  ]

  pub aliases_loop-HasKept :
      (todo : List MountConfig) (kept : List Kept) (changed : Bool) (m : MountConfig)
      → HasKept m kept ⊎ Memᴰ m todo
      → HasKept m (aliases_loop q n volumes todo kept changed).0
  unfolding aliases_loop
  aliases_loop-HasKept [] kept changed m (inl h) = h
  aliases_loop-HasKept [] kept changed m (inr at) = elim at [ ]
  aliases_loop-HasKept (x ∷ todo) kept changed m h =
      let c = (candidate_of q n volumes x).0 in
      elim (Bool-cases (any (duplicates q n volumes c) kept)) [
        | inr e ↦
            rw (e, aliases_loop)
              (aliases_loop-HasKept todo (kept ++ c ∷ []) _ m (elim h [
                | inl (k, at, l) ↦ inl (k, Memᴰ-append_left kept (c ∷ []) at, l)
                | inr at ↦ elim at [
                  | Memᴰ.head same ↦ inl (
                    c,
                    Memᴰ-append_right kept (c ∷ []) (Memᴰ.head refl),
                    subst (λ y. Linked m (candidate_of q n volumes y).0) same itself,
                  )
                  | Memᴰ.tail at' ↦ inr at'
                ]
              ]))
        | inl e ↦
            rw (e, aliases_loop)
              (aliases_loop-HasKept todo (replace_first q n volumes c kept) true m (elim h [
                | inl k ↦ inl (replace_first-HasKept m c kept k)
                | inr at ↦ elim at [
                  | Memᴰ.head same ↦ inl (
                      replace_first-joins m c kept e
                        (subst (λ y. Linked m (candidate_of q n volumes y).0) same itself))
                  | Memᴰ.tail at' ↦ inr at'
                ]
              ]))
      ]
