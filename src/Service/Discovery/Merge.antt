-- ===== src/Service/Discovery/Merge.antt =====
-- mergeDiscoveredMounts keeps what is configured, gives fresh drives, and leaves no volume out while
-- there are letters.
use apfs_for_windows.Common.{
  All, All-mono, Bool, Bool-cases, List, Option-cases, Pairs, Qt, Text, [], any, arith, false, inl,
  inr, is_empty, not, refl, sym, true, ℕ, ◌≤◌, ◌≡◌, ◌∙◌, ◌≢◌, ◌⊎◌, ◌||◌, ◌∷◌, ◌++◌,
}
use mathlib.Core.List.{append_assoc, append-nil}
use apfs_for_windows.Service.Config.{MountConfig}
use apfs_for_windows.Service.Target.{Names, DiscoveredApfsVolume}
use apfs_for_windows.Service.Discovery.{
  contains_letter, used_drive_letters, next_letter, next_available_mount,
  preferred_mount_for_target, new_mount_for, refers, merge_loop, merge_discovered_mounts,
}
use apfs_for_windows.Service.Discovery.Letters.{next_letter-some}

rejoin :
    (changed : Bool) (mounts : List MountConfig) (new : MountConfig) (extra : List MountConfig)
    → ◌≡◌ {A = List MountConfig × Bool}
        ((mounts ++ new ∷ []) ++ extra, true || not (is_empty extra))
        (mounts ++ new ∷ extra, changed || not (is_empty (new ∷ extra)))
rejoin false mounts new extra = rw (append_assoc mounts (new ∷ []) extra) refl
rejoin true mounts new extra = rw (append_assoc mounts (new ∷ []) extra) refl

unchanged_flag :
    (changed : Bool) (mounts : List MountConfig)
    → ◌≡◌ {A = List MountConfig × Bool}
        (mounts, changed)
        (mounts ++ [], changed || not (is_empty {A = MountConfig} []))
unchanged_flag true mounts = rw (append-nil mounts) refl
unchanged_flag false mounts = rw (append-nil mounts) refl

module _ (q : Qt) (n : Names) (volumes : List DiscoveredApfsVolume) where
  -- The mounts that were there stay in front; `changed` says whether any was added.
  pub merge_loop-keeps :
      (preferred : List MountConfig) (used : List ℕ) (vs : List DiscoveredApfsVolume)
      (mounts : List MountConfig) (changed : Bool)
      → (extra : List MountConfig) × (merge_loop q n volumes preferred used vs mounts changed
          ≡ (mounts ++ extra, changed || not (is_empty extra)))
  unfolding merge_loop
  merge_loop-keeps preferred used [] mounts changed = ([], unchanged_flag changed mounts)
  merge_loop-keeps preferred used (v ∷ vs) mounts changed =
      elim (Bool-cases (any (refers q n volumes v.target) mounts)) [
        | inl e ↦
            let (extra, h) = merge_loop-keeps preferred used vs mounts changed in
            (extra, rw (e, merge_loop) h)
        | inr e ↦ elim (Bool-cases (is_empty (new_mount_for q preferred used v).0.mount)) [
          | inl x ↦
              let (extra, h) =
                merge_loop-keeps preferred (new_mount_for q preferred used v).1 vs mounts changed in
              (extra, rw (e, merge_loop, x) h)
          | inr x ↦
              let (extra, h) =
                merge_loop-keeps preferred (new_mount_for q preferred used v).1 vs
                  (mounts ++ (new_mount_for q preferred used v).0 ∷ []) true in
              (
                (new_mount_for q preferred used v).0 ∷ extra,
                rw (e, merge_loop, x)
                    (h ∙ rejoin changed mounts (new_mount_for q preferred used v).0 extra),
              )
        ]
      ]

  -- The mounts that were configured stay, in front and in their order; `changed` is true exactly if a
  -- mount was added behind them.
  merge_discovered_mounts-keeps :
      (drives : ℕ → Bool) (preferred mounts : List MountConfig)
      → (extra : List MountConfig) × (merge_discovered_mounts q n volumes drives preferred mounts
          ≡ (mounts ++ extra, not (is_empty extra)))
  unfolding merge_discovered_mounts
  merge_discovered_mounts-keeps drives preferred mounts =
      merge_loop-keeps preferred (used_drive_letters q drives mounts) volumes mounts false

-- A mount on a letter from D to Z that is not among the used ones.
abbrev pub Fresh : List ℕ → MountConfig → Type 0
Fresh used m =
    (c : ℕ) × (m.mount ≡ c ∷ 58 ∷ []) × (68 ≤ c) × (c ≤ 90) × (contains_letter c used ≡ false)

abbrev default_mount : Text → Text → MountConfig
default_mount target mount = record {
  target = target;
  mount = mount;
  read_only = false;
  allow_raw_writes = true;
  enabled = true;
}

new_mount_for-Fresh :
    (q : Qt) (used : List ℕ) (v : DiscoveredApfsVolume)
    → (new_mount_for q [] used v ≡ (default_mount v.target [], used))
      ⊎ ((c : ℕ) × (new_mount_for q [] used v ≡ (default_mount v.target (c ∷ 58 ∷ []), c ∷ used))
          × Fresh used (default_mount v.target (c ∷ 58 ∷ [])))
unfolding new_mount_for preferred_mount_for_target next_available_mount
new_mount_for-Fresh q used v = elim (Option-cases (next_letter 23 used)) [
  | inl e ↦ inl (rw (e, new_mount_for, next_available_mount) refl)
  | inr (c, e) ↦
      let (lo, hi, free) = next_letter-some 23 used e in
      inr (c, rw (e, new_mount_for, next_available_mount) refl, (c, refl, lo, omega arith, free))
]

Fresh-cons :
    (c : ℕ) (used : List ℕ) (m : MountConfig)
    → Fresh (c ∷ used) m
    → Fresh used m × ((c ∷ 58 ∷ []) ≢ m.mount)
Fresh-cons c used m (d, e, lo, hi, free) = ((d, e, lo, hi, ground arith), λ p. apart (p ∙ e))
  where
    apart : ¬ ◌≡◌ {A = Text} (c ∷ 58 ∷ []) (d ∷ 58 ∷ [])
    apart p = let same : c ≡ d = cc in ground arith

module _ (q : Qt) (n : Names) (volumes : List DiscoveredApfsVolume) where
  abbrev pub Drives : List ℕ → List MountConfig → Type 0
  Drives used extra = All (Fresh used) extra × Pairs (λ a b. a.mount ≢ b.mount) extra

  merge_loop-Fresh :
      (used : List ℕ) (vs : List DiscoveredApfsVolume) (mounts : List MountConfig) (changed : Bool)
      → (extra : List MountConfig) × ((merge_loop q n volumes [] used vs mounts changed).0
          ≡ mounts ++ extra)
        × Drives used extra
  unfolding merge_loop
  merge_loop-Fresh used [] mounts changed = ([], sym (append-nil mounts), (tt, tt))
  merge_loop-Fresh used (v ∷ vs) mounts changed =
      elim (Bool-cases (any (refers q n volumes v.target) mounts)) [
        | inl e ↦
            let (extra, h, d) = merge_loop-Fresh used vs mounts changed in
            (extra, rw (e, merge_loop) h, d)
        | inr e ↦ elim (new_mount_for-Fresh q used v) [
          | inl x ↦
              let (extra, h, d) = merge_loop-Fresh used vs mounts changed in
              (extra, rw (e, merge_loop, x, x) h, d)
          | inr (c, x, fresh) ↦
              let new = default_mount v.target (c ∷ 58 ∷ []) in
              let (extra, h, (a, o)) = merge_loop-Fresh (c ∷ used) vs (mounts ++ new ∷ []) true in
              let both = λ (m : MountConfig) (f : Fresh (c ∷ used) m). Fresh-cons c used m f in
              (
                new ∷ extra,
                rw (e, merge_loop, x, x) (h ∙ append_assoc mounts (new ∷ []) extra),
                (
                  (
                    fresh,
                    All-mono (Fresh (c ∷ used)) {Q = Fresh used} (λ m f. (both m f).0) extra a,
                  ),
                  (
                    All-mono (Fresh (c ∷ used)) {Q = λ m. new.mount ≢ m.mount} (λ m f. (both m f).1)
                        extra a,
                    o,
                  ),
                ),
              )
        ]
      ]

  -- Without preferred mounts, each mount that discovery adds has a drive from D: to Z: whose letter
  -- is no logical drive and no configured mount's, and no two added mounts share a drive.
  pub merge_discovered_mounts-Fresh :
      (drives : ℕ → Bool) (mounts : List MountConfig)
      → (extra : List MountConfig) × ((merge_discovered_mounts q n volumes drives [] mounts).0
          ≡ mounts ++ extra)
        × Drives (used_drive_letters q drives mounts) extra
  unfolding merge_discovered_mounts
  merge_discovered_mounts-Fresh drives mounts =
      merge_loop-Fresh (used_drive_letters q drives mounts) volumes mounts false
