-- ===== src/Service/Discovery.antt =====
-- src/service/apfs_mount_service.cpp: the mounts that discovery adds, and aliases of one region.
pub mod Letters
pub mod Merge
pub mod Linked
pub mod Aliases
use apfs_for_windows.Common.{
  Bool, List, Option, Qt, Text, [], any, false, find_if, get_or, is_empty, leb, length, map, none,
  not, some, suc, trimmed, true, zero, ℕ, ◌+◌, ◌&&◌, ◌||◌, ◌∷◌, ◌++◌, ◌==◌, if◌then◌else◌,
}
use apfs_for_windows.Service.Config.{MountConfig}
use apfs_for_windows.Service.Target.{
  Names, DiscoveredApfsVolume, Identity, parse_raw_target, raw_target_identity, same_some,
  targets_refer_to_same_raw_region, canonical_discovered_target,
}

abbrev pub contains_letter : ℕ → List ℕ → Bool
contains_letter c = any (λ x. x == c)

-- The letters of the bits set in GetLogicalDrives, from bit i on.
pub logical_letters : (ℕ → Bool) → ℕ → ℕ → List ℕ
logical_letters drives i zero = []
logical_letters drives i (suc left) =
    let rest = logical_letters drives (i + 1) left in if drives i then (65 + i) ∷ rest else rest

-- The letters of the mounts configured.
pub mount_letters : Qt → List MountConfig → List ℕ
mount_letters q [] = []
mount_letters q (m ∷ ms) =
    let t = q.to_upper (trimmed q m.mount) in
    let rest = mount_letters q ms in
    if leb 2 (length t) && get_or t 1 0 == 58 then get_or t 0 0 ∷ rest else rest

pub used_drive_letters : Qt → (ℕ → Bool) → List MountConfig → List ℕ
unfolding logical_letters mount_letters
used_drive_letters q drives mounts = logical_letters drives 0 26 ++ mount_letters q mounts

-- The loop from the letter 68 + k - 1 down to 68, which is D.
pub next_letter : ℕ → List ℕ → Option ℕ
next_letter zero used = none
next_letter (suc k) used =
    let rest = next_letter k used in if contains_letter (68 + k) used then rest else some (68 + k)

-- nextAvailableMount: Z down to D. The letter is marked as used.
pub next_available_mount : List ℕ → Text × List ℕ
unfolding next_letter
next_available_mount used = elim (next_letter 23 used) [
  | none ↦ ([], used)
  | some letter ↦ (letter ∷ 58 ∷ [], letter ∷ used)
]

pub preferred_mount_for_target : Qt → List MountConfig → Text → Option MountConfig
preferred_mount_for_target q preferred target = find_if (λ m. q.equal_ci m.target target) preferred

-- The mount for a volume that none refers to, with the letters then used.
pub new_mount_for : Qt → List MountConfig → List ℕ → DiscoveredApfsVolume → MountConfig × List ℕ
unfolding preferred_mount_for_target next_available_mount
new_mount_for q preferred used volume =
    elim (preferred_mount_for_target q preferred volume.target) [
      | some p ↦ (record p { target = volume.target }, used)
      | none ↦
          let (mount, used') = next_available_mount used in
          (
            record {
              target = volume.target;
              mount = mount;
              read_only = false;
              allow_raw_writes = true;
              enabled = true;
            },
            used',
          )
    ]

-- One mount kept by canonicalizeDiscoveredMountAliases, with its exactness and its identity.
pub record Kept : Type 0 where
  pub config : MountConfig
  pub exact : Bool
  pub identity : Option Identity

module _ (q : Qt) (n : Names) (volumes : List DiscoveredApfsVolume) where
  abbrev pub refers : Text → MountConfig → Bool
  refers target m = targets_refer_to_same_raw_region q n volumes m.target target

  -- The loop of mergeDiscoveredMounts, with `changed`.
  pub merge_loop :
      List MountConfig
      → List ℕ
      → List DiscoveredApfsVolume
      → List MountConfig
      → Bool
      → List MountConfig × Bool
  merge_loop preferred used [] mounts changed = (mounts, changed)
  merge_loop preferred used (v ∷ vs) mounts changed = elim (any (refers v.target) mounts) [
    | true ↦ merge_loop preferred used vs mounts changed
    | false ↦
        let (new, used') = new_mount_for q preferred used v in
        elim (is_empty new.mount) [
          | true ↦ merge_loop preferred used' vs mounts changed
          | false ↦ merge_loop preferred used' vs (mounts ++ new ∷ []) true
        ]
  ]

  pub merge_discovered_mounts :
      (ℕ → Bool) → List MountConfig → List MountConfig → List MountConfig × Bool
  unfolding merge_loop used_drive_letters
  merge_discovered_mounts drives preferred mounts =
      merge_loop preferred (used_drive_letters q drives mounts) volumes mounts false

  pub candidate_of : MountConfig → Kept × Bool
  candidate_of m =
      let (target, was_alias) = canonical_discovered_target q n volumes m.target in
      let exact = not was_alias && elim (parse_raw_target q n target) [
        | none ↦ false
        | some p ↦ not (p.partition_index == 0)
      ] in
      (
        record {
          config = record m { target = target };
          exact = exact;
          identity = raw_target_identity q n volumes target;
        },
        was_alias,
      )

  abbrev pub duplicates : Kept → Kept → Bool
  duplicates candidate k =
      q.equal_ci k.config.target candidate.config.target || same_some candidate.identity k.identity

  -- The first duplicate gives way to an exact candidate, if it is not exact itself.
  pub replace_first : Kept → List Kept → List Kept
  replace_first c [] = []
  replace_first c (k ∷ ks) =
      if duplicates c k
      then (if c.exact && not k.exact then c ∷ ks else k ∷ ks)
      else k ∷ replace_first c ks

  pub aliases_loop : List MountConfig → List Kept → Bool → List Kept × Bool
  aliases_loop [] kept changed = (kept, changed)
  aliases_loop (m ∷ ms) kept changed =
      let (c, was_alias) = candidate_of m in
      elim (any (duplicates c) kept) [
        | false ↦ aliases_loop ms (kept ++ c ∷ []) (changed || was_alias)
        | true ↦ aliases_loop ms (replace_first c kept) true
      ]

  pub canonicalize_discovered_mount_aliases : List MountConfig → List MountConfig × Bool
  unfolding aliases_loop
  canonicalize_discovered_mount_aliases mounts =
      let (kept, changed) = aliases_loop mounts [] false in
      (if changed then map (λ k. k.config) kept else mounts, changed)
