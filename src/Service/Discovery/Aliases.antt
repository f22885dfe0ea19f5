-- ===== src/Service/Discovery/Aliases.antt =====
-- canonicalizeDiscoveredMountAliases: what it keeps.
use apfs_for_windows.Common.{All, Bool, List, Memᴰ, Qt, false, length, map, true, ◌<◌, ◌≡◌, ◌⊎◌}
use apfs_for_windows.Service.Config.{MountConfig}
use apfs_for_windows.Service.Target.{Names, DiscoveredApfsVolume}
use apfs_for_windows.Service.Discovery.Linked.{Linked}
use apfs_for_windows.Service.Discovery.{Kept, candidate_of}

module _ (q : Qt) (n : Names) (volumes : List DiscoveredApfsVolume) where
  -- A mount of the list with its canonical target.
  abbrev pub Canonical : List MountConfig → Kept → Type 0
  Canonical mounts k = (m : MountConfig) × Memᴰ m mounts × (k ≡ (candidate_of q n volumes m).0)

  -- What a canonicalization makes of the mounts.
  pub data IsCanonical (mounts : List MountConfig) : List MountConfig × Bool → Type 0 where
    unchanged :
        All (λ m. (candidate_of q n volumes m).1 ≡ false) mounts
        → IsCanonical mounts (mounts, false)
    changes :
        (kept : List Kept)
        → ((m : MountConfig) × Memᴰ m mounts × ((candidate_of q n volumes m).1 ≡ true))
          ⊎ (length kept < length mounts)
        → All (Canonical mounts) kept
        → ((m : MountConfig) → Memᴰ m mounts → (k : Kept) × Memᴰ k kept × Linked q n volumes m k)
        → IsCanonical mounts (map (λ k. k.config) kept, true)
