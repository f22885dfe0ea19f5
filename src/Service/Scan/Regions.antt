-- ===== src/Service/Scan/Regions.antt =====
-- The volumes of one disk, and of all the disks that discoverApfsVolumes looks at.
use apfs_for_windows.Common.{List, Memᴰ, Qt, inr, some, ℕ, ◌≤◌, ◌<◌, ◌≡◌, ◌⊎◌}
use apfs_for_windows.Service.Partition.{Device, PartitionCandidate, read_partitions}
use apfs_for_windows.Service.Scan.{Drives, FoundVolume, probe_bytes}
use apfs_for_windows.Service.Scan.Sound.{IsWhole, IsVolumeOf}

module _ (q : Qt) (d : Drives) where
  -- The partition tables of the disk name the region that the volume is on, or it is on the whole.
  pub record IsFound (first n : ℕ) (v : FoundVolume) : Type 0 where
    pub disk : ℕ
    pub disk_from : first ≤ disk
    pub disk_below : disk < n
    pub device : Device
    pub opened : d.opens disk ≡ inr device
    pub partitions : List PartitionCandidate
    pub read : read_partitions q device ≡ some partitions
    pub region :
        IsWhole q d disk (probe_bytes device) v
        ⊎ ((p : PartitionCandidate) × Memᴰ p partitions × IsVolumeOf q d disk p v)
