-- ===== src/Service/Scan/Sound.antt =====
-- Where the volumes of one disk come from.
use apfs_for_windows.Common.{
  All, Bool, Bool-cases, List, Option, Option-cases, Qt, [], inl, inr, none, refl, some, some-eq,
  true, ℕ, ◌≡◌, ◌∷◌,
}
use apfs_for_windows.Service.Partition.{PartitionCandidate}
use apfs_for_windows.Service.Scan.{
  add_volume, Drives, FoundVolume, physical_drive_path, partition_device_path, is_apfs_detection,
  whole_volume, partition_volume, partition_volumes,
}

pub All-add :
    {P : FoundVolume → Type 0} (o : Option FoundVolume) (rest : List FoundVolume)
    → ((v : FoundVolume) → o ≡ some v → P v)
    → All P rest
    → All P (add_volume o rest)
All-add none rest k a = a
All-add (some v) rest k a = (k v refl, a)

module _ (q : Qt) (d : Drives) where
  -- A volume that was found in `size` bytes of a disk at an offset, where the detection says APFS.
  pub record IsDetected (disk offset size : ℕ) (v : FoundVolume) : Type 0 where
    pub on_disk : v.volume.disk_index ≡ disk
    pub at_offset : v.volume.offset_bytes ≡ offset
    pub detected : (d.detect disk offset size).0 ≡ some v.detection
    pub is_apfs : is_apfs_detection q d v.detection ≡ true

  pub record IsWhole (disk size : ℕ) (v : FoundVolume) : Type 0 where
    pub detected : IsDetected disk 0 size v
    pub no_partition : v.volume.partition_index ≡ 0
    pub names_drive : v.volume.target ≡ physical_drive_path q d disk

  pub record IsVolumeOf (disk : ℕ) (p : PartitionCandidate) (v : FoundVolume) : Type 0 where
    pub detected : IsDetected disk p.offset_bytes p.size_bytes v
    pub of_partition : v.volume.partition_index ≡ p.index
    pub names_partition : v.volume.target ≡ partition_device_path q d disk p.index

  pub whole_volume-IsWhole :
      (wanted : Bool) (disk size : ℕ) {v : FoundVolume}
      → whole_volume q d wanted disk size ≡ some v
      → IsWhole disk size v
  unfolding whole_volume
  whole_volume-IsWhole wanted disk size {v} h = elim (Option-cases (d.detect disk 0 size).0) [
    | inl e ↦ cc (rw (whole_volume, e) at h)
    | inr (x, e) ↦ elim (Bool-cases (is_apfs_detection q d x)) [
      | inr other ↦ cc (rw (whole_volume, e, other) at h)
      | inl apfs ↦
          let same = some-eq (rw (whole_volume, e, apfs) at h) in
          rw (← same) (record {
            detected = record { on_disk = refl; at_offset = refl; detected = e; is_apfs = apfs };
            no_partition = refl;
            names_drive = refl;
          })
    ]
  ]

  pub partition_volume-IsVolumeOf :
      (wanted : Bool) (disk : ℕ) (p : PartitionCandidate) {v : FoundVolume}
      → partition_volume q d wanted disk p ≡ some v
      → IsVolumeOf disk p v
  unfolding partition_volume
  partition_volume-IsVolumeOf wanted disk p {v} h =
      elim (Option-cases (d.detect disk p.offset_bytes p.size_bytes).0) [
        | inl e ↦ cc (rw (partition_volume, e) at h)
        | inr (x, e) ↦ elim (Bool-cases (is_apfs_detection q d x)) [
          | inr other ↦ cc (rw (partition_volume, e, other) at h)
          | inl apfs ↦
              let same = some-eq (rw (partition_volume, e, apfs) at h) in
              rw (← same) (record {
                detected = record {
                  on_disk = refl;
                  at_offset = refl;
                  detected = e;
                  is_apfs = apfs;
                };
                of_partition = refl;
                names_partition = refl;
              })
        ]
      ]

  -- What holds of the volume of every partition holds of every volume of the partitions.
  pub partition_volumes-All :
      (wanted : Bool) (disk : ℕ) (Q : PartitionCandidate → Type 0) (P : FoundVolume → Type 0)
      → ((p : PartitionCandidate) (v : FoundVolume) → Q p → IsVolumeOf disk p v → P v)
      → (ps : List PartitionCandidate) → All Q ps
      → All P (partition_volumes q d wanted disk ps)
  unfolding partition_volumes
  partition_volumes-All wanted disk Q P k [] a = tt
  partition_volumes-All wanted disk Q P k (p ∷ ps) a =
      All-add (partition_volume q d wanted disk p) _
        (λ v e. k p v a.0 (partition_volume-IsVolumeOf wanted disk p e))
        (partition_volumes-All wanted disk Q P k ps a.1)
