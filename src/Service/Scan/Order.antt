-- ===== src/Service/Scan/Order.antt =====
-- The order of the volumes: no two of them are one region of a disk.
use apfs_for_windows.Common.{
  All, All-append, Bool, List, Option, Pairs, Qt, [], arith, false, inl, inr, none, refl, some, ℕ,
  ◌<◌, ◌≡◌, ◌⊎◌, ◌∷◌, ◌++◌, ◌==◌,
}
use apfs_for_windows.Service.Partition.{PartitionCandidate}
use apfs_for_windows.Service.Scan.{
  Drives, FoundVolume, add_volume, partition_volume, partition_volumes,
}
use apfs_for_windows.Service.Scan.Sound.{
  IsWhole, IsVolumeOf, partition_volume-IsVolumeOf, partition_volumes-All,
}

-- `a` is found before `b`: on a disk before, or on the same disk with a lower partition number, or
-- as a partition behind the start of the disk that `b` is on the whole of.
abbrev pub Before : FoundVolume → FoundVolume → Type 0
Before a b =
    (a.volume.disk_index < b.volume.disk_index)
    ⊎ ((a.volume.disk_index ≡ b.volume.disk_index)
        × (0 < a.volume.partition_index)
        × ((a.volume.partition_index < b.volume.partition_index)
            ⊎ ((b.volume.partition_index ≡ 0) × ¬ (a.volume.offset_bytes ≡ 0))))

module _ {ℓ κ} {A : Type ℓ} (R : A → A → Type κ) where
  pub Pairs-append :
      (xs ys : List A) → Pairs R xs → Pairs R ys → All (λ x. All (R x) ys) xs → Pairs R (xs ++ ys)
  Pairs-append [] ys h k a = k
  Pairs-append (x ∷ xs) ys h k a = (All-append (R x) xs ys h.0 a.0, Pairs-append xs ys h.1 k a.1)

module _ {ℓ} {A : Type ℓ} where
  pub All-zip {κ} :
      {P Q R : A → Type κ}
      → ((a : A) → P a → Q a → R a)
      → (xs : List A) → All P xs
      → All Q xs
      → All R xs
  All-zip f [] h k = tt
  All-zip f (x ∷ xs) h k = (f x h.0 k.0, All-zip f xs h.1 k.1)

pub Pairs-add :
    (R : FoundVolume → FoundVolume → Type 0) (o : Option FoundVolume) (rest : List FoundVolume)
    → ((x : FoundVolume) → o ≡ some x → All (R x) rest)
    → Pairs R rest
    → Pairs R (add_volume o rest)
Pairs-add R none rest k h = h
Pairs-add R (some x) rest k h = (k x refl, h)

module _ (q : Qt) (d : Drives) where
  Before-next :
      (disk : ℕ) (p p' : PartitionCandidate) (v v' : FoundVolume)
      → 0 < p.index
      → p.index < p'.index
      → IsVolumeOf q d disk p v
      → IsVolumeOf q d disk p' v'
      → Before v v'
  Before-next disk p p' v v' pos lt a b =
      let da = a.detected.on_disk in
      let db = b.detected.on_disk in
      let pa = a.of_partition in
      let pb = b.of_partition in inr (omega arith, omega arith, inl (omega arith))

  pub partition_volumes-Before :
      (wanted : Bool) (disk : ℕ) (ps : List PartitionCandidate)
      → All (λ p. 0 < p.index) ps
      → Pairs (λ a b. a.index < b.index) ps
      → Pairs Before (partition_volumes q d wanted disk ps)
  unfolding partition_volumes
  partition_volumes-Before wanted disk [] a o = tt
  partition_volumes-Before wanted disk (p ∷ ps) a o =
      Pairs-add Before (partition_volume q d wanted disk p) _
        (λ v e.
          partition_volumes-All q d wanted disk (λ p'. p.index < p'.index) (Before v)
            (λ p' v' lt f.
              Before-next disk p p' v v' a.0 lt (partition_volume-IsVolumeOf q d wanted disk p e) f)
            ps o.0)
        (partition_volumes-Before wanted disk ps a.1 o.1)

  -- The volume on the whole of a disk comes after its partitions, when none of them starts the disk.
  pub Before-whole :
      (disk size : ℕ) (w : FoundVolume)
      → IsWhole q d disk size w
      → (v : FoundVolume) → (v.volume.disk_index ≡ disk) × (0 < v.volume.partition_index)
      → (v.volume.offset_bytes == 0) ≡ false
      → Before v w
  Before-whole disk size w is v (on, pos) away =
      let dw = is.detected.on_disk in
      let nw = is.no_partition in inr (omega arith, pos, inr (nw, λ e. ground arith))

  pub partition_volumes-OnDisk :
      (wanted : Bool) (disk : ℕ) (ps : List PartitionCandidate)
      → All (λ p. 0 < p.index) ps
      → All
          (λ v. (v.volume.disk_index ≡ disk) × (0 < v.volume.partition_index))
          (partition_volumes q d wanted disk ps)
  partition_volumes-OnDisk wanted disk ps a =
      partition_volumes-All q d wanted disk (λ p. 0 < p.index)
        (λ v. (v.volume.disk_index ≡ disk) × (0 < v.volume.partition_index))
        (λ p v pos is. (let e = is.of_partition in let o = is.detected.on_disk in (o, omega arith)))
        ps a
