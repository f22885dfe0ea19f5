-- ===== src/Service/Tests/Disks.antt =====
-- The theorems on partition tables and on the scan of the drives, applied to a small disk.
use apfs_for_windows.Common.{
  All, All-drop, All-take, Text, [], all, arith, ascii_qt, codes, drop, inl, inr, length,
  length-take, ltb, none, refl, some, suc, take, true, zero, ℕ, ◌+◌, ◌<◌, ◌≡◌, ◌⊎◌, ◌∷◌, ◌++◌, ◌==◌,
  if◌then◌else◌,
}
use apfs_for_windows.Service.Partition.{Device, IsDevice, read_partitions}
use apfs_for_windows.Service.Partition.Bytes.{Gives}
use apfs_for_windows.Service.Partition.Entries.{InOrder}
use apfs_for_windows.Service.Partition.Total.{read_partitions-Gives}
use apfs_for_windows.Service.Scan.{Drives, Detection}

-- A device that holds these bytes.
abbrev device_of : Text → Device
device_of bytes = record { read = λ offset n. take n (drop offset bytes); size = length bytes }

device_of-IsDevice : (bytes : Text) → All (λ b. b < 256) bytes → IsDevice (device_of bytes)
device_of-IsDevice bytes h = record {
  read_le = λ offset n. omega (arith, length-take n (drop offset bytes));
  read_bytes = λ offset n. All-take _ n _ (All-drop _ offset bytes h);
}

abbrev repeat : ℕ → ℕ → Text
repeat zero b = []
repeat (suc n) b = b ∷ repeat n b

repeat-All : (n b : ℕ) → b < 256 → All (λ x. x < 256) (repeat n b)
repeat-All zero b h = tt
repeat-All (suc n) b h = (h, repeat-All n b h)

-- A sector with one entry, of the type 0xaf, from sector 1 on and one sector long.
abbrev entry_bytes : Text
entry_bytes = 0 ∷ 0 ∷ 0 ∷ 0 ∷ 175 ∷ 0 ∷ 0 ∷ 0 ∷ 1 ∷ 0 ∷ 0 ∷ 0 ∷ 1 ∷ 0 ∷ 0 ∷ 0 ∷ []

abbrev disk : Text
disk = repeat 446 0 ++ entry_bytes ++ repeat 48 0 ++ (85 ∷ 170 ∷ []) ++ repeat 512 0

disk-IsDevice : IsDevice (device_of disk)
disk-IsDevice = device_of-IsDevice disk (All_below-sound disk refl)
  where
    All_below-sound : (xs : Text) → all (λ x. ltb x 256) xs ≡ true → All (λ x. x < 256) xs
    All_below-sound [] h = tt
    All_below-sound (x ∷ xs) h = (ground arith, All_below-sound xs (ground arith))

read_partitions-Gives_example :
    Gives (read_partitions ascii_qt (device_of disk)) (InOrder 0 0 131072)
read_partitions-Gives_example = read_partitions-Gives ascii_qt (device_of disk) disk-IsDevice

-- Two drives: the first holds the disk, with APFS on the partition, the second does not open.
abbrev apfs_detection : Detection
apfs_detection = record {
  file_system = codes "apfs";
  source = codes "nxsb";
  total_bytes = 512;
  free_bytes = 0;
  details = [];
}

abbrev open_drive : ℕ → Text ⊎ Device
open_drive zero = inr (device_of disk)
open_drive (suc k) = inl (codes "no drive")

abbrev two_drives : Drives
two_drives = record {
  opens = open_drive;
  detect = λ k offset size. (if offset == 512 then some apfs_detection else none, []);
  list_root = λ k offset size n. [];
  number = λ k. (k + 48) ∷ [];
}
