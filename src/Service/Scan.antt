-- ===== src/Service/Scan.antt =====
-- src/service/apfs_mount_service.cpp: discoverApfsVolumes, which looks at the physical drives and
-- their partitions for APFS volumes. A JSON object that it makes is a record of its fields, where
-- `none` is a field that is not inserted.
pub mod Order
pub mod Sound
pub mod Regions
use apfs_for_windows.Common.{
  Bool, List, Option, Qt, Text, [], any, codes, false, inl, inr, is_empty, keep, ltb, map, min,
  none, not, some, suc, text_eq, true, zero, ℕ, ◌+◌, ◌*◌, ◌⊎◌, ◌&&◌, ◌||◌, ◌∷◌, ◌++◌, ◌==◌,
  if◌then◌else◌,
}
use apfs_for_windows.Service.Partition.{
  Device, PartitionCandidate, Guid, Scheme, gpt, mbr, read_partitions, ◌>>=◌,
}
use apfs_for_windows.Service.Target.{
  DiscoveredApfsVolume, physical_prefix, partition_prefix, partition_marker,
}

-- sak::PartitionFileSystemDetection
pub record Detection : Type 0 where
  pub file_system : Text
  pub source : Text
  pub total_bytes : ℕ
  pub free_bytes : ℕ
  pub details : List Text

-- What listRootEntries shows of an entry.
pub record RootEntry : Type 0 where
  pub name : Text
  pub path : Text
  pub kind : Text
  pub object_id : ℕ
  pub size_bytes : ℕ
  pub is_directory : Bool
  pub is_regular_file : Bool
  pub is_symlink : Bool

-- The drives and the APFS core: opening a drive gives its error or the device, detecting at an offset
-- of a drive gives a detection and an error text, and listing reads the root of the APFS volume in a
-- part of a drive. `number` is the decimal text that arg() puts in.
pub record Drives : Type 0 where
  pub opens : ℕ → Text ⊎ Device
  pub detect : ℕ → ℕ → ℕ → Option Detection × Text
  pub list_root : ℕ → ℕ → ℕ → ℕ → List RootEntry
  pub number : ℕ → Text

pub data Kind : Type 0 where
  whole_device gpt_partition mbr_partition : Kind

-- DiscoveredApfsVolume: `volume` has the disk, the target and the partition's number and offset.
pub record FoundVolume : Type 0 where
  pub volume : DiscoveredApfsVolume
  pub kind : Kind
  pub detection : Detection
  pub root_entries : List RootEntry

pub record PartitionReport : Type 0 where
  pub partition : PartitionCandidate
  pub detection : Option Detection
  pub detection_error : Option Text

pub record OpenReport : Type 0 where
  pub size_bytes : ℕ
  pub whole_device_detection : Option Detection
  pub whole_device_detection_error : Option Text
  pub partitions : List PartitionReport
  pub gpt_partitions : List PartitionReport

pub record DiskReport : Type 0 where
  pub disk_index : ℕ
  pub target : Text
  pub outcome : Text ⊎ OpenReport

pub record DiscoveryScan : Type 0 where
  pub disks : List DiskReport
  pub volumes : List FoundVolume

abbrev pub fallback_probe_bytes : ℕ
fallback_probe_bytes = 1024 * 1024 * 1024

-- kApfsGptTypeGuid, by its parts
abbrev pub apfs_gpt_type_guid : Guid
apfs_gpt_type_guid = record {
  d1 = 0x7c3457ef;
  d2 = 0;
  d3 = 0x11aa;
  tail = 0xaa ∷ 0x11 ∷ 0x00 ∷ 0x30 ∷ 0x65 ∷ 0x43 ∷ 0xec ∷ 0xac ∷ [];
}

abbrev pub same_guid : Guid → Guid → Bool
same_guid a b = a.d1 == b.d1 && a.d2 == b.d2 && a.d3 == b.d3 && text_eq a.tail b.tail

abbrev pub is_apfs_type : Option Guid → Bool
is_apfs_type none = false
is_apfs_type (some g) = same_guid g apfs_gpt_type_guid

abbrev pub is_gpt : Scheme → Bool
is_gpt gpt = true
is_gpt mbr = false

abbrev pub text_if_any : Text → Option Text
text_if_any t = if is_empty t then none else some t

-- scan.volumes.append, where there is a volume.
abbrev pub add_volume : Option FoundVolume → List FoundVolume → List FoundVolume
add_volume none rest = rest
add_volume (some v) rest = v ∷ rest

-- apfsPartitionAtDeviceStart
abbrev pub starts_device : List FoundVolume → Bool
starts_device = any (λ v. v.volume.offset_bytes == 0)

abbrev pub probe_bytes : Device → ℕ
probe_bytes device = if ltb 0 device.size then device.size else fallback_probe_bytes

-- The volume on the whole device, if any, comes last, and only where no partition starts the device.
abbrev pub add_whole : Option FoundVolume → List FoundVolume → List FoundVolume
add_whole none found = found
add_whole (some w) found = if starts_device found then found else found ++ w ∷ []

module _ (q : Qt) (d : Drives) where
  pub physical_drive_path : ℕ → Text
  physical_drive_path disk = physical_prefix ++ d.number disk

  pub partition_device_path : ℕ → ℕ → Text
  partition_device_path disk partition =
      partition_prefix ++ (d.number disk ++ (partition_marker ++ d.number partition))

  pub is_apfs_detection : Detection → Bool
  is_apfs_detection x = q.equal_ci x.file_system (codes "APFS")

  -- The root entries where they are asked for; a window on a partition always opens to read.
  abbrev root_entries_of : Bool → ℕ → ℕ → ℕ → List RootEntry
  root_entries_of wanted disk offset size = if wanted then d.list_root disk offset size 100 else []

  -- The volume on the whole of a disk, if the detection there says APFS.
  pub whole_volume : Bool → ℕ → ℕ → Option FoundVolume
  unfolding is_apfs_detection physical_drive_path
  whole_volume wanted disk size = elim (d.detect disk 0 size).0 [
    | none ↦ none
    | some x ↦
        if is_apfs_detection x
        then some (record {
          volume = record {
            disk_index = disk;
            target = physical_drive_path disk;
            partition_index = 0;
            offset_bytes = 0;
          };
          kind = whole_device;
          detection = x;
          root_entries = root_entries_of wanted disk 0 size;
        })
        else none
  ]

  pub partition_volume : Bool → ℕ → PartitionCandidate → Option FoundVolume
  unfolding is_apfs_detection partition_device_path
  partition_volume wanted disk p = elim (d.detect disk p.offset_bytes p.size_bytes).0 [
    | none ↦ none
    | some x ↦
        if is_apfs_detection x
        then some (record {
          volume = record {
            disk_index = disk;
            target = partition_device_path disk p.index;
            partition_index = p.index;
            offset_bytes = p.offset_bytes;
          };
          kind = if is_gpt p.scheme then gpt_partition else mbr_partition;
          detection = x;
          root_entries = root_entries_of wanted disk p.offset_bytes p.size_bytes;
        })
        else none
  ]

  pub partition_report : ℕ → PartitionCandidate → PartitionReport
  partition_report disk p =
      let (found, error) = d.detect disk p.offset_bytes p.size_bytes in
      record {
        partition = p;
        detection = found;
        detection_error = elim found [
          | some x ↦ none
          | none ↦ if not (is_empty error) || is_apfs_type p.type_guid then some error else none
        ];
      }

  -- The volumes of the loop over the partitions.
  pub partition_volumes : Bool → ℕ → List PartitionCandidate → List FoundVolume
  unfolding partition_volume
  partition_volumes wanted disk [] = []
  partition_volumes wanted disk (p ∷ ps) =
      add_volume (partition_volume wanted disk p) (partition_volumes wanted disk ps)

  -- The volumes of one disk that is open: the partitions', then the whole device's.
  pub disk_volumes : Bool → ℕ → ℕ → List PartitionCandidate → List FoundVolume
  unfolding partition_volumes whole_volume
  disk_volumes wanted disk size partitions =
      add_whole (whole_volume wanted disk size) (partition_volumes wanted disk partitions)

  pub open_report : ℕ → ℕ → List PartitionCandidate → OpenReport
  unfolding partition_report
  open_report disk size partitions =
      let (found, error) = d.detect disk 0 size in
      let reports = map (partition_report disk) partitions in
      record {
        size_bytes = size;
        whole_device_detection = found;
        whole_device_detection_error = elim found [ some x ↦ none | none ↦ text_if_any error ];
        partitions = reports;
        gpt_partitions = keep (λ r. is_gpt r.partition.scheme) reports;
      }

  -- One round of the loop over the disks: `none` where a partition reader faults.
  pub scan_disk : Bool → ℕ → Option (DiskReport × List FoundVolume)
  unfolding open_report disk_volumes physical_drive_path
  scan_disk wanted disk = elim (d.opens disk) [
    | inl error ↦
        some
          (record { disk_index = disk; target = physical_drive_path disk; outcome = inl error }, [])
    | inr device ↦ read_partitions q device >>= λ partitions. some (
      record {
        disk_index = disk;
        target = physical_drive_path disk;
        outcome = inr (open_report disk (probe_bytes device) partitions);
      },
      disk_volumes wanted disk (probe_bytes device) partitions,
    )
  ]

  pub scan_disks : Bool → ℕ → ℕ → Option DiscoveryScan
  unfolding scan_disk
  scan_disks wanted disk zero = some (record { disks = []; volumes = [] })
  scan_disks wanted disk (suc left) = do
    (report, volumes) ← scan_disk wanted disk
    rest ← scan_disks wanted (disk + 1) left
    some (record { disks = report ∷ rest.disks; volumes = volumes ++ rest.volumes })

  -- discoverApfsVolumes, of a number of drives that is not negative.
  pub discover_apfs_volumes : ℕ → Bool → Option DiscoveryScan
  unfolding scan_disks
  discover_apfs_volumes max_physical_drives wanted =
      scan_disks wanted 0 (min max_physical_drives 128)
