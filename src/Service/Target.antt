-- ===== src/Service/Target.antt =====
-- src/service/apfs_mount_service.cpp: raw targets, and which of them name one region of a disk.
use apfs_for_windows.Common.{
  Bool, List, Option, Qt, Text, codes, drop, false, find_if, length, none, not, some, suc, take,
  true, zero, ℕ, ◌+◌, ◌&&◌, ◌==◌, if◌then◌else◌,
}

-- The Qt and Windows functions on target names: toInt of a text, indexOf without case, the names
-- that arg() builds, and the offset that the partition's device reports.
pub record Names : Type 0 where
  pub to_int : Text → Option ℕ
  pub index_of_ci : Text → Text → Option ℕ
  pub physical_drive_path : ℕ → Text
  pub windows_partition_offset : Text → Option ℕ

-- What discovery found: the partition is none for a whole device (index 0 and offset 0).
pub record DiscoveredApfsVolume : Type 0 where
  pub disk_index : ℕ
  pub target : Text
  pub partition_index : ℕ
  pub offset_bytes : ℕ

pub record ParsedRawTarget : Type 0 where
  pub disk_index : ℕ
  pub partition_index : ℕ

abbrev pub physical_prefix : Text
physical_prefix = codes "\\\\.\\PhysicalDrive"

abbrev pub partition_prefix : Text
partition_prefix = codes "\\\\?\\GLOBALROOT\\Device\\Harddisk"

abbrev pub partition_marker : Text
partition_marker = codes "\\Partition"

-- The disk and partition numbers, where both are numbers, the partition not 0. A negative number is
-- refused as no number is.
pub parse_numbers : Option ℕ → Option ℕ → Option ParsedRawTarget
parse_numbers none partition = none
parse_numbers (some disk) none = none
parse_numbers (some disk) (some zero) = none
parse_numbers (some disk) (some (suc p)) =
    some (record { disk_index = disk; partition_index = suc p })

pub parse_raw_target : Qt → Names → Text → Option ParsedRawTarget
unfolding parse_numbers
parse_raw_target q n target =
    if q.starts_with_ci physical_prefix target
    then elim (n.to_int (drop (length physical_prefix) target)) [
      | none ↦ none
      | some disk ↦ some (record { disk_index = disk; partition_index = 0 })
    ]
    else (if not (q.starts_with_ci partition_prefix target)
        then none
        else (let suffix = drop (length partition_prefix) target in
            elim (n.index_of_ci suffix partition_marker) [
              | none ↦ none
              | some at ↦
                  if at == 0
                  then none
                  else parse_numbers (n.to_int (take at suffix))
                      (n.to_int (drop (at + length partition_marker) suffix))
            ]))

-- "disk:%1:offset:%2", by its two numbers.
abbrev pub Identity : Type 0
Identity = ℕ × ℕ

abbrev pub same_identity : Identity → Identity → Bool
same_identity (a, b) (c, d) = a == c && b == d

pub raw_target_identity : Qt → Names → List DiscoveredApfsVolume → Text → Option Identity
unfolding parse_raw_target
raw_target_identity q n volumes target = elim (parse_raw_target q n target) [
  | none ↦ none
  | some parsed ↦
      if parsed.partition_index == 0
      then some (parsed.disk_index, 0)
      else elim (find_if
          (λ v. v.disk_index == parsed.disk_index && v.partition_index == parsed.partition_index)
          volumes) [
            | some found ↦ some (parsed.disk_index, found.offset_bytes)
            | none ↦ elim (n.windows_partition_offset target) [
              | none ↦ none
              | some offset ↦ some (parsed.disk_index, offset)
            ]
          ]
]

pub same_some : Option Identity → Option Identity → Bool
same_some none b = false
same_some (some a) none = false
same_some (some a) (some b) = same_identity a b

pub targets_refer_to_same_raw_region : Qt → Names → List DiscoveredApfsVolume → Text → Text → Bool
unfolding raw_target_identity same_some
targets_refer_to_same_raw_region q n volumes left right =
    if q.equal_ci left right
    then true
    else same_some (raw_target_identity q n volumes left) (raw_target_identity q n volumes right)

-- canonicalDiscoveredTarget: the target, and whether it was an alias of a volume's.
pub canonical_discovered_target : Qt → Names → List DiscoveredApfsVolume → Text → Text × Bool
canonical_discovered_target q n volumes target =
    elim (find_if
      (λ v.
        not (v.partition_index == 0)
        && v.offset_bytes == 0
        && q.equal_ci target (n.physical_drive_path v.disk_index))
      volumes) [
        | some v ↦ (v.target, true)
        | none ↦ elim (find_if (λ v. q.equal_ci target v.target) volumes) [
          | some v ↦ (v.target, false)
          | none ↦ (target, false)
        ]
      ]
