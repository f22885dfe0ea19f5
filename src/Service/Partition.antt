-- ===== src/Service/Partition.antt =====
-- src/service/apfs_mount_service.cpp: readGpt, readMbr and readPartitions. A device is what its
-- reads return: `read offset n` is seek(offset) and read(n), and gives at most n bytes; `size` is
-- QIODevice::size. A byte that the code reads past the end of an array is a fault, `none`.
pub mod Bytes
pub mod Total
pub mod Entries
use apfs_for_windows.Common.{
  All, Bool, List, Option, Qt, Text, [], all, codes, drop, false, get_elem?, is_empty, leb, length,
  ltb, none, not, some, suc, take, text_eq, trimmed, true, zero, ℕ, ◌+◌, ◌-◌, ◌*◌, ◌/◌, ◌%◌, ◌^◌,
  ◌≤◌, ◌<◌, ◌&&◌, ◌||◌, ◌∷◌, ◌==◌, if◌then◌else◌,
}

abbrev pub u64 : ℕ → ℕ
u64 n = n % 18446744073709551616

abbrev pub sector_bytes : ℕ
sector_bytes = 512

infixl 5 ◌>>=◌
abbrev pub ◌>>=◌ {ℓ κ} : {A : Type ℓ} {B : Type κ} → Option A → (A → Option B) → Option B
none >>= f = none
some a >>= f = f a

-- bytes.at(i)
abbrev pub byte_at : Text → ℕ → Option ℕ
byte_at bytes i = get_elem? bytes i

pub le16 : Text → ℕ → Option ℕ
le16 bytes offset = do
  p0 ← byte_at bytes offset
  p1 ← byte_at bytes (offset + 1)
  some (p0 + p1 * 2 ^ 8)

pub le32 : Text → ℕ → Option ℕ
le32 bytes offset = do
  p0 ← byte_at bytes offset
  p1 ← byte_at bytes (offset + 1)
  p2 ← byte_at bytes (offset + 2)
  p3 ← byte_at bytes (offset + 3)
  some (p0 + p1 * 2 ^ 8 + p2 * 2 ^ 16 + p3 * 2 ^ 24)

-- for (i = 7; i >= 0; --i) value = (value << 8) | bytes.at(offset + i)
pub le64_loop : Text → ℕ → ℕ → ℕ → Option ℕ
le64_loop bytes offset zero value = some value
le64_loop bytes offset (suc i) value = elim (byte_at bytes (offset + i)) [
  | none ↦ none
  | some b ↦ le64_loop bytes offset i (u64 (value * 2 ^ 8) + b)
]

pub le64 : Text → ℕ → Option ℕ
unfolding le64_loop
le64 bytes offset = le64_loop bytes offset 8 0

-- A GUID by its parts: d1, d2, d3 and the eight bytes of the tail. `none` in the result is the empty
-- string, which guidString returns where the entry is too short.
pub record Guid : Type 0 where
  pub d1 : ℕ
  pub d2 : ℕ
  pub d3 : ℕ
  pub tail : Text

pub tail_bytes : Text → ℕ → ℕ → Option Text
tail_bytes entry offset zero = some []
tail_bytes entry offset (suc n) = do
  b ← byte_at entry offset
  rest ← tail_bytes entry (offset + 1) n
  some (b ∷ rest)

pub guid_string : Text → ℕ → Option (Option Guid)
unfolding tail_bytes le16 le32
guid_string entry offset = if ltb (length entry) (offset + 16) then some none else (do
  d1 ← le32 entry offset
  d2 ← le16 entry (offset + 4)
  d3 ← le16 entry (offset + 6)
  tail ← tail_bytes entry (offset + 8) 8
  some (some (record { d1 = d1; d2 = d2; d3 = d3; tail = tail })))

pub is_zero_guid : Guid → Bool
is_zero_guid g = g.d1 == 0 && g.d2 == 0 && g.d3 == 0 && all (λ b. b == 0) g.tail

-- The units of the name up to a zero, two bytes each; `rounds` is bytes / 2.
pub utf16_loop : Text → ℕ → ℕ → Option Text
unfolding le16
utf16_loop entry offset zero = some []
utf16_loop entry offset (suc rounds) = elim (le16 entry offset) [
  | none ↦ none
  | some ch ↦ elim (ch == 0) [
    | true ↦ some []
    | false ↦ utf16_loop entry (offset + 2) rounds >>= λ out. some (ch ∷ out)
  ]
]

pub utf16_name : Qt → Text → ℕ → ℕ → Option Text
unfolding utf16_loop
utf16_name q entry offset bytes = do out ← utf16_loop entry offset (bytes / 2); some (trimmed q out)

pub data Scheme : Type 0 where
  gpt mbr : Scheme

pub record PartitionCandidate : Type 0 where
  pub index : ℕ
  pub scheme : Scheme
  pub type_guid : Option Guid
  pub mbr_type : ℕ
  pub unique_guid : Option Guid
  pub name : Text
  pub offset_bytes : ℕ
  pub size_bytes : ℕ

pub record Device : Type 0 where
  pub read : ℕ → ℕ → Text
  pub size : ℕ

-- What QIODevice::read documents: at most `n` units, each of them a byte.
pub record IsDevice (d : Device) : Type 0 where
  pub read_le : (offset n : ℕ) → length (d.read offset n) ≤ n
  pub read_bytes : (offset n : ℕ) → All (λ b. b < 256) (d.read offset n)

abbrev pub gpt_signature : Text
gpt_signature = codes "EFI PART"

abbrev pub gpt_partition : ℕ → Guid → Option Guid → Text → ℕ → ℕ → PartitionCandidate
gpt_partition i g unique name first_lba last_lba = record {
  index = i + 1;
  scheme = gpt;
  type_guid = some g;
  mbr_type = 0;
  unique_guid = unique;
  name = name;
  offset_bytes = u64 (first_lba * sector_bytes);
  size_bytes = u64 ((last_lba - first_lba + 1) * sector_bytes);
}

abbrev pub mbr_partition : ℕ → ℕ → ℕ → ℕ → PartitionCandidate
mbr_partition i type first_lba sector_count = record {
  index = i + 1;
  scheme = mbr;
  type_guid = none;
  mbr_type = type;
  unique_guid = none;
  name = [];
  offset_bytes = u64 (first_lba * sector_bytes);
  size_bytes = u64 (sector_count * sector_bytes);
}

-- An entry whose type is set, at its index from 0: none where its last block is before its first.
pub gpt_range : Qt → Text → ℕ → Guid → Option (Option PartitionCandidate)
unfolding guid_string le64 utf16_name
gpt_range q entry i g = do
  first_lba ← le64 entry 32
  last_lba ← le64 entry 40
  unique ← guid_string entry 16
  name ← utf16_name q entry 56 72
  some (
      if ltb last_lba first_lba
      then none
      else some (gpt_partition i g unique name first_lba last_lba))

-- One entry of the table: none where the loop continues without a partition.
pub gpt_entry : Qt → Text → ℕ → Option (Option PartitionCandidate)
unfolding gpt_range is_zero_guid guid_string
gpt_entry q entry i = do
  type_guid ← guid_string entry 0
  elim type_guid [
    | none ↦ some none
    | some g ↦ if is_zero_guid g then some none else gpt_range q entry i g
  ]

-- partitions.append, or continue.
abbrev pub add_found : Option PartitionCandidate → List PartitionCandidate → List PartitionCandidate
add_found none rest = rest
add_found (some p) rest = p ∷ rest

-- The loop over the entries, from index i; i * entrySize is a product of 32-bit numbers.
pub gpt_entries : Qt → Text → ℕ → ℕ → ℕ → Option (List PartitionCandidate)
unfolding gpt_entry
gpt_entries q table entry_size i zero = some []
gpt_entries q table entry_size i (suc left) = do
  found ← gpt_entry q (take entry_size (drop (i * entry_size % 2 ^ 32) table)) i
  rest ← gpt_entries q table entry_size (i + 1) left
  some (add_found found rest)

pub read_gpt : Qt → Device → Option (List PartitionCandidate)
unfolding le32 le64 gpt_entries
read_gpt q device =
    let header = device.read sector_bytes 512 in
    if ltb (length header) 92 || not (text_eq (take 8 header) gpt_signature) then some [] else (do
      entry_lba ← le64 header 72
      entry_count ← le32 header 80
      entry_size ← le32 header 84
      if entry_lba == 0 || entry_count == 0 || ltb entry_size 128 || ltb 4096 entry_size
          then some []
          else (let table_offset = u64 (entry_lba * sector_bytes) in
              let table_bytes = u64 (entry_count * entry_size) in
              if ltb (16 * 1024 * 1024) table_bytes
              then some []
              else (let table = device.read table_offset table_bytes in
                  if ltb (length table) table_bytes
                  then some []
                  else gpt_entries q table entry_size 0 entry_count)))

-- One entry of the MBR, i from 0.
pub mbr_entry : Text → ℕ → ℕ → Option (Option PartitionCandidate)
unfolding le32
mbr_entry sector device_bytes i =
    let base = 446 + i * 16 in
    (do
      type ← byte_at sector (base + 4)
      first_lba ← le32 sector (base + 8)
      sector_count ← le32 sector (base + 12)
      if type == 0 || type == 0xee || sector_count == 0
          then some none
          else (let offset_bytes = u64 (first_lba * sector_bytes) in
              let size_bytes = u64 (sector_count * sector_bytes) in
              if ltb 0 device_bytes
                && (leb device_bytes offset_bytes || ltb (device_bytes - offset_bytes) size_bytes)
              then some none
              else some (some (mbr_partition i type first_lba sector_count))))

pub mbr_entries : Text → ℕ → ℕ → ℕ → Option (List PartitionCandidate)
unfolding mbr_entry
mbr_entries sector device_bytes i zero = some []
mbr_entries sector device_bytes i (suc left) = do
  found ← mbr_entry sector device_bytes i
  rest ← mbr_entries sector device_bytes (i + 1) left
  some (add_found found rest)

pub read_mbr : Device → Option (List PartitionCandidate)
unfolding mbr_entries
read_mbr device =
    let sector = device.read 0 sector_bytes in
    if ltb (length sector) sector_bytes then some [] else (do
      low ← byte_at sector 510
      high ← byte_at sector 511
      if not (low == 0x55) || not (high == 0xaa)
          then some []
          else mbr_entries sector device.size 0 4)

pub read_partitions : Qt → Device → Option (List PartitionCandidate)
unfolding read_gpt read_mbr
read_partitions q device = do
  partitions ← read_gpt q device
  if not (is_empty partitions) then some partitions else read_mbr device
