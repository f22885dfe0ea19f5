-- ===== src/Service/Partition/Total.antt =====
-- The partition readers on any device: they read inside what they have read, and end.
use apfs_for_windows.Common.{
  All-mono, Bool-cases, List, Qt, [], arith, inl, inr, is_empty, length, ltb, not, refl, take,
  text_eq, ℕ, ◌+◌, ◌*◌, ◌≤◌, ◌<◌, ◌≡◌, ◌||◌, ◌==◌,
}
use apfs_for_windows.Service.Partition.{
  u64, sector_bytes, PartitionCandidate, Device, IsDevice, gpt_signature, gpt_entries, read_gpt,
  read_mbr, read_partitions,
}
use apfs_for_windows.Service.Partition.Bytes.{Gives, byte_at-Gives, le32-Gives, le64-Gives}
use apfs_for_windows.Service.Partition.Entries.{
  IsEntry, InOrder, gpt_entries-Gives, mbr_entries-Gives,
}

nothing : (limit n : ℕ) → InOrder limit 0 n []
nothing limit n = (tt, tt)

-- On every device readMbr reads inside the sector; its partitions carry numbers from 1 to 4 that
-- rise, start and end on a sector, and end inside a device whose size is known.
pub read_mbr-Gives : (d : Device) → IsDevice d → Gives (read_mbr d) (InOrder d.size 0 4)
unfolding read_mbr
read_mbr-Gives d v = elim (Bool-cases (ltb (length (d.read 0 sector_bytes)) sector_bytes)) [
  | inl short ↦ ([], rw short refl, nothing d.size 4)
  | inr long ↦
      let room : 512 ≤ length (d.read 0 sector_bytes) = ground arith in
      let (low, e1, _) =
        byte_at-Gives (d.read 0 sector_bytes) 510 (v.read_bytes 0 512) (omega arith) in
      let (high, e2, _) =
        byte_at-Gives (d.read 0 sector_bytes) 511 (v.read_bytes 0 512) (omega arith) in
      elim (Bool-cases (not (low == 0x55) || not (high == 0xaa))) [
        | inl unsigned ↦ ([], rw (long, e1, e2, unsigned) refl, nothing d.size 4)
        | inr signed ↦
            let (ps, e, o) =
              mbr_entries-Gives (d.read 0 sector_bytes) d.size 0 4 (v.read_bytes 0 512) room
                (omega arith) in
            (ps, rw (long, e1, e2, signed, e) refl, o)
      ]
]

weaken :
    (limit i m n : ℕ) (ps : List PartitionCandidate)
    → m ≤ n
    → InOrder limit i m ps
    → InOrder limit i n ps
weaken limit i m n ps le (a, o) = (
  All-mono (IsEntry limit i m) {Q = IsEntry limit i n} (λ p h. (h.0, omega arith, h.2, h.3, h.4)) ps
      a,
  o,
)

module _ (q : Qt) (d : Device) (v : IsDevice d) where
  -- The table of entries, once the header is read.
  gpt_table :
      (lba count size : ℕ)
      → count < 4294967296
      → 128 ≤ size
      → size ≤ 4096
      → u64 (count * size) ≤ 16777216
      → u64 (count * size) ≤ length (d.read (u64 (lba * sector_bytes)) (u64 (count * size)))
      → Gives
          (gpt_entries q (d.read (u64 (lba * sector_bytes)) (u64 (count * size))) size 0 count)
          (InOrder 0 0 131072)
  gpt_table lba count size c lo hi cap fit =
      let wide : count * size ≤ count * 4096 = grind arith in
      let exact : u64 (count * size) ≡ count * size = omega arith in
      let narrow : count * 128 ≤ count * size = grind arith in
      let same : (0 + count) * size ≡ count * size = omega arith in
      let n : 0 + count ≡ count = omega arith in
      let (ps, e, o) =
        gpt_entries-Gives q (d.read (u64 (lba * sector_bytes)) (u64 (count * size))) size 0 count
          (v.read_bytes (u64 (lba * sector_bytes)) (u64 (count * size))) lo (omega arith)
          (omega arith) in
      (ps, e, weaken 0 0 (0 + count) 131072 ps (omega arith) o)

  -- On every device readGpt reads inside the header, the table and each entry; its partitions carry
  -- numbers from 1 to 131072 that rise, and start and end on a sector.
  pub read_gpt-Gives : Gives (read_gpt q d) (InOrder 0 0 131072)
  unfolding read_gpt
  read_gpt-Gives =
      elim (Bool-cases (
        ltb (length (d.read sector_bytes 512)) 92
        || not (text_eq (take 8 (d.read sector_bytes 512)) gpt_signature))) [
          | inl bad ↦ ([], rw bad refl, nothing 0 131072)
          | inr good ↦
              let room : 92 ≤ length (d.read sector_bytes 512) = ground arith in
              let bytes = v.read_bytes sector_bytes 512 in
              let (lba, e1, l1) = le64-Gives (d.read sector_bytes 512) 72 bytes (omega arith) in
              let (count, e2, l2) = le32-Gives (d.read sector_bytes 512) 80 bytes (omega arith) in
              let (size, e3, l3) = le32-Gives (d.read sector_bytes 512) 84 bytes (omega arith) in
              elim (Bool-cases (lba == 0 || count == 0 || ltb size 128 || ltb 4096 size)) [
                | inl odd ↦ ([], rw (good, e1, e2, e3, odd) refl, nothing 0 131072)
                | inr plain ↦ elim (Bool-cases (ltb (16 * 1024 * 1024) (u64 (count * size)))) [
                  | inl large ↦ ([], rw (good, e1, e2, e3, plain, large) refl, nothing 0 131072)
                  | inr small ↦
                      elim (Bool-cases (
                        ltb (length (d.read (u64 (lba * sector_bytes)) (u64 (count * size))))
                          (u64 (count * size)))) [
                            | inl cut ↦ (
                              [],
                              rw (good, e1, e2, e3, plain, small, cut) refl,
                              nothing 0 131072,
                            )
                            | inr whole ↦
                                let (ps, e, o) =
                                  gpt_table lba count size l2 (ground arith) (ground arith)
                                    (ground arith) (ground arith) in
                                (ps, rw (good, e1, e2, e3, plain, small, whole, e) refl, o)
                          ]
                ]
              ]
        ]

  -- On every device readPartitions ends with a list, and reads nothing past what the device gave:
  -- the partitions' numbers rise from 1 on, so that no two partitions share one, and each partition
  -- starts and ends on a sector.
  pub read_partitions-Gives : Gives (read_partitions q d) (InOrder 0 0 131072)
  unfolding read_partitions
  read_partitions-Gives =
      let (gpt_list, e, o) = read_gpt-Gives in
      elim (Bool-cases (not (is_empty gpt_list))) [
        | inl some_gpt ↦ (gpt_list, rw (e, some_gpt) refl, o)
        | inr no_gpt ↦
            let (mbr_list, e', (a, o')) = read_mbr-Gives d v in
            (
              mbr_list,
              rw (e, no_gpt, e') refl,
              (
                All-mono (IsEntry d.size 0 4) {Q = IsEntry 0 0 131072}
                    (λ p h. (h.0, omega arith, h.2, h.3, inl refl)) mbr_list a,
                o',
              ),
            )
      ]
