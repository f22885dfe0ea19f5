-- ===== src/Service/Partition/Entries.antt =====
-- The loops over partition entries: no read leaves the table, and what the partitions are.
use apfs_for_windows.Common.{
  All, All-drop, All-take, All-mono, Bool-cases, List, Option, Option-cases, Pairs, Qt, Text, [],
  arith, drop, inl, inr, leb, length, length-drop, length-take, ltb, none, refl, some, suc, take,
  zero, ℕ, ◌+◌, ◌-◌, ◌*◌, ◌%◌, ◌≤◌, ◌<◌, ◌≡◌, ◌⊎◌, ◌&&◌, ◌||◌, ◌==◌,
}
use apfs_for_windows.Service.Partition.{
  is_zero_guid, u64, PartitionCandidate, gpt_range, gpt_partition, mbr_partition, gpt_entry,
  gpt_entries, add_found, mbr_entry, mbr_entries, Guid,
}
use apfs_for_windows.Service.Partition.Bytes.{
  AreBytes, Gives, byte_at-Gives, le32-Gives, le64-Gives, guid_string-Gives, utf16_name-Gives,
}

-- The partitions found from index i on, in the order of their numbers: each starts and ends on a
-- sector, and ends by `limit` where that is not 0.
abbrev pub IsEntry : ℕ → ℕ → ℕ → PartitionCandidate → Type 0
IsEntry limit i n p =
    (i < p.index)
    × (p.index ≤ n)
    × (p.offset_bytes % 512 ≡ 0)
    × (p.size_bytes % 512 ≡ 0)
    × ((limit ≡ 0) ⊎ (p.offset_bytes + p.size_bytes ≤ limit))

abbrev pub InOrder : ℕ → ℕ → ℕ → List PartitionCandidate → Type 0
InOrder limit i n ps = All (IsEntry limit i n) ps × Pairs (λ a b. a.index < b.index) ps

abbrev Found : ℕ → ℕ → Option PartitionCandidate → Type 0
Found limit i none = Unit {0}
Found limit i (some p) = IsEntry limit i (i + 1) p

add_found-InOrder :
    (limit i n : ℕ) (r : Option PartitionCandidate) (ps : List PartitionCandidate)
    → Found limit i r
    → i < n
    → InOrder limit (i + 1) n ps
    → InOrder limit i n (add_found r ps)
add_found-InOrder limit i n none ps f lt (a, o) = (
  All-mono (IsEntry limit (i + 1) n) {Q = IsEntry limit i n}
      (λ p h. (omega arith, h.1, h.2, h.3, h.4)) ps a,
  o,
)
add_found-InOrder limit i n (some p) ps f lt (a, o) = (
  (
    (f.0, omega arith, f.2, f.3, f.4),
    All-mono (IsEntry limit (i + 1) n) {Q = IsEntry limit i n}
        (λ p h. (omega arith, h.1, h.2, h.3, h.4)) ps a,
  ),
  (All-mono (IsEntry limit (i + 1) n) {Q = λ b. p.index < b.index} (λ b h. omega arith) ps a, o),
)

module _ (q : Qt) where
  gpt_range-Gives :
      (entry : Text) (i : ℕ) (g : Guid)
      → AreBytes entry
      → 128 ≤ length entry
      → Gives (gpt_range q entry i g) (Found 0 i)
  unfolding gpt_range
  gpt_range-Gives entry i g h lt =
      let (first, e1, _) = le64-Gives entry 32 h (omega arith) in
      let (last, e2, _) = le64-Gives entry 40 h (omega arith) in
      let (unique, e3, _) = guid_string-Gives entry 16 h in
      let (name, e4, _) = utf16_name-Gives q entry 56 72 h (omega arith) in
      elim (Bool-cases (ltb last first)) [
        | inl back ↦ (none, rw (e1, e2, e3, e4, back) refl, tt)
        | inr fits ↦ (
          some (gpt_partition i g unique name first last),
          rw (e1, e2, e3, e4, fits) refl,
          (omega arith, omega arith, omega arith, omega arith, inl refl),
        )
      ]

  gpt_entry-Gives :
      (entry : Text) (i : ℕ)
      → AreBytes entry
      → 128 ≤ length entry
      → Gives (gpt_entry q entry i) (Found 0 i)
  unfolding gpt_entry
  gpt_entry-Gives entry i h lt =
      let (guid, e0, _) = guid_string-Gives entry 0 h in
      elim (Option-cases guid) [
        | inl e ↦ (none, rw (e0, e) refl, tt)
        | inr (g, e) ↦ elim (Bool-cases (is_zero_guid g)) [
          | inl z ↦ (none, rw (e0, e, z) refl, tt)
          | inr nz ↦
              let (r, e', f) = gpt_range-Gives entry i g h lt in (r, rw (e0, e, nz, e') refl, f)
        ]
      ]

  pub gpt_entries-Gives :
      (table : Text) (size i left : ℕ)
      → AreBytes table
      → 128 ≤ size
      → (i + left) * size ≤ length table
      → (i + left) * size < 4294967296
      → Gives (gpt_entries q table size i left) (InOrder 0 i (i + left))
  unfolding gpt_entries
  gpt_entries-Gives table size i zero h lo fit wrap = ([], refl, (tt, tt))
  gpt_entries-Gives table size i (suc left) h lo fit wrap =
      let at : i * size + size ≤ length table = grind arith in
      let small : i * size < 4294967296 = grind arith in
      let base : i * size % 4294967296 ≡ i * size = omega arith in
      let next : i + 1 + left ≡ i + suc left = omega arith in
      let room : 128 ≤ length (take size (drop (i * size % 4294967296) table)) =
        rw
          (
            length-take size (drop (i * size % 4294967296) table),
            length-drop (i * size % 4294967296) table,
            base,
          )
          (omega arith) in
      let (r, e, f) =
        gpt_entry-Gives (take size (drop (i * size % 4294967296) table)) i
          (All-take (λ b. b < 256) size _ (All-drop (λ b. b < 256) _ table h)) room in
      let (ps, e', o) =
        gpt_entries-Gives table size (i + 1) left h lo (rw next fit) (rw next wrap) in
      (
        add_found r ps,
        rw (e, e') refl,
        add_found-InOrder 0 i (i + suc left) r ps f (omega arith) (rw next at o),
      )

mbr_entry-Gives :
    (sector : Text) (limit i : ℕ)
    → AreBytes sector
    → 512 ≤ length sector
    → i < 4
    → Gives (mbr_entry sector limit i) (Found limit i)
unfolding mbr_entry
mbr_entry-Gives sector limit i h lt small =
    let (type, e1, _) = byte_at-Gives sector (446 + i * 16 + 4) h (omega arith) in
    let (first, e2, l2) = le32-Gives sector (446 + i * 16 + 8) h (omega arith) in
    let (count, e3, l3) = le32-Gives sector (446 + i * 16 + 12) h (omega arith) in
    elim (Bool-cases (type == 0 || type == 0xee || count == 0)) [
      | inl skip ↦ (none, rw (e1, e2, e3, skip) refl, tt)
      | inr used ↦
          elim (Bool-cases (
            ltb 0 limit
            && (leb limit (u64 (first * 512))
                || ltb (limit - u64 (first * 512)) (u64 (count * 512))))) [
                  | inl out ↦ (none, rw (e1, e2, e3, used, out) refl, tt)
                  | inr fits ↦ (
                    some (mbr_partition i type first count),
                    rw (e1, e2, e3, used, fits) refl,
                    (omega arith, omega arith, omega arith, omega arith, ground arith),
                  )
                ]
    ]

pub mbr_entries-Gives :
    (sector : Text) (limit i left : ℕ)
    → AreBytes sector
    → 512 ≤ length sector
    → i + left ≤ 4
    → Gives (mbr_entries sector limit i left) (InOrder limit i (i + left))
unfolding mbr_entries
mbr_entries-Gives sector limit i zero h lt small = ([], refl, (tt, tt))
mbr_entries-Gives sector limit i (suc left) h lt small =
    let next : i + 1 + left ≡ i + suc left = omega arith in
    let (r, e, f) = mbr_entry-Gives sector limit i h lt (omega arith) in
    let (ps, e', o) = mbr_entries-Gives sector limit (i + 1) left h lt (omega arith) in
    (
      add_found r ps,
      rw (e, mbr_entries, e') refl,
      add_found-InOrder limit i (i + suc left) r ps f (omega arith) (rw next at o),
    )
