-- ===== src/Service/Partition/Bytes.antt =====
-- Reads inside an array give a value, and the little-endian readers give the value written there.
use apfs_for_windows.Common.{
  All, Bool-cases, Option, Qt, Text, [], ap, arith, inl, inr, length, ltb, none, refl, some, suc,
  trimmed, zero, ℕ, ◌+◌, ◌*◌, ◌/◌, ◌^◌, ◌≤◌, ◌<◌, ◌≡◌, ◌∷◌, ◌==◌,
}
use apfs_for_windows.Service.Partition.{
  byte_at, le16, le32, le64_loop, le64, tail_bytes, guid_string, utf16_loop, utf16_name, u64,
}

abbrev pub AreBytes : Text → Type 0
AreBytes = All (λ b. b < 256)

-- A value is computed, and it satisfies `P`.
abbrev pub Gives {ℓ κ} : {A : Type ℓ} → Option A → (A → Type κ) → Type (ℓ ⊔ κ)
Gives {A} m P = (a : A) × (m ≡ some a) × P a

pub byte_at-Gives :
    (bs : Text) (i : ℕ) → AreBytes bs → i < length bs → Gives (byte_at bs i) (λ b. b < 256)
byte_at-Gives [] i h lt = absurd (omega arith)
byte_at-Gives (b ∷ bs) zero h lt = (b, refl, h.0)
byte_at-Gives (b ∷ bs) (suc i) h lt = byte_at-Gives bs i h.1 (omega arith)

pub le16-Gives :
    (bs : Text) (o : ℕ) → AreBytes bs → o + 1 < length bs → Gives (le16 bs o) (λ v. v < 65536)
unfolding le16
le16-Gives bs o h lt =
    let (b0, e0, l0) = byte_at-Gives bs o h (omega arith) in
    let (b1, e1, l1) = byte_at-Gives bs (o + 1) h (omega arith) in
    (b0 + b1 * 2 ^ 8, rw (e0, e1) refl, omega arith)

pub le32-Gives :
    (bs : Text) (o : ℕ) → AreBytes bs → o + 3 < length bs → Gives (le32 bs o) (λ v. v < 4294967296)
unfolding le32
le32-Gives bs o h lt =
    let (b0, e0, l0) = byte_at-Gives bs o h (omega arith) in
    let (b1, e1, l1) = byte_at-Gives bs (o + 1) h (omega arith) in
    let (b2, e2, l2) = byte_at-Gives bs (o + 2) h (omega arith) in
    let (b3, e3, l3) = byte_at-Gives bs (o + 3) h (omega arith) in
    (b0 + b1 * 2 ^ 8 + b2 * 2 ^ 16 + b3 * 2 ^ 24, rw (e0, e1, e2, e3) refl, omega arith)

le64_loop-Gives :
    (bs : Text) (o n v : ℕ)
    → AreBytes bs
    → o + n ≤ length bs
    → v < 18446744073709551616
    → Gives (le64_loop bs o n v) (λ r. r < 18446744073709551616)
unfolding le64_loop
le64_loop-Gives bs o zero v h lt b = (v, refl, b)
le64_loop-Gives bs o (suc n) v h lt b =
    let (x, e, l) = byte_at-Gives bs (o + n) h (omega arith) in
    rw (e, le64_loop) (le64_loop-Gives bs o n (u64 (v * 2 ^ 8) + x) h (omega arith) (omega arith))

pub le64-Gives :
    (bs : Text) (o : ℕ)
    → AreBytes bs
    → o + 8 ≤ length bs
    → Gives (le64 bs o) (λ r. r < 18446744073709551616)
unfolding le64
le64-Gives bs o h lt = le64_loop-Gives bs o 8 0 h lt (omega arith)

-- le64 reads eight bytes as the number that they write, the least significant byte first.
pub le64_lem :
    (b0 b1 b2 b3 b4 b5 b6 b7 : ℕ) (rest : Text)
    → AreBytes (b0 ∷ b1 ∷ b2 ∷ b3 ∷ b4 ∷ b5 ∷ b6 ∷ b7 ∷ [])
    → le64 (b0 ∷ b1 ∷ b2 ∷ b3 ∷ b4 ∷ b5 ∷ b6 ∷ b7 ∷ rest) 0
      ≡ some (
          b0
          + 2 ^ 8 * b1
          + 2 ^ 16 * b2
          + 2 ^ 24 * b3
          + 2 ^ 32 * b4
          + 2 ^ 40 * b5
          + 2 ^ 48 * b6
          + 2 ^ 56 * b7)
unfolding le64 le64_loop
le64_lem b0 b1 b2 b3 b4 b5 b6 b7 rest h = ap some (omega arith)

tail_bytes-Gives :
    (bs : Text) (o n : ℕ) → AreBytes bs → o + n ≤ length bs → Gives (tail_bytes bs o n) AreBytes
unfolding tail_bytes
tail_bytes-Gives bs o zero h lt = ([], refl, tt)
tail_bytes-Gives bs o (suc n) h lt =
    let (b, e, l) = byte_at-Gives bs o h (omega arith) in
    let (r, e', l') = tail_bytes-Gives bs (o + 1) n h (omega arith) in
    (b ∷ r, rw (e, tail_bytes, e') refl, (l, l'))

-- guidString checks the length first, so that it reads inside the entry at every offset.
pub guid_string-Gives : (bs : Text) (o : ℕ) → AreBytes bs → Gives (guid_string bs o) (λ _. Unit {0})
unfolding guid_string
guid_string-Gives bs o h = elim (Bool-cases (ltb (length bs) (o + 16))) [
  | inl short ↦ (none, rw short refl, tt)
  | inr long ↦
      let lt : o + 16 ≤ length bs = ground arith in
      let (d1, e1, _) = le32-Gives bs o h (omega arith) in
      let (d2, e2, _) = le16-Gives bs (o + 4) h (omega arith) in
      let (d3, e3, _) = le16-Gives bs (o + 6) h (omega arith) in
      let (t, e4, _) = tail_bytes-Gives bs (o + 8) 8 h (omega arith) in
      (some (record { d1 = d1; d2 = d2; d3 = d3; tail = t }), rw (long, e1, e2, e3, e4) refl, tt)
]

utf16_loop-Gives :
    (bs : Text) (o n : ℕ)
    → AreBytes bs
    → o + 2 * n ≤ length bs
    → Gives (utf16_loop bs o n) (λ _. Unit {0})
unfolding utf16_loop
utf16_loop-Gives bs o zero h lt = ([], refl, tt)
utf16_loop-Gives bs o (suc n) h lt =
    let (c, e, _) = le16-Gives bs o h (omega arith) in
    let (r, e', _) = utf16_loop-Gives bs (o + 2) n h (omega arith) in
    elim (Bool-cases (c == 0)) [
      | inl z ↦ ([], rw (e, utf16_loop, z) refl, tt)
      | inr nz ↦ (c ∷ r, rw (e, utf16_loop, nz, e') refl, tt)
    ]

pub utf16_name-Gives :
    (q : Qt) (bs : Text) (o n : ℕ)
    → AreBytes bs
    → o + n ≤ length bs
    → Gives (utf16_name q bs o n) (λ _. Unit {0})
unfolding utf16_name
utf16_name-Gives q bs o n h lt =
    let (r, e, _) = utf16_loop-Gives bs o (n / 2) h (omega arith) in (trimmed q r, rw e refl, tt)
