-- ===== src/Service/Window.antt =====
-- src/service/apfs_mount_service.cpp: WindowDevice, the part of a device that a partition covers. The
-- qint64 values that the code passes are here below 2 ^ 63; `seek` and `read` are those of the device
-- below, and `none` is the result -1.
mod Tests
use apfs_for_windows.Common.{
  Bool, Bool-cases, List, Option, Option-cases, Text, [], arith, inl, inr, leb, length, ltb, min,
  none, not, refl, some, ℕ, ◌+◌, ◌-◌, ◌^◌, ◌≤◌, ◌<◌, ◌≡◌, ◌⊎◌, ◌∷◌, ◌==◌, if◌then◌else◌,
}
use apfs_for_windows.Service.Partition.{u64}

pub record Base : Type 0 where
  pub seek : ℕ → Bool
  -- read(n) after seek(offset): at most n bytes
  pub read : ℕ → ℕ → Option Text

-- What QIODevice::read documents.
pub record IsBase (b : Base) : Type 0 where
  pub read_le : (offset n : ℕ) {bytes : Text} → b.read offset n ≡ some bytes → length bytes ≤ n

pub record WindowDevice : Type 0 where
  pub offset : ℕ
  pub size : ℕ
  pub position : ℕ

-- open, where the mode is not for writing and there is a device
pub open_window : Bool → WindowDevice → Option WindowDevice
open_window write_only w = if write_only then none else some (record w { position = 0 })

pub seek_window : ℕ → WindowDevice → Option WindowDevice
seek_window pos w = if ltb w.size pos then none else some (record w { position = pos })

pub read_data : Base → ℕ → WindowDevice → Option Text × WindowDevice
read_data b max_size w =
    if leb w.size w.position
    then (none, w)
    else let available = min max_size (w.size - w.position) in
      if available == 0
      then (some [], w)
      else let at = u64 (w.offset + w.position) in
        if not (b.seek at) then (none, w) else elim (b.read at available) [
          | none ↦ (none, w)
          | some bytes ↦ (some bytes, record w { position = u64 (w.position + length bytes) })
        ]

-- The calls that a reader makes of an open window, and where they leave it.
pub data Call : Type 0 where
  seeks reads : ℕ → Call

pub run : Base → WindowDevice → List Call → WindowDevice
unfolding seek_window read_data
run b w [] = w
run b w (seeks pos ∷ cs) = elim (seek_window pos w) [ none ↦ run b w cs | some w' ↦ run b w' cs ]
run b w (reads n ∷ cs) = run b (read_data b n w).1 cs

-- Where the window lies within 64 bits, the position within it.
pub record IsWithin (w : WindowDevice) : Type 0 where
  pub ends : w.offset + w.size < 2 ^ 64
  pub inside : w.position ≤ w.size

-- A read of the device below, at the bytes that the window covers from its position on.
abbrev pub Covered : Base → ℕ → WindowDevice → Option Text × WindowDevice → Type 0
Covered b n w out =
    ((out.0 ≡ none) × (out.1 ≡ w))
    ⊎ ((out.0 ≡ some []) × (out.1 ≡ w))
    ⊎ ((bytes : Text) × (k : ℕ) × (out.0 ≡ some bytes)
        × (b.read (w.offset + w.position) k ≡ some bytes)
        × (k ≤ n)
        × (w.position + k ≤ w.size)
        × (out.1 ≡ record w { position = w.position + length bytes }))

u64-small : (n : ℕ) → n < 2 ^ 64 → u64 n ≡ n
u64-small n h = omega arith

-- A read from a window within 64 bits gives -1 or nothing and leaves the window, or gives what the
-- device below gives at the window's offset and position, of no more than was asked for and none
-- past the window's end, and moves the position behind it; the position stays inside the window.
pub read_data_lem :
    (b : Base) (n : ℕ) (w : WindowDevice)
    → IsBase b
    → IsWithin w
    → Covered b n w (read_data b n w) × IsWithin (read_data b n w).1
unfolding read_data
read_data_lem b n w laws v = elim (Bool-cases (leb w.size w.position)) [
  | inl e ↦ rw e (inl (refl, refl), v)
  | inr e ↦ elim (Bool-cases (min n (w.size - w.position) == 0)) [
    | inl z ↦ rw (e, z) (inr (inl (refl, refl)), v)
    | inr z ↦
        let at = u64-small (w.offset + w.position) (omega (arith, v.ends, v.inside)) in
        elim (Bool-cases (b.seek (w.offset + w.position))) [
          | inr s ↦ rw (e, z, at, s) (inl (refl, refl), v)
          | inl s ↦
              elim (Option-cases (b.read (w.offset + w.position) (min n (w.size - w.position)))) [
                | inl r ↦ rw (e, z, at, s, r) (inl (refl, refl), v)
                | inr (bytes, r) ↦
                    let short =
                      laws.read_le (w.offset + w.position) (min n (w.size - w.position)) r in
                    let moved =
                      u64-small (w.position + length bytes) (omega (arith, v.ends, v.inside)) in
                    rw (e, z, at, s, r, moved)
                      (
                        inr (
                            inr (
                              bytes,
                              min n (w.size - w.position),
                              refl,
                              r,
                              omega arith,
                              omega (arith, v.inside),
                              refl,
                            )),
                        record { ends = v.ends; inside = omega (arith, v.inside) },
                      )
              ]
        ]
  ]
]

-- After any seeks and reads of a window within 64 bits, refused ones included, the position is inside
-- the window, and the window is where it was.
pub run-IsWithin :
    (b : Base) (w : WindowDevice) (cs : List Call) → IsBase b → IsWithin w → IsWithin (run b w cs)
unfolding run seek_window
run-IsWithin b w [] laws v = v
run-IsWithin b w (seeks pos ∷ cs) laws v = elim (Bool-cases (ltb w.size pos)) [
  | inl e ↦ rw (e, run) (run-IsWithin b w cs laws v)
  | inr e ↦
      rw (e, run)
        (run-IsWithin b (record w { position = pos }) cs laws
          (record { ends = v.ends; inside = ground arith }))
]
run-IsWithin b w (reads n ∷ cs) laws v =
    run-IsWithin b (read_data b n w).1 cs laws (read_data_lem b n w laws v).1
