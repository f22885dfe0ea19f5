-- ===== src/Service/Drive.antt =====
-- src/service/apfs_mount_service.cpp: drive letters. GetLogicalDrives is the argument `drives`, its
-- bit i a Boolean.

-- The letter of QChar::toLatin1() - 'A', where it is one of the 26 bits.
use apfs_for_windows.Common.{
  Bool, Bool-cases, Option, Qt, Text, [], arith, false, get_or, inl, inr, is_empty, leb, length,
  ltb, none, refl, some, trimmed, true, ℕ, ◌-◌, ◌≡◌, ◌⊎◌, ◌&&◌, ◌∷◌, ◌++◌, ◌==◌, if◌then◌else◌,
}

abbrev pub drive_bit : ℕ → Option ℕ
drive_bit c = if leb 65 c && ltb c 91 then some (c - 65) else none

pub normalize_drive_mount : Qt → Text → Text
normalize_drive_mount q mount =
    let m = q.to_upper (trimmed q mount) in
    let m' = if length m == 1 && q.is_letter (get_or m 0 0) then m ++ 58 ∷ [] else m in
    if length m' == 2 && q.is_letter (get_or m' 0 0) && get_or m' 1 0 == 58 then m' else []

pub drive_letter_in_use : Qt → (ℕ → Bool) → Text → Bool
unfolding normalize_drive_mount
drive_letter_in_use q drives mount =
    let normalized = normalize_drive_mount q mount in
    if is_empty normalized
    then false
    else elim (drive_bit (get_or normalized 0 0)) [ none ↦ false | some bit ↦ drives bit ]

-- What is normalized is nothing, or a letter and a colon.
pub normalize_drive_mount_lem :
    (q : Qt) (mount : Text)
    → (normalize_drive_mount q mount ≡ [])
      ⊎ ((c : ℕ) × (normalize_drive_mount q mount ≡ c ∷ 58 ∷ []) × (q.is_letter c ≡ true))
unfolding normalize_drive_mount
normalize_drive_mount_lem q mount = letter_of _
  where
    letter_of :
        (m : Text)
        → let r : Text =
            if length m == 2 && q.is_letter (get_or m 0 0) && get_or m 1 0 == 58 then m else [] in
          (r ≡ []) ⊎ ((c : ℕ) × (r ≡ c ∷ 58 ∷ []) × (q.is_letter c ≡ true))
    letter_of [] = inl refl
    letter_of (a ∷ []) = inl refl
    letter_of (a ∷ b ∷ []) = elim (Bool-cases (q.is_letter a && b == 58)) [
      | inl e ↦ let colon : b ≡ 58 = ground arith in inr (a, rw (e, colon) refl, ground arith)
      | inr e ↦ inl (rw e refl)
    ]
    letter_of (a ∷ b ∷ c ∷ r) = inl (ground arith)
