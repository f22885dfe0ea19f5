-- ===== src/Service/Discovery/Letters.antt =====
-- The letter that nextAvailableMount gives.
use apfs_for_windows.Common.{
  ==_iff, Bool-cases, List, Option-cases, [], arith, false, inl, inr, leb, leb→le, none, refl, some,
  some-eq, suc, true, zero, ℕ, ◌+◌, ◌≤◌, ◌<◌, ◌≡◌, ◌⊎◌, ◌∷◌, ◌==◌,
}
use apfs_for_windows.Service.Discovery.{contains_letter, next_letter, next_available_mount}

-- The highest letter below 68 + k, from D on, that is not used; none where all are used.
pub next_letter-some :
    (k : ℕ) (used : List ℕ) {c : ℕ}
    → next_letter k used ≡ some c
    → (68 ≤ c) × (c < 68 + k) × (contains_letter c used ≡ false)
unfolding next_letter
next_letter-some zero used h = cc
next_letter-some (suc k) used {c} h = elim (Bool-cases (contains_letter (68 + k) used)) [
  | inl e ↦ let (lo, hi, free) = next_letter-some k used (rw e at h) in (lo, omega arith, free)
  | inr e ↦ let same : 68 + k ≡ c = some-eq (rw e at h) in (omega arith, omega arith, rw (← same) e)
]

next_letter-above :
    (k : ℕ) (used : List ℕ) (d : ℕ) {c : ℕ}
    → next_letter k used ≡ some c
    → c < d
    → d < 68 + k
    → contains_letter d used ≡ true
unfolding next_letter
next_letter-above zero used d h lt hi = cc
next_letter-above (suc k) used d {c} h lt hi = elim (Bool-cases (contains_letter (68 + k) used)) [
  | inl e ↦ elim (Bool-cases (d == 68 + k)) [
    | inl at ↦ let same : d ≡ 68 + k = (==_iff d (68 + k)).0 at in rw same e
    | inr below ↦ next_letter-above k used d (rw e at h) lt (ground arith)
  ]
  | inr e ↦ let same : 68 + k ≡ c = some-eq (rw e at h) in absurd (omega arith)
]

pub next_letter-none :
    (k : ℕ) (used : List ℕ) (d : ℕ)
    → next_letter k used ≡ none
    → 68 ≤ d
    → d < 68 + k
    → contains_letter d used ≡ true
unfolding next_letter
next_letter-none zero used d h lo hi = absurd (omega arith)
next_letter-none (suc k) used d h lo hi = elim (Bool-cases (contains_letter (68 + k) used)) [
  | inl e ↦ elim (Bool-cases (d == 68 + k)) [
    | inl at ↦ let same : d ≡ 68 + k = (==_iff d (68 + k)).0 at in rw same e
    | inr below ↦ next_letter-none k used d (rw e at h) lo (ground arith)
  ]
  | inr e ↦ cc (rw e at h)
]

-- What nextAvailableMount gives: the highest unused letter from D to Z with a colon, then marked as
-- used; or nothing, and then `d` is in use, whichever letter from D to Z it is.
pub next_available_mount_lem :
    (used : List ℕ) (d : ℕ)
    → 68 ≤ d
    → d ≤ 90
    → ((next_available_mount used ≡ ([], used)) × (contains_letter d used ≡ true))
      ⊎ ((c : ℕ) × (next_available_mount used ≡ (c ∷ 58 ∷ [], c ∷ used))
          × (68 ≤ c)
          × (c ≤ 90)
          × (contains_letter c used ≡ false)
          × ((d ≤ c) ⊎ (contains_letter d used ≡ true)))
unfolding next_available_mount
next_available_mount_lem used d lo hi = elim (Option-cases (next_letter 23 used)) [
  | inl e ↦ inl (rw (e, next_available_mount) refl, next_letter-none 23 used d e lo (omega arith))
  | inr (c, e) ↦
      let (clo, chi, free) = next_letter-some 23 used e in
      inr (c, rw (e, next_available_mount) refl, clo, omega arith, free, highest c e)
]
  where
    highest : (c : ℕ) → next_letter 23 used ≡ some c → (d ≤ c) ⊎ (contains_letter d used ≡ true)
    highest c e = elim (Bool-cases (leb d c)) [
      | inl le ↦ inl (leb→le d c le)
      | inr gt ↦ inr (next_letter-above 23 used d e (ground arith) (omega arith))
    ]
