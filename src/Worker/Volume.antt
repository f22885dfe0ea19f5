-- ===== src/Worker/Volume.antt =====
-- src/worker/apfs_winfs_worker.cpp: the policy on writable mounts, sizes and times.

-- PartitionApfsFileReadResult::VolumePolicy, as the APFS core reports it.

use apfs_for_windows.Common.{
  Bool, Option, Qt, Text, arith, codes, false, is_some, leb, ltb, none, not, refl, some, true, ℕ,
  ◌+◌, ◌-◌, ◌*◌, ◌/◌, ◌%◌, ◌≤◌, ◌<◌, ◌≡◌, ◌↔◌, ◌⊎◌, ◌&&◌, ◌||◌, ◌==◌, if◌then◌else◌,
}

pub record VolumePolicy : Type 0 where
  pub known : Bool
  pub sealed : Bool
  pub encrypted : Bool
  pub one_key : Bool
  pub per_file_keys : Bool

-- The reasons that writableMountPolicyBlocker spells out; none is the empty string.
pub data Blocker : Type 0 where
  unknown_policy sealed_volume per_file_key_encrypted file_vault : Blocker

unfoldable pub writable_mount_policy_blocker : VolumePolicy → Option Blocker
writable_mount_policy_blocker p =
    if not p.known
    then some unknown_policy
    else (if p.sealed
        then some sealed_volume
        else (if p.encrypted
            then (if p.per_file_keys then some per_file_key_encrypted else some file_vault)
            else none))

-- A volume is writable exactly when its policy is known, and it is neither sealed nor encrypted.
pub writable_mount_policy_blocker_iff :
    (p : VolumePolicy)
    → (writable_mount_policy_blocker p ≡ none)
      ↔ ((p.known ≡ true) × (p.sealed ≡ false) × (p.encrypted ≡ false))
unfolding writable_mount_policy_blocker
writable_mount_policy_blocker_iff p = (λ h. ground arith, λ h. ground arith)

abbrev pub u64_max : ℕ
u64_max = 18446744073709551615

-- alignAllocation: kAllocationUnit is 4096.
abbrev pub allocation_unit : ℕ
allocation_unit = 4096

pub align_allocation : ℕ → ℕ
align_allocation size =
    if size == 0
    then 0
    else (if ltb (u64_max - (allocation_unit - 1)) size
        then size
        else (size + allocation_unit - 1) / allocation_unit * allocation_unit)

-- For every 64-bit size the result is a 64-bit size that holds it and adds less than one unit; it is
-- a multiple of the unit, unless rounding up would pass the 64 bits, where it is the size itself.
pub align_allocation_lem :
    (size : ℕ)
    → size ≤ u64_max
    → (size ≤ align_allocation size)
      × (align_allocation size < size + allocation_unit)
      × (align_allocation size ≤ u64_max)
      × ((align_allocation size % allocation_unit ≡ 0)
          ⊎ ((u64_max - 4095 < size) × (align_allocation size ≡ size)))
unfolding align_allocation
align_allocation_lem size h = ground arith

abbrev pub windows_epoch_offset : ℕ
windows_epoch_offset = 116444736000000000

pub file_time_from_unix_ns : ℕ → ℕ
file_time_from_unix_ns unix_ns =
    let ticks = unix_ns / 100 in
    if ltb (u64_max - windows_epoch_offset) ticks then u64_max else ticks + windows_epoch_offset

pub unix_ns_from_file_time : ℕ → ℕ
unix_ns_from_file_time file_time =
    if leb file_time windows_epoch_offset
    then 0
    else (let ticks = file_time - windows_epoch_offset in
        if ltb (u64_max / 100) ticks then u64_max else ticks * 100)

-- Every 64-bit time in nanoseconds comes back from a file time to the tick of 100 ns.
pub unix_ns-file_time :
    (ns : ℕ) → ns ≤ u64_max → unix_ns_from_file_time (file_time_from_unix_ns ns) ≡ ns / 100 * 100
unfolding unix_ns_from_file_time file_time_from_unix_ns
unix_ns-file_time ns h = ground arith

-- apfsVolumePolicySelfTest
pub apfs_volume_policy_self_test : Bool
unfolding writable_mount_policy_blocker
apfs_volume_policy_self_test =
    let fresh : VolumePolicy = record {
      known = false;
      sealed = false;
      encrypted = false;
      one_key = false;
      per_file_keys = false;
    } in
    let normal : VolumePolicy = record fresh { known = true } in
    let blocked = λ (p : VolumePolicy). is_some (writable_mount_policy_blocker p) in
    not (blocked normal)
    && blocked fresh
    && blocked (record normal { sealed = true })
    && blocked (record normal { encrypted = true; one_key = true })
    && blocked (record normal { encrypted = true; per_file_keys = true })

volume_self_test_passes : apfs_volume_policy_self_test ≡ true
unfolding apfs_volume_policy_self_test
volume_self_test_passes = refl

unfoldable pub looks_like_windows_raw_target : Qt → Text → Bool
looks_like_windows_raw_target q target =
    q.starts_with_ci (codes "\\\\.\\") target || q.starts_with_ci (codes "\\\\?\\") target
