-- ===== src/Service/Config/RawWrites.antt =====
-- Where a control request leaves a mount with raw writes, they were there before, or its target was
-- verified.
use apfs_for_windows.Common.{
  All, All-append, All-intro, All-keep, Bool, Bool-cases, List, Memᴰ, Qt, Text, [], codes, false,
  inl, inr, refl, true, ◌≡◌, ◌∙◌, ◌⊎◌, ◌||◌, ◌∷◌,
}
use apfs_for_windows.Service.Config.{
  MountConfig, update_first, Surroundings, service_may_enable_raw_writes_for_target,
  looks_like_raw_device_target,
}
use apfs_for_windows.Service.Config.Change.{
  Edit, same_target, Change, adds, removes, moves, enables, permits,
}

module _ (q : Qt) (env : Surroundings) where
  -- A target without the two names of raw devices that the service knows, or one that was verified.
  abbrev pub IsHarmless : Text → Type 0
  IsHarmless t =
      ((q.contains_ci t (codes "\\\\.\\PhysicalDrive")
          || q.contains_ci t (codes "\\\\?\\GLOBALROOT\\Device\\Harddisk"))
        ≡ false)
      ⊎ (env.verified_apfs t ≡ true)

  abbrev pub Justified : List MountConfig → MountConfig → Type 0
  Justified mounts m =
      (m.allow_raw_writes ≡ false)
      ⊎ ((m₀ : MountConfig) × Memᴰ m₀ mounts
          × (m₀.target ≡ m.target)
          × (m₀.allow_raw_writes ≡ true))
      ⊎ ((t : Text) × (q.equal_ci m.target t ≡ true) × IsHarmless t)

  may_enable-IsHarmless :
      (t : Text) → service_may_enable_raw_writes_for_target q env t ≡ true → IsHarmless t
  unfolding service_may_enable_raw_writes_for_target looks_like_raw_device_target
  may_enable-IsHarmless t h = elim (Bool-cases (looks_like_raw_device_target q t)) [
    | inl raw ↦ inr (rw raw at h)
    | inr plain ↦ inl plain
  ]

  pub before : (mounts : List MountConfig) → All (Justified mounts) mounts
  before mounts = All-intro mounts λ m at. elim (Bool-cases m.allow_raw_writes) [
    | inl raw ↦ inr (inl (m, at, refl, raw))
    | inr no_raw ↦ inl no_raw
  ]

  All-update_first_if {κ} :
      (P : MountConfig → Type κ) (p : MountConfig → Bool) (f : MountConfig → MountConfig)
      → ((m : MountConfig) → p m ≡ true → P m → P (f m))
      → (ms : List MountConfig) → All P ms
      → All P (update_first p f ms)
  unfolding update_first
  All-update_first_if P p f k [] h = tt
  All-update_first_if P p f k (m ∷ ms) h = elim (Bool-cases (p m)) [
    | inl e ↦ rw e (k m e h.0, h.1)
    | inr e ↦ rw e (h.0, All-update_first_if P p f k ms h.1)
  ]

  permitted :
      (target : Text) (raw : Bool) (m' : MountConfig) (mounts : List MountConfig)
      → (raw ≡ false) ⊎ (service_may_enable_raw_writes_for_target q env target ≡ true)
      → q.equal_ci m'.target target ≡ true
      → m'.allow_raw_writes ≡ raw
      → Justified mounts m'
  permitted target raw m' mounts (inl off) same is_raw = inl (is_raw ∙ off)
  permitted target raw m' mounts (inr on) same is_raw =
      inr (inr (target, same, may_enable-IsHarmless target on))

  pub Change-Justified :
      {edit : Edit} {mounts mounts' : List MountConfig}
      → Change q env mounts edit mounts'
      → All (Justified mounts) mounts'
  Change-Justified {mounts} (adds target mount read_only ne ht hm) =
      All-append (Justified mounts) _ _ (All-keep (Justified mounts) _ mounts (before mounts))
        (inl refl, tt)
  Change-Justified {mounts} (removes target mount ne) =
      All-keep (Justified mounts) _ mounts (before mounts)
  Change-Justified {mounts} (moves target mount ne hm free) =
      All-update_first_if (Justified mounts) _ _ (λ m e j. j) mounts (before mounts)
  Change-Justified {mounts} (enables target value) =
      All-update_first_if (Justified mounts) _ _ (λ m e j. j) mounts (before mounts)
  Change-Justified {mounts} (permits target read_only asked raw is ok verified) =
      All-update_first_if (Justified mounts) (same_target q env target) _
        (λ m e j.
          permitted target raw (record m { read_only = read_only; allow_raw_writes = raw }) mounts
            verified e refl)
        mounts (before mounts)
