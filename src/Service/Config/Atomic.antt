-- ===== src/Service/Config/Atomic.antt =====
-- A refused operation leaves the state; any other writes one change, which the next read gives.
use apfs_for_windows.Common.{
  Bool-cases, ComparesByCase, List, Option, Qt, false, inl, inr, refl, some, some-eq, sym, true,
  ◌≡◌, ◌∙◌, ◌⊎◌, ◌||◌,
}
use mathlib.Core.Path.{subst}
use apfs_for_windows.Service.Config.{
  MountConfig, config_document, read_mount_config, ServiceState, Response, failed, is_failure,
  Surroundings, commit,
}
use apfs_for_windows.Service.Config.Change.{Edit, Change, Outcome, refuses, commits}
use apfs_for_windows.Service.Config.Valid.{
  IsValid, read_mount_config-mount_config_json, read_mount_config-IsStored, Change-IsStored,
  Change-IsValid,
}

module _ (q : Qt) where
  -- The file can be read, and what it holds is valid.
  abbrev pub Configured : ServiceState → Type 0
  Configured s =
      (mounts : List MountConfig) × (read_mount_config q s.file ≡ some mounts) × IsValid q mounts

module _ (q : Qt) (env : Surroundings) where
  -- Refused with the state untouched, or the change asked for, written so that the next read gives it,
  -- with the resync event set where there is one.
  abbrev pub Atomic : Option Edit → ServiceState → ServiceState × Response → Type 0
  Atomic asked s out =
      ((is_failure out.1 ≡ true) × (out.0 ≡ s))
      ⊎ ((edit : Edit) × (mounts : List MountConfig) × (mounts' : List MountConfig) × (asked
            ≡ some edit)
          × (is_failure out.1 ≡ false)
          × (read_mount_config q s.file ≡ some mounts)
          × Change q env mounts edit mounts'
          × (read_mount_config q out.0.file ≡ some mounts')
          × (out.0.resync ≡ (s.resync || env.has_resync_event)))

commit-written :
    (q : Qt) (env : Surroundings) (s : ServiceState) (mounts : List MountConfig) (r : Response)
    → env.writable ≡ true
    → commit q env true s mounts r
      ≡ (record { file = config_document mounts; resync = s.resync || env.has_resync_event }, r)
unfolding commit
commit-written q env s mounts r w = rw w refl

commit-unwritten :
    (q : Qt) (env : Surroundings) (s : ServiceState) (mounts : List MountConfig) (r : Response)
    → env.writable ≡ false
    → commit q env true s mounts r ≡ (s, failed 4)
unfolding commit
commit-unwritten q env s mounts r w = rw w refl

module _ (q : Qt) (laws : ComparesByCase q) (env : Surroundings) where
  pub Outcome-Atomic :
      (asked : Option Edit) (s : ServiceState) {out : ServiceState × Response}
      → Outcome q env asked s out
      → Atomic q env asked s out
  Outcome-Atomic asked s (refuses code) = inl (refl, refl)
  Outcome-Atomic asked s (commits edit mounts mounts' r is read change done) =
      elim (Bool-cases env.writable) [
        | inl w ↦
            let back =
              read_mount_config-mount_config_json q mounts'
                (Change-IsStored q laws env change (read_mount_config-IsStored q s.file read)) in
            rw (commit-written q env s mounts' r w)
              (inr (edit, mounts, mounts', is, done, read, change, back, refl))
        | inr w ↦ rw (commit-unwritten q env s mounts' r w) (inl (refl, refl))
      ]

  pub Atomic-Configured :
      (asked : Option Edit) (s : ServiceState) (out : ServiceState × Response)
      → Atomic q env asked s out
      → Configured q s
      → Configured q out.0
  Atomic-Configured asked s out (inl (fails, same)) c = rw same c
  Atomic-Configured asked s out (inr (edit, mounts, mounts', is, done, read', change, back, set))
        (ms, read, v) =
      (
        mounts',
        back,
        Change-IsValid q laws env change (subst (IsValid q) (some-eq (sym read ∙ read')) v),
      )
