-- ===== src/Service/Config/Change.antt =====
-- What the operations may do to the list of mounts, as a relation, and that each of them, called
-- through the service, does one of these or nothing.
use apfs_for_windows.Common.{
  Bool, Bool-cases, List, Option, Option-cases, Qt, Text, [], any, arith, false, find_if, inl, inr,
  is_empty, is_some, keep, none, not, refl, some, trimmed, true, ℕ, ◌≡◌, ◌⊎◌, ◌&&◌, ◌||◌, ◌∷◌, ◌++◌,
  if◌then◌else◌,
}
use apfs_for_windows.Service.Drive.{drive_letter_in_use}
use apfs_for_windows.Service.Config.{
  MountConfig, read_mount_config, ServiceState, Response, failed, is_failure, Surroundings, to_bool,
  commit, update_first, add_mount_config, remove_mount_config, set_mount_config,
  set_mount_enabled_config, set_mount_policy_config, service_may_enable_raw_writes_for_target,
  looks_like_raw_device_target,
}

-- What a request asks for: a target and what becomes of its mount.
pub data Edit : Type 0 where
  add : Text → Text → Bool → Edit
  remove : Text → Text → Edit
  move : Text → Text → Edit
  enable : Text → Bool → Edit
  permit : Text → Bool → Bool → Edit

abbrev pub enabling : Text → Option Bool → Option Edit
enabling target none = none
enabling target (some value) = some (enable target value)

enabling-some :
    (target : Text) (value : Option Bool)
    → is_some value ≡ true
    → enabling target value ≡ some (enable target (to_bool value false))
enabling-some target none h = cc
enabling-some target (some value) h = refl

module _ (q : Qt) (env : Surroundings) where
  abbrev pub same_target : Text → MountConfig → Bool
  same_target target x = q.equal_ci x.target target

  -- The mounts that a removal is about: those of the target and those of the drive, where it is given.
  abbrev pub is_removed : Text → Text → MountConfig → Bool
  is_removed target mount x =
      not (is_empty target) && q.equal_ci x.target target
      || not (is_empty mount) && q.equal_ci x.mount mount

  -- What each edit makes of the mounts.
  pub data Change (mounts : List MountConfig) : Edit → List MountConfig → Type 0 where
    adds :
        (target mount : Text) (read_only : Bool)
        → (is_empty target || is_empty mount) ≡ false
        → trimmed q target ≡ target
        → trimmed q mount ≡ mount
        → Change mounts (add target mount read_only) (
            keep (λ x. not (q.equal_ci x.mount mount || q.equal_ci x.target target)) mounts
            ++ record {
              target = target;
              mount = mount;
              read_only = read_only;
              allow_raw_writes = false;
              enabled = true;
            }
              ∷ [])
    removes :
        (target mount : Text)
        → (is_empty target && is_empty mount) ≡ false
        → Change mounts (remove target mount) (keep (λ x. not (is_removed target mount x)) mounts)
    moves :
        (target mount : Text)
        → is_empty mount ≡ false
        → trimmed q mount ≡ mount
        → any (λ x. not (same_target target x) && q.equal_ci x.mount mount) mounts ≡ false
        → Change mounts
            (move target mount)
            (update_first (same_target target) (λ x. record x { mount = mount }) mounts)
    enables :
        (target : Text) (value : Bool)
        → Change mounts
            (enable target value)
            (update_first (same_target target) (λ x. record x { enabled = value }) mounts)
    permits :
        (target : Text) (read_only asked raw : Bool)
        → raw ≡ (if read_only then false else asked)
        → (read_only && raw) ≡ false
        → (raw ≡ false) ⊎ (service_may_enable_raw_writes_for_target q env target ≡ true)
        → Change mounts (permit target read_only asked) (
            update_first
              (same_target target)
              (λ x. record x { read_only = read_only; allow_raw_writes = raw })
              mounts)

  -- A refusal that leaves the state, or the change asked for, of the mounts read, written back.
  pub data Outcome (asked : Option Edit) (s : ServiceState) : ServiceState × Response → Type 0 where
    refuses : (code : ℕ) → Outcome asked s (s, failed code)
    commits :
        (edit : Edit) (mounts mounts' : List MountConfig) (r : Response)
        → asked ≡ some edit
        → read_mount_config q s.file ≡ some mounts
        → Change mounts edit mounts'
        → is_failure r ≡ false
        → Outcome asked s (commit q env true s mounts' r)

  module _ (s : ServiceState) where
    pub add-Outcome :
        (target mount : Text) (read_only raw : Bool)
        → trimmed q target ≡ target
        → trimmed q mount ≡ mount
        → Outcome
            (some (add target mount read_only))
            s
            (add_mount_config q env s target mount read_only raw true)
    unfolding add_mount_config
    add-Outcome target mount read_only true ht hm =
        elim (Bool-cases (is_empty target || is_empty mount)) [
          | inl e ↦ rw e (refuses 2)
          | inr e ↦ rw e (refuses 8)
        ]
    add-Outcome target mount read_only false ht hm =
        elim (Bool-cases (is_empty target || is_empty mount)) [
          | inl e ↦ rw e (refuses 2)
          | inr e ↦ elim (Option-cases (read_mount_config q s.file)) [
            | inl n ↦ rw (e, n) (refuses 3)
            | inr (mounts, m) ↦
                rw (e, m) (commits _ mounts _ _ refl m (adds target mount read_only e ht hm) refl)
          ]
        ]

    pub remove-Outcome :
        (target mount : Text)
        → Outcome (some (remove target mount)) s (remove_mount_config q env s target mount true)
    unfolding remove_mount_config
    remove-Outcome target mount = elim (Bool-cases (is_empty target && is_empty mount)) [
      | inl e ↦ rw e (refuses 2)
      | inr e ↦ elim (Option-cases (read_mount_config q s.file)) [
        | inl n ↦ rw (e, n) (refuses 3)
        | inr (mounts, m) ↦ rw (e, m) (commits _ mounts _ _ refl m (removes target mount e) refl)
      ]
    ]

    pub set_mount-Outcome :
        (target mount : Text)
        → trimmed q mount ≡ mount
        → Outcome (some (move target mount)) s (set_mount_config q env s target mount true)
    unfolding set_mount_config
    set_mount-Outcome target mount hm = elim (Bool-cases (is_empty target || is_empty mount)) [
      | inl e ↦ rw e (refuses 2)
      | inr e ↦ elim (Option-cases (read_mount_config q s.file)) [
        | inl n ↦ rw (e, n) (refuses 3)
        | inr (mounts, m) ↦ elim (Option-cases (find_if (same_target target) mounts)) [
          | inl n ↦ rw (e, m, n) (refuses 5)
          | inr (found, f) ↦
              elim (Bool-cases
                (any (λ x. not (same_target target x) && q.equal_ci x.mount mount) mounts)) [
                  | inl c ↦ rw (e, m, f, c) (refuses 6)
                  | inr c ↦
                      elim (Bool-cases (
                        not (q.equal_ci found.mount mount)
                        && drive_letter_in_use q env.drives mount)) [
                          | inl u ↦ rw (e, m, f, c, u) (refuses 7)
                          | inr u ↦
                              rw (e, m, f, c, u)
                                (commits _ mounts _ _ refl m
                                  (moves target mount (ground arith) hm c) refl)
                        ]
                ]
        ]
      ]
    ]

    pub set_enabled-Outcome :
        (target : Text) (enabled : Option Bool)
        → Outcome (enabling target enabled) s (set_mount_enabled_config q env s target enabled true)
    unfolding set_mount_enabled_config
    set_enabled-Outcome target enabled =
        elim (Bool-cases (is_empty target || not (is_some enabled))) [
          | inl e ↦ rw e (refuses 2)
          | inr e ↦ elim (Option-cases (read_mount_config q s.file)) [
            | inl n ↦ rw (e, n) (refuses 3)
            | inr (mounts, m) ↦ elim (Option-cases (find_if (same_target target) mounts)) [
              | inl n ↦ rw (e, m, n) (refuses 5)
              | inr (found, f) ↦
                  rw (e, m, f)
                    (commits _ mounts _ _ (enabling-some target enabled (ground arith)) m
                      (enables target (to_bool enabled false)) refl)
            ]
          ]
        ]

    pub set_policy-Outcome :
        (target : Text) (read_only raw : Bool)
        → Outcome
            (some (permit target read_only raw))
            s
            (set_mount_policy_config q env s target read_only raw true)
    unfolding set_mount_policy_config
    set_policy-Outcome target read_only raw = elim (Bool-cases (is_empty target)) [
      | inl e ↦ rw e (refuses 2)
      | inr e ↦
          elim (Bool-cases (not read_only && looks_like_raw_device_target q target && not raw)) [
            | inl o ↦ rw (e, o) (refuses 8)
            | inr o ↦
                elim (Bool-cases
                  (raw && not (service_may_enable_raw_writes_for_target q env target))) [
                    | inl v ↦ rw (e, o, v) (refuses 8)
                    | inr v ↦ elim (Option-cases (read_mount_config q s.file)) [
                      | inl n ↦ rw (e, o, v, n) (refuses 3)
                      | inr (mounts, m) ↦
                          elim (Option-cases (find_if (same_target target) mounts)) [
                            | inl n ↦ rw (e, o, v, m, n) (refuses 5)
                            | inr (found, f) ↦
                                rw (e, o, v, m, f)
                                  (commits _ mounts _ _ refl m
                                    (permits target read_only raw (if read_only then false else raw)
                                      refl (ground arith) (ground arith))
                                    refl)
                          ]
                    ]
                  ]
          ]
    ]
