-- ===== src/Service/Config/Attempt.antt =====
-- What an operation does when it is not called through the service: nothing, or it writes the file.
use apfs_for_windows.Common.{
  Bool, Bool-cases, List, Option, Option-cases, Qt, Text, any, arith, false, find_if, inl, inr,
  is_empty, is_some, not, refl, true, ℕ, ◌<◌, ◌≡◌, ◌&&◌, ◌||◌,
}
use apfs_for_windows.Service.Drive.{drive_letter_in_use}
use apfs_for_windows.Service.Config.{
  MountConfig, ServiceState, Response, failed, is_failure, Surroundings, read_mount_config, commit,
  add_mount_config, remove_mount_config, set_mount_config, set_mount_enabled_config,
  set_mount_policy_config,
}

-- Refused, with the state as it was, or written where the file can be written.
pub data Attempt (writable : Bool) (s : ServiceState) : ServiceState × Response → Type 0 where
  refuses : (code : ℕ) → 0 < code → Attempt writable s (s, failed code)
  writes :
      (out : ServiceState × Response)
      → writable ≡ true
      → is_failure out.1 ≡ false
      → Attempt writable s out

module _ (q : Qt) (env : Surroundings) (s : ServiceState) where
  commit-Attempt :
      (ms : List MountConfig) (r : Response)
      → is_failure r ≡ false
      → Attempt env.writable s (commit q env false s ms r)
  unfolding commit
  commit-Attempt ms r fine = elim (Bool-cases env.writable) [
    | inl w ↦ rw (commit, w) (writes _ refl fine)
    | inr w ↦ rw (commit, w) (refuses 4 (omega arith))
  ]

  pub add-Attempt :
      (target mount : Text) (read_only raw : Bool)
      → Attempt env.writable s (add_mount_config q env s target mount read_only raw false)
  unfolding add_mount_config
  add-Attempt target mount read_only raw = elim (Bool-cases (is_empty target || is_empty mount)) [
    | inl e ↦ rw (add_mount_config, e) (refuses 2 (omega arith))
    | inr e ↦ elim (Option-cases (read_mount_config q s.file)) [
      | inl n ↦ rw (add_mount_config, e, n) (refuses 3 (omega arith))
      | inr (ms, m) ↦ rw (add_mount_config, e, m) (commit-Attempt _ _ refl)
    ]
  ]

  pub remove-Attempt :
      (target mount : Text)
      → Attempt env.writable s (remove_mount_config q env s target mount false)
  unfolding remove_mount_config
  remove-Attempt target mount = elim (Bool-cases (is_empty target && is_empty mount)) [
    | inl e ↦ rw (remove_mount_config, e) (refuses 2 (omega arith))
    | inr e ↦ elim (Option-cases (read_mount_config q s.file)) [
      | inl n ↦ rw (remove_mount_config, e, n) (refuses 3 (omega arith))
      | inr (ms, m) ↦ rw (remove_mount_config, e, m) (commit-Attempt _ _ refl)
    ]
  ]

  pub set_mount-Attempt :
      (target mount : Text) → Attempt env.writable s (set_mount_config q env s target mount false)
  unfolding set_mount_config
  set_mount-Attempt target mount = elim (Bool-cases (is_empty target || is_empty mount)) [
    | inl e ↦ rw (set_mount_config, e) (refuses 2 (omega arith))
    | inr e ↦ elim (Option-cases (read_mount_config q s.file)) [
      | inl n ↦ rw (set_mount_config, e, n) (refuses 3 (omega arith))
      | inr (ms, m) ↦ elim (Option-cases (find_if (λ x. q.equal_ci x.target target) ms)) [
        | inl n ↦ rw (set_mount_config, e, m, n) (refuses 5 (omega arith))
        | inr (found, f) ↦
            elim (Bool-cases
              (any (λ x. not (q.equal_ci x.target target) && q.equal_ci x.mount mount) ms)) [
                | inl c ↦ rw (set_mount_config, e, m, f, c) (refuses 6 (omega arith))
                | inr c ↦
                    elim (Bool-cases (
                      not (q.equal_ci found.mount mount)
                      && drive_letter_in_use q env.drives mount)) [
                        | inl u ↦ rw (set_mount_config, e, m, f, c, u) (refuses 7 (omega arith))
                        | inr u ↦ rw (set_mount_config, e, m, f, c, u) (commit-Attempt _ _ refl)
                      ]
              ]
      ]
    ]
  ]

  pub set_enabled-Attempt :
      (target : Text) (enabled : Option Bool)
      → Attempt env.writable s (set_mount_enabled_config q env s target enabled false)
  unfolding set_mount_enabled_config
  set_enabled-Attempt target enabled =
      elim (Bool-cases (is_empty target || not (is_some enabled))) [
        | inl e ↦ rw (set_mount_enabled_config, e) (refuses 2 (omega arith))
        | inr e ↦ elim (Option-cases (read_mount_config q s.file)) [
          | inl n ↦ rw (set_mount_enabled_config, e, n) (refuses 3 (omega arith))
          | inr (ms, m) ↦ elim (Option-cases (find_if (λ x. q.equal_ci x.target target) ms)) [
            | inl n ↦ rw (set_mount_enabled_config, e, m, n) (refuses 5 (omega arith))
            | inr (found, f) ↦ rw (set_mount_enabled_config, e, m, f) (commit-Attempt _ _ refl)
          ]
        ]
      ]

  pub set_policy-Attempt :
      (target : Text) (read_only raw : Bool)
      → Attempt env.writable s (set_mount_policy_config q env s target read_only raw false)
  unfolding set_mount_policy_config
  set_policy-Attempt target read_only raw = elim (Bool-cases (is_empty target)) [
    | inl e ↦ rw (set_mount_policy_config, e) (refuses 2 (omega arith))
    | inr e ↦ elim (Option-cases (read_mount_config q s.file)) [
      | inl n ↦ rw (set_mount_policy_config, e, n) (refuses 3 (omega arith))
      | inr (ms, m) ↦ elim (Option-cases (find_if (λ x. q.equal_ci x.target target) ms)) [
        | inl n ↦ rw (set_mount_policy_config, e, m, n) (refuses 5 (omega arith))
        | inr (found, f) ↦ rw (set_mount_policy_config, e, m, f) (commit-Attempt _ _ refl)
      ]
    ]
  ]
