-- ===== src/Service/Control/Valid.antt =====
-- Every control request either is refused and changes nothing, or makes one change that a later
-- read gives; and the configuration stays valid under every history of requests.
use apfs_for_windows.Common.{
  All, Bool-cases, ComparesByCase, List, Option, Qt, SeparatesSpaces, Text, [], ap, codes, false,
  inl, inr, none, refl, some, some-eq, sym, text_eq, trimmed, trimmed-pair, trimmed-trimmed, true,
  ◌≡◌, ◌∙◌, ◌∷◌, if◌then◌else◌,
}
use apfs_for_windows.Service.Drive.{normalize_drive_mount, normalize_drive_mount_lem}
use apfs_for_windows.Service.Config.{
  MountConfig, read_mount_config, ServiceState, Surroundings, to_bool,
}
use apfs_for_windows.Service.Config.Change.{
  Edit, add, remove, move, permit, enabling, Outcome, refuses, add-Outcome, remove-Outcome,
  set_mount-Outcome, set_enabled-Outcome, set_policy-Outcome,
}
use apfs_for_windows.Service.Config.RawWrites.{Justified, before, Change-Justified}
use apfs_for_windows.Service.Config.Atomic.{Configured, Atomic, Outcome-Atomic, Atomic-Configured}
use apfs_for_windows.Service.Control.{Request, parse_bool_value, apply_control_request, serve}

-- What a request asks for, if it is a command that changes mounts and says what to change.
abbrev pub requested : Qt → Request → Option Edit
requested q r =
    let command = trimmed q r.command in
    let target = trimmed q r.target in
    let mount = trimmed q r.mount in
    if text_eq command (codes "add_mount")
    then some (add target mount (to_bool r.read_only true))
    else (if text_eq command (codes "remove_mount")
        then some (remove target mount)
        else (if text_eq command (codes "set_mount")
            then some (move target (normalize_drive_mount q mount))
            else (if text_eq command (codes "set_enabled")
                then enabling target (parse_bool_value q r.enabled)
                else (if text_eq command (codes "set_policy")
                    then some (
                        permit target (to_bool r.read_only true) (to_bool r.allow_raw_writes false))
                    else none))))

module _ (q : Qt) (spaces : SeparatesSpaces q) where
  normalize_drive_mount-trimmed :
      (mount : Text) → trimmed q (normalize_drive_mount q mount) ≡ normalize_drive_mount q mount
  unfolding trimmed
  normalize_drive_mount-trimmed mount = elim (normalize_drive_mount_lem q mount) [
    | inl e ↦ rw e refl
    | inr (c, e, l) ↦ rw e (trimmed-pair q c 58 (spaces.letter_no_space c l) spaces.colon_no_space)
  ]

  pub apply_control_request-Outcome :
      (env : Surroundings) (s : ServiceState) (r : Request)
      → Outcome q env (requested q r) s (apply_control_request q env s r)
  unfolding apply_control_request
  apply_control_request-Outcome env s r =
      let target = trimmed-trimmed q r.target in
      let mount = trimmed-trimmed q r.mount in
      elim (Bool-cases (text_eq (trimmed q r.command) (codes "add_mount"))) [
        | inl e ↦ rw e (add-Outcome q env s _ _ _ _ target mount)
        | inr e1 ↦ elim (Bool-cases (text_eq (trimmed q r.command) (codes "remove_mount"))) [
          | inl e ↦ rw (e1, e) (remove-Outcome q env s _ _)
          | inr e2 ↦ elim (Bool-cases (text_eq (trimmed q r.command) (codes "set_mount"))) [
            | inl e ↦
                rw (e1, e2, e)
                  (set_mount-Outcome q env s _ _
                    (normalize_drive_mount-trimmed (trimmed q r.mount)))
            | inr e3 ↦ elim (Bool-cases (text_eq (trimmed q r.command) (codes "set_enabled"))) [
              | inl e ↦ rw (e1, e2, e3, e) (set_enabled-Outcome q env s _ _)
              | inr e4 ↦ elim (Bool-cases (text_eq (trimmed q r.command) (codes "set_policy"))) [
                | inl e ↦ rw (e1, e2, e3, e4, e) (set_policy-Outcome q env s _ _ _)
                | inr e5 ↦ rw (e1, e2, e3, e4, e5) (refuses 2)
              ]
            ]
          ]
        ]
      ]

module _ (q : Qt) (laws : ComparesByCase q) (spaces : SeparatesSpaces q) (env : Surroundings) where
  -- Every request is refused, or fails to write, with the state untouched, or makes exactly the change
  -- that it asks for, which the next read gives, and sets the resync event where there is one; and a
  -- configuration that can be read and is valid stays so.
  pub apply_control_request-Atomic :
      (s : ServiceState) (r : Request)
      → Atomic q env (requested q r) s (apply_control_request q env s r)
        × (Configured q s → Configured q (apply_control_request q env s r).0)
  apply_control_request-Atomic s r =
      let a =
        Outcome-Atomic q laws env (requested q r) s
          (apply_control_request-Outcome q spaces env s r) in
      (a, λ c. Atomic-Configured q laws env (requested q r) s (apply_control_request q env s r) a c)

  -- After any history of control requests, from a valid configuration, the file can be read and is
  -- valid: no two mounts share a target or a drive, and no read-only mount has raw writes.
  pub serve-Configured :
      (s : ServiceState) (rs : List Request) → Configured q s → Configured q (serve q env s rs)
  unfolding serve
  serve-Configured s [] c = c
  serve-Configured s (r ∷ rs) c =
      serve-Configured (apply_control_request q env s r).0 rs
        ((apply_control_request-Atomic s r).1 c)

  -- After a control request over a configuration that can be read, every mount with raw writes is for a
  -- target that had them before, or for one that is, up to case, a text that was verified to be APFS or
  -- that contains neither \\.\PhysicalDrive nor \\?\GLOBALROOT\Device\Harddisk.
  pub apply_control_request-raw_writes :
      (s : ServiceState) (r : Request) {mounts : List MountConfig}
      → read_mount_config q s.file ≡ some mounts
      → (mounts' : List MountConfig) × (read_mount_config q (apply_control_request q env s r).0.file
          ≡ some mounts')
        × All (Justified q env mounts) mounts'
  apply_control_request-raw_writes s r {mounts} read = elim (apply_control_request-Atomic s r).0 [
    | inl (failed_it, same) ↦
        (mounts, ap (λ t. read_mount_config q t.file) same ∙ read, before q env mounts)
    | inr (edit, ms, mounts', is, done, read', change, back, _) ↦
        (mounts', back, rw (some-eq (sym read ∙ read')) (Change-Justified q env change))
  ]
