-- ===== src/Service/Config.antt =====
-- src/service/apfs_mount_service.cpp: the mount configuration and the control requests that change
-- it. The file is the JSON document that it holds, if there is one.
pub mod Change
pub mod Attempt
pub mod Valid
pub mod Atomic
pub mod RawWrites
use apfs_for_windows.Common.{
  Bool, List, Option, Qt, Text, [], any, codes, false, find_if, is_empty, is_some, keep, map, none,
  not, same_flag, some, trimmed, true, ℕ, ◌&&◌, ◌||◌, ◌∷◌, ◌++◌, if◌then◌else◌,
}
use apfs_for_windows.Service.Json.{
  FieldValue, string, boolean, JsonObject, RootValue, array, field, to_string, to_array, as_bool,
}
use apfs_for_windows.Service.Drive.{normalize_drive_mount, drive_letter_in_use}

pub record MountConfig : Type 0 where
  pub target : Text
  pub mount : Text
  pub read_only : Bool
  pub allow_raw_writes : Bool
  pub enabled : Bool

-- No file, a file that cannot be opened, one that holds no JSON object, and the fields of the object.
pub data ConfigFile : Type 0 where
  missing unopenable malformed : ConfigFile
  document : List (Text × RootValue) → ConfigFile

-- QJsonValue::toBool(fallback)
abbrev pub to_bool : Option Bool → Bool → Bool
to_bool none fallback = fallback
to_bool (some b) fallback = b

pub mount_config_json : MountConfig → JsonObject
mount_config_json m =
    (codes "target", string m.target)
    ∷ (codes "mount", string m.mount)
    ∷ (codes "read_only", boolean m.read_only)
    ∷ (codes "allow_raw_writes", boolean m.allow_raw_writes)
    ∷ (codes "enabled", boolean m.enabled)
    ∷ []

-- What writeMountConfig writes.
unfoldable pub config_document : List MountConfig → ConfigFile
unfolding mount_config_json
config_document mounts = document ((codes "mounts", array (map mount_config_json mounts)) ∷ [])

-- An item of the array, in readMountConfig.
pub mount_config_of : Qt → JsonObject → MountConfig
unfolding field
mount_config_of q object = record {
  target = trimmed q (to_string (field (codes "target") object));
  mount = trimmed q (to_string (field (codes "mount") object));
  read_only = to_bool (as_bool (field (codes "read_only") object)) true;
  allow_raw_writes = to_bool (as_bool (field (codes "allow_raw_writes") object)) false;
  enabled = to_bool (as_bool (field (codes "enabled") object)) true;
}

abbrev pub is_complete : MountConfig → Bool
is_complete m = not (is_empty m.target) && not (is_empty m.mount)

-- readMountConfig: `none` where it sets an error.
unfoldable pub read_mount_config : Qt → ConfigFile → Option (List MountConfig)
unfolding mount_config_of field
read_mount_config q missing = some []
read_mount_config q unopenable = none
read_mount_config q malformed = none
read_mount_config q (document fields) =
    some (keep is_complete (map (mount_config_of q) (to_array (field (codes "mounts") fields))))

-- What the service finds around it: the logical drives, which targets the APFS core verifies to be
-- APFS, whether the file can be opened for writing, and whether the resync event exists.
pub record Surroundings : Type 0 where
  pub drives : ℕ → Bool
  pub verified_apfs : Text → Bool
  pub writable : Bool
  pub has_resync_event : Bool

pub record ServiceState : Type 0 where
  pub file : ConfigFile
  pub resync : Bool

-- A refusal with its exit code, or the mounts that the answer describes.
pub data Response : Type 0 where
  failed : ℕ → Response
  added : MountConfig → Response
  removed : List MountConfig → Response
  mount_set : Bool → Text → MountConfig → Response
  enabled_set : Bool → Bool → MountConfig → Response
  policy_set : Bool → Bool → Bool → MountConfig → Response

abbrev pub is_failure : Response → Bool
is_failure (failed code) = true
is_failure _ = false

abbrev pub raw_prefix : Text
raw_prefix = codes "\\\\.\\PhysicalDrive"

abbrev pub partition_prefix : Text
partition_prefix = codes "\\\\?\\GLOBALROOT\\Device\\Harddisk"

pub looks_like_raw_device_target : Qt → Text → Bool
looks_like_raw_device_target q target =
    q.contains_ci target raw_prefix || q.contains_ci target partition_prefix

-- The first mount that passes the test, changed.
pub update_first :
    (MountConfig → Bool) → (MountConfig → MountConfig) → List MountConfig → List MountConfig
update_first p f [] = []
update_first p f (m ∷ ms) = if p m then f m ∷ ms else m ∷ update_first p f ms

module _ (q : Qt) (env : Surroundings) where
  open env use {drives, verified_apfs, writable, has_resync_event}

  pub service_may_enable_raw_writes_for_target : Text → Bool
  unfolding looks_like_raw_device_target
  service_may_enable_raw_writes_for_target target =
      if not (looks_like_raw_device_target q target) then true else verified_apfs target

  -- writeMountConfig, and the resync event of a change that came through the service.
  unfoldable pub commit :
      Bool → ServiceState → List MountConfig → Response → ServiceState × Response
  unfolding config_document
  commit via_service s mounts response =
      if writable
      then (
        record s {
          file = config_document mounts;
          resync = s.resync || via_service && has_resync_event;
        },
        response,
      )
      else (s, failed 4)

  unfoldable pub add_mount_config :
      ServiceState → Text → Text → Bool → Bool → Bool → ServiceState × Response
  unfolding read_mount_config commit
  add_mount_config s target mount read_only allow_raw_writes via_service =
      if is_empty target || is_empty mount
      then (s, failed 2)
      else (if via_service && allow_raw_writes
          then (s, failed 8)
          else elim (read_mount_config q s.file) [
            | none ↦ (s, failed 3)
            | some mounts ↦
                let new : MountConfig = record {
                  target = target;
                  mount = mount;
                  read_only = read_only;
                  allow_raw_writes = allow_raw_writes;
                  enabled = true;
                } in
                let others =
                  keep (λ x. not (q.equal_ci x.mount mount || q.equal_ci x.target target)) mounts in
                commit via_service s (others ++ new ∷ []) (added new)
          ])

  pub remove_mount_config : ServiceState → Text → Text → Bool → ServiceState × Response
  unfolding read_mount_config commit
  remove_mount_config s target mount via_service =
      if is_empty target && is_empty mount
      then (s, failed 2)
      else elim (read_mount_config q s.file) [
        | none ↦ (s, failed 3)
        | some mounts ↦
            let matches : MountConfig → Bool = λ x.
              not (is_empty target) && q.equal_ci x.target target
              || not (is_empty mount) && q.equal_ci x.mount mount in
            commit via_service s (keep (λ x. not (matches x)) mounts)
              (removed (keep matches mounts))
      ]

  pub set_mount_config : ServiceState → Text → Text → Bool → ServiceState × Response
  unfolding read_mount_config commit update_first
  set_mount_config s target mount via_service =
      if is_empty target || is_empty mount
      then (s, failed 2)
      else elim (read_mount_config q s.file) [
        | none ↦ (s, failed 3)
        | some mounts ↦ elim (find_if (λ x. q.equal_ci x.target target) mounts) [
          | none ↦ (s, failed 5)
          | some found ↦
              let no_change = q.equal_ci found.mount mount in
              let conflict =
                any (λ x. not (q.equal_ci x.target target) && q.equal_ci x.mount mount) mounts in
              if conflict
              then (s, failed 6)
              else (if not no_change && drive_letter_in_use q drives mount
                  then (s, failed 7)
                  else commit via_service s
                      (update_first (λ x. q.equal_ci x.target target)
                        (λ x. record x { mount = mount }) mounts)
                      (mount_set (not no_change) found.mount (record found { mount = mount })))
        ]
      ]

  pub set_mount_enabled_config : ServiceState → Text → Option Bool → Bool → ServiceState × Response
  unfolding read_mount_config commit update_first
  set_mount_enabled_config s target enabled via_service =
      if is_empty target || not (is_some enabled)
      then (s, failed 2)
      else elim (read_mount_config q s.file) [
        | none ↦ (s, failed 3)
        | some mounts ↦ elim (find_if (λ x. q.equal_ci x.target target) mounts) [
          | none ↦ (s, failed 5)
          | some found ↦
              let value = to_bool enabled false in
              commit via_service s
                (update_first (λ x. q.equal_ci x.target target) (λ x. record x { enabled = value })
                  mounts)
                (enabled_set (not (same_flag found.enabled value)) found.enabled
                  (record found { enabled = value }))
        ]
      ]

  pub set_mount_policy_config : ServiceState → Text → Bool → Bool → Bool → ServiceState × Response
  unfolding read_mount_config commit update_first service_may_enable_raw_writes_for_target
      looks_like_raw_device_target
  set_mount_policy_config s target read_only allow_raw_writes via_service =
      if is_empty target
      then (s, failed 2)
      else (if via_service
            && not read_only
            && looks_like_raw_device_target q target
            && not allow_raw_writes
          then (s, failed 8)
          else (if via_service
                && allow_raw_writes
                && not (service_may_enable_raw_writes_for_target target)
              then (s, failed 8)
              else elim (read_mount_config q s.file) [
                | none ↦ (s, failed 3)
                | some mounts ↦ elim (find_if (λ x. q.equal_ci x.target target) mounts) [
                  | none ↦ (s, failed 5)
                  | some found ↦
                      let raw = if read_only then false else allow_raw_writes in
                      let change : MountConfig → MountConfig =
                        λ x. record x { read_only = read_only; allow_raw_writes = raw } in
                      commit via_service s
                        (update_first (λ x. q.equal_ci x.target target) change mounts)
                        (policy_set
                          (not (same_flag found.read_only read_only)
                            || not (same_flag found.allow_raw_writes raw))
                          found.read_only found.allow_raw_writes (change found))
                ]
              ]))
