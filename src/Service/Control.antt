-- ===== src/Service/Control.antt =====
-- src/service/apfs_mount_service.cpp: applyControlRequest, which changes the configuration for a
-- client of the service, and parseBoolValue.
pub mod Valid
use apfs_for_windows.Common.{
  Bool, List, Option, Qt, Text, [], codes, false, none, some, text_eq, trimmed, true, ◌||◌, ◌∷◌,
  if◌then◌else◌,
}
use apfs_for_windows.Service.Drive.{normalize_drive_mount}
use apfs_for_windows.Service.Config.{
  ServiceState, Response, failed, Surroundings, to_bool, add_mount_config, remove_mount_config,
  set_mount_config, set_mount_enabled_config, set_mount_policy_config,
}

pub parse_bool_value : Qt → Text → Option Bool
parse_bool_value q value =
    let normalized = q.to_lower (trimmed q value) in
    if text_eq normalized (codes "true")
      || text_eq normalized (codes "1")
      || text_eq normalized (codes "yes")
      || text_eq normalized (codes "on")
    then some true
    else (if text_eq normalized (codes "false")
          || text_eq normalized (codes "0")
          || text_eq normalized (codes "no")
          || text_eq normalized (codes "off")
        then some false
        else none)

-- The fields of a request: the texts that toString() gives, and the Booleans that are there.
pub record Request : Type 0 where
  pub command : Text
  pub target : Text
  pub mount : Text
  pub read_only : Option Bool
  pub allow_raw_writes : Option Bool
  pub enabled : Text

unfoldable pub apply_control_request :
    Qt → Surroundings → ServiceState → Request → ServiceState × Response
unfolding parse_bool_value
apply_control_request q env s r =
    let command = trimmed q r.command in
    let target = trimmed q r.target in
    let mount = trimmed q r.mount in
    if text_eq command (codes "add_mount")
    then add_mount_config q env s target mount (to_bool r.read_only true)
        (to_bool r.allow_raw_writes false) true
    else (if text_eq command (codes "remove_mount")
        then remove_mount_config q env s target mount true
        else (if text_eq command (codes "set_mount")
            then set_mount_config q env s target (normalize_drive_mount q mount) true
            else (if text_eq command (codes "set_enabled")
                then set_mount_enabled_config q env s target (parse_bool_value q r.enabled) true
                else (if text_eq command (codes "set_policy")
                    then set_mount_policy_config q env s target (to_bool r.read_only true)
                        (to_bool r.allow_raw_writes false) true
                    else (s, failed 2)))))

-- A history of requests.
pub serve : Qt → Surroundings → ServiceState → List Request → ServiceState
serve q env s [] = s
serve q env s (r ∷ rs) = serve q env (apply_control_request q env s r).0 rs
