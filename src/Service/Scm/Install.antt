-- ===== src/Service/Scm/Install.antt =====
-- installService: what the service control manager holds once it has succeeded, and what
-- queryInstalledService then reports.
use apfs_for_windows.Common.{
  Bool, Bool-cases, Text, [], arith, codes, false, inl, inr, is_empty, none, refl, some, true, ℕ,
  ◌<◌, ◌≡◌, ◌∙◌, ◌⊎◌, ◌∷◌,
}
use apfs_for_windows.Service.Scm.{
  Manager, StartType, Creation, created, exists, refused, value, automatic, FailureActions,
  RecoveryReport, Installation, recovery_policy, query_service_recovery_policy,
  configure_service_recovery_policy, failure_action_type_name, install_policy, install_service,
  quoted,
}

-- What the manager is told by a call that succeeds is what its queries give, and a call on one
-- setting leaves the others.
pub record KeepsSettings {W : Type 0} (m : Manager W) : Type 0 where
  pub create_config :
      (start : StartType) (cmd : Text) (w : W)
      → (m.create start cmd w).0 ≡ created
      → m.query_config (m.create start cmd w).1 ≡ value (start, cmd)
  pub change_config_config :
      (start : StartType) (cmd : Text) (w : W)
      → (m.change_config start cmd w).0 ≡ true
      → m.query_config (m.change_config start cmd w).1 ≡ value (start, cmd)
  pub actions_actions :
      (f : FailureActions) (w : W)
      → (m.change_actions f w).0 ≡ true
      → m.query_actions (m.change_actions f w).1 ≡ value f
  pub actions_config :
      (f : FailureActions) (w : W) → m.query_config (m.change_actions f w).1 ≡ m.query_config w
  pub flag_flag :
      (b : Bool) (w : W)
      → (m.change_flag b w).0 ≡ true
      → m.query_flag (m.change_flag b w).1 ≡ some b
  pub flag_actions : (b : Bool) (w : W) → m.query_actions (m.change_flag b w).1 ≡ m.query_actions w
  pub flag_config : (b : Bool) (w : W) → m.query_config (m.change_flag b w).1 ≡ m.query_config w
  pub status_config : (w : W) → m.query_config (m.query_status w).1 ≡ m.query_config w
  pub status_actions : (w : W) → m.query_actions (m.query_status w).1 ≡ m.query_actions w
  pub status_flag : (w : W) → m.query_flag (m.query_status w).1 ≡ m.query_flag w

-- The report on the recovery policy that installService writes.
abbrev pub policy_report : (ℕ → Text) → RecoveryReport
policy_report number = record {
  actions = some (record {
    reset_seconds = number 86400;
    restart_action_count = 3;
    actions =
        (codes "restart", number 5000)
        ∷ (codes "restart", number 30000)
        ∷ (codes "restart", number 60000)
        ∷ [];
  });
  non_crash_failures_enabled = some true;
}

module _ {W : Type 0} (m : Manager W) where
  -- The settings of a service that starts with the command and is restarted when it fails.
  pub record IsInstalled (cmd : Text) (w : W) : Type 0 where
    pub config : m.query_config w ≡ value (automatic, cmd)
    pub actions : m.query_actions w ≡ value recovery_policy
    pub flag : m.query_flag w ≡ some true

  module _ (k : KeepsSettings m) where
    -- The exit code is 0 only with the settings in place, and the report says so.
    abbrev IsResult : (ℕ → Text) → Text → Installation W → Type 0
    IsResult number cmd r =
        ((r.exit_code ≡ 0)
          × IsInstalled cmd r.world
          × ((b : Bool) × (r.report ≡ some (b, policy_report number))))
        ⊎ ((0 < r.exit_code) × (r.report ≡ none))

    configure-IsInstalled :
        (cmd : Text) (w : W)
        → m.query_config w ≡ value (automatic, cmd)
        → (configure_service_recovery_policy m w).0 ≡ true
        → IsInstalled cmd (configure_service_recovery_policy m w).1
    unfolding configure_service_recovery_policy
    configure-IsInstalled cmd w h ok = elim (Bool-cases (m.change_actions recovery_policy w).0) [
      | inr no_actions ↦ cc (rw (configure_service_recovery_policy, no_actions) at ok)
      | inl with_actions ↦
          let w1 = (m.change_actions recovery_policy w).1 in
          let flagged : (m.change_flag true w1).0 ≡ true =
            rw (configure_service_recovery_policy, with_actions) at ok in
          rw (configure_service_recovery_policy, with_actions)
            (record {
              config = k.flag_config true w1 ∙ k.actions_config recovery_policy w ∙ h;
              actions = k.flag_actions true w1 ∙ k.actions_actions recovery_policy w with_actions;
              flag = k.flag_flag true w1 flagged;
            })
    ]

    policy-report :
        (number : ℕ → Text) (cmd : Text) (w : W)
        → IsInstalled cmd w
        → query_service_recovery_policy m number w ≡ policy_report number
    unfolding query_service_recovery_policy failure_action_type_name
    policy-report number cmd w is = let a = is.actions in let f = is.flag in rw (a, f) refl

    install_policy-IsResult :
        (number : ℕ → Text) (cmd : Text) (is_new : Bool) (w : W)
        → m.query_config w ≡ value (automatic, cmd)
        → IsResult number cmd (install_policy m number is_new w)
    unfolding install_policy
    install_policy-IsResult number cmd is_new w h =
        elim (Bool-cases (configure_service_recovery_policy m w).0) [
          | inr fails ↦ rw (install_policy, fails) (inr (omega arith, refl))
          | inl ok ↦
              let is = configure-IsInstalled cmd w h ok in
              rw (install_policy, ok, policy-report number cmd _ is)
                (inl (refl, is, (is_new, refl)))
        ]

    created-or :
        (number : ℕ → Text) (path : Text) (w : W)
        → (c : Creation) → (m.create automatic (quoted path) w).0 ≡ c
        → is_empty path ≡ false
        → m.connects w ≡ true
        → IsResult number (quoted path) (install_service m number path w)
    unfolding install_service
    created-or number path w created e ne on =
        rw (install_service, ne, on, e)
          (install_policy-IsResult number _ true _ (k.create_config automatic _ w e))
    created-or number path w refused e ne on =
        rw (install_service, ne, on, e) (inr (omega arith, refl))
    created-or number path w exists e ne on =
        let w1 = (m.create automatic (quoted path) w).1 in
        elim (Bool-cases (m.open_to_change w1)) [
          | inr shut ↦ rw (install_service, ne, on, e, shut) (inr (omega arith, refl))
          | inl open_now ↦ elim (Bool-cases (m.change_config automatic (quoted path) w1).0) [
            | inr fails ↦ rw (install_service, ne, on, e, open_now, fails) (inr (omega arith, refl))
            | inl ok ↦
                rw (install_service, ne, on, e, open_now, ok)
                  (install_policy-IsResult number _ false _
                    (k.change_config_config automatic _ w1 ok))
          ]
        ]

    -- installService returns 0 only when the manager holds a service that starts automatically with
    -- the quoted path and restarts after 5, 30 and 60 seconds, after failures without a crash too, and
    -- it then reports that policy; on every other path its exit code is not 0 and it reports nothing.
    pub install_service-IsResult :
        (number : ℕ → Text) (path : Text) (w : W)
        → IsResult number (quoted path) (install_service m number path w)
    unfolding install_service
    install_service-IsResult number path w = elim (Bool-cases (is_empty path)) [
      | inl no_path ↦ rw (install_service, no_path) (inr (omega arith, refl))
      | inr ne ↦ elim (Bool-cases (m.connects w)) [
        | inr off ↦ rw (install_service, ne, off) (inr (omega arith, refl))
        | inl on ↦ created-or number path w _ refl ne on
      ]
    ]
