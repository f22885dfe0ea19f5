-- ===== src/Service/Supervisor/Complete.antt =====
-- syncConfiguredWorkers as a whole: the configuration is read, and the workers follow it.
use apfs_for_windows.Common.{
  Bool, Bool-cases, ComparesByCase, List, Option-cases, Qt, Text, inl, inr, refl, some, ℕ, ◌≡◌,
  ◌&&◌, ◌||◌,
}
use apfs_for_windows.Service.Config.{MountConfig, ServiceState, Surroundings, read_mount_config}
use apfs_for_windows.Service.Target.{Names, DiscoveredApfsVolume}
use apfs_for_windows.Service.Discovery.{
  merge_discovered_mounts, canonicalize_discovered_mount_aliases,
}
use apfs_for_windows.Service.Supervisor.{
  WorkerHandle, Launch, runnable_mounts, active_worker_configs, sync_configured_workers,
  read_mount_config_with_auto_discovery,
}
use apfs_for_windows.Service.Supervisor.Sync.{Synced, sync_workers_lem}

module _ (q : Qt) (laws : ComparesByCase q) (launch : ℕ → List Text → Launch) where
  -- A sync over a configuration that can be read brings the workers to the mounts that can run.
  pub sync_configured_workers-Synced :
      (n : Names) (volumes : List DiscoveredApfsVolume) (env : Surroundings)
      (available : Text → Bool) (running : ℕ → Bool) (s : ServiceState)
      (workers : List WorkerHandle) {mounts : List MountConfig}
      → (read_mount_config_with_auto_discovery q n volumes env (active_worker_configs workers) s).0
        ≡ some mounts
      → Synced q running launch
          (runnable_mounts available mounts)
          workers
          (sync_configured_workers q n volumes env available running launch s workers).0
  unfolding sync_configured_workers
  sync_configured_workers-Synced n volumes env available running s workers {mounts} e =
      rw (sync_configured_workers, e)
        (sync_workers_lem q laws launch running (runnable_mounts available mounts) workers)

module _ (q : Qt) where
  -- Reading the configuration and syncing leave the resync event as it is.
  read-resync :
      (n : Names) (volumes : List DiscoveredApfsVolume) (env : Surroundings)
      (preferred : List MountConfig) (s : ServiceState)
      → (read_mount_config_with_auto_discovery q n volumes env preferred s).1.resync ≡ s.resync
  unfolding read_mount_config_with_auto_discovery
  read-resync n volumes env preferred s = elim (Option-cases (read_mount_config q s.file)) [
    | inl e ↦ rw (read_mount_config_with_auto_discovery, e) refl
    | inr (mounts, e) ↦
        let canonical = canonicalize_discovered_mount_aliases q n volumes mounts in
        let merged = merge_discovered_mounts q n volumes env.drives preferred canonical.0 in
        elim (Bool-cases ((canonical.1 || merged.1) && env.writable)) [
          | inl b ↦ rw (read_mount_config_with_auto_discovery, e, b) refl
          | inr b ↦ rw (read_mount_config_with_auto_discovery, e, b) refl
        ]
  ]

  pub sync_configured_workers-resync :
      (n : Names) (volumes : List DiscoveredApfsVolume) (env : Surroundings)
      (available : Text → Bool) (running : ℕ → Bool) (launch : ℕ → List Text → Launch)
      (s : ServiceState) (workers : List WorkerHandle)
      → (sync_configured_workers q n volumes env available running launch s workers).1.resync
        ≡ s.resync
  unfolding sync_configured_workers
  sync_configured_workers-resync n volumes env available running launch s workers =
      let preferred = active_worker_configs workers in
      let kept = read-resync n volumes env preferred s in
      elim (Option-cases (read_mount_config_with_auto_discovery q n volumes env preferred s).0) [
        | inl e ↦ rw (sync_configured_workers, e) kept
        | inr (mounts, e) ↦ rw (sync_configured_workers, e) kept
      ]
