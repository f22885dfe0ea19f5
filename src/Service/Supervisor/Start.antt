-- ===== src/Service/Supervisor/Start.antt =====
-- Workers that were started: startWorker on a new handle, and startConfiguredWorkers.
use apfs_for_windows.Common.{
  List, Option-cases, Text, [], inl, inr, refl, some, sym, ℕ, ◌+◌, ◌≡◌, ◌⊎◌, ◌∷◌,
}
use apfs_for_windows.Service.Config.{MountConfig}
use apfs_for_windows.Service.Supervisor.{
  Launch, WorkerHandle, new_worker, start_worker, worker_arguments, start_all,
}

-- A worker whose start was attempted with the arguments of its mount: it has the process that the
-- launch gave, or none, and the time of the attempt, and the outcome is counted.
pub record IsLaunched (launch : List Text → Launch) (m : MountConfig) (w : WorkerHandle)
    : Type 0 where
  pub config : w.config ≡ m
  pub process : w.process ≡ (launch (worker_arguments m)).started
  pub attempt : w.last_start_attempt_utc ≡ some (launch (worker_arguments m)).attempted
  pub counted :
      ((w.start_count ≡ 1) × (w.failed_start_count ≡ 0))
      ⊎ ((w.start_count ≡ 0) × (w.failed_start_count ≡ 1))

-- One worker for each mount, in their order, each by a launch of its own.
abbrev pub Launched : (ℕ → List Text → Launch) → ℕ → List MountConfig → List WorkerHandle → Type 0
Launched launch i [] [] = Unit
Launched launch i [] (w ∷ ws) = ⊥
Launched launch i (m ∷ ms) [] = ⊥
Launched launch i (m ∷ ms) (w ∷ ws) = IsLaunched (launch i) m w × Launched launch (i + 1) ms ws

pub start_worker-IsLaunched :
    (launch : List Text → Launch) (m : MountConfig)
    → IsLaunched launch m (start_worker launch (new_worker m)).0
unfolding start_worker
start_worker-IsLaunched launch m = elim (Option-cases (launch (worker_arguments m)).started) [
  | inl e ↦
      rw (e, start_worker)
        (record { config = refl; process = sym e; attempt = refl; counted = inr (refl, refl) })
  | inr (p, e) ↦
      rw (e, start_worker)
        (record { config = refl; process = sym e; attempt = refl; counted = inl (refl, refl) })
]

pub start_all-Launched :
    (launch : ℕ → List Text → Launch) (i : ℕ) (ms : List MountConfig)
    → Launched launch i ms (start_all launch i ms)
unfolding start_all
start_all-Launched launch i [] = tt
start_all-Launched launch i (m ∷ ms) =
    (start_worker-IsLaunched (launch i) m, start_all-Launched launch (i + 1) ms)
