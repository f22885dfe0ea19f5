-- ===== src/Service/Supervisor/Backoff.antt =====
-- superviseWorkers: running workers are left alone, the others start again, at most every five
-- seconds.
use apfs_for_windows.Common.{
  Bool, Bool-cases, List, Option-cases, Qt, Text, [], ap, arith, false, inl, inr, ltb, ltb→lt, none,
  refl, some, sym, true, ℕ, ◌+◌, ◌≤◌, ◌<◌, ◌≡◌, ◌∙◌, ◌⊎◌, ◌||◌, ◌∷◌,
}
use apfs_for_windows.Service.Config.{MountConfig}
use apfs_for_windows.Service.Supervisor.{
  same_worker_config, contains_worker, WorkerHandle, Launch, worker_arguments, start_worker,
  attempted_recently, is_running, supervise_worker, supervise_workers,
}

module _ (running : ℕ → Bool) (now : ℕ) where
  -- What one pass may do to a worker: nothing while it runs; forget a process that has ended while
  -- the last attempt is recent; else start it, which counts a start or a failure.
  pub data Supervised (launch : List Text → Launch) : WorkerHandle → WorkerHandle → Type 0 where
    runs :
        {w : WorkerHandle} (p : ℕ) → w.process ≡ some p → running p ≡ true → Supervised launch w w
    waits :
        {w : WorkerHandle} (t : ℕ)
        → is_running running w ≡ false
        → w.last_start_attempt_utc ≡ some t
        → now < t + 5000
        → Supervised launch w (record w { process = none })
    starts :
        {w w' : WorkerHandle}
        → is_running running w ≡ false
        → ((t : ℕ) → w.last_start_attempt_utc ≡ some t → t + 5000 ≤ now)
        → w'.config ≡ w.config
        → w'.process ≡ (launch (worker_arguments w.config)).started
        → w'.last_start_attempt_utc ≡ some (launch (worker_arguments w.config)).attempted
        → ((w'.start_count ≡ w.start_count + 1) × (w'.failed_start_count ≡ 0))
          ⊎ ((w'.start_count ≡ w.start_count) × (w'.failed_start_count ≡ w.failed_start_count + 1))
        → Supervised launch w w'

  supervise_worker-Supervised :
      (launch : List Text → Launch) (w : WorkerHandle)
      → Supervised launch w (supervise_worker running now launch w)
  unfolding supervise_worker is_running attempted_recently start_worker
  supervise_worker-Supervised launch w = elim (Bool-cases (is_running running w)) [
    | inl e ↦ let (p, h, r) = process_of w e in rw e (runs p h r)
    | inr e ↦ elim (Bool-cases (attempted_recently now w)) [
      | inl x ↦ let (t, h, lt) = recent_of w x in rw (e, x) (waits t e h lt)
      | inr x ↦ rw (e, x) (started launch w e (λ t h. not_recent w t x h))
    ]
  ]
    where
      process_of :
          (w : WorkerHandle)
          → is_running running w ≡ true
          → (p : ℕ) × (w.process ≡ some p) × (running p ≡ true)
      process_of w h = elim (Option-cases w.process) [
        | inl e ↦ cc (rw e at h)
        | inr (p, e) ↦ (p, e, rw e at h)
      ]

      recent_of :
          (w : WorkerHandle)
          → attempted_recently now w ≡ true
          → (t : ℕ) × (w.last_start_attempt_utc ≡ some t) × (now < t + 5000)
      recent_of w h = elim (Option-cases w.last_start_attempt_utc) [
        | inl e ↦ cc (rw e at h)
        | inr (t, e) ↦ (t, e, ltb→lt now (t + 5000) (rw e at h))
      ]

      not_recent :
          (w : WorkerHandle) (t : ℕ)
          → attempted_recently now w ≡ false
          → w.last_start_attempt_utc ≡ some t
          → t + 5000 ≤ now
      not_recent w t h e = let k : ltb now (t + 5000) ≡ false = rw e at h in ground arith

      started :
          (launch : List Text → Launch) (w : WorkerHandle)
          → is_running running w ≡ false
          → ((t : ℕ) → w.last_start_attempt_utc ≡ some t → t + 5000 ≤ now)
          → Supervised launch w (start_worker launch (record w { process = none })).0
      started launch w e due = elim (Option-cases (launch (worker_arguments w.config)).started) [
        | inl x ↦ rw (x, start_worker) (starts e due refl (sym x) refl (inr (refl, refl)))
        | inr (p, x) ↦ rw (x, start_worker) (starts e due refl (sym x) refl (inl (refl, refl)))
      ]

  -- Two lists related one by one, the i-th pair by the i-th relation.
  abbrev pub Pairwise :
      (ℕ → WorkerHandle → WorkerHandle → Type 0)
      → ℕ
      → List WorkerHandle
      → List WorkerHandle
      → Type 0
  Pairwise R i [] [] = Unit
  Pairwise R i [] (y ∷ ys) = ⊥
  Pairwise R i (x ∷ xs) [] = ⊥
  Pairwise R i (x ∷ xs) (y ∷ ys) = R i x y × Pairwise R (i + 1) xs ys

  -- One pass changes every worker as `Supervised` says: a worker that runs is untouched, one whose
  -- last attempt is under five seconds ago is not started, and any other is started with the
  -- arguments of its mount; no worker is lost and no mount changes.
  pub supervise_workers-Supervised :
      (launch : ℕ → List Text → Launch) (i : ℕ) (ws : List WorkerHandle)
      → Pairwise (λ j. Supervised (launch j)) i ws (supervise_workers running now launch i ws)
  unfolding supervise_workers
  supervise_workers-Supervised launch i [] = tt
  supervise_workers-Supervised launch i (w ∷ ws) =
      (supervise_worker-Supervised (launch i) w, supervise_workers-Supervised launch (i + 1) ws)

  Supervised-config :
      (launch : List Text → Launch) (w w' : WorkerHandle)
      → Supervised launch w w'
      → w'.config ≡ w.config
  Supervised-config launch w w' (runs p a b) = refl
  Supervised-config launch w w' (waits t a b c) = refl
  Supervised-config launch w w' (starts a b same c d e) = same

  Pairwise-contains :
      (q : Qt) (m : MountConfig) (launch : ℕ → List Text → Launch) (i : ℕ)
      (ws ws' : List WorkerHandle)
      → Pairwise (λ j. Supervised (launch j)) i ws ws'
      → contains_worker q ws' m ≡ contains_worker q ws m
  Pairwise-contains q m launch i [] [] h = refl
  Pairwise-contains q m launch i [] (y ∷ ys) h = elim h [ ]
  Pairwise-contains q m launch i (x ∷ xs) [] h = elim h [ ]
  Pairwise-contains q m launch i (x ∷ xs) (y ∷ ys) h =
      ap (λ c. same_worker_config q c m || contains_worker q ys m)
        (Supervised-config (launch i) x y h.0)
      ∙ ap (λ b. same_worker_config q x.config m || b)
          (Pairwise-contains q m launch (i + 1) xs ys h.1)

  -- A pass loses no mount.
  pub supervise_workers-contains :
      (q : Qt) (m : MountConfig) (launch : ℕ → List Text → Launch) (ws : List WorkerHandle)
      → contains_worker q (supervise_workers running now launch 0 ws) m ≡ contains_worker q ws m
  supervise_workers-contains q m launch ws =
      Pairwise-contains q m launch 0 ws _ (supervise_workers-Supervised launch 0 ws)
