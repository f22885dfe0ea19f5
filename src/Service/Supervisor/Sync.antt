-- ===== src/Service/Supervisor/Sync.antt =====
-- syncConfiguredWorkers: the workers follow the mounts that can run.
use apfs_for_windows.Common.{
  All, All-mono, Bool, Bool-cases, ComparesByCase, List, Memᴰ, Memᴰ-append_left, Memᴰ-append_right,
  Option, Pairs, Qt, Text, [], any, any-Memᴰ, ap, false, inl, inr, keep, none, not, refl, same_flag,
  some, sym, true, ℕ, ◌+◌, ◌≡◌, ◌∙◌, ◌||◌, ◌∷◌, ◌++◌,
}
use mathlib.Core.Path.{subst}
use mathlib.Core.List.{append_assoc, append-nil}
use apfs_for_windows.Service.Config.{MountConfig}
use apfs_for_windows.Service.Supervisor.Start.{Launched, start_worker-IsLaunched}
use apfs_for_windows.Service.Supervisor.{
  WorkerHandle, Launch, new_worker, start_worker, same_worker_config, contains_config,
  contains_worker, stop_worker, stop_workers, remove_workers, add_workers, sync_workers,
}

-- The running processes of these workers.
abbrev pub running_processes : (ℕ → Bool) → List WorkerHandle → List ℕ
running_processes running [] = []
running_processes running (w ∷ ws) = elim (stop_worker running w) [
  | none ↦ running_processes running ws
  | some p ↦ p ∷ running_processes running ws
]

any-append :
    {A : Type 0} (p : A → Bool) (xs ys : List A) → any p (xs ++ ys) ≡ (any p xs || any p ys)
any-append p [] ys = refl
any-append p (x ∷ xs) ys = elim (Bool-cases (p x)) [
  | inl e ↦ rw e refl
  | inr e ↦ rw e (any-append p xs ys)
]

-- stopWorkers stops exactly the workers that run.
pub stop_workers_lem :
    (runs : ℕ → Bool) (ws : List WorkerHandle)
    → stop_workers runs ws ≡ ([], running_processes runs ws)
unfolding stop_workers
stop_workers_lem runs [] = refl
stop_workers_lem runs (w ∷ ws) =
    let e : (stop_workers runs ws).1 ≡ running_processes runs ws =
      ap (λ x. x.1) (stop_workers_lem runs ws) in
    ap (λ ps. ([], elim (stop_worker runs w) as (λ _. List ℕ) [ none ↦ ps | some p ↦ p ∷ ps ])) e

abbrev with_stopped : Option ℕ → List WorkerHandle × List ℕ → List WorkerHandle × List ℕ
with_stopped stopped r = (r.0, elim stopped [ none ↦ r.1 | some p ↦ p ∷ r.1 ])

module _ (q : Qt) (running : ℕ → Bool) (desired : List MountConfig) where
  remove_workers_lem :
      (ws : List WorkerHandle)
      → remove_workers q running desired ws ≡ (
        keep (λ w. contains_config q desired w.config) ws,
        running_processes running (keep (λ w. not (contains_config q desired w.config)) ws),
      )
  unfolding remove_workers
  remove_workers_lem [] = refl
  remove_workers_lem (w ∷ ws) = elim (Bool-cases (contains_config q desired w.config)) [
    | inl e ↦ rw e (ap (λ r. (w ∷ r.0, r.1)) (remove_workers_lem ws))
    | inr e ↦ rw e (ap (with_stopped (stop_worker running w)) (remove_workers_lem ws))
  ]

-- What a sync makes of the workers: those of a desired mount stay, untouched and in order, and the
-- running processes of the others are stopped. Behind them stand new ones, each started for its mount
-- with the arguments of that mount. These mounts are desired, none of the workers that stay has one,
-- and no two of them are the same. Every desired mount then has a worker.
pub record Synced (q : Qt) (running : ℕ → Bool) (launch : ℕ → List Text → Launch)
    (desired : List MountConfig) (workers : List WorkerHandle) (out : List WorkerHandle × List ℕ)
    : Type 0 where
  pub added : List MountConfig
  pub new : List WorkerHandle
  pub all_workers : out.0 ≡ keep (λ w. contains_config q desired w.config) workers ++ new
  pub stopped :
      out.1
      ≡ running_processes running (keep (λ w. not (contains_config q desired w.config)) workers)
  pub launched : Launched launch 0 added new
  pub missing :
      All
        (λ m.
          Memᴰ m desired
          × (contains_worker q (keep (λ w. contains_config q desired w.config) workers) m ≡ false))
        added
  pub apart : Pairs (λ a b. same_worker_config q a b ≡ false) added
  pub complete : All (λ m. contains_worker q out.0 m ≡ true) desired

module _ (q : Qt) (laws : ComparesByCase q) (launch : ℕ → List Text → Launch) where
  same_worker_config_refl : (m : MountConfig) → same_worker_config q m m ≡ true
  unfolding same_worker_config
  same_worker_config_refl m =
      let flag = λ (b : Bool). same_flag_refl b in
      rw
        (
          laws.ci_refl m.target,
          laws.ci_refl m.mount,
          flag m.read_only,
          flag m.allow_raw_writes,
          flag m.enabled,
        )
        refl
    where
      same_flag_refl : (b : Bool) → same_flag b b ≡ true
      same_flag_refl true = refl
      same_flag_refl false = refl

  contains_started :
      (i : ℕ) (m : MountConfig) (ws more : List WorkerHandle)
      → contains_worker q ((ws ++ (start_worker (launch i) (new_worker m)).0 ∷ []) ++ more) m ≡ true
  contains_started i m ws more =
      any-Memᴰ _ _
        (Memᴰ-append_left (ws ++ (start_worker (launch i) (new_worker m)).0 ∷ []) more
          (Memᴰ-append_right ws _ (Memᴰ.head refl)))
        (rw (start_worker-IsLaunched (launch i) m).config (same_worker_config_refl m))

  -- What the second loop adds behind the workers `ws`.
  record Added (i : ℕ) (ws : List WorkerHandle) (desired : List MountConfig)
      (new : List WorkerHandle) : Type 0 where
    added : List MountConfig
    launched : Launched launch i added new
    missing : All (λ m. Memᴰ m desired × (contains_worker q ws m ≡ false)) added
    apart : Pairs (λ a b. same_worker_config q a b ≡ false) added
    complete : All (λ m. contains_worker q (ws ++ new) m ≡ true) desired

  not_before :
      (w : WorkerHandle) (m : MountConfig) (ws : List WorkerHandle)
      → contains_worker q (ws ++ w ∷ []) m ≡ false
      → (contains_worker q ws m ≡ false) × (same_worker_config q w.config m ≡ false)
  not_before w m ws h =
      let e = any-append (λ x. same_worker_config q x.config m) ws (w ∷ []) in
      elim (Bool-cases (contains_worker q ws m)) [
        | inl f ↦ cc (rw (e, f) at h)
        | inr f ↦ elim (Bool-cases (same_worker_config q w.config m)) [
          | inl g ↦ cc (rw (e, f, g) at h)
          | inr g ↦ (f, g)
        ]
      ]

  add_workers_lem :
      (i : ℕ) (ms : List MountConfig) (ws : List WorkerHandle)
      → (new : List WorkerHandle) × (add_workers q launch i ms ws ≡ ws ++ new) × Added i ws ms new
  unfolding add_workers
  add_workers_lem i [] ws = (
    [],
    sym (append-nil ws),
    record { added = []; launched = tt; missing = tt; apart = tt; complete = tt },
  )
  add_workers_lem i (m ∷ ms) ws = elim (Bool-cases (contains_worker q ws m)) [
    | inl e ↦
        let (new, h, a) = add_workers_lem i ms ws in
        (
          new,
          rw (e, add_workers) h,
          record {
            added = a.added;
            launched = a.launched;
            missing = All-mono _ (λ x p. (Memᴰ.tail p.0, p.1)) a.added a.missing;
            apart = a.apart;
            complete =
                (rw (any-append (λ w. same_worker_config q w.config m) ws new, e) refl, a.complete);
          },
        )
    | inr e ↦
        let is = start_worker-IsLaunched (launch i) m in
        let w = (start_worker (launch i) (new_worker m)).0 in
        let (new, h, a) = add_workers_lem (i + 1) ms (ws ++ w ∷ []) in
        (
          w ∷ new,
          rw (e, add_workers) (h ∙ append_assoc ws (w ∷ []) new),
          record {
            added = m ∷ a.added;
            launched = (is, a.launched);
            missing = (
              (Memᴰ.head refl, e),
              All-mono _ (λ x p. (Memᴰ.tail p.0, (not_before w x ws p.1).0)) a.added a.missing,
            );
            apart = (
              All-mono _
                  (λ x p.
                    (subst (λ c. same_worker_config q c x ≡ false) is.config
                      (not_before w x ws p.1).1))
                  a.added a.missing,
              a.apart,
            );
            complete = (
              rw (append_assoc ws (w ∷ []) new) at (contains_started i m ws new),
              subst (λ all. All (λ x. contains_worker q all x ≡ true) ms)
                  (append_assoc ws (w ∷ []) new) a.complete,
            );
          },
        )
  ]

  -- A sync keeps the workers of desired mounts, stops exactly the running processes of the others,
  -- and starts one worker for each desired mount that has none, with that mount's arguments.
  pub sync_workers_lem :
      (running : ℕ → Bool) (desired : List MountConfig) (workers : List WorkerHandle)
      → Synced q running launch desired workers (sync_workers q running launch desired workers)
  unfolding sync_workers
  sync_workers_lem running desired workers =
      let kept = keep (λ w. contains_config q desired w.config) workers in
      let (new, h, a) = add_workers_lem 0 desired kept in
      rw (remove_workers_lem q running desired workers) (record {
        added = a.added;
        new = new;
        all_workers = h;
        stopped = refl;
        launched = a.launched;
        missing = a.missing;
        apart = a.apart;
        complete = rw h a.complete;
      })
