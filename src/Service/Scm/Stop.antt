-- ===== src/Service/Scm/Stop.antt =====
-- stopServiceAndWait and uninstallService: the loop ends by its deadline, and the service is deleted
-- only after its manager has said that it is stopped.
use apfs_for_windows.Common.{
  Bool, Bool-cases, Option, ap, arith, false, inl, inr, leb, none, not, refl, some, suc, sym, true,
  zero, ℕ, ◌+◌, ◌≤◌, ◌<◌, ◌≡◌, ◌∙◌, ◌⊎◌, ◌&&◌, if◌then◌else◌,
}
use mathlib.Core.Path.{subst}
use apfs_for_windows.Service.Partition.Bytes.{Gives}
use apfs_for_windows.Service.Scm.{
  Manager, ScmState, StopOutcome, StopResult, Uninstall, Opening, opened, does_not_exist, refused,
  stopped, timed_out, is_stopped, is_stopped_state, is_transition_pending, after_request,
  request_stop, stop_round, stop_loop, stop_service_and_wait, report_deletion, delete_stopped,
  uninstall_service,
}

-- The clock goes on while the process sleeps, and no call turns it back.
pub record KeepsTime {W : Type 0} (m : Manager W) : Type 0 where
  pub query_later : (w : W) → m.tick w ≤ m.tick (m.query_status w).1
  pub control_later : (w : W) → m.tick w ≤ m.tick (m.control_stop w).1
  pub sleep_later : (w : W) → m.tick w < m.tick (m.sleep 500 w)

is_stopped_state_sound : (s : ScmState) → is_stopped_state s ≡ true → s ≡ stopped
is_stopped_state_sound stopped h = refl
is_stopped_state_sound s h = cc

module _ {W : Type 0} (m : Manager W) where
  -- From one state of the manager to another with queries, requests to stop and sleeps only.
  pub data Waits : W → W → Type 0 where
    here : {w : W} → Waits w w
    queried : {w v : W} → Waits (m.query_status w).1 v → Waits w v
    asked : {w v : W} → Waits (m.control_stop w).1 v → Waits w v
    slept : {w v : W} → Waits (m.sleep 500 w) v → Waits w v

  pub Waits-trans : {u v : W} (w : W) → Waits u v → Waits v w → Waits u w
  Waits-trans w Waits.here k = k
  Waits-trans w (Waits.queried h) k = Waits.queried (Waits-trans w h k)
  Waits-trans w (Waits.asked h) k = Waits.asked (Waits-trans w h k)
  Waits-trans w (Waits.slept h) k = Waits.slept (Waits-trans w h k)

  -- The last query before the state `w` said that the service is stopped.
  pub record SeenStopped (w : W) : Type 0 where
    pub before : W
    pub process : ℕ
    pub seen : (m.query_status before).0 ≡ some (stopped, process)
    pub after : w ≡ (m.query_status before).1

  -- The last round before the state `v`: it starts at once, or after a sleep of 500 ms that began before
  -- the deadline, and makes one query and at most one request.
  abbrev pub IsLast : ℕ → W → W → Type 0
  IsLast deadline w v =
      (start : W) × ((start ≡ w) ⊎ ((u : W) × (m.tick u < deadline) × (start ≡ m.sleep 500 u)))
      × ((v ≡ (m.query_status start).1) ⊎ (v ≡ (m.control_stop (m.query_status start).1).1))

  -- How the loop ends when it starts in `w`: a service found stopped at once was not asked to stop, and
  -- a timeout is reported only at the deadline.
  abbrev pub IsEnd : ℕ → Bool → W → StopResult W → Type 0
  IsEnd deadline observed w r =
      Waits w r.world
      × (r.outcome ≡ is_stopped → SeenStopped r.world)
      × (r.already_stopped ≡ true
          → (observed ≡ false) × (r.world ≡ (m.query_status w).1) × (r.stop_requested ≡ false))
      × IsLast deadline w r.world
      × ((s : ScmState) → r.outcome ≡ timed_out s → deadline ≤ m.tick r.world)

  request_stop-Waits : (s : ScmState) (b : Bool) (w : W) → Waits w (request_stop m s b w).1
  unfolding request_stop
  request_stop-Waits s b w = elim (Bool-cases (not (is_transition_pending s) && not b)) [
    | inr e ↦ rw (request_stop, e) Waits.here
    | inl e ↦ rw (request_stop, e) (Waits.asked Waits.here)
  ]

  request_stop-world :
      (s : ScmState) (b : Bool) (w : W)
      → ((request_stop m s b w).1 ≡ w) ⊎ ((request_stop m s b w).1 ≡ (m.control_stop w).1)
  unfolding request_stop
  request_stop-world s b w = elim (Bool-cases (not (is_transition_pending s) && not b)) [
    | inr e ↦ rw (request_stop, e) (inl refl)
    | inl e ↦ rw (request_stop, e) (inr refl)
  ]

  -- A round ends with what it has seen, or goes on after a sleep, before the deadline.
  abbrev pub IsRound : ℕ → Bool → Bool → W → StopResult W ⊎ (Bool × W) → Type 0
  IsRound deadline observed requested w (inl r) = IsEnd deadline observed w r
  IsRound deadline observed requested w (inr (b, v)) =
      (u : W) × Waits w u × (m.tick u < deadline) × (v ≡ m.sleep 500 u)

  after_request-IsRound :
      (deadline : ℕ) (observed requested : Bool) (w u : W) (s : ScmState) (a : Bool × Bool)
      → Waits w u
      → (u ≡ (m.query_status w).1) ⊎ (u ≡ (m.control_stop (m.query_status w).1).1)
      → IsRound deadline observed requested w (after_request m deadline s (a, u))
  after_request-IsRound deadline observed requested w u s (true, b) h last =
      (h, λ e. cc, λ e. cc, (w, inl refl, last), λ x e. cc)
  after_request-IsRound deadline observed requested w u s (false, b) h last =
      elim (Bool-cases (leb deadline (m.tick u))) [
        | inl late ↦ rw late (h, λ e. cc, λ e. cc, (w, inl refl, last), λ x e. ground arith)
        | inr early ↦ rw early (u, h, ground arith, refl)
      ]

  IsRound-of :
      (deadline : ℕ) (observed requested : Bool) (w : W) (o : Option (ScmState × ℕ))
      → (m.query_status w).0 ≡ o
      → IsRound deadline observed requested w
          (stop_round m deadline observed requested o (m.query_status w).1)
  unfolding stop_round
  IsRound-of deadline observed requested w none e =
      (Waits.queried Waits.here, λ e. cc, λ e. cc, (w, inl refl, inl refl), λ x e. cc)
  IsRound-of deadline observed requested w (some (s, p)) e =
      elim (Bool-cases (is_stopped_state s)) [
        | inr active ↦
            rw (stop_round, active)
              (after_request-IsRound deadline observed requested w _ s _
                (Waits.queried (request_stop-Waits s requested _))
                (request_stop-world s requested _))
        | inl ends ↦
            rw (stop_round, ends)
              (
                Waits.queried Waits.here,
                λ k. record {
                  before = w;
                  process = p;
                  seen = rw (← is_stopped_state_sound s ends) e;
                  after = refl;
                },
                λ k. (ground arith, refl, ground arith),
                (w, inl refl, inl refl),
                λ x k. cc,
              )
      ]

  -- What became of the service: it is untouched but for requests to stop, or it was deleted in a
  -- state where the last query said that it is stopped.
  pub data IsUninstalled (w : W) (r : Uninstall W) : Type 0 where
    left_alone :
        Waits w r.world
        → r.report ≡ none
        → (r.exit_code ≡ 0 → m.open_to_stop w ≡ does_not_exist)
        → IsUninstalled w r
    deleted :
        (v : W)
        → Waits w v
        → SeenStopped v
        → r.world ≡ (m.delete v).1
        → r.exit_code ≡ (if (m.delete v).0 then 0 else 7)
        → IsUninstalled w r

  deletion :
      (w v : W) (b : Bool × Bool) (o : Bool × W)
      → m.delete v ≡ o
      → Waits w v
      → SeenStopped v
      → IsUninstalled w (report_deletion m b o)
  deletion w v b (true, u) e h seen =
      IsUninstalled.deleted v h seen (ap (λ x. x.1) (sym e)) (rw e refl)
  deletion w v b (false, u) e h seen =
      IsUninstalled.deleted v h seen (ap (λ x. x.1) (sym e)) (rw e refl)

  delete_stopped-IsUninstalled :
      (w : W) (o : StopOutcome) (requested already : Bool) (v : W)
      → Waits w v
      → (o ≡ is_stopped → SeenStopped v)
      → IsUninstalled w (
          delete_stopped m (record {
            outcome = o;
            stop_requested = requested;
            already_stopped = already;
            world = v;
          }))
  delete_stopped-IsUninstalled w is_stopped requested already v h seen =
      deletion w v (requested, already) (m.delete v) refl h (seen refl)
  delete_stopped-IsUninstalled w o requested already v h seen =
      IsUninstalled.left_alone h refl (λ e. cc)

  since :
      {deadline : ℕ} {start u v w : W}
      → v ≡ m.sleep 500 u
      → m.tick u < deadline
      → (start ≡ v) ⊎ ((x : W) × (m.tick x < deadline) × (start ≡ m.sleep 500 x))
      → (start ≡ w) ⊎ ((x : W) × (m.tick x < deadline) × (start ≡ m.sleep 500 x))
  since {u} e early (inl now) = inr (u, early, now ∙ e)
  since e early (inr later) = inr later

  wake : {u v x : W} → v ≡ m.sleep 500 u → Waits v x → Waits u x
  wake {u} {v} {x} e h = Waits.slept (subst (λ z. Waits z x) e h)

  module _ (t : KeepsTime m) where
    Waits-later : {w v : W} → Waits w v → m.tick w ≤ m.tick v
    Waits-later Waits.here = omega arith
    Waits-later (Waits.queried {w} h) = omega (arith, t.query_later w, Waits-later h)
    Waits-later (Waits.asked {w} h) = omega (arith, t.control_later w, Waits-later h)
    Waits-later (Waits.slept {w} h) = omega (arith, t.sleep_later w, Waits-later h)

    stop_loop-Gives :
        (fuel deadline : ℕ) (observed requested : Bool) (w : W)
        → 0 < fuel
        → deadline < fuel + m.tick w
        → Gives (stop_loop m fuel deadline observed requested w) (IsEnd deadline observed w)
    unfolding stop_loop
    stop_loop-Gives zero deadline observed requested w pos enough = absurd (omega arith)
    stop_loop-Gives (suc fuel) deadline observed requested w pos enough =
        next (stop_round m deadline observed requested (m.query_status w).0 (m.query_status w).1)
          refl (IsRound-of deadline observed requested w (m.query_status w).0 refl)
          (λ b v. stop_loop-Gives fuel deadline true b v)
      where
        next :
            (o : StopResult W ⊎ (Bool × W))
            → stop_round m deadline observed requested (m.query_status w).0 (m.query_status w).1 ≡ o
            → IsRound deadline observed requested w o
            → ((b : Bool) (v : W)
                → 0 < fuel
                → deadline < fuel + m.tick v
                → Gives (stop_loop m fuel deadline true b v) (IsEnd deadline true v))
            → Gives
                (stop_loop m (suc fuel) deadline observed requested w)
                (IsEnd deadline observed w)
        next (inl r) e is rec = (r, rw (stop_loop, e) refl, is)
        next (inr (b, v)) e (u, h, early, same) rec =
            let before = Waits-later h in
            let later = t.sleep_later u in
            let same_tick : m.tick v ≡ m.tick (m.sleep 500 u) = ap m.tick same in
            let (r, e', (k, seen, already, (start, begun, ended), late)) =
              rec b v (omega arith) (omega arith) in
            (
              r,
              rw (stop_loop, e) e',
              (
                Waits-trans r.world h (wake same k),
                seen,
                λ a. (let (o, q, n) = already a in cc),
                (start, since same early begun, ended),
                late,
              ),
            )

    -- If the clock goes on in each sleep and no call turns it back, stopServiceAndWait ends, after at
    -- most one round more than the milliseconds of the timeout. Its last round starts at once or after
    -- a sleep of 500 ms that began before the deadline, and makes one query and at most one request; a
    -- timeout is reported only at the deadline or after it. It has only queried, asked to stop and
    -- slept; it reports success only if its last query said that the service is stopped, and `already
    -- stopped` only if its first one did, and then it has asked for nothing.
    pub stop_service_and_wait-Gives :
        (fuel timeout : ℕ) (w : W)
        → timeout < fuel
        → Gives (stop_service_and_wait m fuel timeout w) (IsEnd (m.tick w + timeout) false w)
    unfolding stop_service_and_wait
    stop_service_and_wait-Gives fuel timeout w enough =
        stop_loop-Gives fuel (m.tick w + timeout) false false w (omega arith) (omega arith)

    -- uninstallService ends. It deletes the service only in a state where its last query said that
    -- the service is stopped, and then its exit code is 0 where the deletion succeeds and 7 where it
    -- fails; otherwise it has at most asked the service to stop, and its exit code is 0 only if there
    -- is no service.
    pub uninstall_service-IsUninstalled :
        (fuel : ℕ) (w : W) → 30000 < fuel → Gives (uninstall_service m fuel w) (IsUninstalled w)
    unfolding uninstall_service
    uninstall_service-IsUninstalled fuel w enough = elim (Bool-cases (m.connects w)) [
      | inr no_manager ↦ (
        record { exit_code = 3; report = none; world = w },
        rw (uninstall_service, no_manager) refl,
        IsUninstalled.left_alone Waits.here refl (λ e. cc),
      )
      | inl manager ↦ opening (m.open_to_stop w) refl manager
    ]
      where
        opening :
            (o : Opening)
            → m.open_to_stop w ≡ o
            → m.connects w ≡ true
            → Gives (uninstall_service m fuel w) (IsUninstalled w)
        opening does_not_exist e manager = (
          record { exit_code = 0; report = none; world = w },
          rw (uninstall_service, manager, e) refl,
          IsUninstalled.left_alone Waits.here refl (λ k. e),
        )
        opening refused e manager = (
          record { exit_code = 4; report = none; world = w },
          rw (uninstall_service, manager, e) refl,
          IsUninstalled.left_alone Waits.here refl (λ k. cc),
        )
        opening opened e manager =
            let (r, e', (h, seen, already, last, late)) =
              stop_service_and_wait-Gives fuel 30000 w enough in
            (
              delete_stopped m r,
              rw (uninstall_service, manager, e, e') refl,
              delete_stopped-IsUninstalled w r.outcome r.stop_requested r.already_stopped r.world h
                  seen,
            )
