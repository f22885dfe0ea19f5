-- ===== src/Service/Main/Ends.antt =====
-- The end of the service: a stop request ends the loop at its next turn.
use apfs_for_windows.Common.{
  All, All-append, Bool, Bool-cases, List, Option, Qt, Text, [], ap, false, inl, inr, none, refl,
  some, some-eq, sym, true, ℕ, ◌≡◌, ◌∙◌, ◌&&◌, ◌∷◌, ◌++◌, ◌==◌,
}
use mathlib.Core.Path.{subst}
use mathlib.Core.List.{append-nil, append_assoc}
use apfs_for_windows.Service.Control.{Request}
use apfs_for_windows.Service.Target.{Names}
use apfs_for_windows.Service.Scm.{stopped, stop_pending}
use apfs_for_windows.Service.Supervisor.Sync.{running_processes, stop_workers_lem}
use apfs_for_windows.Service.Main.{
  Status, set_service_status, handle_control, take_turn, Main, Step, control, turn, Turn,
  service_control_handler, control_stop, control_device_event, is_storage_device_event, step, run,
  shut_down,
}

-- The controls of a sequence of steps, and whether a turn is among them.
abbrev pub has_turn : List Step → Bool
has_turn [] = false
has_turn (turn t ∷ steps) = true
has_turn (control code type ∷ steps) = has_turn steps

-- The turn that comes first.
abbrev pub first_turn : List Step → Option Turn
first_turn [] = none
first_turn (turn t ∷ steps) = some t
first_turn (control code type ∷ steps) = first_turn steps

abbrev pub IsStopPending : Status → Type 0
IsStopPending s = (s.current_state ≡ stop_pending) × (s.accepts_stop ≡ false)

-- What the controls leave as it is while the loop has yet to see the stop event.
record Stopping (m m' : Main) : Type 0 where
  looping : m'.looping ≡ true
  stop_event : m'.stop_event ≡ true
  workers : m'.workers ≡ m.workers
  terminated : m'.terminated ≡ m.terminated
  answered : m'.answered ≡ m.answered
  file : m'.service.file ≡ m.service.file
  more : List Status
  reported : m'.reported ≡ m.reported ++ more
  pending : All IsStopPending more

handler-Stopping :
    (code type : ℕ) (m : Main)
    → m.looping ≡ true
    → m.stop_event ≡ true
    → Stopping m (service_control_handler code type m).0
unfolding service_control_handler set_service_status
handler-Stopping code type m live stopping = elim (Bool-cases (code == control_stop && m.looping)) [
  | inl e ↦
      rw (service_control_handler, e)
        (record {
          looping = live;
          stop_event = refl;
          workers = refl;
          terminated = refl;
          answered = refl;
          file = refl;
          more = set_service_status stop_pending 0 2000 ∷ [];
          reported = refl;
          pending = ((refl, refl), tt);
        })
  | inr e ↦ elim (Bool-cases (code == control_device_event && is_storage_device_event type)) [
    | inl e' ↦
        rw (service_control_handler, e, e', live)
          (record {
            looping = refl;
            stop_event = stopping;
            workers = refl;
            terminated = refl;
            answered = refl;
            file = refl;
            more = [];
            reported = sym (append-nil m.reported);
            pending = tt;
          })
    | inr e' ↦
        rw (service_control_handler, e, e')
          (record {
            looping = live;
            stop_event = stopping;
            workers = refl;
            terminated = refl;
            answered = refl;
            file = refl;
            more = [];
            reported = sym (append-nil m.reported);
            pending = tt;
          })
  ]
]

stop-Stopping :
    (type : ℕ) (m : Main)
    → m.looping ≡ true
    → Stopping m (service_control_handler control_stop type m).0
unfolding service_control_handler set_service_status
stop-Stopping type m live =
    subst (λ b. Stopping m (handle_control b control_stop type m).0) (sym live)
      (record {
        looping = live;
        stop_event = refl;
        workers = refl;
        terminated = refl;
        answered = refl;
        file = refl;
        more = set_service_status stop_pending 0 2000 ∷ [];
        reported = refl;
        pending = ((refl, refl), tt);
      })

module _ (q : Qt) (n : Names) (parse : Text → Option Request) where
  step-ended : (s : Step) (m : Main) → m.looping ≡ false → step q n parse s m ≡ m
  unfolding step service_control_handler
  step-ended (turn t) m over = ap (λ b. take_turn q n parse b m.stop_event t m) over
  step-ended (control code type) m over =
      ap (λ b. (handle_control b code type m).0) over ∙ unheard code type m
    where
      unheard : (code type : ℕ) (m : Main) → (handle_control false code type m).0 ≡ m
      unheard code type m = elim (Bool-cases (code == control_stop)) [
        | inl a ↦ elim (Bool-cases (code == control_device_event && is_storage_device_event type)) [
          | inl b ↦ rw (a, b) refl
          | inr b ↦ rw (a, b) refl
        ]
        | inr a ↦ elim (Bool-cases (code == control_device_event && is_storage_device_event type)) [
          | inl b ↦ rw (a, b) refl
          | inr b ↦ rw (a, b) refl
        ]
      ]

  -- After the loop nothing changes.
  run-ended : (steps : List Step) (m : Main) → m.looping ≡ false → run q n parse steps m ≡ m
  unfolding run
  run-ended [] m over = refl
  run-ended (s ∷ steps) m over =
      ap (run q n parse steps) (step-ended s m over) ∙ run-ended steps m over

  -- How the service is left: the workers that ran at the stop were terminated and forgotten, no
  -- request was answered and no configuration written on the way, and the last status is STOPPED.
  pub record Ended (t : Turn) (m m' : Main) : Type 0 where
    pub looping : m'.looping ≡ false
    pub workers : m'.workers ≡ []
    pub terminated : m'.terminated ≡ m.terminated ++ running_processes t.running_at_stop m.workers
    pub answered : m'.answered ≡ m.answered
    pub file : m'.service.file ≡ m.service.file
    pub more : List Status
    pub reported : m'.reported ≡ m.reported ++ (more ++ set_service_status stopped 0 0 ∷ [])
    pub pending : All IsStopPending more

  shut_down-Ended : (t : Turn) (m : Main) → Ended t m (shut_down q n parse t.running_at_stop m)
  unfolding shut_down set_service_status
  shut_down-Ended t m =
      let e = stop_workers_lem t.running_at_stop m.workers in
      record {
        looping = refl;
        workers = rw (shut_down, e) refl;
        terminated = rw (shut_down, e) refl;
        answered = refl;
        file = refl;
        more = set_service_status stop_pending 0 1000 ∷ [];
        reported = refl;
        pending = ((refl, refl), tt);
      }

  after_Stopping : (t : Turn) (m u v : Main) → Stopping m u → Ended t u v → Ended t m v
  after_Stopping t m u v s e =
      let last = set_service_status stopped 0 0 ∷ [] in
      record {
        looping = e.looping;
        workers = e.workers;
        terminated =
            (let a = e.terminated in let b = s.terminated in let c = s.workers in rw (← b, ← c) a);
        answered = e.answered ∙ s.answered;
        file = e.file ∙ s.file;
        more = s.more ++ e.more;
        reported =
            e.reported
            ∙ ap (λ x. x ++ (e.more ++ last)) s.reported
            ∙ append_assoc m.reported s.more (e.more ++ last)
            ∙ ap (λ x. m.reported ++ x) (sym (append_assoc s.more e.more last));
        pending = All-append IsStopPending s.more e.more s.pending e.pending;
      }

  run-Ended :
      (steps : List Step) (m : Main) (t : Turn)
      → m.looping ≡ true
      → m.stop_event ≡ true
      → first_turn steps ≡ some t
      → Ended t m (run q n parse steps m)
  unfolding run step service_control_handler
  run-Ended [] m t live stops e = cc
  run-Ended (turn u ∷ steps) m t live stops e =
      let same : u ≡ t = some-eq e in
      let now : take_turn q n parse m.looping m.stop_event u m
          ≡ shut_down q n parse u.running_at_stop m =
        ap (λ b. take_turn q n parse b m.stop_event u m) live
        ∙ ap (λ b. take_turn q n parse true b u m) stops in
      let over =
        run-ended steps (shut_down q n parse u.running_at_stop m) (shut_down-Ended u m).looping in
      subst (λ w. Ended w m (run q n parse (turn u ∷ steps) m)) same
        (subst (λ v. Ended u m v) (sym (ap (run q n parse steps) now ∙ over)) (shut_down-Ended u m))
  run-Ended (control code type ∷ steps) m t live stops e =
      let s = handler-Stopping code type m live stops in
      after_Stopping t m (service_control_handler code type m).0 _ s
        (run-Ended steps _ t s.looping s.stop_event e)

  -- From the loop a stop request is always obeyed: when the manager sends SERVICE_CONTROL_STOP, the
  -- next turn, whatever it meets and whatever controls come in between, ends the loop for good. The
  -- workers that ran then are terminated and none is left, no request is answered and no
  -- configuration is written after the stop, the statuses reported are STOP_PENDING and refuse
  -- further stops, and the last one is STOPPED.
  pub run-stops :
      (type : ℕ) (steps : List Step) (m : Main) (t : Turn)
      → m.looping ≡ true
      → first_turn steps ≡ some t
      → Ended t m (run q n parse (control control_stop type ∷ steps) m)
  unfolding run step service_control_handler
  run-stops type steps m t live e =
      let s = stop-Stopping type m live in
      after_Stopping t m (service_control_handler control_stop type m).0 _ s
        (run-Ended steps _ t s.looping s.stop_event e)
