-- ===== src/Service/Main/Queue.antt =====
-- The connections of clients: every one is answered, in the order of their arrival.
use apfs_for_windows.Common.{
  Bool, List, Option, Qt, Text, [], ap, arith, drop, false, leb, length, length-append, length-take,
  map, not, refl, sym, take, take-append-drop, true, ℕ, ◌+◌, ◌≡◌, ◌∙◌, ◌||◌, ◌∷◌, ◌++◌, ◌==◌,
}
use mathlib.Core.Path.{subst}
use mathlib.Core.List.{map-append, append_assoc}
use apfs_for_windows.Service.Config.{ServiceState, Surroundings, Response}
use apfs_for_windows.Service.Control.{Request}
use apfs_for_windows.Service.Target.{Names}
use apfs_for_windows.Service.Main.{
  Main, Step, control, turn, Turn, Connection, control_stop, process_control_connection,
  process_connections, handle_connections, process_control_server, sync_if, supervise, serve_turn,
  in_loop, take_turn, step,
}
use apfs_for_windows.Service.Main.Keeps.{
  Keeps-refl, Keeps-trans, resync-Keeps, handle_control-Keeps, sync_if-Keeps, supervise-Keeps,
}
use apfs_for_windows.Service.Main.Served.{
  clients, length-map, process_connections-IsAnswer, Served, Served-refl, Served-frame,
}

-- The steps of a service that is not asked to stop.
abbrev pub is_no_stop : Step → Bool
is_no_stop (turn t) = true
is_no_stop (control code type) = not (code == control_stop)

abbrev pub turn_count : Step → ℕ
turn_count (turn t) = 1
turn_count (control code type) = 0

abbrev pub arriving : Step → List Connection
arriving (turn t) = t.arrivals
arriving (control code type) = []

abbrev pub turns : List Step → ℕ
turns [] = 0
turns (s ∷ steps) = turn_count s + turns steps

abbrev pub arrivals_of : List Step → List Connection
arrivals_of [] = []
arrivals_of (s ∷ steps) = arriving s ++ arrivals_of steps

module _ (q : Qt) (n : Names) (parse : Text → Option Request) where
  process_connections-clients :
      (env : Surroundings) (cs : List Connection) (s : ServiceState)
      → map (λ a. a.0) (process_connections q n parse env s cs).1 ≡ cs
  unfolding process_connections
  process_connections-clients env [] s = refl
  process_connections-clients env (c ∷ cs) s =
      ap (λ xs. c ∷ xs)
        (process_connections-clients env cs (process_control_connection q n parse env s c).0)

  handle_connections-Served :
      (t : Turn) (m : Main)
      → m.looping ≡ true
      → m.listening ≡ true
      → m.stop_event ≡ false
      → Served q n parse 1 t.arrivals m (handle_connections q n parse true (in_loop t) t.arrivals m)
  handle_connections-Served t m live listens going =
      let waiting = m.pending ++ t.arrivals in
      let answers = (process_connections q n parse (in_loop t) m.service (take 8 waiting)).1 in
      let who = process_connections-clients (in_loop t) (take 8 waiting) m.service in
      record {
        live = live;
        listens = listens;
        going = going;
        in_order =
            ap (λ xs. xs ++ drop 8 waiting)
              (map-append (λ (a : Connection × Response). a.0) m.answered answers)
            ∙ append_assoc (clients m) (map (λ a. a.0) answers) (drop 8 waiting)
            ∙ ap (λ xs. clients m ++ xs)
                (ap (λ xs. xs ++ drop 8 waiting) who ∙ take-append-drop 8 waiting);
        answers = answers;
        grown = refl;
        right = process_connections-IsAnswer q n parse (in_loop t) (take 8 waiting) m.service;
        at_most = omega (
          arith,
          ap length who,
          length-map (λ (a : Connection × Response). a.0) answers,
          length-take 8 waiting,
        );
        enough = omega (
          arith,
          length-append m.answered answers,
          length-append m.pending t.arrivals,
          ap length who,
          length-map (λ (a : Connection × Response). a.0) answers,
          length-take 8 waiting,
        );
      }

  pub serve_turn-Served :
      (t : Turn) (m : Main)
      → m.looping ≡ true
      → m.listening ≡ true
      → m.stop_event ≡ false
      → Served q n parse 1 t.arrivals m (serve_turn q n parse t m)
  unfolding serve_turn process_control_server supervise
  serve_turn-Served t m live listens going =
      let m0 = record m { service = record m.service { resync = false } } in
      let m1 = process_control_server q n parse (in_loop t) t.arrivals m0 in
      let b = m.service.resync || leb (m1.last_sync + 5000) t.now in
      let m2 = sync_if q n parse b t m1 in
      let s1 : Served q n parse 1 t.arrivals m0 m1 =
        subst
          (λ l.
            Served q n parse 1 t.arrivals m0
              (handle_connections q n parse l (in_loop t) t.arrivals m0))
          (sym listens) (handle_connections-Served t m0 live listens going) in
      Served-frame q n parse t.arrivals m m m1 (supervise q n parse t m2) (Keeps-refl m)
        (Served-frame q n parse t.arrivals m m0 m1 m1 (resync-Keeps m) s1 (Keeps-refl m1))
        (Keeps-trans m1 m2 (supervise q n parse t m2) (sync_if-Keeps q n parse b t m1)
          (supervise-Keeps q n parse t m2))

  pub step-Served :
      (s : Step) (m : Main)
      → is_no_stop s ≡ true
      → m.looping ≡ true
      → m.listening ≡ true
      → m.stop_event ≡ false
      → Served q n parse (turn_count s) (arriving s) m (step q n parse s m)
  unfolding step
  step-Served (control code type) m other live listens going =
      Served-frame q n parse [] m m m _ (Keeps-refl m) (Served-refl q n parse m live listens going)
        (handle_control-Keeps m.looping code type m other)
  step-Served (turn t) m other live listens going =
      subst (λ b. Served q n parse 1 t.arrivals m (take_turn q n parse b m.stop_event t m))
        (sym live)
        (subst (λ b. Served q n parse 1 t.arrivals m (take_turn q n parse true b t m)) (sym going)
          (serve_turn-Served t m live listens going))
