-- ===== src/Service/Main/Served.antt =====
-- What turns of the loop do to the connections of clients, and how it adds up.
use apfs_for_windows.Common.{
  All, All-append, List, Option, Option-cases, Qt, Text, [], ap, arith, false, inl, inr, length,
  length-append, map, min, none, refl, some, sym, trimmed, true, ℕ, ◌+◌, ◌*◌, ◌≤◌, ◌≡◌, ◌∙◌, ◌∷◌,
  ◌++◌,
}
use mathlib.Core.List.{append-nil, append_assoc}
use apfs_for_windows.Service.Config.{ServiceState, Surroundings, Response, failed}
use apfs_for_windows.Service.Control.{Request, apply_control_request}
use apfs_for_windows.Service.Target.{Names}
use apfs_for_windows.Service.Main.{
  Main, Connection, process_control_connection, process_connections,
}
use apfs_for_windows.Service.Main.Keeps.{Keeps}

abbrev pub clients : Main → List Connection
clients m = map (λ a. a.0) m.answered

pub length-map : {A B : Type 0} (f : A → B) (xs : List A) → length (map f xs) ≡ length xs
length-map f [] = refl
length-map f (x ∷ xs) = omega (arith, length-map f xs)

module _ (q : Qt) (n : Names) (parse : Text → Option Request) where
  -- An answer is that of the request on the line, at the configuration that its turn came to; without
  -- a line, or with one that is no request, it is a refusal.
  pub data IsAnswer : Connection × Response → Type 0 where
    silent : IsAnswer (none, failed 124)
    no_request : (line : Text) → parse (trimmed q line) ≡ none → IsAnswer (some line, failed 2)
    request :
        (line : Text) (r : Request) (env : Surroundings) (s : ServiceState)
        → parse (trimmed q line) ≡ some r
        → IsAnswer (some line, (apply_control_request q env s r).1)

  process_control_connection-IsAnswer :
      (env : Surroundings) (s : ServiceState) (c : Connection)
      → IsAnswer (c, (process_control_connection q n parse env s c).1)
  unfolding process_control_connection
  process_control_connection-IsAnswer env s none = IsAnswer.silent
  process_control_connection-IsAnswer env s (some line) =
      elim (Option-cases (parse (trimmed q line))) [
        | inl e ↦ rw (process_control_connection, e) (IsAnswer.no_request line e)
        | inr (r, e) ↦ rw (process_control_connection, e) (IsAnswer.request line r env s e)
      ]

  pub process_connections-IsAnswer :
      (env : Surroundings) (cs : List Connection) (s : ServiceState)
      → All IsAnswer (process_connections q n parse env s cs).1
  unfolding process_connections
  process_connections-IsAnswer env [] s = tt
  process_connections-IsAnswer env (c ∷ cs) s = (
    process_control_connection-IsAnswer env s c,
    process_connections-IsAnswer env cs (process_control_connection q n parse env s c).0,
  )

  -- In a number of turns the service has answered eight connections in each, and no more, or all that
  -- waited; every answer is that of its request; what is answered and then what waits are the connections in the order of their arrival.
  pub record Served (count : ℕ) (arrivals : List Connection) (m m' : Main) : Type 0 where
    pub live : m'.looping ≡ true
    pub listens : m'.listening ≡ true
    pub going : m'.stop_event ≡ false
    pub in_order : clients m' ++ m'.pending ≡ clients m ++ (m.pending ++ arrivals)
    pub answers : List (Connection × Response)
    pub grown : m'.answered ≡ m.answered ++ answers
    pub right : All IsAnswer answers
    pub at_most : length answers ≤ 8 * count
    pub enough : length m.answered + min (length m.pending) (8 * count) ≤ length m'.answered

  pub Served-refl :
      (m : Main) → m.looping ≡ true → m.listening ≡ true → m.stop_event ≡ false → Served 0 [] m m
  Served-refl m live listens going = record {
    live = live;
    listens = listens;
    going = going;
    in_order = ap (λ xs. clients m ++ xs) (sym (append-nil m.pending));
    answers = [];
    grown = sym (append-nil m.answered);
    right = tt;
    at_most = omega arith;
    enough = omega arith;
  }

  pub Served-frame :
      {a : ℕ} (xs : List Connection) (m u v w : Main)
      → Keeps m u
      → Served a xs u v
      → Keeps v w
      → Served a xs m w
  Served-frame xs m u v w k s k' = record {
    live = k'.looping ∙ s.live;
    listens = k'.listening ∙ s.listens;
    going = k'.stop_event ∙ s.going;
    in_order =
        (ap (λ zs. map (λ (a : Connection × Response). a.0) zs ++ w.pending) k'.answered
          ∙ ap (λ zs. clients v ++ zs) k'.pending)
        ∙ s.in_order
        ∙ (ap (λ zs. map (λ (a : Connection × Response). a.0) zs ++ (u.pending ++ xs)) k.answered
            ∙ ap (λ zs. clients m ++ (zs ++ xs)) k.pending);
    answers = s.answers;
    grown = k'.answered ∙ s.grown ∙ ap (λ zs. zs ++ s.answers) k.answered;
    right = s.right;
    at_most = s.at_most;
    enough =
        (let e = s.enough in
          let f = ap length k.answered in
          let g = ap length k.pending in let h = ap length k'.answered in omega arith);
  }

  pub Served-trans :
      {a b : ℕ} (xs ys : List Connection) (m u v : Main)
      → Served a xs m u
      → Served b ys u v
      → Served (a + b) (xs ++ ys) m v
  Served-trans xs ys m u v h k = record {
    live = k.live;
    listens = k.listens;
    going = k.going;
    in_order =
        k.in_order
        ∙ sym (append_assoc (clients u) u.pending ys)
        ∙ ap (λ zs. zs ++ ys) h.in_order
        ∙ append_assoc (clients m) (m.pending ++ xs) ys
        ∙ ap (λ zs. clients m ++ zs) (append_assoc m.pending xs ys);
    answers = h.answers ++ k.answers;
    grown =
        k.grown ∙ ap (λ zs. zs ++ k.answers) h.grown ∙ append_assoc m.answered h.answers k.answers;
    right = All-append IsAnswer h.answers k.answers h.right k.right;
    at_most =
        (let e = h.at_most in
          let f = k.at_most in omega (arith, length-append h.answers k.answers));
    enough =
        (let e = ap length h.in_order in
          let f = h.enough in
          let g = k.enough in
          omega (
            arith,
            length-append (clients u) u.pending,
            length-append (clients m) (m.pending ++ xs),
            length-append m.pending xs,
            length-map (λ (a : Connection × Response). a.0) u.answered,
            length-map (λ (a : Connection × Response). a.0) m.answered,
          ));
  }
