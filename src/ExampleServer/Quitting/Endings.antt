-- ===== src/ExampleServer/Quitting/Endings.antt =====
-- How `main` of the example server ends after a typed "/quit".
use mathlib.Core.List.{flatten}
use chaos_in_multiplayer.Base.{
  ℕ, ◌+◌, ◌<◌, ◌≡◌, refl, sym, ap, subst, ◌∙◌, true, false, some, List, [], Text, arith, length,
  is_some-eq,
}
use chaos_in_multiplayer.Platform.{Platform}
use chaos_in_multiplayer.Program.{Outcome, ok, World, Action, ◌>>◌}
use chaos_in_multiplayer.InputController.{of_schedule}
use chaos_in_multiplayer.InputController.Queue.{unread}
use chaos_in_multiplayer.Server.{
  Server, of_port, of_address, local_ip_address, set_packet_callback,
  set_connection_status_change_callback,
}
use chaos_in_multiplayer.Server.Opening.{format_address, open_connection}
use chaos_in_multiplayer.Server.Opening.Handles.{opened, open_connection-running}
use chaos_in_multiplayer.Server.Closing.{close_connection}
use chaos_in_multiplayer.Server.Closing.Teardown.{close_connection_lem}
use chaos_in_multiplayer.Server.Session.Soundness.{IsSound, open_connection-IsSound}
use chaos_in_multiplayer.Server.Session.Histories.{of_address-IsSound}
use chaos_in_multiplayer.Server.UserInput.Commands.{has_quit}
use chaos_in_multiplayer.Server.Updating.Idle.{IsIdle}
use chaos_in_multiplayer.ExampleServer.{main_loop}
use chaos_in_multiplayer.ExampleServer.Main.{packet_code, status_code, main}
use chaos_in_multiplayer.ExampleServer.Main.Runs.{
  main_loop-Keeps, set_packet_callback-Keeps, set_status_callback-Keeps,
}
use chaos_in_multiplayer.ExampleServer.Quitting.{open_connection-same}
use chaos_in_multiplayer.ExampleServer.Quitting.Asked.{IsAsked}
use chaos_in_multiplayer.ExampleServer.Quitting.Rounds.{main_loop-Quit}

-- The server was closed, and nothing of it is left.
pub record IsClosed {Env : Type 0} (p : Platform Env) (s : Server) : Type 0 where
  pub stopped : s.running ≡ false
  pub asked : s.quit_requested ≡ true
  pub nobody : s.connections ≡ []
  pub socket : s.listening_socket ≡ some p.invalid_listen_socket
  pub group : s.poll_group ≡ some p.invalid_poll_group

abbrev Closed : {Env : Type 0} → Platform Env → Outcome Unit × World Server Env → Type 0
Closed p x = (x.0 ≡ ok tt) × IsClosed p x.1.object

then_next :
    {S Env A : Type 0} (w : World S Env) (m : Action S Env Unit) (k : Action S Env A)
    → (m w).0 ≡ ok tt
    → (m >> k) w ≡ k (m w).1
then_next w m k e = rw e refl

module _ {Env : Type 0} (p : Platform Env) (rand : Env → ℕ × Env) where
  -- The world in which `main` opens the connection.
  abbrev configured : ℕ → List (List Text) → World Server Env → World Server Env
  configured port typed w = record w {
    object =
        set_connection_status_change_callback (some 2)
          (set_packet_callback (some 1) (of_port port typed));
  }

  configured-IsSound :
      (port : ℕ) (typed : List (List Text)) (w : World Server Env)
      → IsSound (configured port typed w).object
  unfolding of_port
  configured-IsSound port typed w =
      let v : World Server Env = record w { object = of_port port typed } in
      let x : World Server Env = record w { object = set_packet_callback (some 1) v.object } in
      (set_status_callback-Keeps p rand (some 2)).at x (
        (set_packet_callback-Keeps p rand (some 1)).at v
          (of_address-IsSound local_ip_address port typed))

  close_connection-Closed :
      (w : World Server Env)
      → IsSound w.object
      → w.object.running ≡ true
      → Closed p (close_connection p w)
  close_connection-Closed w f up =
      let (has_socket, has_group) = f.sockets up in
      let (socket, s) = is_some-eq w.object.listening_socket has_socket in
      let (group, g) = is_some-eq w.object.poll_group has_group in
      rw (close_connection_lem p socket group w f.registry.distinct s g)
        (refl, record { stopped = refl; asked = refl; nobody = refl; socket = refl; group = refl })

  -- The world in which the loop of `main` starts.
  abbrev at_loop : ℕ → List (List Text) → World Server Env → World Server Env
  at_loop port typed w = (open_connection p (configured port typed w)).1

  at_loop-IsAsked :
      (port : ℕ) (typed : List (List Text)) (w : World Server Env)
      → opened p (p.parse_string (format_address local_ip_address port)) w.env ≡ true
      → has_quit (flatten typed) ≡ true
      → (g : ℕ) × IsAsked g (length typed) (at_loop port typed w).object
  unfolding of_port of_address of_schedule
  at_loop-IsAsked port typed w o h =
      let v = configured port typed w in
      let (r, up, same, q) = open_connection-running p v in
      let (q', c) = open_connection-same p v in
      let runs = up ∙ o in
      let f = (open_connection-IsSound p).at v (configured-IsSound port typed w) in
      let (g, e) = is_some-eq (at_loop port typed w).object.poll_group (f.sockets runs).1 in
      (
        g,
        record {
          polls = e;
          up = runs;
          pending = q';
          asked = ap (λ x. has_quit (unread x)) c ∙ h;
          within = record { left = omega (arith, ap (λ x. length x.arriving) c) };
        },
      )

  main-steps :
      (rounds port : ℕ) (typed : List (List Text)) (w : World Server Env)
      → w.object ≡ of_port port typed
      → let loop = main_loop p (packet_code p rand) (status_code p rand) rounds in
        main p rand rounds w ≡ (loop >> close_connection p) (at_loop port typed w)
  unfolding main
  main-steps rounds port typed w e =
      let loop = main_loop p (packet_code p rand) (status_code p rand) rounds in
      let opens = (open_connection-running p (configured port typed w)).0 in
      rw e
        (then_next (configured port typed w) (open_connection p) (loop >> close_connection p) opens)

  -- If no message and no connection comes, a typed "/quit" that is queued at any later look ends the
  -- work of `main` with the server, up to its destructor, in order: if the address is parsed and the
  -- handles are valid, it returns with two rounds more than the schedule has entries, and leaves a
  -- closed server, with no connection, no listening socket and no poll group.
  pub main-IsClosed :
      (rounds port : ℕ) (typed : List (List Text)) (w : World Server Env)
      → IsIdle p
      → w.object ≡ of_port port typed
      → opened p (p.parse_string (format_address local_ip_address port)) w.env ≡ true
      → has_quit (flatten typed) ≡ true
      → length typed + 1 < rounds
      → let (r, w') = main p rand rounds w in (r ≡ ok tt) × IsClosed p w'.object
  main-IsClosed rounds port typed w idle e o h n =
      let v = at_loop port typed w in
      let loop = main_loop p (packet_code p rand) (status_code p rand) rounds in
      let (g, asked) = at_loop-IsAsked port typed w o h in
      let (r, (same, q)) =
        main_loop-Quit p idle (packet_code p rand) (status_code p rand) g (length typed) rounds v
          asked n in
      let sound = (main_loop-Keeps p rand rounds).at v (
        (open_connection-IsSound p).at (configured port typed w)
          (configured-IsSound port typed w)) in
      subst (Closed p)
        (sym (main-steps rounds port typed w e ∙ then_next v loop (close_connection p) r))
        (close_connection-Closed (loop v).1 sound (ap (λ (x : Server). x.running) same ∙ asked.up))
