-- ===== src/ExampleServer/Main/Runs.antt =====
-- How `main` of the example server can end, and what it leaves.
use chaos_in_multiplayer.Base.{
  ℕ, ◌≢◌, ◌∷◌, [], ◌++◌, ◌≡◌, refl, List, Text, zero, suc, if◌then◌else◌,
}
use chaos_in_multiplayer.Platform.{Platform, Utilities, Event}
use chaos_in_multiplayer.NetworkingUtils.{initialize_sockets, close_sockets}
use chaos_in_multiplayer.NetworkingUtils.Output.{initialize_sockets-ok}
use chaos_in_multiplayer.Program.{
  World, Action, Outcome, ok, continue, terminate, fault, modify, gets, skip, ◌>>◌,
}
use chaos_in_multiplayer.Program.Keeps.{
  Keeps, keeps_rules, Keeps-modify, Keeps-bind, Keeps-gets, Keeps-if, Keeps-skip,
}
use chaos_in_multiplayer.Server.{
  Server, of_port, set_packet_callback, set_connection_status_change_callback, local_ip_address,
}
use chaos_in_multiplayer.Server.Closing.{destroy_server}
use chaos_in_multiplayer.Server.Closing.Teardown.{destroy_server-terminates}
use chaos_in_multiplayer.Server.Session.Soundness.{IsSound, same_members, open_connection-IsSound}
use chaos_in_multiplayer.Server.Session.Closings.{close_connection-IsSound}
use chaos_in_multiplayer.Server.Session.Updates.{update_connection-IsSound}
use chaos_in_multiplayer.Server.Updating.{update_connection}
use chaos_in_multiplayer.Server.Session.Histories.{of_address-IsSound}
use chaos_in_multiplayer.ExampleServer.{main_loop}
use chaos_in_multiplayer.ExampleServer.Keeping.{packet_callback-Keeps}
use chaos_in_multiplayer.ExampleServer.Soundness.{status_callback-IsSound}
use chaos_in_multiplayer.ExampleServer.Main.{
  packet_code, status_code, main, Process, on_networking, on_server, process,
}

module _ {Env : Type 0} (p : Platform Env) (rand : Env → ℕ × Env) where
  pub main_loop-Keeps :
      (rounds : ℕ) → Keeps IsSound (main_loop p (packet_code p rand) (status_code p rand) rounds)
  unfolding main_loop
  main_loop-Keeps zero = search keeps_rules
  main_loop-Keeps (suc rounds) =
      let update = update_connection p (packet_code p rand) (status_code p rand) in
      let loop = main_loop p (packet_code p rand) (status_code p rand) rounds in
      let updated =
        update_connection-IsSound p (packet_code p rand) (status_code p rand)
          (λ f k q. packet_callback-Keeps IsSound k q) (λ f c. status_callback-IsSound p rand c) in
      Keeps-bind (gets (λ s. s.quit_requested)) (λ quit. if quit then skip else (update >> loop))
        (Keeps-gets _)
        (λ quit.
          Keeps-if quit skip (update >> loop) Keeps-skip
            (Keeps-bind update (λ _. loop) updated (λ _. main_loop-Keeps rounds)))

  pub set_packet_callback-Keeps :
      (f : _) → Keeps {Env = Env} IsSound (modify (set_packet_callback f))
  set_packet_callback-Keeps f = Keeps-modify _ (λ s v. same_members s _ refl refl v.sockets v)

  pub set_status_callback-Keeps :
      (f : _) → Keeps {Env = Env} IsSound (modify (set_connection_status_change_callback f))
  set_status_callback-Keeps f = Keeps-modify _ (λ s v. same_members s _ refl refl v.sockets v)

  main-Keeps : (rounds : ℕ) → Keeps IsSound (main p rand rounds)
  unfolding main
  main-Keeps rounds =
      search
        (
          keeps_rules, set_packet_callback-Keeps, set_status_callback-Keeps,
          open_connection-IsSound, main_loop-Keeps, close_connection-IsSound,
        )
        depth 12

  -- Every run of `main`, with whatever the platform and `rand` give and however it ends, leaves a
  -- server in which no handle is registered twice, each entry is for its key, and a server that runs
  -- has its sockets; the destructor of that server then ends the program by `std::terminate`.
  pub main-IsSound :
      (port rounds : ℕ) (typed : List (List Text)) (w : World Server Env)
      → w.object ≡ of_port port typed
      → let w' = (main p rand rounds w).1 in
        IsSound w'.object × ((destroy_server p w').0 ≡ fault terminate)
  unfolding of_port
  main-IsSound port rounds typed w e =
      let f = (main-Keeps rounds).at w (rw e (of_address-IsSound local_ip_address port typed)) in
      (f, destroy_server-terminates p _ f.registry.distinct f.sockets f.thread)

module _ {Env : Type 0} (p : Platform Env) (u : Utilities Env) (rand : Env → ℕ × Env) where
  abbrev closing : Action Process Env Unit
  closing = on_networking p u rand (close_sockets u) >> on_server p u rand (destroy_server p)

  closing-ne-ok :
      (r : Outcome Unit) (w : World Process Env)
      → IsSound w.object.server
      → (continue r (λ _. closing) w).0 ≢ ok tt
  unfolding close_sockets
  closing-ne-ok (fault x) w f e = cc
  closing-ne-ok (ok a) w f e =
      let ends =
        destroy_server-terminates p
          (record {
            object = w.object.server;
            env = u.kill (u.sleep 500 w.env);
            trace = (w.trace ++ Event.sleep 500 ∷ []) ++ Event.kill ∷ [];
          })
          f.registry.distinct f.sockets f.thread in
      cc

  -- The example server never returns from `main`, whatever is typed, whatever the platform gives, and
  -- however many rounds its loop has: it runs without end, or stops by a fault.
  pub process-ne-ok :
      (typed : List (List Text)) (rounds : ℕ) (w : World Process Env)
      → (process p u rand typed rounds w).0 ≢ ok tt
  unfolding process
  process-ne-ok typed rounds w =
      let x =
        (initialize_sockets u
          (record { object = w.object.networking; env = w.env; trace = w.trace })).1 in
      let v : World Server Env = record {
        object = of_port 8080 typed;
        env = x.env;
        trace = x.trace;
      } in
      let (f, _) = main-IsSound p rand 8080 rounds typed v refl in
      rw (initialize_sockets-ok u) (closing-ne-ok _ _ f)
