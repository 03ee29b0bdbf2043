-- ===== src/Server/Session/Histories.antt =====
-- Every history of calls on a new server.
use chaos_in_multiplayer.Base.{ℕ, ◌≡◌, refl, List, [], ◌∷◌, Text, arith}
use chaos_in_multiplayer.Status.{ConnectionStatusChange}
use chaos_in_multiplayer.Platform.{Platform}
use chaos_in_multiplayer.Program.{terminate, fault, World, Action, modify, skip}
use chaos_in_multiplayer.Program.Keeps.{Keeps, Keeps-skip, Keeps-modify, Keeps-bind}
use chaos_in_multiplayer.Packet.{Packet}
use chaos_in_multiplayer.ClientConnection.{get_poll_group, accept, set_poll_group, set_alias, close}
use chaos_in_multiplayer.Server.{Server, of_address}
use chaos_in_multiplayer.Server.Clients.{at_client, create_client_connection}
use chaos_in_multiplayer.Server.Closing.{destroy_server}
use chaos_in_multiplayer.Server.Closing.Teardown.{destroy_server-terminates}
use chaos_in_multiplayer.Server.Session.{
  Call, opens, updates, closes, creates, ensures, removes, closes_client, accepts, closes_entry,
  reads_poll_group, sets_poll_group, sets_alias, sends, sends_to_all, sets_packet_callback,
  sets_status_callback, sets_max_processed_packets, perform_call, run_history,
}
use chaos_in_multiplayer.Server.Session.Soundness.{
  IsSound, same_members, open_connection-IsSound, create-IsSound, ensure-IsSound, at_client-IsSound,
  close_client-IsSound, remove-IsSound, accept-IsLive, get_poll_group-IsLive, close-IsLive,
  set_poll_group-IsLive, set_alias-IsLive,
}
use chaos_in_multiplayer.Server.Session.Closings.{
  send_to-IsSound, broadcast-IsSound, close_connection-IsSound,
}
use chaos_in_multiplayer.Server.Session.Updates.{update_connection-IsSound}

pub of_address-IsSound :
    (ip : Text) (port : ℕ) (typed : List (List Text)) → IsSound (of_address ip port typed)
unfolding of_address
of_address-IsSound ip port typed = ground arith

module _ {Env : Type 0} (p : Platform Env) (packet_code : ℕ → ℕ → Packet → Action Server Env Unit)
    (status_code : ℕ → ConnectionStatusChange → Action Server Env Unit)
    (packets_keep : (f k : ℕ) (q : Packet) → Keeps IsSound (packet_code f k q))
    (changes_keep : (f : ℕ) (c : ConnectionStatusChange) → Keeps IsSound (status_code f c)) where
  -- Every public call keeps a server sound, whether it returns or not, if the callbacks of the
  -- application do.
  pub perform_call-IsSound : (x : Call) → Keeps IsSound (perform_call p packet_code status_code x)
  unfolding perform_call
  perform_call-IsSound opens = open_connection-IsSound p
  perform_call-IsSound updates =
      update_connection-IsSound p packet_code status_code packets_keep changes_keep
  perform_call-IsSound closes = close_connection-IsSound p
  perform_call-IsSound (creates k) =
      Keeps-bind (create_client_connection k) (λ _. skip) (create-IsSound k) (λ _. Keeps-skip)
  perform_call-IsSound (ensures k) = ensure-IsSound k
  perform_call-IsSound (removes k) = remove-IsSound p k
  perform_call-IsSound (closes_client k) = close_client-IsSound p k
  perform_call-IsSound (accepts k) =
      Keeps-bind (at_client k (accept p)) (λ _. skip)
        (at_client-IsSound k (accept p) (accept-IsLive p k)) (λ _. Keeps-skip)
  perform_call-IsSound (closes_entry k) = at_client-IsSound k (close p) (close-IsLive p k)
  perform_call-IsSound (reads_poll_group k) =
      Keeps-bind (at_client k get_poll_group) (λ _. skip)
        (at_client-IsSound k get_poll_group (get_poll_group-IsLive p k)) (λ _. Keeps-skip)
  perform_call-IsSound (sets_poll_group k g) =
      Keeps-bind (at_client k (set_poll_group p g)) (λ _. skip)
        (at_client-IsSound k (set_poll_group p g) (set_poll_group-IsLive p k g)) (λ _. Keeps-skip)
  perform_call-IsSound (sets_alias k t) =
      at_client-IsSound k (modify (set_alias t)) (set_alias-IsLive p k t)
  perform_call-IsSound (sends packet t c) = send_to-IsSound p packet t c
  perform_call-IsSound (sends_to_all packet t except) = broadcast-IsSound p packet t except
  perform_call-IsSound (sets_packet_callback f) =
      Keeps-modify _ (λ s v. same_members s _ refl refl v.sockets v)
  perform_call-IsSound (sets_status_callback f) =
      Keeps-modify _ (λ s v. same_members s _ refl refl v.sockets v)
  perform_call-IsSound (sets_max_processed_packets n) =
      Keeps-modify _ (λ s v. same_members s _ refl refl v.sockets v)

  run_history-IsSound : (xs : List Call) → Keeps IsSound (run_history p packet_code status_code xs)
  unfolding run_history
  run_history-IsSound [] = Keeps-skip
  run_history-IsSound (x ∷ xs) =
      Keeps-bind (perform_call p packet_code status_code x)
        (λ _. run_history p packet_code status_code xs) (perform_call-IsSound x)
        (λ _. run_history-IsSound xs)

  -- After any history on a new server, also one that a fault ended, no handle is registered twice,
  -- each entry is for its key and has a state that the code assigns, and a server that runs has its
  -- sockets; and this supposes of the callbacks only that they keep the same.
  pub run_history-new :
      (ip : Text) (port : ℕ) (typed : List (List Text)) (xs : List Call) (w : World Server Env)
      → w.object ≡ of_address ip port typed
      → IsSound (run_history p packet_code status_code xs w).1.object
  run_history-new ip port typed xs w e =
      (run_history-IsSound xs).at w (rw e (of_address-IsSound ip port typed))

  -- After any history on a new server, with callbacks that keep a server sound, the destructor of
  -- the server ends the program by `std::terminate`.
  pub destroy_server-run_history :
      (ip : Text) (port : ℕ) (typed : List (List Text)) (xs : List Call) (w : World Server Env)
      → w.object ≡ of_address ip port typed
      → (destroy_server p (run_history p packet_code status_code xs w).1).0 ≡ fault terminate
  destroy_server-run_history ip port typed xs w e =
      let f = run_history-new ip port typed xs w e in
      destroy_server-terminates p _ f.registry.distinct f.sockets f.thread
