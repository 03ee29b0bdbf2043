-- ===== src/Server/Session/Definedness.antt =====
-- That no use of an opened server is undefined.
use chaos_in_multiplayer.Base.{
  ℕ, ◌≤◌, ◌≡◌, ◌≢◌, refl, Bool, true, false, not, ◌||◌, some, List, [], ◌∷◌, All, arith,
  if◌then◌else◌,
}
use chaos_in_multiplayer.Status.{ConnectionStatusChange}
use chaos_in_multiplayer.Platform.{Platform}
use chaos_in_multiplayer.Program.{
  undefined, Outcome, ok, fault, World, Action, ◌>>◌, modify, skip, continue,
}
use chaos_in_multiplayer.Program.Safe.{Safe, Safe-bind, Safe-modify, Safe-skip}
use chaos_in_multiplayer.Packet.{Packet}
use chaos_in_multiplayer.ClientConnection.{set_alias, accept, set_poll_group, close}
use chaos_in_multiplayer.Server.{
  Server, set_max_processed_packets, set_packet_callback, set_connection_status_change_callback,
}
use chaos_in_multiplayer.Server.Clients.{at_client, create_client_connection}
use chaos_in_multiplayer.Server.Opening.{format_address, open_connection}
use chaos_in_multiplayer.Server.Packets.{int_max, process_pending_packets}
use chaos_in_multiplayer.Server.StatusChanges.{process_connection_state_changes}
use chaos_in_multiplayer.Server.UserInput.{process_user_input}
use chaos_in_multiplayer.Server.Updating.{update_connection}
use chaos_in_multiplayer.Server.Session.{Call, perform_call, run_history}
use chaos_in_multiplayer.Server.Session.Safety.{
  IsStable, at_client-Safe, modify-Safe, accept-Safe, set_poll_group-Safe, close-Safe,
  create_client_connection-Safe, ensure-Safe, remove_client_connection-Safe,
  close_client_connection-Safe, send_to-Safe, broadcast-Safe,
}
use chaos_in_multiplayer.Server.Session.Opened.{IsPolling, IsServing, process_pending_packets-Safe}
use chaos_in_multiplayer.Server.Session.Defined.{
  IsOpen, IsReporting, same_handles, Serving-IsOpen, IsOpen-IsStable, process_user_input-Safe,
  process_changes-Safe,
}
use chaos_in_multiplayer.Server.Session.Shutdown.{close_connection-Safe}
use chaos_in_multiplayer.Server.Session.Openings.{open_connection-IsOpen, open_connection-Safe}

-- The bound is one that an `int` can reach, and no poll group is read from a client connection.
abbrev pub Admits : Call → Type 0
Admits (Call.reads_poll_group k) = ⊥
Admits (Call.sets_max_processed_packets n) = n ≤ int_max
Admits x = Unit

module _ {Env : Type 0} (p : Platform Env) (live : ℕ → Env → Type 0) (polling : IsPolling p live)
    (packet_code : ℕ → ℕ → Packet → Action Server Env Unit)
    (status_code : ℕ → ConnectionStatusChange → Action Server Env Unit)
    (packets_safe : (f k : ℕ) (q : Packet) → Safe (IsServing live) undefined (packet_code f k q))
    (changes_safe : (f : ℕ) (c : ConnectionStatusChange)
      → Safe (IsReporting live) undefined (status_code f c)) where
  abbrev stable : IsStable p (IsOpen live)
  stable = IsOpen-IsStable p live polling

  abbrev after_packets : Action Server Env Unit
  after_packets = process_connection_state_changes p status_code >> process_user_input

  after_packets-Safe : Safe (IsOpen live) undefined after_packets
  after_packets-Safe =
      Safe-bind (process_connection_state_changes p status_code) (λ _. process_user_input)
        (process_changes-Safe p live polling status_code changes_safe)
        (λ _. process_user_input-Safe p live polling)

  -- A call from an opened server ends without undefined behaviour, and leaves an opened one.
  abbrev EndsOpen : Outcome Unit × World Server Env → Type 0
  EndsOpen x = (x.0 ≢ fault undefined) × IsOpen live x.1.object x.1.env

  serve_rest :
      (r : Outcome Unit) (w : World Server Env)
      → r ≢ fault undefined
      → IsServing live w.object w.env
      → EndsOpen (continue r (λ _. after_packets) w)
  serve_rest (ok u) w n v = after_packets-Safe.at w (Serving-IsOpen w.object w.env v)
  serve_rest (fault x) w n v = (λ e. n (ground arith), Serving-IsOpen w.object w.env v)

  serve :
      (b : Bool) (w : World Server Env)
      → (b ≡ false → w.object.running ≡ true)
      → IsOpen live w.object w.env
      → EndsOpen ((if b then skip else (process_pending_packets p packet_code >> after_packets)) w)
  serve true w up o = (λ e. cc, o)
  serve false w up o =
      let v : IsServing live w.object w.env = record {
        listens = o.listens;
        polls = o.polls (up refl);
        bounded = o.bounded;
      } in
      let (n, kept) =
        (process_pending_packets-Safe p live polling packet_code packets_safe).at w v in
      let (r, w') = process_pending_packets p packet_code w in serve_rest r w' n kept

  update_connection-Safe :
      Safe (IsOpen live) undefined (update_connection p packet_code status_code)
  unfolding update_connection
  update_connection-Safe = record {
    at =
        λ w o. serve (w.object.quit_requested || not w.object.running) w (λ e. ground (arith, e)) o;
  }

  perform_call-Safe :
      (x : Call)
      → Admits x
      → Safe (IsOpen live) undefined (perform_call p packet_code status_code x)
  unfolding perform_call
  perform_call-Safe Call.opens a = open_connection-Safe p live polling
  perform_call-Safe Call.updates a = update_connection-Safe
  perform_call-Safe Call.closes a = close_connection-Safe p live
  perform_call-Safe (Call.creates k) a =
      Safe-bind (create_client_connection k) (λ _. skip)
        (create_client_connection-Safe p (IsOpen live) stable k) (λ _. Safe-skip)
  perform_call-Safe (Call.ensures k) a = ensure-Safe p (IsOpen live) stable k
  perform_call-Safe (Call.removes k) a = remove_client_connection-Safe p (IsOpen live) stable k
  perform_call-Safe (Call.closes_client k) a = close_client_connection-Safe p (IsOpen live) stable k
  perform_call-Safe (Call.accepts k) a =
      Safe-bind (at_client k (accept p)) (λ _. skip)
        (at_client-Safe p (IsOpen live) stable k (accept p) (accept-Safe p (IsOpen live) stable))
        (λ _. Safe-skip)
  perform_call-Safe (Call.closes_entry k) a =
      at_client-Safe p (IsOpen live) stable k (close p) (close-Safe p (IsOpen live) stable)
  perform_call-Safe (Call.reads_poll_group k) a = absurd a
  perform_call-Safe (Call.sets_poll_group k g) a =
      Safe-bind (at_client k (set_poll_group p g)) (λ _. skip)
        (at_client-Safe p (IsOpen live) stable k (set_poll_group p g)
          (λ s. set_poll_group-Safe p (IsOpen live) stable s g))
        (λ _. Safe-skip)
  perform_call-Safe (Call.sets_alias k t) a =
      at_client-Safe p (IsOpen live) stable k (modify (set_alias t))
        (λ s. modify-Safe p (IsOpen live) stable s (set_alias t))
  perform_call-Safe (Call.sends q t c) a = send_to-Safe p (IsOpen live) stable q t c
  perform_call-Safe (Call.sends_to_all q t x) a = broadcast-Safe p (IsOpen live) stable q t x
  perform_call-Safe (Call.sets_packet_callback f) a =
      Safe-modify (set_packet_callback f)
        (λ s env o. same_handles s _ env env refl refl refl o.bounded (λ g l. l) o)
  perform_call-Safe (Call.sets_status_callback f) a =
      Safe-modify (set_connection_status_change_callback f)
        (λ s env o. same_handles s _ env env refl refl refl o.bounded (λ g l. l) o)
  perform_call-Safe (Call.sets_max_processed_packets n) a =
      Safe-modify (set_max_processed_packets n)
        (λ s env o. same_handles s _ env env refl refl refl a (λ g l. l) o)

  run_history-Safe :
      (xs : List Call)
      → All Admits xs
      → Safe (IsOpen live) undefined (run_history p packet_code status_code xs)
  unfolding run_history
  run_history-Safe [] a = Safe-skip
  run_history-Safe (x ∷ xs) a =
      Safe-bind (perform_call p packet_code status_code x)
        (λ _. run_history p packet_code status_code xs) (perform_call-Safe x a.0)
        (λ _. run_history-Safe xs a.1)

  -- Once `openConnection` was called with an address that is parsed, no history of the calls in `Call`
  -- ends as undefined, whether or not the handles are valid: those calls are the server's public
  -- methods, and `accept`, `close`, `pollGroup`, `setPollGroup` and `setAlias` of its client connections,
  -- with any arguments and in any order, closing and opening again included, and whatever the platform
  -- gives. This supposes that the history does not call `pollGroup`, that the bounds are ones that an
  -- `int` reaches, that a poll group that was created lives until it is destroyed and receives whole
  -- messages, and that the callbacks keep to the same, the packet callback to a server that stays
  -- open. It says nothing of the thread that reads the input, nor of moves of client connections.
  pub run_history-ne-undefined_opened :
      (a : ℕ) (xs : List Call) (w : World Server Env)
      → p.parse_string (format_address w.object.server_ip w.object.server_port) ≡ some a
      → w.object.max_processed_packets ≤ int_max
      → All Admits xs
      → (run_history p packet_code status_code xs (open_connection p w).1).0 ≢ fault undefined
  run_history-ne-undefined_opened a xs w e b legal =
      ((run_history-Safe xs legal).at (open_connection p w).1
        (open_connection-IsOpen p live polling a w e b)).0
