-- ===== src/Server/Closing/Teardown.antt =====
-- What `closeConnection` and the destructor leave behind.
use chaos_in_multiplayer.Base.{
  ℕ, ◌≡◌, refl, ap, sym, subst, ◌∙◌, true, false, some, none, [], ◌∷◌, ◌++◌, map, append-nil,
  append_assoc, arith, is_some, is_some-eq, Bool-cases, inl, inr,
}
use chaos_in_multiplayer.Status.{ConnectionState}
use chaos_in_multiplayer.Platform.{Platform, Event, closing_connections, invalid_server_address}
use chaos_in_multiplayer.Program.{terminate, undefined, ok, fault, World, for_each}
use chaos_in_multiplayer.UnorderedMap.{UnorderedMap, lookup, replace, IsDistinct}
use chaos_in_multiplayer.UnorderedMap.Laws.{lookup-middle, replace-middle, replace-IsDistinct}
use chaos_in_multiplayer.InputController
use chaos_in_multiplayer.ClientConnection.{ClientConnection, destroy, close}
use chaos_in_multiplayer.Server.{Server}
use chaos_in_multiplayer.Server.Clients.{at_client}
use chaos_in_multiplayer.Server.Opening.{format_address, open_connection}
use chaos_in_multiplayer.Server.Closing.{
  close_clients, destroy_clients, clear_connections, close_sockets, close_connection,
  destroy_server,
}

abbrev closed_client : ClientConnection → ClientConnection
closed_client c = record c { connection_state = ConnectionState.closed }

abbrev closed_entry : ℕ × ClientConnection → ℕ × ClientConnection
closed_entry e = (e.0, closed_client e.1)

-- The call of the platform for one entry.
abbrev pub close_event : ℕ × ClientConnection → Event
close_event e = Event.close_connection e.1.net_connection 0 false

-- A running server has a listening socket and a poll group.
abbrev pub HasSockets : Server → Type 0
HasSockets s =
    s.running ≡ true → (is_some s.listening_socket ≡ true) × (is_some s.poll_group ≡ true)

module _ {Env : Type 0} (p : Platform Env) where
  abbrev pub close_all : UnorderedMap ClientConnection → Env → Env
  close_all [] env = env
  close_all (e ∷ es) env = close_all es (p.close_connection e.1.net_connection 0 false env)

  -- The world after the entries of `es` were closed, which leaves `connections`.
  abbrev after_closing :
      UnorderedMap ClientConnection
      → UnorderedMap ClientConnection
      → World Server Env
      → World Server Env
  after_closing connections es w = record {
    object = record w.object { connections = connections };
    env = close_all es w.env;
    trace = w.trace ++ map close_event es;
  }

  close_one :
      (k : ℕ) (c : ClientConnection) (w : World Server Env)
      → lookup k w.object.connections ≡ some c
      → at_client k (close p) w
        ≡ (ok tt, after_closing (replace k (closed_client c) w.object.connections) ((k, c) ∷ []) w)
  unfolding at_client close
  close_one k c w e = rw (e, at_client)

  close_clients_lem :
      (done es : UnorderedMap ClientConnection) (w : World Server Env)
      → IsDistinct w.object.connections
      → w.object.connections ≡ done ++ es
      → close_clients p es w ≡ (ok tt, after_closing (done ++ map closed_entry es) es w)
  unfolding close_clients for_each
  close_clients_lem done [] w d e = λ i. (
    ok tt,
    record {
      object = record w.object { connections = e i };
      env = w.env;
      trace = sym (append-nil w.trace) i;
    },
  )
  close_clients_lem done ((k, c) ∷ es) w d e =
      let c' = closed_client c in
      let d' = subst IsDistinct e d in
      let w' = after_closing (replace k c' w.object.connections) ((k, c) ∷ []) w in
      let closed =
        ap (replace k c') e
        ∙ replace-middle k c c' done es d'
        ∙ sym (append_assoc done ((k, c') ∷ []) es) in
      let regroup : after_closing ((done ++ (k, c') ∷ []) ++ map closed_entry es) es w'
          ≡ after_closing (done ++ (k, c') ∷ map closed_entry es) ((k, c) ∷ es) w =
        λ i. record {
          object = record w.object {
            connections = append_assoc done ((k, c') ∷ []) (map closed_entry es) i;
          };
          env = close_all es w'.env;
          trace = append_assoc w.trace (close_event (k, c) ∷ []) (map close_event es) i;
        } in
      rw (close_one k c w (ap (lookup k) e ∙ lookup-middle k c done es d')) (
        close_clients_lem (done ++ (k, c') ∷ []) es w'
          (replace-IsDistinct k c' w.object.connections d) closed
        ∙ ap (λ v. (ok tt, v)) regroup)

  destroy_clients-closed :
      (es : UnorderedMap ClientConnection) (w : World Server Env)
      → destroy_clients p (map closed_entry es) w ≡ (ok tt, w)
  unfolding destroy_clients for_each destroy
  destroy_clients-closed [] w = refl
  destroy_clients-closed ((k, c) ∷ es) w = ground (arith, destroy_clients-closed es w)

  -- Closing an open server with distinct handles returns: each registered connection is closed once,
  -- in the order of the map, no destructor asserts, and then the listening socket and the poll group
  -- are given back, once each. Nothing stays registered, the server does not run, and it asks to
  -- quit.
  pub close_connection_lem :
      (socket group : ℕ) (w : World Server Env)
      → IsDistinct w.object.connections
      → w.object.listening_socket ≡ some socket
      → w.object.poll_group ≡ some group
      → close_connection p w ≡ (
        ok tt,
        record {
          object = record w.object {
            quit_requested = true;
            running = false;
            connections = [];
            listening_socket = some p.invalid_listen_socket;
            poll_group = some p.invalid_poll_group;
          };
          env =
              p.destroy_poll_group group
                (p.close_listen_socket socket (close_all w.object.connections w.env));
          trace =
              w.trace
              ++ Event.log closing_connections ∷ []
              ++ map close_event w.object.connections
              ++ Event.close_listen_socket socket ∷ []
              ++ Event.destroy_poll_group group ∷ [];
        },
      )
  unfolding close_connection clear_connections close_sockets
  close_connection_lem socket group w d s g =
      let w' : World Server Env = record {
        object = record w.object { quit_requested = true; running = false };
        env = w.env;
        trace = w.trace ++ Event.log closing_connections ∷ [];
      } in
      let es = w.object.connections in
      rw (close_clients_lem [] es w' d refl)
        (ground (arith, destroy_clients-closed es (after_closing (map closed_entry es) es w')))

  -- Closing a server that has no listening socket is undefined once its connections are closed.
  close_connection-unopened :
      (w : World Server Env)
      → IsDistinct w.object.connections
      → w.object.listening_socket ≡ none
      → (close_connection p w).0 ≡ fault undefined
  unfolding close_connection clear_connections close_sockets
  close_connection-unopened w d s =
      let w' : World Server Env = record {
        object = record w.object { quit_requested = true; running = false };
        env = w.env;
        trace = w.trace ++ Event.log closing_connections ∷ [];
      } in
      let es = w.object.connections in
      rw (close_clients_lem [] es w' d refl)
        (ground (arith, destroy_clients-closed es (after_closing (map closed_entry es) es w')))

  -- If `openConnection` of a server with no listening socket yet finds that its address is not parsed,
  -- `closeConnection` after it is undefined: it closes a handle that was never assigned.
  pub close_connection-open_connection :
      (w : World Server Env)
      → IsDistinct w.object.connections
      → w.object.listening_socket ≡ none
      → p.parse_string (format_address w.object.server_ip w.object.server_port) ≡ none
      → (close_connection p (open_connection p w).1).0 ≡ fault undefined
  unfolding open_connection
  close_connection-open_connection w d s e = rw e (
      close_connection-unopened
        (record {
          object = record w.object { running = false };
          env = w.env;
          trace = w.trace ++ Event.log invalid_server_address ∷ [];
        })
        d s)

  -- The destructor of a server never returns, whether the server runs or not: the polling thread is
  -- still joinable, so the program ends by `std::terminate`.
  pub destroy_server-terminates :
      (w : World Server Env)
      → IsDistinct w.object.connections
      → HasSockets w.object
      → w.object.input_controller.joinable ≡ true
      → (destroy_server p w).0 ≡ fault terminate
  unfolding destroy_server InputController.destroy
  destroy_server-terminates w d h j = elim (Bool-cases w.object.running) [
    | inl up ↦
        let (socket, s) = is_some-eq w.object.listening_socket (h up).0 in
        let (group, g) = is_some-eq w.object.poll_group (h up).1 in
        ground (arith, close_connection_lem socket group w d s g)
    | inr down ↦ ground arith
  ]
