-- ===== src/Server/Session/Shutdown.antt =====
-- What closing does to an opened server.
use chaos_in_multiplayer.Base.{ℕ, ◌≤◌, ◌≡◌, refl, true, false, some, [], arith, is_some}
use chaos_in_multiplayer.Platform.{Platform, Event, closing_connections}
use chaos_in_multiplayer.Program.{
  undefined, Action, ◌>>=◌, ◌>>◌, modify, gets, note, perform, require,
}
use chaos_in_multiplayer.Program.Safe.{
  Safe, safe_rules, Safe-perform, Safe-bind, Safe-modify, Safe-read, Safe-required, Safe-for_each,
}
use chaos_in_multiplayer.ClientConnection.{close}
use chaos_in_multiplayer.Server.{Server}
use chaos_in_multiplayer.Server.Packets.{int_max}
use chaos_in_multiplayer.Server.Closing.{
  close_clients, destroy_clients, clear_connections, close_sockets, close_connection,
}
use chaos_in_multiplayer.Server.Session.Safety.{
  IsStable, at_client-Safe, close-Safe, destroy-ne-undefined,
}
use chaos_in_multiplayer.Server.Session.Defined.{IsOpen}

-- A server that does not run, with both handles.
pub record IsStopped (s : Server) : Type 0 where
  pub listens : is_some s.listening_socket ≡ true
  pub grouped : is_some s.poll_group ≡ true
  pub stopped : s.running ≡ false
  pub bounded : s.max_processed_packets ≤ int_max

pub Stopped-IsOpen :
    {Env : Type 0} {live : ℕ → Env → Type 0} (s : Server) (env : Env)
    → IsStopped s
    → IsOpen live s env
Stopped-IsOpen s env d = record {
  listens = d.listens;
  grouped = d.grouped;
  polls = λ up. let down = d.stopped in absurd (ground (arith, up, down));
  bounded = d.bounded;
}

module _ {Env : Type 0} (p : Platform Env) where
  abbrev Stopped : Server → Env → Type 0
  Stopped s env = IsStopped s

  Stopped-IsStable : IsStable p Stopped
  Stopped-IsStable = record {
    registers = λ s env m d. record {
      listens = d.listens;
      grouped = d.grouped;
      stopped = d.stopped;
      bounded = d.bounded;
    };
    accepts = λ h s env d. d;
    groups = λ h g s env d. d;
    closes = λ h r l s env d. d;
    sends = λ h n t bs s env d. d;
  }

  perform-Safe : (e : Event) (f : Env → Env) → Safe Stopped undefined (perform e f)
  perform-Safe e f = Safe-perform e f (λ s env d. d)

  close_clients-Safe : (m : _) → Safe Stopped undefined (close_clients p m)
  unfolding close_clients
  close_clients-Safe m = Safe-for_each m _ (λ e.
      at_client-Safe p Stopped Stopped-IsStable e.0 (close p)
        (close-Safe p Stopped Stopped-IsStable))

  clears-Safe : Safe Stopped undefined (modify (λ s. record s { connections = [] }))
  clears-Safe = Safe-modify _ (λ s env. Stopped-IsStable.registers s env [])

  destroy_clients-Safe : (m : _) → Safe Stopped undefined (destroy_clients p m)
  unfolding destroy_clients
  destroy_clients-Safe m =
      search (safe_rules, destroy-ne-undefined p Stopped Stopped-IsStable) depth 12

  clear_connections-Safe : Safe Stopped undefined (clear_connections p)
  unfolding clear_connections
  clear_connections-Safe = search (safe_rules, destroy_clients-Safe, clears-Safe) depth 12

  unlistens-Safe :
      Safe Stopped undefined
        (modify (λ s. record s { listening_socket = some p.invalid_listen_socket }))
  unlistens-Safe = Safe-modify _ (λ s env d. record {
    listens = refl;
    grouped = d.grouped;
    stopped = d.stopped;
    bounded = d.bounded;
  })

  ungroups-Safe :
      Safe Stopped undefined (modify (λ s. record s { poll_group = some p.invalid_poll_group }))
  ungroups-Safe = Safe-modify _ (λ s env d. record {
    listens = d.listens;
    grouped = refl;
    stopped = d.stopped;
    bounded = d.bounded;
  })

  abbrev closes_group : ℕ → Action Server Env Unit
  closes_group group = do
    perform (Event.destroy_poll_group group) (p.destroy_poll_group group)
    modify (λ s. record s { poll_group = some p.invalid_poll_group })

  closes_group-Safe : Safe Stopped undefined (do
    poll_group ← gets (λ s. s.poll_group)
    group ← require undefined poll_group
    closes_group group)
  closes_group-Safe =
      Safe-read (λ o. is_some o ≡ true) (λ s. s.poll_group)
        (λ o. require undefined o >>= closes_group) (λ s env d. d.grouped)
        (λ o h. Safe-bind (require undefined o) closes_group (Safe-required undefined o h) (λ group.
          Safe-bind _ _ (perform-Safe (Event.destroy_poll_group group) (p.destroy_poll_group group))
            (λ _. ungroups-Safe)))

  abbrev closes_socket : ℕ → Action Server Env Unit
  closes_socket socket = do
    perform (Event.close_listen_socket socket) (p.close_listen_socket socket)
    modify (λ s. record s { listening_socket = some p.invalid_listen_socket })
    poll_group ← gets (λ s. s.poll_group)
    group ← require undefined poll_group
    closes_group group

  close_sockets-Safe : Safe Stopped undefined (close_sockets p)
  unfolding close_sockets
  close_sockets-Safe =
      Safe-read (λ o. is_some o ≡ true) (λ s. s.listening_socket)
        (λ o. require undefined o >>= closes_socket) (λ s env d. d.listens)
        (λ o h.
          Safe-bind (require undefined o) closes_socket (Safe-required undefined o h) (λ socket.
            Safe-bind _ _
              (perform-Safe (Event.close_listen_socket socket) (p.close_listen_socket socket))
              (λ _. Safe-bind _ _ unlistens-Safe (λ _. closes_group-Safe))))

  -- What `close_connection` does once the server does not run.
  abbrev closes_all : Action Server Env Unit
  closes_all = do
    note (Event.log closing_connections)
    connections ← gets (λ s. s.connections)
    close_clients p connections
    clear_connections p
    close_sockets p

  closes_all-Safe : Safe Stopped undefined closes_all
  closes_all-Safe =
      search (safe_rules, close_clients-Safe, clear_connections-Safe, close_sockets-Safe) depth 12

  module _ (live : ℕ → Env → Type 0) where
    pub close_connection-Safe : Safe (IsOpen live) undefined (close_connection p)
    unfolding close_connection
    close_connection-Safe = record {
      at = λ w o.
          let s = record w.object { quit_requested = true; running = false } in
          let d : IsStopped s = record {
            listens = o.listens;
            grouped = o.grouped;
            stopped = refl;
            bounded = o.bounded;
          } in
          let (n, kept) = closes_all-Safe.at (record w { object = s }) d in
          (n, Stopped-IsOpen _ _ kept);
    }
