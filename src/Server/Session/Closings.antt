-- ===== src/Server/Session/Closings.antt =====
-- Sending and closing, and the invariant of a server.
use chaos_in_multiplayer.Base.{ℕ, refl, true, false, Option, some, []}
use chaos_in_multiplayer.Platform.{Platform}
use chaos_in_multiplayer.Program.Keeps.{Keeps, Keeps-modify, Keeps-for_each, keeps_rules}
use chaos_in_multiplayer.Packet.{Packet}
use chaos_in_multiplayer.UnorderedMap.{UnorderedMap}
use chaos_in_multiplayer.ClientConnection.{ClientConnection, close}
use chaos_in_multiplayer.Server.{Server}
use chaos_in_multiplayer.Server.Clients.{at_client}
use chaos_in_multiplayer.Server.Sending.{send_to, send_packet_to_all_connected_clients_impl}
use chaos_in_multiplayer.Server.Sending.Broadcast.{send_packet_to_all_lem}
use chaos_in_multiplayer.Server.Closing.{
  close_clients, destroy_clients, clear_connections, close_sockets, close_connection,
}
use chaos_in_multiplayer.Server.Session.Soundness.{
  IsSound, same_registry, at_client-IsSound, close-IsLive,
}

module _ {Env : Type 0} (p : Platform Env) where
  pub send_to-IsSound :
      (packet : Packet) (t : ℕ) (c : ClientConnection) → Keeps IsSound (send_to p packet t c)
  unfolding send_to
  send_to-IsSound packet t c = search keeps_rules

  pub broadcast-IsSound :
      (packet : Packet) (t : ℕ) (except : Option ClientConnection)
      → Keeps IsSound (send_packet_to_all_connected_clients_impl p packet t except)
  broadcast-IsSound packet t except = record {
    at = λ w f. rw (send_packet_to_all_lem p packet t except w) f;
  }

  -- A change of the members that say whether the server runs.
  stopped-IsSound :
      (s : Server) → IsSound s → IsSound (record s { quit_requested = true; running = false })
  stopped-IsSound s f = record {
    registry = same_registry s _ refl f.registry;
    sockets = λ e. cc;
    thread = f.thread;
  }

  cleared-IsSound : (s : Server) → IsSound s → IsSound (record s { connections = [] })
  cleared-IsSound s f = record {
    registry = record { distinct = tt; registered = tt };
    sockets = f.sockets;
    thread = f.thread;
  }

  new_socket-IsSound :
      (n : ℕ) (s : Server) → IsSound s → IsSound (record s { listening_socket = some n })
  new_socket-IsSound n s f = record {
    registry = same_registry s _ refl f.registry;
    sockets = λ up. (refl, (f.sockets up).1);
    thread = f.thread;
  }

  new_group-IsSound : (n : ℕ) (s : Server) → IsSound s → IsSound (record s { poll_group = some n })
  new_group-IsSound n s f = record {
    registry = same_registry s _ refl f.registry;
    sockets = λ up. ((f.sockets up).0, refl);
    thread = f.thread;
  }

  close_clients-IsSound : (es : UnorderedMap ClientConnection) → Keeps IsSound (close_clients p es)
  unfolding close_clients
  close_clients-IsSound es =
      Keeps-for_each es (λ e. at_client e.0 (close p))
        (λ e. at_client-IsSound e.0 (close p) (close-IsLive p e.0))

  destroy_clients-IsSound :
      (es : UnorderedMap ClientConnection) → Keeps IsSound (destroy_clients p es)
  unfolding destroy_clients
  destroy_clients-IsSound es = search keeps_rules

  clear-IsSound : Keeps IsSound (clear_connections p)
  unfolding clear_connections
  clear-IsSound = search (keeps_rules, destroy_clients-IsSound, Keeps-modify, cleared-IsSound)

  close_sockets-IsSound : Keeps IsSound (close_sockets p)
  unfolding close_sockets
  close_sockets-IsSound =
      search (keeps_rules, Keeps-modify, new_socket-IsSound, new_group-IsSound) depth 20

  pub close_connection-IsSound : Keeps IsSound (close_connection p)
  unfolding close_connection
  close_connection-IsSound =
      search
        (
          keeps_rules, Keeps-modify, stopped-IsSound, close_clients-IsSound, clear-IsSound,
          close_sockets-IsSound,
        )
        depth 12
