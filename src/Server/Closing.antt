-- ===== src/Server/Closing.antt =====
-- Server.cpp: `closeConnection` and the destructor.
pub mod Teardown
use chaos_in_multiplayer.Base.{ℕ, true, false, not, some, List, [], ◌∷◌}
use chaos_in_multiplayer.Platform.{Platform, Event, closing_connections}
use chaos_in_multiplayer.Program.{
  undefined, Action, ◌>>=◌, ◌>>◌, gets, lift, require, perform, note, modify, when, for_each,
}
use chaos_in_multiplayer.UnorderedMap.{UnorderedMap}
use chaos_in_multiplayer.InputController
use chaos_in_multiplayer.ClientConnection.{ClientConnection, destroy, close}
use chaos_in_multiplayer.Server.{Server}
use chaos_in_multiplayer.Server.Clients.{at_client}

module _ {Env : Type 0} (p : Platform Env) where
  -- `for (auto& [connection, client] : connections) client.close();`
  unfoldable pub close_clients : UnorderedMap ClientConnection → Action Server Env Unit
  close_clients connections = for_each connections (λ entry. at_client entry.0 (close p))

  -- The destructors of the entries of a map.
  unfoldable pub destroy_clients : UnorderedMap ClientConnection → Action Server Env Unit
  destroy_clients connections = for_each connections (λ entry. lift (destroy p entry.1))

  -- `connections.clear()`
  unfoldable pub clear_connections : Action Server Env Unit
  clear_connections = do
    connections ← gets (λ s. s.connections)
    destroy_clients connections
    modify (λ s. record s { connections = [] })

  unfoldable pub close_sockets : Action Server Env Unit
  close_sockets = do
    listening_socket ← gets (λ s. s.listening_socket)
    socket ← require undefined listening_socket
    perform (Event.close_listen_socket socket) (p.close_listen_socket socket)
    modify (λ s. record s { listening_socket = some p.invalid_listen_socket })
    poll_group ← gets (λ s. s.poll_group)
    group ← require undefined poll_group
    perform (Event.destroy_poll_group group) (p.destroy_poll_group group)
    modify (λ s. record s { poll_group = some p.invalid_poll_group })

  unfoldable pub close_connection : Action Server Env Unit
  close_connection = do
    modify (λ s. record s { quit_requested = true; running = false })
    note (Event.log closing_connections)
    connections ← gets (λ s. s.connections)
    close_clients connections
    clear_connections
    close_sockets

  -- The body of the destructor, and then the members, the last declared first.
  unfoldable pub destroy_server : Action Server Env Unit
  destroy_server = do
    running ← gets (λ s. s.running)
    when running close_connection
    controller ← gets (λ s. s.input_controller)
    lift (InputController.destroy controller)
    connections ← gets (λ s. s.connections)
    destroy_clients connections
