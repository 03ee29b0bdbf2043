-- ===== src/Server/Session.antt =====
-- A use of one server: a history of calls of its public methods, and of the methods of its client
-- connections through the references that it hands out. Moves through those references are not calls
-- here, and the thread that reads the input is in InputController/Polling.
pub mod Soundness
pub mod Closings
pub mod Updates
pub mod Histories
pub mod Safety
pub mod Opened
pub mod Defined
pub mod Shutdown
pub mod Openings
pub mod Definedness
use chaos_in_multiplayer.Base.{ℕ, Option, List, [], ◌∷◌, Text}
use chaos_in_multiplayer.Status.{ConnectionStatusChange}
use chaos_in_multiplayer.Platform.{Platform}
use chaos_in_multiplayer.Program.{Outcome, ok, fault, World, Action, ◌>>=◌, ◌>>◌, modify, skip}
use chaos_in_multiplayer.Packet.{Packet}
use chaos_in_multiplayer.ClientConnection.{
  ClientConnection, get_poll_group, set_alias, accept, set_poll_group, close,
}
use chaos_in_multiplayer.Server.{
  Server, set_max_processed_packets, set_packet_callback, set_connection_status_change_callback,
}
use chaos_in_multiplayer.Server.Clients.{
  at_client, create_client_connection, remove_client_connection, close_client_connection,
  ensure_client_connection_exists,
}
use chaos_in_multiplayer.Server.Sending.{send_to, send_packet_to_all_connected_clients_impl}
use chaos_in_multiplayer.Server.Opening.{open_connection}
use chaos_in_multiplayer.Server.Updating.{update_connection}
use chaos_in_multiplayer.Server.Closing.{close_connection}

pub data Call : Type 0 where
  opens updates closes : Call
  creates ensures removes closes_client : ℕ → Call
  -- on `clientConnection(k)`
  accepts closes_entry reads_poll_group : ℕ → Call
  sets_poll_group : ℕ → ℕ → Call
  sets_alias : ℕ → Text → Call
  -- the packet, the send flags, and the client
  sends : Packet → ℕ → ClientConnection → Call
  sends_to_all : Packet → ℕ → Option ClientConnection → Call
  sets_packet_callback sets_status_callback : Option ℕ → Call
  sets_max_processed_packets : ℕ → Call

module _ {Env : Type 0} (p : Platform Env) (packet_code : ℕ → ℕ → Packet → Action Server Env Unit)
    (status_code : ℕ → ConnectionStatusChange → Action Server Env Unit) where
  unfoldable pub perform_call : Call → Action Server Env Unit
  perform_call opens = open_connection p
  perform_call updates = update_connection p packet_code status_code
  perform_call closes = close_connection p
  perform_call (creates k) = create_client_connection k >> skip
  perform_call (ensures k) = ensure_client_connection_exists k
  perform_call (removes k) = remove_client_connection p k
  perform_call (closes_client k) = close_client_connection p k
  perform_call (accepts k) = at_client k (accept p) >> skip
  perform_call (closes_entry k) = at_client k (close p)
  perform_call (reads_poll_group k) = at_client k get_poll_group >> skip
  perform_call (sets_poll_group k g) = at_client k (set_poll_group p g) >> skip
  perform_call (sets_alias k t) = at_client k (modify (set_alias t))
  perform_call (sends packet t c) = send_to p packet t c
  perform_call (sends_to_all packet t except) =
      send_packet_to_all_connected_clients_impl p packet t except
  perform_call (sets_packet_callback f) = modify (set_packet_callback f)
  perform_call (sets_status_callback f) = modify (set_connection_status_change_callback f)
  perform_call (sets_max_processed_packets n) = modify (set_max_processed_packets n)

  -- The calls in order; a fault ends the history.
  unfoldable pub run_history : List Call → Action Server Env Unit
  run_history [] = skip
  run_history (x ∷ xs) = perform_call x >> run_history xs
