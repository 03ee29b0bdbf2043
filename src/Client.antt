-- ===== src/Client.antt =====
-- Include/Client/Client.h and Source/Client/Client.cpp.
pub mod Connecting
pub mod Packets
pub mod StatusChanges
pub mod Sending
pub mod Session
use chaos_in_multiplayer.Base.{
  ℕ, ℤ, pos, Bool, true, false, Option, none, some, Text, ◌==◌, if◌then◌else◌,
}
use chaos_in_multiplayer.Status.{ConnectionStatusChange}
use chaos_in_multiplayer.Platform.{
  Platform, Event, invalid_server_address, failed_to_create_connection,
}
use chaos_in_multiplayer.Program.{
  undefined, Action, ◌>>=◌, ◌>>◌, pure, gets, call, require, perform, note, modify, if_set,
}
use chaos_in_multiplayer.Server.Opening.{format_address}

-- The members with no initialiser are `none`, or `false`, until they are assigned.
pub record Client : Type 0 where
  -- whether `networking_interface` has been set
  pub networking_interface : Bool
  pub server_connection : Option ℕ
  pub max_processed_packets : ℤ
  pub packet_callback : Option ℕ
  pub connection_status_change_callback : Option ℕ
  -- whether the static pointer `client_instance` points to this client
  pub client_instance : Bool

abbrev pub new : Client
new = record {
  networking_interface = false;
  server_connection = none;
  max_processed_packets = pos 5;
  packet_callback = none;
  connection_status_change_callback = none;
  client_instance = false;
}

abbrev pub set_max_processed_packets : ℤ → Client → Client
set_max_processed_packets n c = record c { max_processed_packets = n }

abbrev pub set_packet_callback : Option ℕ → Client → Client
set_packet_callback f c = record c { packet_callback = f }

abbrev pub set_connection_status_change_callback : Option ℕ → Client → Client
set_connection_status_change_callback f c = record c { connection_status_change_callback = f }

module _ {Env : Type 0} (p : Platform Env) where
  -- For a parsed address.
  unfoldable pub connect : ℕ → Action Client Env Bool
  connect address = do
    connection ← call (Event.connect_by_address address) (p.connect_by_address address)
    modify (λ c. record c { server_connection = some connection })
    if connection == p.invalid_connection
        then note (Event.log failed_to_create_connection) >> pure false
        else pure true

  unfoldable pub initialize_connection : Text → ℕ → Action Client Env Bool
  initialize_connection ip port = do
    modify (λ c. record c { networking_interface = true })
    if_set (p.parse_string (format_address ip port))
        (note (Event.log invalid_server_address) >> pure false) connect

  -- The handle that a call of the platform is made with.
  unfoldable pub connection : Action Client Env ℕ
  connection = do
    server_connection ← gets (λ c. c.server_connection)
    require undefined server_connection

  unfoldable pub connected : Action Client Env Bool
  unfolding connection
  connected = do
    h ← connection
    state ← call (Event.connection_state h) (p.connection_state h)
    pure (state == p.state_connected)

  unfoldable pub close_connection : Action Client Env Unit
  unfolding connection
  close_connection = do
    h ← connection
    perform (Event.close_connection h 0 false) (p.close_connection h 0 false)
