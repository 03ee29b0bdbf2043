-- ===== src/Server/Sending.antt =====
-- Server.cpp: the `send…` methods.
pub mod Broadcast
pub mod Contents
use chaos_in_multiplayer.Base.{
  ℕ, ◌%◌, ◌^◌, Bool, false, Option, none, some, List, [], ◌∷◌, ◌==◌, if◌then◌else◌,
}
use chaos_in_multiplayer.Platform.{Platform, Event}
use chaos_in_multiplayer.Program.{Action, ◌>>=◌, ◌>>◌, gets, perform, skip, when, for_each}
use chaos_in_multiplayer.Packet.{Packet, bytes, size}
use chaos_in_multiplayer.UnorderedMap.{UnorderedMap}
use chaos_in_multiplayer.ClientConnection.{ClientConnection, connected}
use chaos_in_multiplayer.Server.{Server}

-- The conversion of a `std::size_t` to the parameter `uint32_t size`.
unfoldable pub to_uint32 : ℕ → ℕ
to_uint32 n = n % 2 ^ 32

-- `except && except->connection() == connection`.
abbrev pub is_excepted : Option ClientConnection → ℕ → Bool
is_excepted none k = false
is_excepted (some c) k = c.net_connection == k

module _ {Env : Type 0} (p : Platform Env) where
  unfoldable pub send_packet_to_client_impl : ℕ → List ℕ → ℕ → ℕ → Action Server Env Unit
  send_packet_to_client_impl connection data' size' send_type =
      perform (Event.send_message connection data' size' send_type)
        (p.send_message connection data' size' send_type)

  -- What each sending method does for one client.
  unfoldable pub send_to : Packet → ℕ → ClientConnection → Action Server Env Unit
  unfolding send_packet_to_client_impl to_uint32
  send_to packet send_type c =
      send_packet_to_client_impl c.net_connection (bytes packet) (to_uint32 (size packet)) send_type

  unfoldable pub send_reliable_packet : Packet → ClientConnection → Action Server Env Unit
  unfolding send_to
  send_reliable_packet packet c = send_to packet p.send_reliable c

  unfoldable pub send_unreliable_packet : Packet → ClientConnection → Action Server Env Unit
  unfolding send_to
  send_unreliable_packet packet c = send_to packet p.send_unreliable c

  -- The body of the loop over the connections.
  unfoldable pub send_to_entry :
      Packet → ℕ → Option ClientConnection → ℕ × ClientConnection → Action Server Env Unit
  unfolding send_to
  send_to_entry packet send_type except (connection, c) =
      if is_excepted except connection
      then skip
      else when (connected c) (send_to packet send_type c)

  unfoldable pub send_packet_to_clients :
      Packet → ℕ → Option ClientConnection → UnorderedMap ClientConnection → Action Server Env Unit
  unfolding for_each send_to_entry
  send_packet_to_clients packet send_type except connections =
      for_each connections (send_to_entry packet send_type except)

  unfoldable pub send_packet_to_all_connected_clients_impl :
      Packet → ℕ → Option ClientConnection → Action Server Env Unit
  unfolding send_packet_to_clients
  send_packet_to_all_connected_clients_impl packet send_type except = do
    connections ← gets (λ s. s.connections)
    send_packet_to_clients packet send_type except connections

  unfoldable pub send_reliable_packet_to_all_connected_clients : Packet → Action Server Env Unit
  unfolding send_packet_to_all_connected_clients_impl
  send_reliable_packet_to_all_connected_clients packet =
      send_packet_to_all_connected_clients_impl packet p.send_reliable none

  unfoldable pub send_unreliable_packet_to_all_connected_clients : Packet → Action Server Env Unit
  unfolding send_packet_to_all_connected_clients_impl
  send_unreliable_packet_to_all_connected_clients packet =
      send_packet_to_all_connected_clients_impl packet p.send_unreliable none

  unfoldable pub send_reliable_packet_to_all_connected_clients_except :
      Packet → ClientConnection → Action Server Env Unit
  unfolding send_packet_to_all_connected_clients_impl
  send_reliable_packet_to_all_connected_clients_except packet except =
      send_packet_to_all_connected_clients_impl packet p.send_reliable (some except)

  unfoldable pub send_unreliable_packet_to_all_connected_clients_except :
      Packet → ClientConnection → Action Server Env Unit
  unfolding send_packet_to_all_connected_clients_impl
  send_unreliable_packet_to_all_connected_clients_except packet except =
      send_packet_to_all_connected_clients_impl packet p.send_unreliable (some except)
