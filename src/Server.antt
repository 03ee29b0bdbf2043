-- ===== src/Server.antt =====
-- Include/Server/Server.h and Source/Server/Server.cpp: the state of a server, its constructors,
-- accessors and setters. The methods with effects are in the modules below. There is one server to
-- a process, as `server_instance` supposes; Instances has two.
pub mod Clients
pub mod Directory
pub mod Sending
pub mod Opening
pub mod Packets
pub mod StatusChanges
pub mod UserInput
pub mod Updating
pub mod Closing
pub mod Session
pub mod Instances
use chaos_in_multiplayer.Base.{ℕ, Bool, false, Option, none, List, [], Text, codes}
use chaos_in_multiplayer.UnorderedMap.{UnorderedMap, contains}
use chaos_in_multiplayer.InputController.{InputController, of_schedule}
use chaos_in_multiplayer.ClientConnection.{ClientConnection}

-- A `std::function` is carried as the number of the callable that it holds. The members with no
-- initialiser are `none` until they are assigned.
pub record Server : Type 0 where
  pub server_ip : Text
  pub server_port : ℕ
  pub listening_socket : Option ℕ
  pub poll_group : Option ℕ
  pub running : Bool
  pub quit_requested : Bool
  pub packet_callback : Option ℕ
  pub connection_status_change_callback : Option ℕ
  pub connections : UnorderedMap ClientConnection
  pub max_processed_packets : ℕ
  pub input_controller : InputController
  -- whether the static pointer `server_instance` points to this server
  pub server_instance : Bool

pub local_ip_address : Text
local_ip_address = codes "127.0.0.1"

-- `Server(ip, port)`; the schedule is what will be typed.
unfoldable pub of_address : Text → ℕ → List (List Text) → Server
unfolding of_schedule
of_address ip port typed = record {
  server_ip = ip;
  server_port = port;
  listening_socket = none;
  poll_group = none;
  running = false;
  quit_requested = false;
  packet_callback = none;
  connection_status_change_callback = none;
  connections = [];
  max_processed_packets = 5;
  input_controller = of_schedule typed;
  server_instance = false;
}

-- `Server(port)`.
unfoldable pub of_port : ℕ → List (List Text) → Server
unfolding of_address local_ip_address
of_port = of_address local_ip_address

abbrev pub set_max_processed_packets : ℕ → Server → Server
set_max_processed_packets n s = record s { max_processed_packets = n }

abbrev pub set_packet_callback : Option ℕ → Server → Server
set_packet_callback f s = record s { packet_callback = f }

abbrev pub set_connection_status_change_callback : Option ℕ → Server → Server
set_connection_status_change_callback f s = record s { connection_status_change_callback = f }

abbrev pub connection_exists : ℕ → Server → Bool
connection_exists k s = contains k s.connections
