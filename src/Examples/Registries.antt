-- ===== src/Examples/Registries.antt =====
-- A server with three clients, and its registry.
use chaos_in_multiplayer.Base.{ℕ, ◌≡◌, refl, true, false, some, List, [], ◌∷◌, arith}
use chaos_in_multiplayer.Status.{ConnectionState}
use chaos_in_multiplayer.Program.{World}
use chaos_in_multiplayer.UnorderedMap.{UnorderedMap, lookup}
use chaos_in_multiplayer.ClientConnection.{ClientConnection}
use chaos_in_multiplayer.ClientConnection.Lifecycle.{IsLive}
use chaos_in_multiplayer.Server.{Server}
use chaos_in_multiplayer.Server.Clients.Registry.{IsWellFormed}
use chaos_in_multiplayer.Server.Directory.{
  Operation, creates, removes, closes_client, asks, accepts, sets_poll_group, sends, specified,
  operated, run,
}
use chaos_in_multiplayer.Server.Directory.Operations.{view}
use chaos_in_multiplayer.Server.Directory.Refinement.{run-refines}
use chaos_in_multiplayer.Examples.Setup.{Mail, platform, client_in, message_from, hello, ip}

abbrev pub clients : UnorderedMap ClientConnection
clients =
    (5, client_in ConnectionState.connected 5)
    ∷ (6, client_in ConnectionState.connecting 6)
    ∷ (8, client_in ConnectionState.connected 8)
    ∷ []

abbrev pub server : Server
server = record {
  server_ip = ip;
  server_port = 27020;
  listening_socket = some 11;
  poll_group = some 12;
  running = true;
  quit_requested = false;
  packet_callback = some 1;
  connection_status_change_callback = some 2;
  connections = clients;
  max_processed_packets = 2;
  input_controller = record {
    exit_requested = false;
    input_queue = [];
    arriving = [];
    joinable = true;
  };
  server_instance = false;
}

abbrev pub world : World Server Mail
world = record {
  object = server;
  env = message_from 5 ∷ message_from 6 ∷ message_from 8 ∷ [];
  trace = [];
}

client_in-IsLive : (h : ℕ) → IsLive h (client_in ConnectionState.connected h)
client_in-IsLive h = ground arith

client_in-IsLive-connecting : (h : ℕ) → IsLive h (client_in ConnectionState.connecting h)
client_in-IsLive-connecting h = ground arith

pub server-IsWellFormed : IsWellFormed server
unfolding lookup
server-IsWellFormed = record {
  distinct = (refl, (refl, (refl, tt)));
  registered = (client_in-IsLive 5, (client_in-IsLive-connecting 6, (client_in-IsLive 8, tt)));
}

abbrev operations : List Operation
operations =
    creates 9
    ∷ accepts 9
    ∷ sets_poll_group 9 12
    ∷ sends hello 8 9
    ∷ closes_client 6
    ∷ asks 6
    ∷ removes 5
    ∷ []

run-refines_example :
    let (r, w') = run (operated (platform [])) operations world in
    (run (specified (platform [])) operations (view world) ≡ (r, view w')) × IsWellFormed w'.object
run-refines_example = run-refines (platform []) operations world server-IsWellFormed
