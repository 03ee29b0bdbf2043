-- ===== src/Examples/Broadcasts.antt =====
-- A packet for all clients, and the server's opening and closing.
use chaos_in_multiplayer.Base.{
  ◌+◌, ◌≡◌, refl, true, false, some, none, List, [], ◌∷◌, ◌++◌, map, if◌then◌else◌, count_if,
}
use chaos_in_multiplayer.Status.{ConnectionState}
use chaos_in_multiplayer.Platform.{Event, closing_connections, server_listening}
use chaos_in_multiplayer.Program.{ok, World}
use chaos_in_multiplayer.UnorderedMap.{lookup}
use chaos_in_multiplayer.Server.{Server, of_address}
use chaos_in_multiplayer.Server.Sending.{send_packet_to_all_connected_clients_impl}
use chaos_in_multiplayer.Server.Sending.Broadcast.{
  recipients, after_sending, sends_to, is_recipient, send_packet_to_all_lem, broadcast_once,
}
use chaos_in_multiplayer.Server.Opening.{open_connection}
use chaos_in_multiplayer.Server.Opening.Handles.{
  opened, open_connection-running, open_connection-logs,
}
use chaos_in_multiplayer.Server.Closing.{close_connection}
use chaos_in_multiplayer.Server.Closing.Teardown.{close_all, close_event, close_connection_lem}
use chaos_in_multiplayer.Examples.Setup.{Mail, platform, client_in, hello, ip}
use chaos_in_multiplayer.Examples.Registries.{clients, world, server-IsWellFormed}

send_packet_to_all_lem_example :
    send_packet_to_all_connected_clients_impl (platform []) hello 8 none world
    ≡ (ok tt, after_sending (platform []) hello 8 (recipients none clients) world)
send_packet_to_all_lem_example = send_packet_to_all_lem (platform []) hello 8 none world

broadcast_once_example :
    let except = some (client_in ConnectionState.connected 5) in
    let (r, w') = send_packet_to_all_connected_clients_impl (platform []) hello 8 except world in
    (r ≡ ok tt)
    × (count_if (sends_to 8) w'.trace
        ≡ count_if (sends_to 8) [] + (if is_recipient except 8 (lookup 8 clients) then 1 else 0))
broadcast_once_example =
    broadcast_once (platform []) hello 8 8 (some (client_in ConnectionState.connected 5)) world
      server-IsWellFormed

abbrev new_server : World Server Mail
new_server = record { object = of_address ip 27020 []; env = []; trace = [] }

open_connection-running_example :
    let (r, w') = open_connection (platform []) new_server in
    (r ≡ ok tt)
    × (w'.object.running ≡ opened (platform []) (some 7) [])
    × (w'.object.connections ≡ new_server.object.connections)
    × (w'.object.quit_requested ≡ new_server.object.quit_requested)
open_connection-running_example = open_connection-running (platform []) new_server

open_connection-logs_example :
    (t : List Event) × ((open_connection (platform []) new_server).1.trace
      ≡ t ++ Event.log (server_listening new_server.object.server_port) ∷ [])
open_connection-logs_example = open_connection-logs (platform []) new_server 7 refl

close_connection_lem_example : close_connection (platform []) world ≡ (
  ok tt,
  record {
    object = record world.object {
      quit_requested = true;
      running = false;
      connections = [];
      listening_socket = some 0;
      poll_group = some 0;
    };
    env = close_all (platform []) clients world.env;
    trace =
        []
        ++ Event.log closing_connections ∷ []
        ++ map close_event clients
        ++ Event.close_listen_socket 11 ∷ []
        ++ Event.destroy_poll_group 12 ∷ [];
  },
)
close_connection_lem_example =
    close_connection_lem (platform []) 11 12 world server-IsWellFormed.distinct refl refl
