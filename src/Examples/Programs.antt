-- ===== src/Examples/Programs.antt =====
-- The two example programs, on the platforms of Setup.
use chaos_in_multiplayer.Base.{
  ℕ, ◌+◌, ◌≡◌, ◌≢◌, refl, true, none, some, [], ◌∷◌, ◌++◌, ◌==◌, map, if◌then◌else◌, codes, arith,
  count_if, length, ◌≤◌,
}
use chaos_in_multiplayer.Packet.{max_size}
use chaos_in_multiplayer.Status.{ConnectionState, ConnectionStatus, ConnectionStatusChange}
use chaos_in_multiplayer.Program.{ok, World}
use chaos_in_multiplayer.UnorderedMap.{lookup}
use chaos_in_multiplayer.NetworkingUtils.{at_start}
use chaos_in_multiplayer.Server.Sending.Broadcast.{sends_to, is_recipient}
use chaos_in_multiplayer.Server.Sending.Contents.{sent_to}
use chaos_in_multiplayer.ExampleServer.Callbacks.{nick_of, is_connected, on_connecting, on_closed}
use chaos_in_multiplayer.ExampleServer.Handshake.{admitted}
use chaos_in_multiplayer.ExampleServer.Admission.{is_admitted, on_connecting-admits}
use chaos_in_multiplayer.ExampleServer.Departure.{on_closed-announces}
use chaos_in_multiplayer.ExampleServer.Main
use chaos_in_multiplayer.ExampleServer.Main.Runs.{process-ne-ok}
use chaos_in_multiplayer.Client.{Client, new}
use chaos_in_multiplayer.ExampleClient
use chaos_in_multiplayer.ExampleClient.Messages.{SentPrefix, sent_as, send_messages-SentPrefix}
use chaos_in_multiplayer.ExampleClient.Waiting.{process-ne-ok_unconnected}
use chaos_in_multiplayer.Examples.Setup.{Mail, platform, lonely_platform, utilities, client_in}
use chaos_in_multiplayer.Examples.Registries.{clients, server, world, server-IsWellFormed}

-- A `rand` that always draws 4.
abbrev rand : Mail → ℕ × Mail
rand env = (4, env)

abbrev asks_in : ConnectionStatusChange
asks_in = record {
  connection = 9;
  old_status = ConnectionStatus.none;
  current_status = ConnectionStatus.connecting;
}

abbrev leaves : ConnectionStatusChange
leaves = record {
  connection = 5;
  old_status = ConnectionStatus.connected;
  current_status = ConnectionStatus.closed_by_peer;
}

absent : lookup 9 clients ≡ none
unfolding lookup
absent = refl

on_connecting-admits_example :
    let (r, w') = on_connecting (platform []) rand asks_in world in
    let nick = nick_of 4 in
    let hello = codes "Hello " ++ nick ++ codes "!" in
    let joined = nick ++ codes " joined the server!" in
    let let_in = is_admitted (platform []) rand 9 12 world.env in
    (r ≡ ok tt)
    × (lookup 9 w'.object.connections ≡ (
        if 9 == 9
        then (if let_in then some (admitted (platform []) rand 9 12 nick) else none)
        else lookup 9 clients))
    × (sent_to 5 w'.trace
        ≡ []
          ++ (if let_in
              then (if 5 == 9
                  then (hello, length hello, 8) ∷ []
                  else if is_recipient none 5 (lookup 5 clients)
                  then (joined, length joined, 8) ∷ []
                  else [])
              else []))
on_connecting-admits_example =
    on_connecting-admits (platform []) rand asks_in 12 5 9 world server-IsWellFormed absent refl

registered : lookup 5 clients ≡ some (client_in ConnectionState.connected 5)
unfolding lookup
registered = refl

room : length (client_in ConnectionState.connected 5).connection_alias + 18 ≤ max_size
unfolding max_size
room = omega arith

on_closed-announces_example :
    let c = client_in ConnectionState.connected 5 in
    let (r, w') = on_closed (platform []) rand leaves world in
    (r ≡ ok tt)
    × (lookup 6 w'.object.connections ≡ (if 6 == 5 then none else lookup 6 clients))
    × (count_if (sends_to 8) w'.trace
        ≡ count_if (sends_to 8) world.trace
          + (if is_connected (platform []) rand leaves.old_status
              then (if is_recipient (some c) 8 (lookup 8 clients) then 1 else 0)
              else 0))
on_closed-announces_example =
    on_closed-announces (platform []) rand leaves (client_in ConnectionState.connected 5) 8 6 world
      server-IsWellFormed registered room

abbrev server_process : World Main.Process Mail
server_process = record {
  object = record { networking = at_start; server = server };
  env = [];
  trace = [];
}

process-ne-ok_example :
    (Main.process (platform []) utilities rand ((codes "/quit" ∷ []) ∷ []) 7 server_process).0
    ≢ ok tt
process-ne-ok_example =
    process-ne-ok (platform []) utilities rand ((codes "/quit" ∷ []) ∷ []) 7 server_process

abbrev client_process : World ExampleClient.Process Mail
client_process = record {
  object = record { networking = at_start; client = new };
  env = [];
  trace = [];
}

lonely-unconnected :
    (h : ℕ) (env : Mail)
    → (lonely_platform.connection_state h env).0 ≢ lonely_platform.state_connected
lonely-unconnected h env e = omega arith

process-ne-ok_unconnected_example :
    (ExampleClient.process lonely_platform utilities 7 client_process).0 ≢ ok tt
process-ne-ok_unconnected_example =
    process-ne-ok_unconnected lonely_platform lonely-unconnected utilities 7 client_process

abbrev connected_client : World Client Mail
connected_client = record {
  object = record new { networking_interface = true; server_connection = some 9 };
  env = [];
  trace = [];
}

send_messages-SentPrefix_example :
    SentPrefix
      (platform [])
      9
      (map (sent_as 9 8) (ExampleClient.indices_from 0 10)
        ++ map (sent_as 9 0) (ExampleClient.indices_from 0 10))
      connected_client
      (ExampleClient.send_messages (platform []) connected_client)
send_messages-SentPrefix_example = send_messages-SentPrefix (platform []) 9 connected_client refl
