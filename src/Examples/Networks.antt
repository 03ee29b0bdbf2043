-- ===== src/Examples/Networks.antt =====
-- A client and a server over a network whose messages are on their way until they arrive, and whose send
-- buffer has so many bytes of room.
use chaos_in_multiplayer.Base.{
  ℕ, ◌+◌, ◌-◌, ◌≤◌, pos, true, some, none, List, [], ◌∷◌, ◌++◌, length, take, drop, ◌==◌, leb,
  if◌then◌else◌,
}
use chaos_in_multiplayer.Platform.{Platform, Message, Received}
use chaos_in_multiplayer.Program.{World, Action, skip}
use chaos_in_multiplayer.Packet.{Packet, size}
use chaos_in_multiplayer.UnorderedMap.{contains}
use chaos_in_multiplayer.Server.{Server}
use chaos_in_multiplayer.Server.Packets.Delivery
use chaos_in_multiplayer.Client.{Client, new}
use chaos_in_multiplayer.Client.Packets.Delivery as ClientDelivery
use chaos_in_multiplayer.Examples.Registries.{clients, server}

record Wire : Type 0 where
  room : ℕ
  transit : List Message
  inbox : List Message

abbrev total : List Packet → ℕ
total [] = 0
total (q ∷ qs) = size q + total qs

abbrev Takes : List Packet → Wire → Type 0
Takes qs env = total qs ≤ env.room

abbrev transit_of : Wire → List Message
transit_of env = env.transit

abbrev inbox_of : Wire → List Message
inbox_of env = env.inbox

abbrev arrive : Wire → Wire
arrive env = record env { transit = drop 1 env.transit; inbox = env.inbox ++ take 1 env.transit }

abbrev receive : List Message → Wire → Received × Wire
receive [] env = (record { count = pos 0; message = none }, env)
receive (m ∷ ms) env = (record { count = pos 1; message = some m }, record env { inbox = ms })

-- A message to the handle `j`, which arrives as one from `k`, if there is room for it.
abbrev send : ℕ → ℕ → ℕ → List ℕ → Wire → Wire
send j k h bs env =
    if j == h
    then (if leb (length bs) env.room
        then record {
          room = env.room - length bs;
          transit = env.transit ++ record { conn = k; bytes = bs; size = pos (length bs) } ∷ [];
          inbox = env.inbox;
        }
        else env)
    else env

abbrev wire : ℕ → ℕ → Platform Wire
wire j k = record {
  invalid_connection = 0;
  invalid_listen_socket = 0;
  invalid_poll_group = 0;
  send_reliable = 8;
  send_unreliable = 0;
  result_ok = 1;
  state_none = 0;
  state_connecting = 1;
  state_connected = 3;
  state_closed_by_peer = 4;
  state_problem_detected_locally = 5;
  parse_string = λ t. some 7;
  accept_connection = λ h env. (1, env);
  set_connection_poll_group = λ h g env. (true, env);
  close_connection = λ h reason linger env. env;
  send_message = λ h bs n t env. send j k h bs env;
  create_listen_socket = λ a env. (11, env);
  close_listen_socket = λ h env. env;
  create_poll_group = λ env. (12, env);
  destroy_poll_group = λ g env. env;
  receive_on_poll_group = λ g env. receive env.inbox env;
  receive_on_connection = λ h env. receive env.inbox env;
  release = λ m env. env;
  run_callbacks = λ env. ([], env);
  connect_by_address = λ a env. (9, env);
  connection_state = λ h env. (3, env);
}

abbrev sender : World Client Wire
sender = record {
  object = record new {
    networking_interface = true;
    server_connection = some 9;
    packet_callback = some 1;
  };
  env = record { room = 524288; transit = []; inbox = [] };
  trace = [];
}

abbrev serving_world : World Server Wire
serving_world = record { object = server; env = sender.env; trace = [] }

abbrev setting : Delivery.Setting
setting = record { group = 12; callable = 1; bound = 2; known = λ k. contains k clients }

abbrev client_setting : ClientDelivery.Setting
client_setting = record { connection = 9; callable = some 1; bound = 5 }

abbrev quiet_code : {S : Type 0} → ℕ → ℕ → Packet → Action S Wire Unit
quiet_code f k q = skip
