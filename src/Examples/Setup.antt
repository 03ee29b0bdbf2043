-- ===== src/Examples/Setup.antt =====
-- A platform whose state is the list of the waiting messages, packets, and quiet callbacks.
use chaos_in_multiplayer.Base.{ℕ, pos, negsuc, true, some, none, List, [], ◌∷◌, Text, codes, length}
use chaos_in_multiplayer.Status.{ConnectionState, ConnectionStatusChange}
use chaos_in_multiplayer.Platform.{Platform, Utilities, Message, Received, StatusInfo}
use chaos_in_multiplayer.Program.{Action, skip}
use chaos_in_multiplayer.Packet.{Packet}
use chaos_in_multiplayer.ClientConnection.{ClientConnection}
use chaos_in_multiplayer.Server.{Server}

abbrev pub Mail : Type 0
Mail = List Message

abbrev pub receive : Mail → Received × Mail
receive [] = (record { count = pos 0; message = none }, [])
receive (m ∷ ms) = (record { count = pos 1; message = some m }, ms)

-- The changes that are queued are an argument.
abbrev pub platform : List StatusInfo → Platform Mail
platform changes = record {
  invalid_connection = 0;
  invalid_listen_socket = 0;
  invalid_poll_group = 0;
  send_reliable = 8;
  send_unreliable = 0;
  result_ok = 1;
  state_none = 0;
  state_connecting = 1;
  state_connected = 3;
  state_closed_by_peer = 4;
  state_problem_detected_locally = 5;
  parse_string = λ t. some 7;
  accept_connection = λ h env. (1, env);
  set_connection_poll_group = λ h g env. (true, env);
  close_connection = λ h reason linger env. env;
  send_message = λ h bs n t env. env;
  create_listen_socket = λ a env. (11, env);
  close_listen_socket = λ h env. env;
  create_poll_group = λ env. (12, env);
  destroy_poll_group = λ g env. env;
  receive_on_poll_group = λ g env. receive env;
  receive_on_connection = λ h env. receive env;
  release = λ m env. env;
  run_callbacks = λ env. (changes, env);
  connect_by_address = λ a env. (9, env);
  connection_state = λ h env. (3, env);
}

-- A platform on which every poll group and every connection is in error.
abbrev pub broken_platform : Platform Mail
broken_platform = record (platform []) {
  receive_on_poll_group = λ g env. (record { count = negsuc 0; message = none }, env);
  receive_on_connection = λ h env. (record { count = negsuc 0; message = none }, env);
}

-- A platform that never reports a connection as connected.
abbrev pub lonely_platform : Platform Mail
lonely_platform = record (platform []) { connection_state = λ h env. (1, env) }

-- A platform on which nothing waits.
abbrev pub idle_platform : Platform Mail
idle_platform = record (platform []) {
  receive_on_poll_group = λ g env. (record { count = pos 0; message = none }, env);
}

-- A platform on which every poll group and every connection always has a message.
abbrev pub busy_platform : Platform Mail
busy_platform = record (platform []) {
  receive_on_poll_group = λ g env. (
    record { count = pos 1; message = some (record { conn = 9; bytes = 7 ∷ []; size = pos 1 }) },
    env,
  );
  receive_on_connection = λ h env. (
    record { count = pos 1; message = some (record { conn = 9; bytes = 7 ∷ []; size = pos 1 }) },
    env,
  );
}

-- A broken platform that gives no connection.
abbrev pub closed_platform : Platform Mail
closed_platform = record broken_platform {
  connect_by_address = λ a env. (0, env);
  connection_state = λ h env. (1, env);
}

-- A platform that parses no address.
abbrev pub strict_platform : Platform Mail
strict_platform = record (platform []) { parse_string = λ t. none }

-- Their clock counts the messages.
abbrev pub utilities : Utilities Mail
utilities = record {
  output_type_msg = 5;
  output_type_bug = 1;
  initialize = λ env. ((true, []), env);
  kill = λ env. env;
  local_timestamp = λ env. (pos (length env), env);
  set_debug_output = λ t env. env;
  sleep = λ ms env. env;
  flush = λ f env. env;
}

abbrev pub client_in : ConnectionState → ℕ → ClientConnection
client_in s h = record {
  net_connection = h;
  poll_group = none;
  connection_alias = [];
  connection_state = s;
}

abbrev pub ip : Text
ip = codes "127.0.0.1"

abbrev pub message_from : ℕ → Message
message_from h = record { conn = h; bytes = 10 ∷ 20 ∷ h ∷ []; size = pos 3 }

abbrev pub hello : Packet
hello = record { packet = 104 ∷ 105 ∷ [] }

abbrev pub quiet_packet_code : ℕ → ℕ → Packet → Action Server Mail Unit
quiet_packet_code f k q = skip

abbrev pub quiet_status_code : ℕ → ConnectionStatusChange → Action Server Mail Unit
quiet_status_code f c = skip
