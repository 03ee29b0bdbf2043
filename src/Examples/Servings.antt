-- ===== src/Examples/Servings.antt =====
-- Waiting messages, and the loop over them.
use chaos_in_multiplayer.Base.{
  to_size_t-pos, All, ℕ, ◌≡◌, ◌≢◌, ◌≤◌, refl, sym, append-nil, true, pos, some, [], ◌∷◌, take, drop,
  arith,
}
use chaos_in_multiplayer.Program.{unfinished, ok, fault, World, Action, skip}
use chaos_in_multiplayer.Packet.{max_size}
use chaos_in_multiplayer.UnorderedMap.{lookup, contains}
use chaos_in_multiplayer.Server.Packets.{int_max, process_pending_packets}
use chaos_in_multiplayer.Receiving.{
  IsDeliverable, IsInbox, IsQuiet, Delivered, deliveries, releases,
}
use chaos_in_multiplayer.Server.Packets.Delivery.{Setting, IsServing}
use chaos_in_multiplayer.Packet.{Packet}
use chaos_in_multiplayer.Status.{ConnectionStatusChange}
use chaos_in_multiplayer.Server.Updating
use chaos_in_multiplayer.Server.Updating.Ending.{update_connection-ends}
use chaos_in_multiplayer.Client.StatusChanges
use chaos_in_multiplayer.Client.StatusChanges.Ending.{update_connection-finishes}
use chaos_in_multiplayer.Client.{Client, new}
use chaos_in_multiplayer.Client.Packets.{process_received_packets}
use chaos_in_multiplayer.Client.Packets.Delivery
use chaos_in_multiplayer.Client.Packets.Delivery.Looping.{process_received_packets-delivers}
use chaos_in_multiplayer.Server.Packets.Delivery.Looping.{process_pending_packets-delivers}
use chaos_in_multiplayer.Examples.Setup.{
  Mail, platform, message_from, quiet_packet_code, quiet_status_code,
}
use chaos_in_multiplayer.Examples.Registries.{clients, server, world}

abbrev setting : Setting
setting = record { group = 12; callable = 1; bound = 2; known = λ k. contains k clients }

abbrev inbox : Mail → Mail
inbox env = env

platform-IsInbox : IsInbox (platform []) ((platform []).receive_on_poll_group 12) inbox
platform-IsInbox = record {
  nothing = λ env e. ground arith;
  first = λ env m ms e. ground arith;
  released = λ env m. refl;
}

quiet_packet_code-IsQuiet : IsQuiet inbox (IsServing setting) (quiet_packet_code 1)
quiet_packet_code-IsQuiet = record {
  returns = λ k q w s. refl;
  quiet = λ k q w s. record {
    serving = s;
    delivered = sym (append-nil (deliveries w.trace));
    released = sym (append-nil (releases w.trace));
    waiting = refl;
  };
}

server-IsServing : IsServing setting server
server-IsServing = record { polls = refl; calls = refl; bounded = refl; knows = λ k. refl }

message_from-IsDeliverable :
    (h : ℕ) → contains h clients ≡ true → IsDeliverable setting.known (message_from h)
unfolding max_size
message_from-IsDeliverable h e = record {
  from = e;
  sized = to_size_t-pos 3 (omega arith);
  fits = omega arith;
}

world-IsDeliverable : All (IsDeliverable setting.known) world.env
unfolding lookup
world-IsDeliverable = (
  message_from-IsDeliverable 5 refl,
  (message_from-IsDeliverable 6 refl, (message_from-IsDeliverable 8 refl, tt)),
)

small-bound : setting.bound ≤ int_max
unfolding int_max
small-bound = omega arith

process_pending_packets-delivers_example :
    let (r, w') = process_pending_packets (platform []) quiet_packet_code world in
    (r ≡ ok tt)
    × Delivered inbox
        (IsServing setting)
        true
        world
        w'
        (take 2 (inbox world.env))
        (drop 2 (inbox world.env))
process_pending_packets-delivers_example =
    process_pending_packets-delivers (platform []) quiet_packet_code setting inbox platform-IsInbox
      quiet_packet_code-IsQuiet world server-IsServing world-IsDeliverable small-bound

update_connection-ends_example :
    (Updating.update_connection (platform []) quiet_packet_code quiet_status_code world).0
    ≢ fault unfinished
update_connection-ends_example =
    update_connection-ends (platform []) quiet_packet_code quiet_status_code (λ f k q w e. cc)
      (λ f c w e. cc) world

-- A client with a connection, a bound of two, and a callback.
abbrev listening_client : World Client Mail
listening_client = record {
  object = record new {
    networking_interface = true;
    server_connection = some 9;
    max_processed_packets = pos 2;
    packet_callback = some 1;
  };
  env = message_from 9 ∷ message_from 9 ∷ message_from 9 ∷ [];
  trace = [];
}

abbrev client_setting : Delivery.Setting
client_setting = record { connection = 9; callable = some 1; bound = 2 }

client-IsInbox : IsInbox (platform []) ((platform []).receive_on_connection 9) inbox
client-IsInbox = record {
  nothing = λ env e. ground arith;
  first = λ env m ms e. ground arith;
  released = λ env m. refl;
}

abbrev quiet_client_code : ℕ → ℕ → Packet → Action Client Mail Unit
quiet_client_code f k q = skip

quiet_client_code-IsQuiet :
    (f : ℕ)
    → client_setting.callable ≡ some f
    → IsQuiet inbox (Delivery.IsServing client_setting) (quiet_client_code f)
quiet_client_code-IsQuiet f e = record {
  returns = λ k q w s. refl;
  quiet = λ k q w s. record {
    serving = s;
    delivered = sym (append-nil (deliveries w.trace));
    released = sym (append-nil (releases w.trace));
    waiting = refl;
  };
}

from_anybody : IsDeliverable Delivery.anybody (message_from 9)
unfolding max_size
from_anybody = record { from = refl; sized = to_size_t-pos 3 (omega arith); fits = omega arith }

process_received_packets-delivers_example :
    let (r, w') = process_received_packets (platform []) quiet_client_code listening_client in
    (r ≡ ok tt)
    × Delivered inbox
        (Delivery.IsServing client_setting)
        true
        listening_client
        w'
        (take 2 (inbox listening_client.env))
        (drop 2 (inbox listening_client.env))
process_received_packets-delivers_example =
    process_received_packets-delivers (platform []) quiet_client_code client_setting inbox
      client-IsInbox quiet_client_code-IsQuiet listening_client
      (record { connects = refl; calls = refl; bounded = refl })
      (from_anybody, (from_anybody, (from_anybody, tt))) small-bound

abbrev quiet_client_status_code : ℕ → ConnectionStatusChange → Action Client Mail Unit
quiet_client_status_code f c = skip

update_connection-finishes_example :
    (StatusChanges.update_connection
      (platform [])
      quiet_client_code
      quiet_client_status_code
      listening_client).0
    ≢ fault unfinished
update_connection-finishes_example =
    update_connection-finishes (platform []) quiet_client_code quiet_client_status_code
      (λ f k q w e. cc) (λ f c w e. cc) listening_client
