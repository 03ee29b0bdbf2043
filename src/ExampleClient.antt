-- ===== src/ExampleClient.antt =====
-- Examples/ExampleClient/ExampleClient.cpp.
pub mod Waiting
pub mod Refused
pub mod Sending
pub mod Messages
pub mod Arrival
pub mod Received
use chaos_in_multiplayer.Base.{ℕ, zero, suc, some, List, [], ◌∷◌, ◌++◌, Text, codes, if◌then◌else◌}
use chaos_in_multiplayer.Status.{ConnectionStatus, ConnectionStatusChange}
use chaos_in_multiplayer.Platform.{Platform, Utilities}
use chaos_in_multiplayer.Program.{
  bad_function_call, unfinished, Action, ◌>>=◌, ◌>>◌, stop, modify, skip, for_each, on_part,
}
use chaos_in_multiplayer.NetworkingUtils.{NetworkingUtils, initialize_sockets, close_sockets}
use chaos_in_multiplayer.Packet.{Packet, packet_of}
use chaos_in_multiplayer.Server.Opening.{decimal_from}
use chaos_in_multiplayer.Client.{
  Client, new, set_connection_status_change_callback, initialize_connection, connected,
  close_connection,
}
use chaos_in_multiplayer.Client.StatusChanges.{update_connection}
use chaos_in_multiplayer.Client.Sending.{
  send_reliable_packet_to_server, send_unreliable_packet_to_server,
}

-- `std::format("Message {}", i)`.
unfoldable pub message : ℕ → Text
message i = codes "Message " ++ decimal_from (suc i) i []

-- The values of a counter from `i` on, `n` of them.
abbrev pub indices_from : ℕ → ℕ → List ℕ
indices_from i zero = []
indices_from i (suc n) = i ∷ indices_from (suc i) n

abbrev pub num_of_messages : ℕ
num_of_messages = 10

module _ {Env : Type 0} (p : Platform Env) where
  unfoldable pub on_status : ConnectionStatus → Action Client Env Unit
  on_status ConnectionStatus.closed_by_peer = close_connection p
  on_status ConnectionStatus.problem_detected_locally = close_connection p
  on_status ConnectionStatus.connecting = skip
  on_status ConnectionStatus.connected = skip
  on_status ConnectionStatus.finding_route = skip
  on_status ConnectionStatus.none = skip

  unfoldable pub connection_status_change_callback : ConnectionStatusChange → Action Client Env Unit
  connection_status_change_callback change = on_status change.current_status

  -- No packet callback is set.
  abbrev pub packet_code : ℕ → ℕ → Packet → Action Client Env Unit
  packet_code f connection packet = stop bad_function_call

  abbrev pub status_code : ℕ → ConnectionStatusChange → Action Client Env Unit
  status_code f = connection_status_change_callback

  -- `while (!client.connected()) client.updateConnection();`, with fuel for the rounds.
  unfoldable pub wait_loop : ℕ → Action Client Env Unit
  wait_loop zero = stop unfinished
  wait_loop (suc fuel) = do
    up ← connected p
    if up then skip else do update_connection p packet_code status_code; wait_loop fuel

  unfoldable pub send_reliable : ℕ → Action Client Env Unit
  send_reliable i = do packet ← packet_of (message i); send_reliable_packet_to_server p packet

  unfoldable pub send_unreliable : ℕ → Action Client Env Unit
  send_unreliable i = do packet ← packet_of (message i); send_unreliable_packet_to_server p packet

  -- The two loops.
  unfoldable pub send_messages : Action Client Env Unit
  send_messages = do
    for_each (indices_from 0 num_of_messages) send_reliable
    for_each (indices_from 0 num_of_messages) send_unreliable

  -- What `main` does with the new client.
  unfoldable pub main : ℕ → Action Client Env Unit
  main rounds = do
    modify (set_connection_status_change_callback (some 1))
    initialize_connection p (codes "127.0.0.1") 8080
    wait_loop rounds
    send_messages

pub record Process : Type 0 where
  pub networking : NetworkingUtils
  pub client : Client

module _ {Env : Type 0} (p : Platform Env) (u : Utilities Env) where
  abbrev pub on_networking : Action NetworkingUtils Env Unit → Action Process Env Unit
  on_networking = on_part (λ s. s.networking) (λ n s. record s { networking = n })

  abbrev pub on_client : Action Client Env Unit → Action Process Env Unit
  on_client = on_part (λ s. s.client) (λ c s. record s { client = c })

  -- All of `main`.
  unfoldable pub process : ℕ → Action Process Env Unit
  process rounds = do
    on_networking (initialize_sockets u)
    modify (λ s. record s { client = new })
    on_client (main p rounds)
    on_networking (close_sockets u)
