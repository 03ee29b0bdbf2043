-- ===== src/Client/Session.antt =====
-- Any use of one client that has been initialised: a history of calls of its other public methods.
pub mod Safety
pub mod Updates
pub mod Histories
pub mod Refusals
use chaos_in_multiplayer.Base.{ℕ, ℤ, Option, List, [], ◌∷◌}
use chaos_in_multiplayer.Status.{ConnectionStatusChange}
use chaos_in_multiplayer.Platform.{Platform}
use chaos_in_multiplayer.Program.{Action, ◌>>◌, modify, skip}
use chaos_in_multiplayer.Packet.{Packet}
use chaos_in_multiplayer.Client.{
  Client, connected, set_max_processed_packets, set_packet_callback,
  set_connection_status_change_callback,
}
use chaos_in_multiplayer.Client.Sending.{
  send_reliable_packet_to_server, send_unreliable_packet_to_server,
}
use chaos_in_multiplayer.Client.StatusChanges.{update_connection}

pub data Call : Type 0 where
  updates asks : Call
  sends_reliable sends_unreliable : Packet → Call
  sets_packet_callback sets_status_callback : Option ℕ → Call
  sets_max_processed_packets : ℤ → Call

module _ {Env : Type 0} (p : Platform Env) (packet_code : ℕ → ℕ → Packet → Action Client Env Unit)
    (status_code : ℕ → ConnectionStatusChange → Action Client Env Unit) where
  unfoldable pub perform_call : Call → Action Client Env Unit
  perform_call updates = update_connection p packet_code status_code
  perform_call asks = connected p >> skip
  perform_call (sends_reliable packet) = send_reliable_packet_to_server p packet
  perform_call (sends_unreliable packet) = send_unreliable_packet_to_server p packet
  perform_call (sets_packet_callback f) = modify (set_packet_callback f)
  perform_call (sets_status_callback f) = modify (set_connection_status_change_callback f)
  perform_call (sets_max_processed_packets n) = modify (set_max_processed_packets n)

  -- The calls in order; a fault ends the history.
  unfoldable pub run_history : List Call → Action Client Env Unit
  run_history [] = skip
  run_history (x ∷ xs) = perform_call x >> run_history xs
