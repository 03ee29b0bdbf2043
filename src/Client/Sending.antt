-- ===== src/Client/Sending.antt =====
-- Client.cpp: the `send…` methods.
pub mod Connected
use chaos_in_multiplayer.Base.{ℕ, List}
use chaos_in_multiplayer.Platform.{Platform, Event}
use chaos_in_multiplayer.Program.{Action, ◌>>=◌, ◌>>◌, perform, assert}
use chaos_in_multiplayer.Packet.{Packet, bytes, size}
use chaos_in_multiplayer.Server.Sending.{to_uint32}
use chaos_in_multiplayer.Client.{Client, connection, connected}

module _ {Env : Type 0} (p : Platform Env) where
  unfoldable pub send_data_to_server : List ℕ → ℕ → ℕ → Action Client Env Unit
  send_data_to_server data' size' send_type = do
    h ← connection p
    perform (Event.send_message h data' size' send_type) (p.send_message h data' size' send_type)

  -- What both sending methods do.
  unfoldable pub send_packet : Packet → ℕ → Action Client Env Unit
  send_packet packet send_type = do
    up ← connected p
    assert up
    send_data_to_server (bytes packet) (to_uint32 (size packet)) send_type

  unfoldable pub send_reliable_packet_to_server : Packet → Action Client Env Unit
  send_reliable_packet_to_server packet = send_packet packet p.send_reliable

  unfoldable pub send_unreliable_packet_to_server : Packet → Action Client Env Unit
  send_unreliable_packet_to_server packet = send_packet packet p.send_unreliable
