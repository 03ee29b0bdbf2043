-- ===== src/Client/Packets.antt =====
-- Client.cpp: `processReceivedPackets` and `processPendingPacket`.
pub mod Faults
pub mod Delivery
use chaos_in_multiplayer.Base.{
  ℕ, ℤ, pos, negsuc, to_size_t, zero, suc, Bool, true, false, ltb, if◌then◌else◌,
}
use chaos_in_multiplayer.Platform.{Platform, Event, Message, Received, error_checking_messages}
use chaos_in_multiplayer.Program.{
  undefined, unfinished, Action, ◌>>=◌, ◌>>◌, pure, stop, gets, call, lift, require, perform, note,
  skip, when, if_set,
}
use chaos_in_multiplayer.Packet.{Packet, bytes, of_buffer}
use chaos_in_multiplayer.Server.Packets.{is_zero, is_negative, int_max, increment}
use chaos_in_multiplayer.Client.{Client, connection}

-- `packet_index < max_processed_packets`, both of type `int`.
abbrev pub below : ℕ → ℤ → Bool
below i (pos n) = ltb i n
below i (negsuc n) = false

module _ {Env : Type 0} (p : Platform Env)
    (packet_code : ℕ → ℕ → Packet → Action Client Env Unit) where
  -- With a callable at hand.
  unfoldable pub call_packet_callback : Message → ℕ → Action Client Env Unit
  call_packet_callback m f = do
    packet ← lift (of_buffer m.bytes (to_size_t m.size))
    note (Event.call_packet_callback f m.conn (bytes packet))
    packet_code f m.conn packet

  unfoldable pub process_pending_packet : Message → Action Client Env Unit
  process_pending_packet m = do
    callback ← gets (λ c. c.packet_callback)
    if_set callback skip (call_packet_callback m)

  -- A null pointer is followed by the callback's branch or else by `Release`.
  unfoldable pub handle_received : Received → Action Client Env Bool
  handle_received received = if is_zero received.count then pure false else do
    when (is_negative received.count) (note (Event.log error_checking_messages))
    m ← require undefined received.message
    process_pending_packet m
    perform (Event.release m) (p.release m)
    pure true

  unfoldable pub packet_round : Action Client Env Bool
  packet_round = do
    h ← connection p
    received ← call (Event.receive_on_connection h) (p.receive_on_connection h)
    handle_received received

  unfoldable pub packet_loop : ℕ → ℕ → Action Client Env Unit
  packet_loop zero packet_index = stop unfinished
  packet_loop (suc fuel) packet_index = do
    bound ← gets (λ c. c.max_processed_packets)
    when (below packet_index bound) (do
      more ← packet_round
      when more (do next ← increment packet_index; packet_loop fuel next))

  -- An `int` allows no more rounds than this fuel.
  unfoldable pub process_received_packets : Action Client Env Unit
  process_received_packets = packet_loop (suc (suc int_max)) 0
