-- ===== src/Server/Packets.antt =====
-- Server.cpp: `processPendingPackets` and `processPendingPacket`.
pub mod Delivery
pub mod Faults
use chaos_in_multiplayer.Base.{
  ℕ, ℤ, pos, negsuc, to_size_t, zero, suc, ◌+◌, ◌-◌, ◌^◌, Bool, true, false, Option, none, some,
  List, ltb, ◌==◌, if◌then◌else◌,
}
use chaos_in_multiplayer.Platform.{Platform, Event, Message, Received, error_checking_messages}
use chaos_in_multiplayer.Program.{
  bad_function_call, undefined, unfinished, Action, ◌>>=◌, ◌>>◌, pure, stop, gets, call, lift,
  require, perform, note, assert, skip, when, if_set,
}
use chaos_in_multiplayer.Packet.{Packet, bytes, of_buffer}
use chaos_in_multiplayer.UnorderedMap.{contains}
use chaos_in_multiplayer.Server.{Server}

-- The greatest `int`.
unfoldable pub int_max : ℕ
int_max = 2 ^ 31 - 1

abbrev pub is_zero : ℤ → Bool
is_zero (pos zero) = true
is_zero (pos (suc n)) = false
is_zero (negsuc n) = false

abbrev pub is_negative : ℤ → Bool
is_negative (pos n) = false
is_negative (negsuc n) = true

module _ {S Env : Type 0} where
  -- `++packet_index`, which must not pass the greatest `int`.
  unfoldable pub increment : ℕ → Action S Env ℕ
  increment i = if i == int_max then stop undefined else pure (i + 1)

-- `packet_code` is what the callables do.
module _ {Env : Type 0} (p : Platform Env)
    (packet_code : ℕ → ℕ → Packet → Action Server Env Unit) where
  unfoldable pub process_pending_packet : Message → Action Server Env Unit
  process_pending_packet m = do
    registered ← gets (λ s. contains m.conn s.connections)
    assert registered
    packet ← lift (of_buffer m.bytes (to_size_t m.size))
    callback ← gets (λ s. s.packet_callback)
    f ← require bad_function_call callback
    note (Event.call_packet_callback f m.conn (bytes packet))
    packet_code f m.conn packet

  -- The body of the loop after the call that receives. The result is whether to go on.
  unfoldable pub handle_received : Received → Action Server Env Bool
  handle_received received = if is_zero received.count then pure false else do
    when (is_negative received.count) (note (Event.log error_checking_messages))
    m ← require undefined received.message
    process_pending_packet m
    perform (Event.release m) (p.release m)
    pure true

  unfoldable pub packet_round : Action Server Env Bool
  packet_round = do
    poll_group ← gets (λ s. s.poll_group)
    group ← require undefined poll_group
    received ← call (Event.receive_on_poll_group group) (p.receive_on_poll_group group)
    handle_received received

  -- From `packet_index` on. The bound is read anew in each round, as a callback may change it.
  unfoldable pub packet_loop : ℕ → ℕ → Action Server Env Unit
  packet_loop zero packet_index = stop unfinished
  packet_loop (suc fuel) packet_index = do
    bound ← gets (λ s. s.max_processed_packets)
    when (ltb packet_index bound) (do
      more ← packet_round
      when more (do next ← increment packet_index; packet_loop fuel next))

  -- An `int` allows no more rounds than this fuel.
  unfoldable pub process_pending_packets : Action Server Env Unit
  process_pending_packets = do
    callback ← gets (λ s. s.packet_callback)
    if_set callback skip (λ f. packet_loop (suc (suc int_max)) 0)
