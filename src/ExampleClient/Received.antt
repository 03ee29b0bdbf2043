-- ===== src/ExampleClient/Received.antt =====
-- What Examples/ExampleServer/ExampleServer.cpp does with a message of
-- Examples/ExampleClient/ExampleClient.cpp.
use chaos_in_multiplayer.Base.{
  ℕ, zero, suc, pos, to_size_t, to_size_t-pos, ◌+◌, ◌/◌, ◌%◌, ◌<◌, ◌≡◌, refl, ap, ◌∙◌, true, false,
  some, List, [], ◌∷◌, ◌++◌, Text, arith, ltb, lt→ltb, length, Bool-cases, inl, inr,
}
use chaos_in_multiplayer.Platform.{Platform, Event}
use chaos_in_multiplayer.Program.{undefined, ok, fault, World}
use chaos_in_multiplayer.Packet.{Packet, max_size, of_buffer}
use chaos_in_multiplayer.Packet.Copy.{of_buffer_whole}
use chaos_in_multiplayer.UnorderedMap.{contains}
use chaos_in_multiplayer.Exchange.{arriving}
use chaos_in_multiplayer.Server.{Server}
use chaos_in_multiplayer.Server.Opening.{decimal_from}
use chaos_in_multiplayer.Server.Packets.{
  int_max, process_pending_packet, handle_received, packet_round, process_pending_packets,
}
use chaos_in_multiplayer.Server.Packets.Delivery.Looping.{process_pending_packets-loop}
use chaos_in_multiplayer.Server.Packets.Faults.{packet_loop-fault}
use chaos_in_multiplayer.ExampleServer.Callbacks.{packet_callback}
use chaos_in_multiplayer.ExampleServer.Printing.{has_nul, c_string-endless}
use chaos_in_multiplayer.ExampleServer.Main.{packet_code}
use chaos_in_multiplayer.ExampleClient.{message}
use chaos_in_multiplayer.ExampleClient.Messages.{message-fits}

has_nul-behind : (b : ℕ) (bs : List ℕ) → 0 < b → has_nul (b ∷ bs) ≡ has_nul bs
has_nul-behind zero bs h = absurd (omega arith)
has_nul-behind (suc b) bs h = refl

decimal_from-has_nul :
    (f n : ℕ) (acc : Text) → has_nul acc ≡ false → has_nul (decimal_from f n acc) ≡ false
unfolding decimal_from
decimal_from-has_nul zero n acc e = e
decimal_from-has_nul (suc f) n acc e =
    let e' = has_nul-behind (48 + n % 10) acc (omega arith) ∙ e in
    elim (Bool-cases (ltb n 10)) [
      | inl small ↦ rw small e'
      | inr large ↦ rw large (decimal_from-has_nul f (n / 10) ((48 + n % 10) ∷ acc) e')
    ]

message-has_nul : (i : ℕ) → has_nul (message i) ≡ false
unfolding message
message-has_nul i = decimal_from-has_nul (suc i) i [] refl

message-size : (i : ℕ) → i < 100 → to_size_t (pos (length (message i))) ≡ length (message i)
unfolding max_size
message-size i h = to_size_t-pos (length (message i)) (omega (arith, message-fits i h))

abbrev message_packet : ℕ → Packet
message_packet i = record { packet = message i }

module _ {Env : Type 0} (p : Platform Env) (rand : Env → ℕ × Env) where
  callback-message :
      (k i : ℕ) (w : World Server Env)
      → packet_callback k (message_packet i) w ≡ (fault undefined, w)
  unfolding packet_callback
  callback-message k i w = rw (c_string-endless (message i) (message-has_nul i))

  process_pending_packet-message :
      (k i : ℕ) (w : World Server Env)
      → i < 100
      → contains k w.object.connections ≡ true
      → w.object.packet_callback ≡ some 1
      → (process_pending_packet p (packet_code p rand) (arriving k (message_packet i)) w).0
        ≡ fault undefined
  unfolding process_pending_packet
  process_pending_packet-message k i w small registered cb =
      let copied : of_buffer (message i) (to_size_t (pos (length (message i))))
          ≡ ok (message_packet i) =
        rw (message-size i small) (of_buffer_whole (message i) (message-fits i small)) in
      let called = record w {
        trace = w.trace ++ Event.call_packet_callback 1 k (message i) ∷ [];
      } in
      let stopped = callback-message k i called in ground (arith, copied, registered, cb, stopped)

  packet_round-message :
      (group k i : ℕ) (w : World Server Env)
      → i < 100
      → contains k w.object.connections ≡ true
      → w.object.packet_callback ≡ some 1
      → w.object.poll_group ≡ some group
      → (p.receive_on_poll_group group w.env).0.count ≡ pos 1
      → (p.receive_on_poll_group group w.env).0.message ≡ some (arriving k (message_packet i))
      → (packet_round p (packet_code p rand) w).0 ≡ fault undefined
  unfolding packet_round handle_received
  packet_round-message group k i w small registered cb polls one got =
      let asked : World Server Env = record {
        object = w.object;
        env = (p.receive_on_poll_group group w.env).1;
        trace = w.trace ++ Event.receive_on_poll_group group ∷ [];
      } in
      let stopped = process_pending_packet-message k i asked small registered cb in
      ground (arith, polls, one, got, stopped)

  -- When the first waiting message is one that the example client sends, of a connection that the
  -- example server knows, the server's next call that processes packets ends in undefined behaviour:
  -- the message has no NUL, and the callback prints it as a C string.
  pub process_pending_packets-message :
      (group k i : ℕ) (w : World Server Env)
      → i < 100
      → contains k w.object.connections ≡ true
      → w.object.packet_callback ≡ some 1
      → w.object.poll_group ≡ some group
      → 0 < w.object.max_processed_packets
      → (p.receive_on_poll_group group w.env).0.count ≡ pos 1
      → (p.receive_on_poll_group group w.env).0.message ≡ some (arriving k (message_packet i))
      → (process_pending_packets p (packet_code p rand) w).0 ≡ fault undefined
  process_pending_packets-message group k i w small registered cb polls bound one got =
      ap (λ v. v.0) (process_pending_packets-loop p (packet_code p rand) 1 w cb)
      ∙ packet_loop-fault p (packet_code p rand) (suc int_max) 0 undefined w (lt→ltb _ _ bound)
          (packet_round-message group k i w small registered cb polls one got)
