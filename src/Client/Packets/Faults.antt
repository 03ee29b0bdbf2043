-- ===== src/Client/Packets/Faults.antt =====
-- How the client's loop over packets can end.
use chaos_in_multiplayer.Base.{ℕ, pos, negsuc, suc, ◌≡◌, ◌≢◌, none, some, arith, ap, sym, ◌∙◌}
use chaos_in_multiplayer.Platform.{Platform, Message, Received}
use chaos_in_multiplayer.Program.Keeps.{Avoids, avoids_rules}
use chaos_in_multiplayer.Program.{undefined, unfinished, fault, World, Action}
use chaos_in_multiplayer.Packet.{Packet}
use chaos_in_multiplayer.Server.Packets.Faults.{of_buffer-ne-unfinished, faults_rules}
use chaos_in_multiplayer.Receiving.Ending.{receive_loop-finishes}
use chaos_in_multiplayer.Client.{Client, connection}
use chaos_in_multiplayer.Client.Packets.Delivery.Looping.{process_received_packets-receive_loop}
use chaos_in_multiplayer.Client.Packets.{
  below, call_packet_callback, process_pending_packet, handle_received, packet_round, packet_loop,
  process_received_packets,
}

module _ {Env : Type 0} (p : Platform Env) (packet_code : ℕ → ℕ → Packet → Action Client Env Unit)
    (ends : (f k : ℕ) (q : Packet) (w : World Client Env)
      → (packet_code f k q w).0 ≢ fault unfinished) where
  packet_code-Avoids : (f k : ℕ) (q : Packet) → Avoids unfinished (packet_code f k q)
  packet_code-Avoids f k q = record { at = ends f k q }

  call_packet_callback-Avoids :
      (m : Message) (f : ℕ) → Avoids unfinished (call_packet_callback p packet_code m f)
  unfolding call_packet_callback
  call_packet_callback-Avoids m f =
      search (avoids_rules, faults_rules, of_buffer-ne-unfinished, packet_code-Avoids) depth 12

  process_pending_packet-Avoids :
      (m : Message) → Avoids unfinished (process_pending_packet p packet_code m)
  unfolding process_pending_packet
  process_pending_packet-Avoids m =
      search (avoids_rules, faults_rules, call_packet_callback-Avoids) depth 12

  handle_received-Avoids : (r : Received) → Avoids unfinished (handle_received p packet_code r)
  unfolding handle_received
  handle_received-Avoids r =
      search (avoids_rules, faults_rules, process_pending_packet-Avoids) depth 12

  packet_round-Avoids : Avoids unfinished (packet_round p packet_code)
  unfolding packet_round connection
  packet_round-Avoids = search (avoids_rules, faults_rules, handle_received-Avoids) depth 12

  -- The client's loop over packets ends for every state and every bound, whatever the platform gives:
  -- the fuel of the model never runs out, if no callback of the application runs without end.
  pub process_received_packets-ends :
      (w : World Client Env) → (process_received_packets p packet_code w).0 ≢ fault unfinished
  process_received_packets-ends w e =
      let same = ap (λ act. (act w).0) (process_received_packets-receive_loop p packet_code) in
      receive_loop-finishes (λ i s. below i s.max_processed_packets) (packet_round p packet_code)
        packet_round-Avoids w (sym same ∙ e)

module _ {Env : Type 0} (p : Platform Env)
    (packet_code : ℕ → ℕ → Packet → Action Client Env Unit) where
  -- When a client has a connection, its bound is positive, and the platform reports an error for the
  -- connection and fills in no message, the call ends in undefined behaviour, with or without a
  -- callable.
  pub process_received_packets-negative :
      (h b n : ℕ) (w : World Client Env)
      → w.object.server_connection ≡ some h
      → w.object.max_processed_packets ≡ pos (suc b)
      → (p.receive_on_connection h w.env).0.count ≡ negsuc n
      → (p.receive_on_connection h w.env).0.message ≡ none
      → (process_received_packets p packet_code w).0 ≡ fault undefined
  unfolding process_received_packets packet_loop packet_round connection handle_received
  process_received_packets-negative h b n w c s r m = ground arith
