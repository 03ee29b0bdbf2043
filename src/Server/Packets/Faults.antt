-- ===== src/Server/Packets/Faults.antt =====
-- How the loop of `processPendingPackets` can end.
use chaos_in_multiplayer.Base.{ℕ, suc, ◌≡◌, ◌≢◌, ◌∙◌, ap, sym, true, List, arith, ltb}
use chaos_in_multiplayer.Platform.{Platform, Message, Received}
use chaos_in_multiplayer.Program.Keeps.{Avoids, avoids_rules}
use chaos_in_multiplayer.Program.{
  Fault, assertion, bad_function_call, out_of_range, exit, undefined, unfinished, fault, World,
  Action,
}
use chaos_in_multiplayer.Packet.{Packet, of_buffer}
use chaos_in_multiplayer.Packet.Copy.{copy_data_lem}
use chaos_in_multiplayer.Server.{Server}
use chaos_in_multiplayer.Server.Packets.{
  int_max, process_pending_packet, handle_received, packet_round, packet_loop,
  process_pending_packets,
}
use chaos_in_multiplayer.Server.Packets.Delivery.Looping.{packet_loop-receive_loop}
use chaos_in_multiplayer.Receiving.Ending.{receive_loop-finishes}

pub of_buffer-ne-unfinished : (bytes : List ℕ) (n : ℕ) → of_buffer bytes n ≢ fault unfinished
unfolding of_buffer
of_buffer-ne-unfinished bytes n = ground (arith, copy_data_lem bytes n)

pub undefined≢unfinished : undefined ≢ unfinished
undefined≢unfinished e = cc

pub bad_function_call≢unfinished : bad_function_call ≢ unfinished
bad_function_call≢unfinished e = cc

pub assertion≢unfinished : assertion ≢ unfinished
assertion≢unfinished e = cc

pub exit≢unfinished : (n : ℕ) → exit n ≢ unfinished
exit≢unfinished n e = cc

pub out_of_range≢unfinished : out_of_range ≢ unfinished
out_of_range≢unfinished e = cc

pub ruleset faults_rules = (
  undefined≢unfinished, bad_function_call≢unfinished, assertion≢unfinished, exit≢unfinished,
  out_of_range≢unfinished,
)

module _ {Env : Type 0} (p : Platform Env)
    (packet_code : ℕ → ℕ → Packet → Action Server Env Unit) where
  pub packet_loop-fault :
      (fuel i : ℕ) (x : Fault) (w : World Server Env)
      → ltb i w.object.max_processed_packets ≡ true
      → (packet_round p packet_code w).0 ≡ fault x
      → (packet_loop p packet_code (suc fuel) i w).0 ≡ fault x
  unfolding packet_loop
  packet_loop-fault fuel i x w e r = rw (e, r)

module _ {Env : Type 0} (p : Platform Env) (packet_code : ℕ → ℕ → Packet → Action Server Env Unit)
    (ends : (f k : ℕ) (q : Packet) (w : World Server Env)
      → (packet_code f k q w).0 ≢ fault unfinished) where
  packet_code-Avoids : (f k : ℕ) (q : Packet) → Avoids unfinished (packet_code f k q)
  packet_code-Avoids f k q = record { at = ends f k q }

  process_pending_packet-Avoids :
      (m : Message) → Avoids unfinished (process_pending_packet p packet_code m)
  unfolding process_pending_packet
  process_pending_packet-Avoids m =
      search (avoids_rules, faults_rules, of_buffer-ne-unfinished, packet_code-Avoids) depth 12

  handle_received-Avoids : (r : Received) → Avoids unfinished (handle_received p packet_code r)
  unfolding handle_received
  handle_received-Avoids r =
      search (avoids_rules, faults_rules, process_pending_packet-Avoids) depth 12

  packet_round-Avoids : Avoids unfinished (packet_round p packet_code)
  unfolding packet_round
  packet_round-Avoids = search (avoids_rules, faults_rules, handle_received-Avoids) depth 12

  packet_loop-finishes :
      (w : World Server Env)
      → (packet_loop p packet_code (suc (suc int_max)) 0 w).0 ≢ fault unfinished
  packet_loop-finishes w e =
      let same =
        ap (λ loop. (loop 0 w).0) (packet_loop-receive_loop p packet_code (suc (suc int_max))) in
      receive_loop-finishes (λ i s. ltb i s.max_processed_packets) (packet_round p packet_code)
        packet_round-Avoids w (sym same ∙ e)

  -- The loop ends for every state and every bound, whatever the platform gives: the fuel of the
  -- model never runs out, if no callback of the application runs without end.
  pub process_pending_packets-ends :
      (w : World Server Env) → (process_pending_packets p packet_code w).0 ≢ fault unfinished
  unfolding process_pending_packets
  process_pending_packets-ends w = ground (arith, packet_loop-finishes w)
