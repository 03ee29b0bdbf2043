-- ===== src/Client/Packets/Delivery/Looping.antt =====
-- What the client's loop as a whole delivers.
use chaos_in_multiplayer.Base.{
  ℕ, zero, suc, ◌≤◌, ◌≡◌, refl, sym, some, List, subst, ap, take, drop, All,
}
use chaos_in_multiplayer.Platform.{Platform, Message}
use chaos_in_multiplayer.Program.{ok, World, Action, ◌>>=◌, gets, when}
use chaos_in_multiplayer.Packet.{Packet}
use chaos_in_multiplayer.Receiving.{IsDeliverable, IsInbox, IsQuiet, Delivered, Receives}
use chaos_in_multiplayer.Receiving.Looping.{receive_loop, receive_loop_whole}
use chaos_in_multiplayer.Server.Packets.{int_max, increment}
use chaos_in_multiplayer.Client.{Client}
use chaos_in_multiplayer.Client.Packets.{below, packet_round, packet_loop, process_received_packets}
use chaos_in_multiplayer.Client.Packets.Delivery.{Setting, IsServing, is_told, anybody}
use chaos_in_multiplayer.Client.Packets.Delivery.Rounds.{packet_round-IsRound}

module _ {Env : Type 0} (p : Platform Env)
    (packet_code : ℕ → ℕ → Packet → Action Client Env Unit) where
  packet_loop-receive_loop :
      (fuel : ℕ)
      → packet_loop p packet_code fuel
        ≡ receive_loop (λ i s. below i s.max_processed_packets) (packet_round p packet_code) fuel
  unfolding packet_loop receive_loop
  packet_loop-receive_loop zero = refl
  packet_loop-receive_loop (suc fuel) =
      ap
        (λ loop i. do
          go_on ← gets (λ s. below i s.max_processed_packets)
          when go_on
              (do more ← packet_round p packet_code; when more (do next ← increment i; loop next)))
        (packet_loop-receive_loop fuel)

  pub process_received_packets-receive_loop :
      process_received_packets p packet_code
      ≡ receive_loop
          (λ i s. below i s.max_processed_packets)
          (packet_round p packet_code)
          (suc (suc int_max))
          0
  unfolding process_received_packets
  process_received_packets-receive_loop =
      ap (λ loop. loop 0) (packet_loop-receive_loop (suc (suc int_max)))

module _ {Env : Type 0} (p : Platform Env) (packet_code : ℕ → ℕ → Packet → Action Client Env Unit)
    (c : Setting) (inbox : Env → List Message)
    (receives : IsInbox p (p.receive_on_connection c.connection) inbox)
    (quiet : (f : ℕ) → c.callable ≡ some f → IsQuiet inbox (IsServing c) (packet_code f)) where
  -- With a connection and a bound that an `int` can reach, one call takes the oldest waiting messages,
  -- as many as the bound allows, gives each back once, in order, leaves the others waiting, and
  -- returns. If a callback is set, each was handed to it once, in order; if none is set, they are lost,
  -- and nobody is told. This supposes that the platform receives as it documents, and that a callback
  -- returns, receives nothing and keeps the setting.
  pub process_received_packets-delivers :
      (w : World Client Env)
      → IsServing c w.object
      → All (IsDeliverable anybody) (inbox w.env)
      → c.bound ≤ int_max
      → let (r, w') = process_received_packets p packet_code w in
        (r ≡ ok tt)
        × Delivered inbox
            (IsServing c)
            (is_told c.callable)
            w
            w'
            (take c.bound (inbox w.env))
            (drop c.bound (inbox w.env))
  process_received_packets-delivers w s d small =
      let told = is_told c.callable in
      subst
        (Receives inbox (IsServing c) told w tt (take c.bound (inbox w.env))
          (drop c.bound (inbox w.env)))
        (sym (ap (λ act. act w) (process_received_packets-receive_loop p packet_code)))
        (receive_loop_whole inbox (IsServing c) told (IsDeliverable anybody)
          (λ i s. below i s.max_processed_packets) (packet_round p packet_code) c.bound
          (packet_round-IsRound p packet_code c inbox receives quiet)
          (λ i s serving. ap (below i) serving.bounded) w s d small)
