-- ===== src/Server/Packets/Delivery/Looping.antt =====
-- What the loop as a whole delivers.
use chaos_in_multiplayer.Base.{
  ℕ, zero, suc, ◌≤◌, ◌≡◌, refl, sym, ◌∙◌, true, some, List, subst, arith, ap, ltb, take, drop, All,
}
use chaos_in_multiplayer.Platform.{Platform, Message}
use chaos_in_multiplayer.Program.{ok, World, Action, ◌>>=◌, gets, when}
use chaos_in_multiplayer.Packet.{Packet}
use chaos_in_multiplayer.Receiving.{IsDeliverable, IsInbox, IsQuiet, Delivered, Receives}
use chaos_in_multiplayer.Receiving.Looping.{receive_loop, receive_loop_whole}
use chaos_in_multiplayer.Server.{Server}
use chaos_in_multiplayer.Server.Packets.{
  int_max, increment, packet_round, packet_loop, process_pending_packets,
}
use chaos_in_multiplayer.Server.Packets.Delivery.{Setting, IsServing}
use chaos_in_multiplayer.Server.Packets.Delivery.Rounds.{packet_round-IsRound}

module _ {Env : Type 0} (p : Platform Env)
    (packet_code : ℕ → ℕ → Packet → Action Server Env Unit) where
  pub process_pending_packets-loop :
      (f : ℕ) (w : World Server Env)
      → w.object.packet_callback ≡ some f
      → process_pending_packets p packet_code w ≡ packet_loop p packet_code (suc (suc int_max)) 0 w
  unfolding process_pending_packets
  process_pending_packets-loop f w e = ground arith

  pub packet_loop-receive_loop :
      (fuel : ℕ)
      → packet_loop p packet_code fuel
        ≡ receive_loop (λ i s. ltb i s.max_processed_packets) (packet_round p packet_code) fuel
  unfolding packet_loop receive_loop
  packet_loop-receive_loop zero = refl
  packet_loop-receive_loop (suc fuel) =
      ap
        (λ loop i. do
          go_on ← gets (λ s. ltb i s.max_processed_packets)
          when go_on
              (do more ← packet_round p packet_code; when more (do next ← increment i; loop next)))
        (packet_loop-receive_loop fuel)

module _ {Env : Type 0} (p : Platform Env) (packet_code : ℕ → ℕ → Packet → Action Server Env Unit)
    (c : Setting) (inbox : Env → List Message)
    (receives : IsInbox p (p.receive_on_poll_group c.group) inbox)
    (quiet : IsQuiet inbox (IsServing c) (packet_code c.callable)) where
  -- With a bound that an `int` can reach, one call hands the oldest waiting messages to the callback,
  -- as many as the bound allows, in order and each once, gives each back once, and leaves the others
  -- waiting; it returns. This supposes that the platform receives as it documents, that the waiting
  -- messages are of registered connections, and that the callback returns, receives nothing and keeps
  -- the setting.
  pub process_pending_packets-delivers :
      (w : World Server Env)
      → IsServing c w.object
      → All (IsDeliverable c.known) (inbox w.env)
      → c.bound ≤ int_max
      → let (r, w') = process_pending_packets p packet_code w in
        (r ≡ ok tt)
        × Delivered inbox
            (IsServing c)
            true
            w
            w'
            (take c.bound (inbox w.env))
            (drop c.bound (inbox w.env))
  process_pending_packets-delivers w s d small =
      subst
        (Receives inbox (IsServing c) true w tt (take c.bound (inbox w.env))
          (drop c.bound (inbox w.env)))
        (sym (
          process_pending_packets-loop p packet_code c.callable w s.calls
          ∙ ap (λ loop. loop 0 w) (packet_loop-receive_loop p packet_code (suc (suc int_max)))))
        (receive_loop_whole inbox (IsServing c) true (IsDeliverable c.known)
          (λ i s. ltb i s.max_processed_packets) (packet_round p packet_code) c.bound
          (packet_round-IsRound p packet_code c inbox receives quiet)
          (λ i s serving. ap (ltb i) serving.bounded) w s d small)
