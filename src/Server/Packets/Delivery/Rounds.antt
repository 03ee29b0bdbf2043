-- ===== src/Server/Packets/Delivery/Rounds.antt =====
-- What one round of the loop delivers.
use chaos_in_multiplayer.Base.{
  ℕ, pos, to_size_t, ◌≡◌, refl, sym, ◌∙◌, true, false, some, List, [], ◌∷◌, ◌++◌, subst, arith,
}
use chaos_in_multiplayer.Platform.{Platform, Event, Message, Received}
use chaos_in_multiplayer.Program.{ok, World, Action}
use chaos_in_multiplayer.Packet.{Packet, of_buffer}
use chaos_in_multiplayer.Packet.Copy.{of_buffer_whole}
use chaos_in_multiplayer.Receiving.{IsDeliverable, IsInbox, IsQuiet, Receives, IsRound}
use chaos_in_multiplayer.Receiving.Rounds.{
  Delivered-trans, Delivered-receive, Delivered-call, at_call, after_release,
}
use chaos_in_multiplayer.Server.{Server}
use chaos_in_multiplayer.Server.Packets.{process_pending_packet, handle_received, packet_round}
use chaos_in_multiplayer.Server.Packets.Delivery.{Setting, IsServing}

module _ {Env : Type 0} (p : Platform Env) (packet_code : ℕ → ℕ → Packet → Action Server Env Unit)
    (c : Setting) (inbox : Env → List Message)
    (receives : IsInbox p (p.receive_on_poll_group c.group) inbox)
    (quiet : IsQuiet inbox (IsServing c) (packet_code c.callable)) where
  -- The world when the callback is called, and when it has returned.
  abbrev at_code : Message → World Server Env → World Server Env
  at_code = at_call p (p.receive_on_poll_group c.group) inbox (IsServing c) receives c.callable

  abbrev after_code : Message → World Server Env → World Server Env
  after_code m w = (packet_code c.callable m.conn (record { packet = m.bytes }) (at_code m w)).1

  abbrev given_back : Message → World Server Env → World Server Env
  given_back = after_release p (p.receive_on_poll_group c.group) inbox (IsServing c) receives

  handle_received-eq :
      (received : Received) (m : Message) (w : World Server Env)
      → received.count ≡ pos 1
      → received.message ≡ some m
      → IsServing c w.object
      → IsDeliverable c.known m
      → handle_received p packet_code received w ≡ (ok true, given_back m (after_code m w))
  unfolding handle_received process_pending_packet
  handle_received-eq received m w one got s d =
      let registered = s.knows m.conn ∙ d.from in
      let copied : of_buffer m.bytes (to_size_t m.size) ≡ ok (record { packet = m.bytes }) =
        rw d.sized (of_buffer_whole m.bytes d.fits) in
      let returned = quiet.returns m.conn (record { packet = m.bytes }) (at_code m w) s in
      ground (arith, registered, copied, returned, s.calls)

  handle_received-nothing :
      (received : Received) (w : World Server Env)
      → received.count ≡ pos 0
      → handle_received p packet_code received w ≡ (ok false, w)
  unfolding handle_received
  handle_received-nothing received w e = rw e

  -- The world after the call that receives.
  abbrev after_receiving : World Server Env → World Server Env
  after_receiving w = record w {
    env = (p.receive_on_poll_group c.group w.env).1;
    trace = w.trace ++ Event.receive_on_poll_group c.group ∷ [];
  }

  packet_round-eq :
      (w : World Server Env)
      → IsServing c w.object
      → packet_round p packet_code w
        ≡ handle_received p packet_code
            (p.receive_on_poll_group c.group w.env).0
            (after_receiving w)
  unfolding packet_round
  packet_round-eq w s = rw s.polls

  packet_round-first :
      (m : Message) (ms : List Message) (w : World Server Env)
      → inbox w.env ≡ m ∷ ms
      → IsServing c w.object
      → IsDeliverable c.known m
      → Receives inbox (IsServing c) true w true (m ∷ []) ms (packet_round p packet_code w)
  packet_round-first m ms w e s d =
      let (one, got, left) = receives.first w.env m ms e in
      let w₁ = after_receiving w in
      let q = quiet.quiet m.conn (record { packet = m.bytes }) (at_code m w₁) s in
      subst (Receives inbox (IsServing c) true w true (m ∷ []) ms)
        (sym (packet_round-eq w s ∙ handle_received-eq _ m w₁ one got s d))
        (
          refl,
          Delivered-trans inbox (IsServing c) true w w₁ _ [] (m ∷ []) ms ms
              (Delivered-receive inbox (IsServing c) true (Event.receive_on_poll_group c.group) _ w
                ms refl refl left s)
              (Delivered-call p _ inbox (IsServing c) receives c.callable m w₁ (after_code m w₁) ms
                left q),
        )

  packet_round-nothing :
      (w : World Server Env)
      → inbox w.env ≡ []
      → IsServing c w.object
      → Receives inbox (IsServing c) true w false [] [] (packet_round p packet_code w)
  packet_round-nothing w e s =
      let (zero_received, left) = receives.nothing w.env e in
      subst (Receives inbox (IsServing c) true w false [] [])
        (sym (packet_round-eq w s ∙ handle_received-nothing _ (after_receiving w) zero_received))
        (
          refl,
          Delivered-receive inbox (IsServing c) true (Event.receive_on_poll_group c.group) _ w []
              refl refl left s,
        )

  pub packet_round-IsRound :
      IsRound inbox (IsServing c) true (IsDeliverable c.known) (packet_round p packet_code)
  packet_round-IsRound = record { first = packet_round-first; nothing = packet_round-nothing }
