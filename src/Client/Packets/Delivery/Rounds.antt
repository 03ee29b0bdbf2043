-- ===== src/Client/Packets/Delivery/Rounds.antt =====
-- What one round of the loop delivers.
use chaos_in_multiplayer.Base.{
  ℕ, pos, to_size_t, ◌≡◌, refl, sym, ◌∙◌, true, false, Option, none, some, List, [], ◌∷◌, ◌++◌,
  subst, arith,
}
use chaos_in_multiplayer.Platform.{Platform, Event, Message, Received}
use chaos_in_multiplayer.Program.{ok, World, Action}
use chaos_in_multiplayer.Packet.{Packet, of_buffer}
use chaos_in_multiplayer.Packet.Copy.{of_buffer_whole}
use chaos_in_multiplayer.Receiving.{IsDeliverable, IsInbox, IsQuiet, Delivered, Receives, IsRound}
use chaos_in_multiplayer.Receiving.Rounds.{
  Delivered-trans, Delivered-receive, Delivered-call, Delivered-drop, at_call, after_release,
}
use chaos_in_multiplayer.Client.{Client, connection}
use chaos_in_multiplayer.Client.Packets.{
  call_packet_callback, process_pending_packet, handle_received, packet_round,
}
use chaos_in_multiplayer.Client.Packets.Delivery.{Setting, IsServing, is_told, anybody}

module _ {Env : Type 0} (p : Platform Env) (packet_code : ℕ → ℕ → Packet → Action Client Env Unit)
    (c : Setting) (inbox : Env → List Message)
    (receives : IsInbox p (p.receive_on_connection c.connection) inbox)
    (quiet : (f : ℕ) → c.callable ≡ some f → IsQuiet inbox (IsServing c) (packet_code f)) where
  abbrev at_code : ℕ → Message → World Client Env → World Client Env
  at_code = at_call p (p.receive_on_connection c.connection) inbox (IsServing c) receives

  -- When the callable has returned, if there is one.
  abbrev after_code : Option ℕ → Message → World Client Env → World Client Env
  after_code none m w = w
  after_code (some f) m w = (packet_code f m.conn (record { packet = m.bytes }) (at_code f m w)).1

  abbrev given_back : Message → World Client Env → World Client Env
  given_back = after_release p (p.receive_on_connection c.connection) inbox (IsServing c) receives

  process_pending_packet-eq :
      (callable : Option ℕ) (m : Message) (w : World Client Env)
      → c.callable ≡ callable
      → IsServing c w.object
      → IsDeliverable anybody m
      → process_pending_packet p packet_code m w ≡ (ok tt, after_code callable m w)
  unfolding process_pending_packet call_packet_callback
  process_pending_packet-eq none m w e s d = let none_set = s.calls ∙ e in ground arith
  process_pending_packet-eq (some f) m w e s d =
      let copied : of_buffer m.bytes (to_size_t m.size) ≡ ok (record { packet = m.bytes }) =
        rw d.sized (of_buffer_whole m.bytes d.fits) in
      let set = s.calls ∙ e in
      let returned = (quiet f e).returns m.conn (record { packet = m.bytes }) (at_code f m w) s in
      ground (arith, copied, returned, set)

  handle_received-eq :
      (received : Received) (m : Message) (w : World Client Env)
      → received.count ≡ pos 1
      → received.message ≡ some m
      → IsServing c w.object
      → IsDeliverable anybody m
      → handle_received p packet_code received w
        ≡ (ok true, given_back m (after_code c.callable m w))
  unfolding handle_received
  handle_received-eq received m w one got s d =
      let processed = process_pending_packet-eq c.callable m w refl s d in ground (arith, processed)

  handle_received-nothing :
      (received : Received) (w : World Client Env)
      → received.count ≡ pos 0
      → handle_received p packet_code received w ≡ (ok false, w)
  unfolding handle_received
  handle_received-nothing received w e = rw e

  -- The world after the call that receives.
  abbrev after_receiving : World Client Env → World Client Env
  after_receiving w = record w {
    env = (p.receive_on_connection c.connection w.env).1;
    trace = w.trace ++ Event.receive_on_connection c.connection ∷ [];
  }

  packet_round-eq :
      (w : World Client Env)
      → IsServing c w.object
      → packet_round p packet_code w
        ≡ handle_received p packet_code
            (p.receive_on_connection c.connection w.env).0
            (after_receiving w)
  unfolding packet_round connection
  packet_round-eq w s = rw s.connects

  given_back-Delivered :
      (callable : Option ℕ) (m : Message) (w : World Client Env) (rest : List Message)
      → c.callable ≡ callable
      → inbox w.env ≡ rest
      → IsServing c w.object
      → Delivered inbox
          (IsServing c)
          (is_told callable)
          w
          (given_back m (after_code callable m w))
          (m ∷ [])
          rest
  given_back-Delivered none m w rest e waits s =
      Delivered-drop p _ inbox (IsServing c) receives m w rest waits s
  given_back-Delivered (some f) m w rest e waits s =
      let q = (quiet f e).quiet m.conn (record { packet = m.bytes }) (at_code f m w) s in
      Delivered-call p _ inbox (IsServing c) receives f m w (after_code (some f) m w) rest waits q

  packet_round-first :
      (m : Message) (ms : List Message) (w : World Client Env)
      → inbox w.env ≡ m ∷ ms
      → IsServing c w.object
      → IsDeliverable anybody m
      → Receives inbox
          (IsServing c)
          (is_told c.callable)
          w
          true
          (m ∷ [])
          ms
          (packet_round p packet_code w)
  packet_round-first m ms w e s d =
      let told = is_told c.callable in
      let (one, got, left) = receives.first w.env m ms e in
      let w₁ = after_receiving w in
      subst (Receives inbox (IsServing c) told w true (m ∷ []) ms)
        (sym (packet_round-eq w s ∙ handle_received-eq _ m w₁ one got s d))
        (
          refl,
          Delivered-trans inbox (IsServing c) told w w₁ _ [] (m ∷ []) ms ms
              (Delivered-receive inbox (IsServing c) told (Event.receive_on_connection c.connection)
                _ w ms refl refl left s)
              (given_back-Delivered c.callable m w₁ ms refl left s),
        )

  packet_round-nothing :
      (w : World Client Env)
      → inbox w.env ≡ []
      → IsServing c w.object
      → Receives inbox
          (IsServing c)
          (is_told c.callable)
          w
          false
          []
          []
          (packet_round p packet_code w)
  packet_round-nothing w e s =
      let told = is_told c.callable in
      let (zero_received, left) = receives.nothing w.env e in
      subst (Receives inbox (IsServing c) told w false [] [])
        (sym (packet_round-eq w s ∙ handle_received-nothing _ (after_receiving w) zero_received))
        (
          refl,
          Delivered-receive inbox (IsServing c) told (Event.receive_on_connection c.connection) _ w
              [] refl refl left s,
        )

  pub packet_round-IsRound :
      IsRound inbox
        (IsServing c)
        (is_told c.callable)
        (IsDeliverable anybody)
        (packet_round p packet_code)
  packet_round-IsRound = record { first = packet_round-first; nothing = packet_round-nothing }
