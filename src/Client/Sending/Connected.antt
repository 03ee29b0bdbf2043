-- ===== src/Client/Sending/Connected.antt =====
-- What the sending methods of a client do in every state.
use chaos_in_multiplayer.Base.{◌≡◌, ℕ, some, [], ◌∷◌, ◌++◌, ◌==◌, if◌then◌else◌, arith}
use chaos_in_multiplayer.Platform.{Platform, Event}
use chaos_in_multiplayer.Program.{assertion, Outcome, ok, fault, World}
use chaos_in_multiplayer.Packet.{Packet, bytes, size}
use chaos_in_multiplayer.Server.Sending.{to_uint32}
use chaos_in_multiplayer.Client.{Client, connection, connected}
use chaos_in_multiplayer.Client.Sending.{send_data_to_server, send_packet}

module _ {Env : Type 0} (p : Platform Env) where
  -- A send, for the state that the platform gave for the connection.
  abbrev pub after_send :
      ℕ → Packet → ℕ → World Client Env → ℕ × Env → Outcome Unit × World Client Env
  after_send h packet t w (state, env) =
      let asked = w.trace ++ Event.connection_state h ∷ [] in
      let n = to_uint32 (size packet) in
      if state == p.state_connected
      then (
        ok tt,
        record w {
          env = p.send_message h (bytes packet) n t env;
          trace = asked ++ Event.send_message h (bytes packet) n t ∷ [];
        },
      )
      else (fault assertion, record w { env = env; trace = asked })

  -- A send of a client that has a connection asks the platform for its state, once. If that is the
  -- connected state, it sends the packet once, by that handle and with the given flags, and returns;
  -- in any other state the assertion fails and nothing is sent.
  pub send_packet_lem :
      (h t : ℕ) (packet : Packet) (w : World Client Env)
      → w.object.server_connection ≡ some h
      → send_packet p packet t w ≡ after_send h packet t w (p.connection_state h w.env)
  unfolding send_packet connected connection send_data_to_server
  send_packet_lem h t packet w e = ground arith
