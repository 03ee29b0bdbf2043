-- ===== src/ExampleServer/Handshake.antt =====
-- What happens when a client asks to be let in.
use chaos_in_multiplayer.Base.{
  ℕ, suc, ◌+◌, ◌%◌, ◌^◌, ◌≤◌, ◌<◌, ◌≡◌, refl, ◌∙◌, Bool, false, none, some, [], ◌∷◌, ◌++◌, arith,
  ◌==◌, if◌then◌else◌, Text, codes, length, length-append, Bool-cases, inl, inr,
}
use chaos_in_multiplayer.Status.{ConnectionState, ConnectionStatusChange}
use chaos_in_multiplayer.Platform.{Platform, Event, text}
use chaos_in_multiplayer.Program.{ok, World, modify}
use chaos_in_multiplayer.Packet.{Packet, max_size, size}
use chaos_in_multiplayer.Packet.Copy.{packet_of-eq}
use chaos_in_multiplayer.UnorderedMap.{UnorderedMap, lookup, contains}
use chaos_in_multiplayer.UnorderedMap.Laws.{lookup-front, erase-front}
use chaos_in_multiplayer.ClientConnection.{
  ClientConnection, of_handle, set_alias, accept, set_poll_group,
}
use chaos_in_multiplayer.Server.{Server}
use chaos_in_multiplayer.Server.Clients.Registry.{close_client_connection_lem}
use chaos_in_multiplayer.Server.Opening.Handles.{length-decimal_from}
use chaos_in_multiplayer.Server.Sending.{
  to_uint32, send_to, send_reliable_packet, send_reliable_packet_to_all_connected_clients_except,
}
use chaos_in_multiplayer.Server.Sending.Broadcast.{
  recipients, after_sending, send_packet_to_all_lem,
}
use chaos_in_multiplayer.ExampleServer.Callbacks.{
  nick_of, draw, give_up, welcome, on_accepted, join_group, let_in, on_connecting,
}
use chaos_in_multiplayer.ExampleServer.Entries.{
  with_clients, create-front, at_client-front, client_connection-front,
}

abbrev pub greeting : Text → Packet
greeting nick = record { packet = codes "Hello " ++ nick ++ codes "!" }

abbrev pub notification : Text → Packet
notification nick = record { packet = nick ++ codes " joined the server!" }

greeting-fits :
    (nick : Text) → length nick + 20 ≤ max_size → length (greeting nick).packet ≤ max_size
greeting-fits nick h = omega (arith, length-append nick (codes "!"))

notification-fits :
    (nick : Text) → length nick + 20 ≤ max_size → length (notification nick).packet ≤ max_size
notification-fits nick h = omega (arith, length-append nick (codes " joined the server!"))

-- The world after an event, with its effect on the platform.
abbrev pub after : {Env : Type 0} → Event → (Env → Env) → World Server Env → World Server Env
after e f w = record w { env = f w.env; trace = w.trace ++ e ∷ [] }

module _ {Env : Type 0} (p : Platform Env) (rand : Env → ℕ × Env) where
  give_up-front :
      (k : ℕ) (message : Text) (c : ClientConnection) (m : UnorderedMap ClientConnection)
      (w : World Server Env)
      → c.net_connection ≡ k
      → give_up p rand k message (with_clients ((k, c) ∷ m) w) ≡ (
        ok tt,
        after
            (Event.log (text message))
            (λ env. env)
            (after
              (Event.close_connection k 0 false)
              (p.close_connection k 0 false)
              (with_clients m w)),
      )
  unfolding give_up
  give_up-front k message c m w e = rw (
    close_client_connection_lem p k (with_clients ((k, c) ∷ m) w),
    lookup-front k c m,
    erase-front k c m,
    e,
  )

  -- The greeting is sent, and what follows is logged.
  abbrev pub greeted : Text → ClientConnection → World Server Env → World Server Env
  greeted nick c w =
      let n = to_uint32 (size (greeting nick)) in
      let h = c.net_connection in
      after (Event.log (text (notification nick).packet)) (λ env. env)
        (after (Event.send_message h (greeting nick).packet n p.send_reliable)
          (p.send_message h (greeting nick).packet n p.send_reliable) w)

  -- What a client that is let in causes to be sent, and logged.
  abbrev pub welcomed :
      ℕ
      → Text
      → ClientConnection
      → UnorderedMap ClientConnection
      → World Server Env
      → World Server Env
  welcomed k nick c m w =
      after_sending p (notification nick) p.send_reliable (recipients (some c) ((k, c) ∷ m))
        (greeted nick c (with_clients ((k, c) ∷ m) w))

  welcome-front :
      (k : ℕ) (nick : Text) (c : ClientConnection) (m : UnorderedMap ClientConnection)
      (w : World Server Env)
      → length nick + 20 ≤ max_size
      → welcome p rand k nick (with_clients ((k, c) ∷ m) w) ≡ (ok tt, welcomed k nick c m w)
  unfolding welcome send_reliable_packet send_to
      send_reliable_packet_to_all_connected_clients_except
  welcome-front k nick c m w h =
      let greets =
        packet_of-eq (greeting nick).packet (with_clients ((k, c) ∷ m) w) (greeting-fits nick h) in
      let w' = greeted nick c (with_clients ((k, c) ∷ m) w) in
      let notifies = packet_of-eq (notification nick).packet w' (notification-fits nick h) in
      let again = client_connection-front k c m (greeted nick c w) in
      rw (greets, client_connection-front k c m w, notifies, again)
        (send_packet_to_all_lem p (notification nick) p.send_reliable (some c) w')

  -- A client that is sent away: its connection is closed, and the reason is logged.
  abbrev pub sent_away : ℕ → Text → World Server Env → World Server Env
  sent_away k message w =
      after (Event.log (text message)) (λ env. env)
        (after (Event.close_connection k 0 false) (p.close_connection k 0 false) w)

  -- The entry of a client that is let in.
  abbrev pub admitted : ℕ → ℕ → Text → ClientConnection
  admitted k group nick = record {
    net_connection = k;
    poll_group = some group;
    connection_alias = nick;
    connection_state = ConnectionState.connected;
  }

  -- After the platform has answered.
  abbrev pub answered : ℕ → World Server Env → Env → World Server Env
  answered k w env = record w { env = env; trace = w.trace ++ Event.accept_connection k ∷ [] }

  abbrev pub polled : ℕ → ℕ → World Server Env → Env → World Server Env
  polled k group w env = record w {
    env = env;
    trace = w.trace ++ Event.set_connection_poll_group k group ∷ [];
  }

  -- What follows the platform's answer for the poll group, and before that for the acceptance.
  abbrev pub after_poll_group : ℕ → ℕ → Text → World Server Env → Bool × Env → World Server Env
  after_poll_group k group nick w (moved, env) =
      if moved
      then welcomed k nick (admitted k group nick) w.object.connections (polled k group w env)
      else sent_away k (codes "Failed to set poll group?") (polled k group w env)

  abbrev pub after_acceptance : ℕ → ℕ → Text → World Server Env → ℕ × Env → World Server Env
  after_acceptance k group nick w (result, env) =
      if result == p.result_ok
      then after_poll_group k group nick (answered k w env)
          (p.set_connection_poll_group k group env)
      else sent_away k (codes "Can't accept connection. (It was already closed?)")
          (answered k w env)

  abbrev pub after_draw : ℕ → ℕ → World Server Env → ℕ × Env → World Server Env
  after_draw k group w (n, env) =
      after_acceptance k group (nick_of n) (record w { env = env }) (p.accept_connection k env)

  abbrev accepted_client : ℕ → Text → ClientConnection
  accepted_client k nick = record (of_handle k) {
    connection_alias = nick;
    connection_state = ConnectionState.connected;
  }

  join_group-front :
      (k group : ℕ) (nick : Text) (w : World Server Env)
      → length nick + 20 ≤ max_size
      → join_group p rand k nick group
          (with_clients ((k, accepted_client k nick) ∷ w.object.connections) w)
        ≡ (ok tt, after_poll_group k group nick w (p.set_connection_poll_group k group w.env))
  unfolding join_group set_poll_group of_handle
  join_group-front k group nick w h =
      let m = w.object.connections in
      let front = at_client-front k (accepted_client k nick) m (set_poll_group p group) w in
      elim (Bool-cases (p.set_connection_poll_group k group w.env).0) [
        | inl moved ↦
            rw (front, moved)
              (welcome-front k nick (admitted k group nick) m
                (polled k group w (p.set_connection_poll_group k group w.env).1) h)
        | inr stuck ↦
            rw (front, stuck)
              (give_up-front k _ (accepted_client k nick) m
                (polled k group w (p.set_connection_poll_group k group w.env).1) refl)
      ]

  on_accepted-eq :
      (k group : ℕ) (nick : Text) (w : World Server Env)
      → w.object.poll_group ≡ some group
      → on_accepted p rand k nick w ≡ join_group p rand k nick group w
  unfolding on_accepted
  on_accepted-eq k group nick w g = ground arith

  pub length-nick_of : (n : ℕ) → length (nick_of n) + 20 < 2 ^ 32
  unfolding nick_of
  length-nick_of n = let m = 10000 + n % 100000 in omega (arith, length-decimal_from (suc m) m [])

  nick_of-fits : (n : ℕ) → length (nick_of n) + 20 ≤ max_size
  unfolding max_size
  nick_of-fits n = omega (arith, length-nick_of n)

  -- After the new entry has its alias.
  abbrev named_client : ℕ → Text → ClientConnection
  named_client k nick = record (of_handle k) { connection_alias = nick }

  let_in-front :
      (k group : ℕ) (nick : Text) (w : World Server Env)
      → w.object.poll_group ≡ some group
      → length nick + 20 ≤ max_size
      → let_in p rand k nick (with_clients ((k, named_client k nick) ∷ w.object.connections) w)
        ≡ (ok tt, after_acceptance k group nick w (p.accept_connection k w.env))
  unfolding let_in accept of_handle
  let_in-front k group nick w g h =
      let m = w.object.connections in
      let front = at_client-front k (named_client k nick) m (accept p) w in
      let w' = answered k w (p.accept_connection k w.env).1 in
      elim (Bool-cases ((p.accept_connection k w.env).0 == p.result_ok)) [
        | inl accepted ↦
            rw (front, accepted)
              (on_accepted-eq k group nick (with_clients ((k, accepted_client k nick) ∷ m) w') g
                ∙ join_group-front k group nick w' h)
        | inr refused ↦ rw (front, refused) (give_up-front k _ (named_client k nick) m w' refl)
      ]

  -- The answer to a new client.
  pub on_connecting-eq :
      (c : ConnectionStatusChange) (group : ℕ) (w : World Server Env)
      → lookup c.connection w.object.connections ≡ none
      → w.object.poll_group ≡ some group
      → on_connecting p rand c w ≡ (ok tt, after_draw c.connection group w (rand w.env))
  unfolding on_connecting draw
  on_connecting-eq c group w e g =
      let k = c.connection in
      let nick = nick_of (rand w.env).0 in
      let w' = record w { env = (rand w.env).1 } in
      let absent : contains k w.object.connections ≡ false = ground arith in
      rw
        (
          absent,
          create-front k w' e,
          at_client-front k (of_handle k) w.object.connections (modify (set_alias nick)) w',
        )
        (let_in-front k group nick w' g (nick_of-fits (rand w.env).0))
