-- ===== src/ExampleServer/Departure.antt =====
-- What happens when a client of the example server leaves.
use chaos_in_multiplayer.Base.{
  ℕ, ◌+◌, ◌≤◌, ◌≡◌, refl, ◌∙◌, Bool, true, false, none, some, [], ◌∷◌, ◌++◌, map, arith, ◌==◌,
  if◌then◌else◌, codes, length, length-append, Bool-cases, inl, inr, count_if, count_if-append,
}
use chaos_in_multiplayer.Status.{ConnectionStatusChange}
use chaos_in_multiplayer.Platform.{Platform, Event, text}
use chaos_in_multiplayer.Program.{ok, World}
use chaos_in_multiplayer.Packet.{Packet, max_size}
use chaos_in_multiplayer.Packet.Copy.{packet_of-eq}
use chaos_in_multiplayer.UnorderedMap.{lookup, contains, erase}
use chaos_in_multiplayer.UnorderedMap.Laws.{lookup-erase}
use chaos_in_multiplayer.ClientConnection.{ClientConnection}
use chaos_in_multiplayer.Server.{Server}
use chaos_in_multiplayer.Server.Clients.{client_connection}
use chaos_in_multiplayer.Server.Clients.Registry.{IsWellFormed, close_client_connection_lem}
use chaos_in_multiplayer.Server.Sending.{send_reliable_packet_to_all_connected_clients_except}
use chaos_in_multiplayer.Server.Sending.Broadcast.{
  recipients, send_event, after_sending, sends_to, is_recipient, send_packet_to_all_lem,
  count-recipients, count-silent,
}
use chaos_in_multiplayer.ExampleServer.Callbacks.{is_connected, announce_leaving, on_closed}
use chaos_in_multiplayer.ExampleServer.Handshake.{after}

abbrev pub farewell : ClientConnection → Packet
farewell c = record { packet = c.connection_alias ++ codes " has disconnected." }

farewell-fits :
    (c : ClientConnection)
    → length c.connection_alias + 18 ≤ max_size
    → length (farewell c).packet ≤ max_size
farewell-fits c h = omega (arith, length-append c.connection_alias (codes " has disconnected."))

client_connection-found :
    {Env : Type 0} (k : ℕ) (c : ClientConnection) (w : World Server Env)
    → lookup k w.object.connections ≡ some c
    → client_connection k w ≡ (ok c, w)
unfolding client_connection
client_connection-found k c w e = rw e

module _ {Env : Type 0} (p : Platform Env) (rand : Env → ℕ × Env) where
  abbrev announced : ClientConnection → World Server Env → World Server Env
  announced c w =
      after_sending p (farewell c) p.send_reliable (recipients (some c) w.object.connections)
        (after (Event.log (text (farewell c).packet)) (λ env. env) w)

  announce_leaving-eq :
      (k : ℕ) (c : ClientConnection) (w : World Server Env)
      → lookup k w.object.connections ≡ some c
      → length c.connection_alias + 18 ≤ max_size
      → announce_leaving p rand k w ≡ (ok tt, announced c w)
  unfolding announce_leaving send_reliable_packet_to_all_connected_clients_except
  announce_leaving-eq k c w e h =
      let w' = after (Event.log (text (farewell c).packet)) (λ env. env) w in
      rw (client_connection-found k c w e, packet_of-eq (farewell c).packet w (farewell-fits c h))
        (send_packet_to_all_lem p (farewell c) p.send_reliable (some c) w')

  -- The world when the client is about to be closed.
  abbrev told : Bool → ClientConnection → World Server Env → World Server Env
  told was_connected c w = if was_connected then announced c w else w

  abbrev departed : ℕ → ClientConnection → World Server Env → World Server Env
  departed k c w = record {
    object = record w.object { connections = erase k w.object.connections };
    env = p.close_connection c.net_connection 0 false w.env;
    trace = w.trace ++ Event.close_connection c.net_connection 0 false ∷ [];
  }

  on_closed-eq :
      (change : ConnectionStatusChange) (c : ClientConnection) (w : World Server Env)
      → lookup change.connection w.object.connections ≡ some c
      → length c.connection_alias + 18 ≤ max_size
      → on_closed p rand change w
        ≡ (ok tt, departed change.connection c (told (is_connected p rand change.old_status) c w))
  unfolding on_closed
  on_closed-eq change c w e h =
      let k = change.connection in
      let there : contains k w.object.connections ≡ true = ground arith in
      elim (Bool-cases (is_connected p rand change.old_status)) [
        | inl yes' ↦
            rw (there, client_connection-found k c w e, yes', announce_leaving-eq k c w e h)
              (close_client_connection_lem p k (announced c w) ∙ rw e)
        | inr no' ↦
            rw (there, client_connection-found k c w e, no')
              (close_client_connection_lem p k w ∙ rw e)
      ]

  count-told :
      (h : ℕ) (b : Bool) (c : ClientConnection) (w : World Server Env)
      → IsWellFormed w.object
      → count_if (sends_to h) (told b c w).trace
        ≡ count_if (sends_to h) w.trace
          + (if b
              then (if is_recipient (some c) h (lookup h w.object.connections) then 1 else 0)
              else 0)
  count-told h true c w f =
      let m = w.object.connections in
      let line = Event.log (text (farewell c).packet) in
      omega (
        arith,
        count_if-append (sends_to h) (w.trace ++ line ∷ [])
            (map (send_event (farewell c) p.send_reliable) (recipients (some c) m)),
        count-silent h line w.trace refl,
        count-recipients (farewell c) p.send_reliable h (some c) m f.distinct f.registered,
      )
  count-told h false c w f = omega arith

  told-object :
      (b : Bool) (c : ClientConnection) (w : World Server Env) → (told b c w).object ≡ w.object
  told-object true c w = refl
  told-object false c w = refl

  -- When a registered client of a well-formed server leaves, and its alias leaves room for the
  -- message in a vector, the callback returns. The client is no longer registered, every other entry
  -- is as before, and if it was connected each other connected client is sent one message; nobody else
  -- is sent anything.
  pub on_closed-announces :
      (change : ConnectionStatusChange) (c : ClientConnection) (h j : ℕ) (w : World Server Env)
      → IsWellFormed w.object
      → lookup change.connection w.object.connections ≡ some c
      → length c.connection_alias + 18 ≤ max_size
      → let (r, w') = on_closed p rand change w in
        (r ≡ ok tt)
        × (lookup j w'.object.connections
            ≡ (if j == change.connection then none else lookup j w.object.connections))
        × (count_if (sends_to h) w'.trace
            ≡ count_if (sends_to h) w.trace
              + (if is_connected p rand change.old_status
                  then (if is_recipient (some c) h (lookup h w.object.connections) then 1 else 0)
                  else 0))
  on_closed-announces change c h j w f e fits =
      let k = change.connection in
      let b = is_connected p rand change.old_status in
      let gone = Event.close_connection c.net_connection 0 false in
      rw (on_closed-eq change c w e fits) (
        refl,
        rw (told-object b c w) (lookup-erase j k w.object.connections f.distinct),
        count-silent h gone (told b c w).trace refl ∙ count-told h b c w f,
      )
