-- ===== src/ExampleServer/Keeping.antt =====
-- What the callbacks of the example server keep true of a server.
use chaos_in_multiplayer.Base.{ℕ, Option, some, Text, Option-cases, inl, inr}
use chaos_in_multiplayer.Status.{ConnectionStatus, ConnectionStatusChange}
use chaos_in_multiplayer.Platform.{Platform}
use chaos_in_multiplayer.Program.{modify}
use chaos_in_multiplayer.Program.Keeps.{Keeps, keeps_rules, Keeps-skip}
use chaos_in_multiplayer.Packet.{Packet, packet_of}
use chaos_in_multiplayer.UnorderedMap.{lookup}
use chaos_in_multiplayer.ClientConnection.{ClientConnection, set_alias, accept, set_poll_group}
use chaos_in_multiplayer.Server.{Server}
use chaos_in_multiplayer.Server.Clients.{
  client_connection, at_client, create_client_connection, close_client_connection,
}
use chaos_in_multiplayer.Server.Sending.{
  send_to, send_packet_to_all_connected_clients_impl, send_reliable_packet,
  send_reliable_packet_to_all_connected_clients_except,
}
use chaos_in_multiplayer.ExampleServer.Callbacks.{
  packet_callback, draw, announce_leaving, on_closed, give_up, welcome, on_accepted, join_group,
  let_in, on_connecting, on_status, connection_status_change_callback,
}

-- The calls of the server that the callbacks make, each of which keeps `P`.
pub record IsKept {Env : Type 0} (p : Platform Env) (P : Server → Type 0) : Type 0 where
  pub creates : (k : ℕ) → Keeps {Env = Env} P (create_client_connection k)
  pub closes_client : (k : ℕ) → Keeps P (close_client_connection p k)
  pub names : (k : ℕ) (t : Text) → Keeps {Env = Env} P (at_client k (modify (set_alias t)))
  pub accepts : (k : ℕ) → Keeps P (at_client k (accept p))
  pub sets_poll_group : (k g : ℕ) → Keeps P (at_client k (set_poll_group p g))
  pub sends : (q : Packet) (t : ℕ) (c : ClientConnection) → Keeps P (send_to p q t c)
  pub broadcasts :
      (q : Packet) (t : ℕ) (except : Option ClientConnection)
      → Keeps P (send_packet_to_all_connected_clients_impl p q t except)

module _ {Env : Type 0} (P : Server → Type 0) where
  client_connection-Keeps : (k : ℕ) → Keeps {Env = Env} P (client_connection k)
  unfolding client_connection
  client_connection-Keeps k = record {
    at = λ w f. elim (Option-cases (lookup k w.object.connections)) [
      | inl n ↦ rw n f
      | inr (c, e) ↦ rw e f
    ];
  }

  packet_of-Keeps : (t : Text) → Keeps {Env = Env} P (packet_of t)
  unfolding packet_of
  packet_of-Keeps t = search keeps_rules

  pub packet_callback-Keeps : (k : ℕ) (q : Packet) → Keeps {Env = Env} P (packet_callback k q)
  unfolding packet_callback
  packet_callback-Keeps k q = search keeps_rules depth 12

module _ {Env : Type 0} (p : Platform Env) (rand : Env → ℕ × Env) (P : Server → Type 0)
    (kept : IsKept p P) where
  draw-Keeps : Keeps P (draw p rand)
  unfolding draw
  draw-Keeps = record { at = λ w f. f }

  looks_up : (k : ℕ) → Keeps {Env = Env} P (client_connection k)
  looks_up = client_connection-Keeps P

  makes_packet : (t : Text) → Keeps {Env = Env} P (packet_of t)
  makes_packet = packet_of-Keeps P

  closes : (k : ℕ) → Keeps P (close_client_connection p k)
  closes = kept.closes_client

  creates : (k : ℕ) → Keeps {Env = Env} P (create_client_connection k)
  creates = kept.creates

  ruleset callback_rules = (keeps_rules, looks_up, makes_packet, closes, creates)

  send_reliable-Keeps : (q : Packet) (c : _) → Keeps P (send_reliable_packet p q c)
  unfolding send_reliable_packet
  send_reliable-Keeps q c = kept.sends q p.send_reliable c

  send_except-Keeps :
      (q : Packet) (c : _) → Keeps P (send_reliable_packet_to_all_connected_clients_except p q c)
  unfolding send_reliable_packet_to_all_connected_clients_except
  send_except-Keeps q c = kept.broadcasts q p.send_reliable (some c)

  announce_leaving-Keeps : (k : ℕ) → Keeps P (announce_leaving p rand k)
  unfolding announce_leaving
  announce_leaving-Keeps k = search (callback_rules, send_except-Keeps) depth 12

  on_closed-Keeps : (c : ConnectionStatusChange) → Keeps P (on_closed p rand c)
  unfolding on_closed
  on_closed-Keeps c = search (callback_rules, announce_leaving-Keeps) depth 12

  give_up-Keeps : (k : ℕ) (t : Text) → Keeps P (give_up p rand k t)
  unfolding give_up
  give_up-Keeps k t = search callback_rules depth 12

  welcome-Keeps : (k : ℕ) (t : Text) → Keeps P (welcome p rand k t)
  unfolding welcome
  welcome-Keeps k t = search (callback_rules, send_except-Keeps, send_reliable-Keeps) depth 15

  set_alias-Keeps : (k : ℕ) (t : Text) → Keeps {Env = Env} P (at_client k (modify (set_alias t)))
  set_alias-Keeps = kept.names

  accept-Keeps : (k : ℕ) → Keeps P (at_client k (accept p))
  accept-Keeps = kept.accepts

  set_poll_group-Keeps : (k g : ℕ) → Keeps P (at_client k (set_poll_group p g))
  set_poll_group-Keeps = kept.sets_poll_group

  join_group-Keeps : (k : ℕ) (t : Text) (g : ℕ) → Keeps P (join_group p rand k t g)
  unfolding join_group
  join_group-Keeps k t g =
      search (callback_rules, set_poll_group-Keeps, welcome-Keeps, give_up-Keeps) depth 12

  on_accepted-Keeps : (k : ℕ) (t : Text) → Keeps P (on_accepted p rand k t)
  unfolding on_accepted
  on_accepted-Keeps k t = search (callback_rules, join_group-Keeps) depth 12

  let_in-Keeps : (k : ℕ) (t : Text) → Keeps P (let_in p rand k t)
  unfolding let_in
  let_in-Keeps k t =
      search (callback_rules, accept-Keeps, on_accepted-Keeps, give_up-Keeps) depth 12

  on_connecting-Keeps : (c : ConnectionStatusChange) → Keeps P (on_connecting p rand c)
  unfolding on_connecting
  on_connecting-Keeps c =
      search (callback_rules, draw-Keeps, set_alias-Keeps, let_in-Keeps) depth 15

  on_status-Keeps :
      (s : ConnectionStatus) (c : ConnectionStatusChange) → Keeps P (on_status p rand s c)
  unfolding on_status
  on_status-Keeps ConnectionStatus.closed_by_peer c = on_closed-Keeps c
  on_status-Keeps ConnectionStatus.problem_detected_locally c = on_closed-Keeps c
  on_status-Keeps ConnectionStatus.connecting c = on_connecting-Keeps c
  on_status-Keeps ConnectionStatus.connected c = Keeps-skip
  on_status-Keeps ConnectionStatus.finding_route c = Keeps-skip
  on_status-Keeps ConnectionStatus.none c = Keeps-skip

  pub status_callback-Keeps :
      (c : ConnectionStatusChange) → Keeps P (connection_status_change_callback p rand c)
  unfolding connection_status_change_callback
  status_callback-Keeps c = on_status-Keeps c.current_status c
