-- ===== src/ExampleServer/Callbacks.antt =====
-- Examples/ExampleServer/ExampleServer.cpp: `packetCallback` and `connectionStatusChangeCallback`.
use chaos_in_multiplayer.Base.{
  ℕ, zero, suc, ◌+◌, ◌%◌, Bool, true, false, not, Option, none, some, List, [], ◌∷◌, ◌++◌, Text,
  codes, if◌then◌else◌,
}
use chaos_in_multiplayer.Status.{ConnectionStatus, ConnectionStatusChange}
use chaos_in_multiplayer.Platform.{Platform, Event, text}
use chaos_in_multiplayer.Program.{
  undefined, ok, Action, ◌>>=◌, ◌>>◌, gets, require, note, modify, assert, skip, when, if_set, stop,
}
use chaos_in_multiplayer.Packet.{Packet, packet_of, bytes}
use chaos_in_multiplayer.ClientConnection.{set_alias, accept, set_poll_group}
use chaos_in_multiplayer.Server.{Server, connection_exists}
use chaos_in_multiplayer.Server.Clients.{
  client_connection, at_client, create_client_connection, close_client_connection,
}
use chaos_in_multiplayer.Server.Sending.{
  send_reliable_packet, send_reliable_packet_to_all_connected_clients_except,
}
use chaos_in_multiplayer.Server.Opening.{decimal_from}

-- What `{}` writes for a `const char*`: the bytes before the first NUL. With no NUL the bytes after
-- the buffer would be read.
unfoldable pub c_string : List ℕ → Option Text
c_string [] = none
c_string (zero ∷ bs) = some []
c_string (suc b ∷ bs) = elim (c_string bs) [ none ↦ none | some t ↦ some (suc b ∷ t) ]

-- `std::format("BraveWarrior{}", 10000 + (n % 100000))`, for a draw `n`.
unfoldable pub nick_of : ℕ → Text
nick_of n = let m = 10000 + n % 100000 in codes "BraveWarrior" ++ decimal_from (suc m) m []

module _ {Env : Type 0} where
  unfoldable pub packet_callback : ℕ → Packet → Action Server Env Unit
  packet_callback connection packet =
      if_set (c_string (bytes packet)) (stop undefined)
        (λ t. note (Event.log (text (codes "Received: " ++ t))))

-- `rand` is the function of the C library, with the state that it keeps.
module _ {Env : Type 0} (p : Platform Env) (rand : Env → ℕ × Env) where
  unfoldable pub draw : Action Server Env ℕ
  draw w = let (n, env') = rand w.env in (ok n, record w { env = env' })

  -- The case of a connected client that leaves.
  unfoldable pub announce_leaving : ℕ → Action Server Env Unit
  announce_leaving k = do
    client ← client_connection k
    let message = client.connection_alias ++ codes " has disconnected."
    packet ← packet_of message
    note (Event.log (text message))
    send_reliable_packet_to_all_connected_clients_except p packet client

  abbrev pub is_connected : ConnectionStatus → Bool
  is_connected status = elim status [ ConnectionStatus.connected ↦ true | _ ↦ false ]

  -- `CLOSED_BY_PEER` and `PROBLEM_DETECTED_LOCALLY`.
  unfoldable pub on_closed : ConnectionStatusChange → Action Server Env Unit
  on_closed change = do
    registered ← gets (connection_exists change.connection)
    assert registered
    client_connection change.connection
    when (is_connected change.old_status) (announce_leaving change.connection)
    close_client_connection p change.connection

  unfoldable pub give_up : ℕ → Text → Action Server Env Unit
  give_up k message = do close_client_connection p k; note (Event.log (text message))

  -- After the client was accepted and has its poll group.
  unfoldable pub welcome : ℕ → Text → Action Server Env Unit
  welcome k nick = do
    welcome_packet ← packet_of (codes "Hello " ++ nick ++ codes "!")
    client ← client_connection k
    send_reliable_packet p welcome_packet client
    let notification = nick ++ codes " joined the server!"
    note (Event.log (text notification))
    notification_packet ← packet_of notification
    client' ← client_connection k
    send_reliable_packet_to_all_connected_clients_except p notification_packet client'

  unfoldable pub join_group : ℕ → Text → ℕ → Action Server Env Unit
  join_group k nick group = do
    moved ← at_client k (set_poll_group p group)
    if moved then welcome k nick else give_up k (codes "Failed to set poll group?")

  unfoldable pub on_accepted : ℕ → Text → Action Server Env Unit
  on_accepted k nick = do
    poll_group ← gets (λ s. s.poll_group)
    group ← require undefined poll_group
    join_group k nick group

  -- Of a client that has its alias.
  unfoldable pub let_in : ℕ → Text → Action Server Env Unit
  let_in k nick = do
    accepted ← at_client k (accept p)
    if accepted
        then on_accepted k nick
        else give_up k (codes "Can't accept connection. (It was already closed?)")

  -- `CONNECTING`.
  unfoldable pub on_connecting : ConnectionStatusChange → Action Server Env Unit
  on_connecting change = do
    registered ← gets (connection_exists change.connection)
    assert (not registered)
    n ← draw
    k ← create_client_connection change.connection
    at_client k (modify (set_alias (nick_of n)))
    let_in k (nick_of n)

  unfoldable pub on_status : ConnectionStatus → ConnectionStatusChange → Action Server Env Unit
  on_status ConnectionStatus.closed_by_peer change = on_closed change
  on_status ConnectionStatus.problem_detected_locally change = on_closed change
  on_status ConnectionStatus.connecting change = on_connecting change
  on_status ConnectionStatus.connected change = skip
  on_status ConnectionStatus.finding_route change = skip
  on_status ConnectionStatus.none change = skip

  unfoldable pub connection_status_change_callback : ConnectionStatusChange → Action Server Env Unit
  connection_status_change_callback change = on_status change.current_status change
