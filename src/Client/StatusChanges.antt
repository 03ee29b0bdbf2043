-- ===== src/Client/StatusChanges.antt =====
-- Client.cpp: `processConnectionStateChanges` and the callback that it makes the platform call, and
-- `updateConnection`; Client.h: `CONNECTION_STATUS_MAPPINGS`.
pub mod Reporting
pub mod Ending
use chaos_in_multiplayer.Base.{ℕ, true, [], ◌∷◌, if◌then◌else◌}
use chaos_in_multiplayer.Status.{ConnectionStatus, ConnectionStatusChange}
use chaos_in_multiplayer.Platform.{Platform, Event, StatusInfo, no_callback_for_status_change}
use chaos_in_multiplayer.Program.{
  out_of_range, exit, undefined, Action, ◌>>=◌, ◌>>◌, stop, gets, call, require, note, modify,
  for_each, if_set,
}
use chaos_in_multiplayer.Packet.{Packet}
use chaos_in_multiplayer.UnorderedMap.{UnorderedMap, lookup}
use chaos_in_multiplayer.Client.{Client}
use chaos_in_multiplayer.Client.Packets.{process_received_packets}

module _ {Env : Type 0} (p : Platform Env) where
  unfoldable pub connection_status_mappings : UnorderedMap ConnectionStatus
  connection_status_mappings =
      (p.state_none, ConnectionStatus.none)
      ∷ (p.state_closed_by_peer, ConnectionStatus.closed_by_peer)
      ∷ (p.state_problem_detected_locally, ConnectionStatus.problem_detected_locally)
      ∷ (p.state_connecting, ConnectionStatus.connecting)
      ∷ (p.state_connected, ConnectionStatus.connected)
      ∷ []

module _ {Env : Type 0} (p : Platform Env)
    (status_code : ℕ → ConnectionStatusChange → Action Client Env Unit) where
  unfoldable pub report_status_change : StatusInfo → ℕ → Action Client Env Unit
  report_status_change info f = do
    old ← require out_of_range (lookup info.old_state (connection_status_mappings p))
    current ← require out_of_range (lookup info.state (connection_status_mappings p))
    let change : ConnectionStatusChange = record {
      connection = info.conn;
      old_status = old;
      current_status = current;
    }
    note (Event.call_status_callback f change)
    status_code f change

  unfoldable pub on_connection_status_changed : StatusInfo → Action Client Env Unit
  on_connection_status_changed info = do
    callback ← gets (λ c. c.connection_status_change_callback)
    if_set callback (note (Event.log no_callback_for_status_change) >> stop (exit 1))
        (report_status_change info)

  unfoldable pub connection_status_changed_callback : StatusInfo → Action Client Env Unit
  connection_status_changed_callback info = do
    set ← gets (λ c. c.client_instance)
    if set then on_connection_status_changed info else stop undefined

  unfoldable pub run_callbacks : Action Client Env Unit
  run_callbacks = do
    changes ← call Event.run_callbacks p.run_callbacks
    for_each changes connection_status_changed_callback

  unfoldable pub process_connection_state_changes : Action Client Env Unit
  process_connection_state_changes = do
    modify (λ c. record c { client_instance = true })
    set ← gets (λ c. c.networking_interface)
    if set then run_callbacks else stop undefined

module _ {Env : Type 0} (p : Platform Env) (packet_code : ℕ → ℕ → Packet → Action Client Env Unit)
    (status_code : ℕ → ConnectionStatusChange → Action Client Env Unit) where
  unfoldable pub update_connection : Action Client Env Unit
  update_connection = do
    process_received_packets p packet_code
    process_connection_state_changes p status_code
