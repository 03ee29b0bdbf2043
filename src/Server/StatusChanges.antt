-- ===== src/Server/StatusChanges.antt =====
-- Server.cpp: `processConnectionStateChanges` and the callback that it makes the platform call;
-- Server.h: `CONNECTION_STATUS_MAPPINGS`.
pub mod Mapping
use chaos_in_multiplayer.Base.{
  ℕ, Bool, true, false, Option, none, some, List, [], ◌∷◌, if◌then◌else◌,
}
use chaos_in_multiplayer.Status.{ConnectionStatus, ConnectionStatusChange}
use chaos_in_multiplayer.Platform.{Platform, Event, StatusInfo, no_callback_for_status_change}
use chaos_in_multiplayer.Program.{
  out_of_range, exit, undefined, Action, ◌>>=◌, ◌>>◌, stop, gets, call, require, note, modify,
  for_each, if_set,
}
use chaos_in_multiplayer.UnorderedMap.{UnorderedMap, lookup}
use chaos_in_multiplayer.Server.{Server}

module _ {Env : Type 0} (p : Platform Env) where
  unfoldable pub connection_status_mappings : UnorderedMap ConnectionStatus
  connection_status_mappings =
      (p.state_none, ConnectionStatus.none)
      ∷ (p.state_closed_by_peer, ConnectionStatus.closed_by_peer)
      ∷ (p.state_problem_detected_locally, ConnectionStatus.problem_detected_locally)
      ∷ (p.state_connecting, ConnectionStatus.connecting)
      ∷ (p.state_connected, ConnectionStatus.connected)
      ∷ []

-- `status_code` is what the callables do.
module _ {Env : Type 0} (p : Platform Env)
    (status_code : ℕ → ConnectionStatusChange → Action Server Env Unit) where
  -- With the callable at hand.
  unfoldable pub report_status_change : ℕ → StatusInfo → Action Server Env Unit
  report_status_change f info = do
    old ← require out_of_range (lookup info.old_state (connection_status_mappings p))
    current ← require out_of_range (lookup info.state (connection_status_mappings p))
    let change : ConnectionStatusChange = record {
      connection = info.conn;
      old_status = old;
      current_status = current;
    }
    note (Event.call_status_callback f change)
    status_code f change

  unfoldable pub on_connection_status_changed : StatusInfo → Action Server Env Unit
  on_connection_status_changed info = do
    callback ← gets (λ s. s.connection_status_change_callback)
    if_set callback (note (Event.log no_callback_for_status_change) >> stop (exit 1))
        (λ f. report_status_change f info)

  -- The static function that the platform is given.
  unfoldable pub connection_status_changed_callback : StatusInfo → Action Server Env Unit
  connection_status_changed_callback info = do
    set ← gets (λ s. s.server_instance)
    if set then on_connection_status_changed info else stop undefined

  unfoldable pub process_connection_state_changes : Action Server Env Unit
  process_connection_state_changes = do
    modify (λ s. record s { server_instance = true })
    changes ← call Event.run_callbacks p.run_callbacks
    for_each changes connection_status_changed_callback
