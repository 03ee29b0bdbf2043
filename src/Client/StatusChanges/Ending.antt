-- ===== src/Client/StatusChanges/Ending.antt =====
-- That an update of a client ends.
use chaos_in_multiplayer.Base.{ℕ, ◌≢◌}
use chaos_in_multiplayer.Status.{ConnectionStatusChange}
use chaos_in_multiplayer.Platform.{Platform, StatusInfo}
use chaos_in_multiplayer.Program.{unfinished, fault, World, Action}
use chaos_in_multiplayer.Program.Keeps.{Avoids, avoids_rules}
use chaos_in_multiplayer.Packet.{Packet}
use chaos_in_multiplayer.Server.Packets.Faults.{faults_rules}
use chaos_in_multiplayer.Client.{Client}
use chaos_in_multiplayer.Client.Packets.{process_received_packets}
use chaos_in_multiplayer.Client.Packets.Faults.{process_received_packets-ends}
use chaos_in_multiplayer.Client.StatusChanges.{
  report_status_change, on_connection_status_changed, connection_status_changed_callback,
  run_callbacks, process_connection_state_changes, update_connection,
}

module _ {Env : Type 0} (p : Platform Env) (packet_code : ℕ → ℕ → Packet → Action Client Env Unit)
    (status_code : ℕ → ConnectionStatusChange → Action Client Env Unit)
    (packets_end : (f k : ℕ) (q : Packet) (w : World Client Env)
      → (packet_code f k q w).0 ≢ fault unfinished)
    (changes_end : (f : ℕ) (c : ConnectionStatusChange) (w : World Client Env)
      → (status_code f c w).0 ≢ fault unfinished) where
  status_code-Avoids : (f : ℕ) (c : ConnectionStatusChange) → Avoids unfinished (status_code f c)
  status_code-Avoids f c = record { at = changes_end f c }

  report_status_change-Avoids :
      (i : StatusInfo) (f : ℕ) → Avoids unfinished (report_status_change p status_code i f)
  unfolding report_status_change
  report_status_change-Avoids i f = search (avoids_rules, faults_rules, status_code-Avoids) depth 12

  on_connection_status_changed-Avoids :
      (i : StatusInfo) → Avoids unfinished (on_connection_status_changed p status_code i)
  unfolding on_connection_status_changed
  on_connection_status_changed-Avoids i =
      search (avoids_rules, faults_rules, report_status_change-Avoids) depth 12

  changed_callback-Avoids :
      (i : StatusInfo) → Avoids unfinished (connection_status_changed_callback p status_code i)
  unfolding connection_status_changed_callback
  changed_callback-Avoids i =
      search (avoids_rules, faults_rules, on_connection_status_changed-Avoids) depth 12

  run_callbacks-Avoids : Avoids unfinished (run_callbacks p status_code)
  unfolding run_callbacks
  run_callbacks-Avoids = search (avoids_rules, changed_callback-Avoids) depth 12

  changes-Avoids : Avoids unfinished (process_connection_state_changes p status_code)
  unfolding process_connection_state_changes
  changes-Avoids = search (avoids_rules, faults_rules, run_callbacks-Avoids) depth 12

  packets-Avoids : Avoids unfinished (process_received_packets p packet_code)
  packets-Avoids = record { at = process_received_packets-ends p packet_code packets_end }

  update_connection-Avoids : Avoids unfinished (update_connection p packet_code status_code)
  unfolding update_connection
  update_connection-Avoids = search (avoids_rules, packets-Avoids, changes-Avoids) depth 12

  -- An update of a client ends for every state, whatever the platform gives, what waits and what is
  -- queued: the fuel of its loop never runs out, if no callback of the application runs without end.
  pub update_connection-finishes :
      (w : World Client Env) → (update_connection p packet_code status_code w).0 ≢ fault unfinished
  update_connection-finishes w = update_connection-Avoids.at w
