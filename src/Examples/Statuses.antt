-- ===== src/Examples/Statuses.antt =====
-- Two queued changes, and their reports.
use chaos_in_multiplayer.Base.{ℕ, true, false, ◌≡◌, refl, some, [], ◌∷◌, ◌++◌}
use chaos_in_multiplayer.Status.{ConnectionStatus, ConnectionStatusChange}
use chaos_in_multiplayer.Platform.{Platform, StatusInfo}
use chaos_in_multiplayer.Program.{ok, World, Action, skip}
use chaos_in_multiplayer.UnorderedMap.{UnorderedMap, lookup}
use chaos_in_multiplayer.Server.StatusChanges.{
  connection_status_mappings, process_connection_state_changes,
}
use chaos_in_multiplayer.Server.StatusChanges.Mapping.{
  IsReporting, process_connection_state_changes-reports,
}
use chaos_in_multiplayer.Reporting.{reports, Reports, IsReporter, Reported}
use chaos_in_multiplayer.Client.{Client, new}
use chaos_in_multiplayer.Client.StatusChanges
use chaos_in_multiplayer.Client.StatusChanges.Reporting.{process_connection_state_changes-tells}
use chaos_in_multiplayer.Examples.Setup.{Mail, platform, quiet_status_code}
use chaos_in_multiplayer.Examples.Registries.{server, world}
use chaos_in_multiplayer.Program.Keeps.{Keeps, Keeps-skip}
use chaos_in_multiplayer.Server.{Server}
use chaos_in_multiplayer.Server.Instances.{
  Servers, process_changes_of_process, process_changes_of_process-reports,
}

abbrev arrival : StatusInfo
arrival = record { conn = 9; old_state = 0; state = 1 }

abbrev departure : StatusInfo
departure = record { conn = 5; old_state = 3; state = 4 }

abbrev busy_platform : Platform Mail
busy_platform = platform (arrival ∷ departure ∷ [])

abbrev arrived : ConnectionStatusChange
arrived = record {
  connection = 9;
  old_status = ConnectionStatus.none;
  current_status = ConnectionStatus.connecting;
}

abbrev departed : ConnectionStatusChange
departed = record {
  connection = 5;
  old_status = ConnectionStatus.connected;
  current_status = ConnectionStatus.closed_by_peer;
}

arrival-Reports : Reports (connection_status_mappings busy_platform) arrival arrived
unfolding lookup connection_status_mappings
arrival-Reports = record { connection = refl; old = refl; current = refl }

departure-Reports : Reports (connection_status_mappings busy_platform) departure departed
unfolding lookup connection_status_mappings
departure-Reports = record { connection = refl; old = refl; current = refl }

quiet-IsReporter : IsReporter (IsReporting 2) (quiet_status_code 2)
quiet-IsReporter = record { returns = λ c w s. refl; keeps = λ c w s. (s, refl) }

process_connection_state_changes-reports_example :
    let (r, w') = process_connection_state_changes busy_platform quiet_status_code world in
    (r ≡ ok tt) × IsReporting 2 w'.object × (reports w'.trace ≡ [] ++ arrived ∷ departed ∷ [])
process_connection_state_changes-reports_example =
    process_connection_state_changes-reports busy_platform quiet_status_code 2 quiet-IsReporter
      (arrived ∷ departed ∷ []) world refl (arrival-Reports, (departure-Reports, tt))

abbrev hearing_client : World Client Mail
hearing_client = record {
  object = record new { networking_interface = true; connection_status_change_callback = some 2 };
  env = [];
  trace = [];
}

abbrev quiet_client_code : ℕ → ConnectionStatusChange → Action Client Mail Unit
quiet_client_code f c = skip

abbrev table : UnorderedMap ConnectionStatus
table = StatusChanges.connection_status_mappings busy_platform

client_arrival-Reports : Reports table arrival arrived
unfolding lookup StatusChanges.connection_status_mappings
client_arrival-Reports = record { connection = refl; old = refl; current = refl }

client_departure-Reports : Reports table departure departed
unfolding lookup StatusChanges.connection_status_mappings
client_departure-Reports = record { connection = refl; old = refl; current = refl }

process_connection_state_changes-tells_example :
    Reported (StatusChanges.Reporting.IsReporting 2) hearing_client (arrived ∷ departed ∷ []) (
      StatusChanges.process_connection_state_changes busy_platform quiet_client_code hearing_client)
process_connection_state_changes-tells_example =
    process_connection_state_changes-tells busy_platform quiet_client_code 2
      (record { returns = λ c w s. refl; keeps = λ c w s. (s, refl) }) (arrived ∷ departed ∷ [])
      hearing_client refl refl (client_arrival-Reports, (client_departure-Reports, tt))

-- Two servers, the first of which updates.
abbrev two_servers : World Servers Mail
two_servers = record {
  object = record { asking = server; other = record server { server_instance = true } };
  env = [];
  trace = [];
}

quiet-Keeps :
    (f : ℕ) (c : ConnectionStatusChange)
    → Keeps (λ (s : Server). s.server_instance ≡ true) (quiet_status_code f c)
quiet-Keeps f c = Keeps-skip

process_changes_of_process-reports_example :
    let (r, w') =
      process_changes_of_process busy_platform quiet_status_code quiet_status_code two_servers in
    (r ≡ ok tt)
    × (reports w'.trace ≡ [] ++ arrived ∷ departed ∷ [])
    × (w'.object.other ≡ record server { server_instance = false })
process_changes_of_process-reports_example =
    process_changes_of_process-reports busy_platform quiet_status_code quiet_status_code quiet-Keeps
      2 (arrived ∷ departed ∷ []) two_servers quiet-IsReporter refl
      (arrival-Reports, (departure-Reports, tt))
