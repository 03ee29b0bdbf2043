-- ===== src/Server/StatusChanges/Mapping.antt =====
-- The translation of the platform's states, and the report of queued changes.
use chaos_in_multiplayer.Base.{
  ℕ, ◌≡◌, ◌↔◌, refl, true, Option, none, some, List, [], ◌∷◌, ◌++◌, arith,
}
use chaos_in_multiplayer.Status.{ConnectionStatus, ConnectionStatusChange}
use chaos_in_multiplayer.Platform.{Platform, Event, StatusInfo}
use chaos_in_multiplayer.Program.{out_of_range, exit, fault, World, Action, for_each}
use chaos_in_multiplayer.UnorderedMap.{lookup, IsDistinct}
use chaos_in_multiplayer.Reporting.{Reports, AllReport, IsReporter, Reported, run_callbacks-reports}
use chaos_in_multiplayer.Server.{Server}
use chaos_in_multiplayer.Server.StatusChanges.{
  connection_status_mappings, report_status_change, on_connection_status_changed,
  connection_status_changed_callback, process_connection_state_changes,
}

module _ {Env : Type 0} (p : Platform Env) where
  -- The enumerator of the platform that has the name of a status, of those in the table.
  abbrev pub state_of : ConnectionStatus → Option ℕ
  state_of ConnectionStatus.none = some p.state_none
  state_of ConnectionStatus.connecting = some p.state_connecting
  state_of ConnectionStatus.finding_route = none
  state_of ConnectionStatus.connected = some p.state_connected
  state_of ConnectionStatus.closed_by_peer = some p.state_closed_by_peer
  state_of ConnectionStatus.problem_detected_locally = some p.state_problem_detected_locally

  mappings_sound :
      (s : ℕ) (x : ConnectionStatus)
      → lookup s (connection_status_mappings p) ≡ some x
      → state_of x ≡ some s
  unfolding lookup connection_status_mappings
  mappings_sound s x e = ground arith

  mappings_complete :
      (s : ℕ) (x : ConnectionStatus)
      → IsDistinct (connection_status_mappings p)
      → state_of x ≡ some s
      → lookup s (connection_status_mappings p) ≡ some x
  unfolding lookup connection_status_mappings
  mappings_complete s ConnectionStatus.finding_route d e = cc
  mappings_complete s _ d e = ground arith

  -- If the enumerators are distinct, the table translates a state to a status exactly if the state is
  -- the one that has the status's name, and the status is not `FINDING_ROUTE`.
  pub lookup-connection_status_mappings :
      (s : ℕ) (x : ConnectionStatus)
      → IsDistinct (connection_status_mappings p)
      → (lookup s (connection_status_mappings p) ≡ some x) ↔ (state_of x ≡ some s)
  lookup-connection_status_mappings s x d = (mappings_sound s x, mappings_complete s x d)

-- Ready to report to a callable.
abbrev pub IsReporting : ℕ → Server → Type 0
IsReporting f s = (s.connection_status_change_callback ≡ some f) × (s.server_instance ≡ true)

module _ {Env : Type 0} (p : Platform Env)
    (status_code : ℕ → ConnectionStatusChange → Action Server Env Unit) where
  -- With a callable set, a change whose new state is not in the table throws `std::out_of_range`, and
  -- the application is not told.
  pub on_connection_status_changed-unmapped :
      (info : StatusInfo) (f : ℕ) (w : World Server Env)
      → w.object.connection_status_change_callback ≡ some f
      → lookup info.state (connection_status_mappings p) ≡ none
      → on_connection_status_changed p status_code info w ≡ (fault out_of_range, w)
  unfolding on_connection_status_changed report_status_change
  on_connection_status_changed-unmapped info f w cb e = ground arith

  -- With no callable set, a first queued change ends the program with status 1.
  pub process_connection_state_changes-exit :
      (i : StatusInfo) (is' : List StatusInfo) (w : World Server Env)
      → w.object.connection_status_change_callback ≡ none
      → (p.run_callbacks w.env).0 ≡ i ∷ is'
      → (process_connection_state_changes p status_code w).0 ≡ fault (exit 1)
  unfolding process_connection_state_changes for_each connection_status_changed_callback
      on_connection_status_changed
  process_connection_state_changes-exit i is' w cb e = ground arith

module _ {Env : Type 0} (p : Platform Env)
    (status_code : ℕ → ConnectionStatusChange → Action Server Env Unit) (f : ℕ)
    (reporter : IsReporter (IsReporting f) (status_code f)) where
  changed_callback-eq :
      (i : StatusInfo) (c : ConnectionStatusChange) (w : World Server Env)
      → IsReporting f w.object
      → Reports (connection_status_mappings p) i c
      → connection_status_changed_callback p status_code i w
        ≡ status_code f c (record w { trace = w.trace ++ Event.call_status_callback f c ∷ [] })
  unfolding connection_status_changed_callback on_connection_status_changed report_status_change
  changed_callback-eq i c w s r = ground arith

  -- If a callable is set that returns and stays set, and both states of every queued change are in the
  -- table, then every queued change is reported to it once, translated, in the order of the queue, and
  -- the call returns.
  pub process_connection_state_changes-reports :
      (cs : List ConnectionStatusChange) (w : World Server Env)
      → w.object.connection_status_change_callback ≡ some f
      → AllReport (connection_status_mappings p) (p.run_callbacks w.env).0 cs
      → Reported (IsReporting f) w cs (process_connection_state_changes p status_code w)
  unfolding process_connection_state_changes
  process_connection_state_changes-reports cs w cb r =
      let (changes, env) = p.run_callbacks w.env in
      run_callbacks-reports (IsReporting f) f (status_code f) reporter
        (connection_status_mappings p) (connection_status_changed_callback p status_code)
        changed_callback-eq changes cs (record w.object { server_instance = true }) env w (cb, refl)
        r
