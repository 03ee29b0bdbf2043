-- ===== src/Client/StatusChanges/Reporting.antt =====
-- What a client's `processConnectionStateChanges` reports.
use chaos_in_multiplayer.Base.{ℕ, ◌≡◌, refl, true, some, List, [], ◌∷◌, ◌++◌, arith, subst, sym}
use chaos_in_multiplayer.Status.{ConnectionStatusChange}
use chaos_in_multiplayer.Platform.{Platform, Event, StatusInfo}
use chaos_in_multiplayer.Program.{World, Action}
use chaos_in_multiplayer.Reporting.{Reports, AllReport, IsReporter, Reported, run_callbacks-reports}
use chaos_in_multiplayer.Client.{Client}
use chaos_in_multiplayer.Client.StatusChanges.{
  connection_status_mappings, report_status_change, on_connection_status_changed,
  connection_status_changed_callback, run_callbacks, process_connection_state_changes,
}

-- Ready to report to a callable.
abbrev pub IsReporting : ℕ → Client → Type 0
IsReporting f s = (s.connection_status_change_callback ≡ some f) × (s.client_instance ≡ true)

module _ {Env : Type 0} (p : Platform Env)
    (status_code : ℕ → ConnectionStatusChange → Action Client Env Unit) (f : ℕ)
    (reporter : IsReporter (IsReporting f) (status_code f)) where
  changed_callback-eq :
      (i : StatusInfo) (c : ConnectionStatusChange) (w : World Client Env)
      → IsReporting f w.object
      → Reports (connection_status_mappings p) i c
      → connection_status_changed_callback p status_code i w
        ≡ status_code f c (record w { trace = w.trace ++ Event.call_status_callback f c ∷ [] })
  unfolding connection_status_changed_callback on_connection_status_changed report_status_change
  changed_callback-eq i c w s r = ground arith

  process_connection_state_changes-eq :
      (w : World Client Env)
      → w.object.networking_interface ≡ true
      → process_connection_state_changes p status_code w
        ≡ run_callbacks p status_code
            (record w { object = record w.object { client_instance = true } })
  unfolding process_connection_state_changes
  process_connection_state_changes-eq w set = ground arith

  -- If the client was initialised, a callable is set that returns and stays set, and both states of every
  -- queued change are in the table, then every queued change is reported to it once, translated, in the
  -- order of the queue, and the client's call returns.
  pub process_connection_state_changes-tells :
      (cs : List ConnectionStatusChange) (w : World Client Env)
      → w.object.connection_status_change_callback ≡ some f
      → w.object.networking_interface ≡ true
      → AllReport (connection_status_mappings p) (p.run_callbacks w.env).0 cs
      → Reported (IsReporting f) w cs (process_connection_state_changes p status_code w)
  unfolding run_callbacks
  process_connection_state_changes-tells cs w cb set r =
      let (changes, env) = p.run_callbacks w.env in
      subst (Reported (IsReporting f) w cs) (sym (process_connection_state_changes-eq w set)) (
        run_callbacks-reports (IsReporting f) f (status_code f) reporter
          (connection_status_mappings p) (connection_status_changed_callback p status_code)
          changed_callback-eq changes cs (record w.object { client_instance = true }) env w
          (cb, refl) r)
