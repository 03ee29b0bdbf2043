-- ===== src/Client/Session/Updates.antt =====
-- An update of a client with a living connection is never undefined.
use chaos_in_multiplayer.Base.{ℕ, ◌≡◌, refl, true, if◌then◌else◌}
use chaos_in_multiplayer.Status.{ConnectionStatusChange}
use chaos_in_multiplayer.Platform.{Platform, Event, StatusInfo}
use chaos_in_multiplayer.Program.{undefined, Action, ◌>>=◌, stop, for_each, call, gets}
use chaos_in_multiplayer.Program.Safe.{
  Safe, safe_rules, defined_rules, Safe-read, Safe-bind, Safe-call, Safe-for_each,
}
use chaos_in_multiplayer.Packet.{Packet}
use chaos_in_multiplayer.Client.{Client}
use chaos_in_multiplayer.Client.Packets.{process_received_packets}
use chaos_in_multiplayer.Client.StatusChanges.{
  report_status_change, on_connection_status_changed, connection_status_changed_callback,
  run_callbacks, process_connection_state_changes, update_connection,
}
use chaos_in_multiplayer.Client.Session.Safety.{IsLiving, IsReady, moves, packets-Safe}

-- While an update reports, the static pointer points to the client.
abbrev pub IsReporting : {Env : Type 0} → (ℕ → Env → Type 0) → Client → Env → Type 0
IsReporting live c env = IsReady live c env × (c.client_instance ≡ true)

module _ {Env : Type 0} (p : Platform Env) (live : ℕ → Env → Type 0) (living : IsLiving p live)
    (packet_code : ℕ → ℕ → Packet → Action Client Env Unit)
    (status_code : ℕ → ConnectionStatusChange → Action Client Env Unit)
    (packets_safe : (f k : ℕ) (q : Packet) → Safe (IsReady live) undefined (packet_code f k q))
    (changes_safe : (f : ℕ) (c : ConnectionStatusChange)
      → Safe (IsReporting live) undefined (status_code f c)) where
  report-Safe :
      (i : StatusInfo) (f : ℕ)
      → Safe (IsReporting live) undefined (report_status_change p status_code i f)
  unfolding report_status_change
  report-Safe i f = search (safe_rules, defined_rules, changes_safe) depth 12

  on_changed-Safe :
      (i : StatusInfo)
      → Safe (IsReporting live) undefined (on_connection_status_changed p status_code i)
  unfolding on_connection_status_changed
  on_changed-Safe i = search (safe_rules, defined_rules, report-Safe) depth 12

  changed_callback-Safe :
      (i : StatusInfo)
      → Safe (IsReporting live) undefined (connection_status_changed_callback p status_code i)
  unfolding connection_status_changed_callback
  changed_callback-Safe i =
      Safe-read (λ set. set ≡ true) (λ c. c.client_instance)
        (λ set. if set then on_connection_status_changed p status_code i else stop undefined)
        (λ c env r. r.1) (λ set e. rw e (on_changed-Safe i))

  runs-Safe : (e : Event) → Safe (IsReporting live) undefined (call e p.run_callbacks)
  runs-Safe e =
      Safe-call e _ (λ c env r. (moves p live living c env _ (λ h. living.runs h env) r.0, r.1))

  run_callbacks-Safe : Safe (IsReporting live) undefined (run_callbacks p status_code)
  unfolding run_callbacks
  run_callbacks-Safe =
      Safe-bind (call Event.run_callbacks p.run_callbacks)
        (λ changes. for_each changes (connection_status_changed_callback p status_code))
        (runs-Safe Event.run_callbacks) (λ changes. Safe-for_each changes _ changed_callback-Safe)

  changes-Safe : Safe (IsReady live) undefined (process_connection_state_changes p status_code)
  unfolding process_connection_state_changes
  changes-Safe = record {
    at = λ w r.
        let set : Safe (IsReporting live) undefined (
            gets (λ c. c.networking_interface) >>= λ b.
            if b then run_callbacks p status_code else stop undefined) =
          Safe-read (λ b. b ≡ true) (λ c. c.networking_interface)
            (λ b. if b then run_callbacks p status_code else stop undefined)
            (λ c env q. q.0.interface) (λ b e. rw e run_callbacks-Safe) in
        let ready : IsReady live (record w.object { client_instance = true }) w.env = record {
          interface = r.interface;
          connects = r.connects;
          bounded = r.bounded;
        } in
        let (n, kept) =
          set.at (record w { object = record w.object { client_instance = true } }) (ready, refl) in
        (n, kept.0);
  }

  pub update_connection-Safe :
      Safe (IsReady live) undefined (update_connection p packet_code status_code)
  unfolding update_connection
  update_connection-Safe =
      Safe-bind (process_received_packets p packet_code)
        (λ _. process_connection_state_changes p status_code)
        (packets-Safe p live living packet_code packets_safe) (λ _. changes-Safe)
