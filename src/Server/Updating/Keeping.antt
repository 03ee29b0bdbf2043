-- ===== src/Server/Updating/Keeping.antt =====
-- What an update of a server keeps true, apart from the typed lines, if the callbacks keep it.
use chaos_in_multiplayer.Base.{ℕ, zero, suc, true, not, ◌||◌, if◌then◌else◌}
use chaos_in_multiplayer.Status.{ConnectionStatusChange}
use chaos_in_multiplayer.Platform.{Platform, Message, Received, StatusInfo}
use chaos_in_multiplayer.Program.{Action, ◌>>◌, gets, skip}
use chaos_in_multiplayer.Program.Keeps.{
  Keeps, Keeps-modify, Keeps-bind, Keeps-gets, Keeps-if, Keeps-skip, keeps_rules,
}
use chaos_in_multiplayer.Packet.{Packet}
use chaos_in_multiplayer.Server.{Server}
use chaos_in_multiplayer.Server.Packets.{
  process_pending_packet, handle_received, packet_round, packet_loop, increment,
  process_pending_packets,
}
use chaos_in_multiplayer.Server.StatusChanges.{
  report_status_change, on_connection_status_changed, connection_status_changed_callback,
  process_connection_state_changes,
}
use chaos_in_multiplayer.Server.UserInput.{process_user_input}
use chaos_in_multiplayer.Server.Updating.{update_connection}

module _ {Env : Type 0} (P : Server → Type 0) (p : Platform Env)
    (packet_code : ℕ → ℕ → Packet → Action Server Env Unit)
    (packets_keep : (f k : ℕ) (q : Packet) → Keeps P (packet_code f k q)) where
  process_pending_packet-Keeps : (m : Message) → Keeps P (process_pending_packet p packet_code m)
  unfolding process_pending_packet
  process_pending_packet-Keeps m = search (keeps_rules, packets_keep) depth 15

  handle_received-Keeps : (r : Received) → Keeps P (handle_received p packet_code r)
  unfolding handle_received
  handle_received-Keeps r = search (keeps_rules, process_pending_packet-Keeps) depth 15

  packet_round-Keeps : Keeps P (packet_round p packet_code)
  unfolding packet_round
  packet_round-Keeps = search (keeps_rules, handle_received-Keeps) depth 15

  increment-Keeps : (i : ℕ) → Keeps {Env = Env} P (increment i)
  unfolding increment
  increment-Keeps i = search keeps_rules

  packet_loop-Keeps : (fuel i : ℕ) → Keeps P (packet_loop p packet_code fuel i)
  unfolding packet_loop
  packet_loop-Keeps zero i = search keeps_rules
  packet_loop-Keeps (suc fuel) i =
      let rest = packet_loop-Keeps fuel in
      search (keeps_rules, rest, packet_round-Keeps, increment-Keeps) depth 15

  pub process_pending_packets-Keeps : Keeps P (process_pending_packets p packet_code)
  unfolding process_pending_packets
  process_pending_packets-Keeps = search (keeps_rules, packet_loop-Keeps) depth 15

module _ {Env : Type 0} (P : Server → Type 0) (p : Platform Env)
    (status_code : ℕ → ConnectionStatusChange → Action Server Env Unit)
    (instance_set : (s : Server) → P s → P (record s { server_instance = true }))
    (changes_keep : (f : ℕ) (c : ConnectionStatusChange) → Keeps P (status_code f c)) where
  report-Keeps : (f : ℕ) (i : StatusInfo) → Keeps P (report_status_change p status_code f i)
  unfolding report_status_change
  report-Keeps f i = search (keeps_rules, changes_keep) depth 15

  on_changed-Keeps : (i : StatusInfo) → Keeps P (on_connection_status_changed p status_code i)
  unfolding on_connection_status_changed
  on_changed-Keeps i = search (keeps_rules, report-Keeps) depth 15

  changed_callback-Keeps :
      (i : StatusInfo) → Keeps P (connection_status_changed_callback p status_code i)
  unfolding connection_status_changed_callback
  changed_callback-Keeps i = search (keeps_rules, on_changed-Keeps) depth 15

  pub process_changes-Keeps : Keeps P (process_connection_state_changes p status_code)
  unfolding process_connection_state_changes
  process_changes-Keeps =
      search (keeps_rules, Keeps-modify, instance_set, changed_callback-Keeps) depth 15

module _ {Env : Type 0} (P : Server → Type 0) (p : Platform Env)
    (packet_code : ℕ → ℕ → Packet → Action Server Env Unit)
    (status_code : ℕ → ConnectionStatusChange → Action Server Env Unit)
    (packets_keep : (f k : ℕ) (q : Packet) → Keeps P (packet_code f k q))
    (instance_set : (s : Server) → P s → P (record s { server_instance = true }))
    (changes_keep : (f : ℕ) (c : ConnectionStatusChange) → Keeps P (status_code f c))
    (input_keeps : Keeps {Env = Env} P process_user_input) where
  pub update_connection-Keeps : Keeps P (update_connection p packet_code status_code)
  unfolding update_connection
  update_connection-Keeps =
      let packets = process_pending_packets p packet_code in
      let changes = process_connection_state_changes p status_code in
      let served =
        Keeps-bind packets (λ _. changes >> process_user_input)
          (process_pending_packets-Keeps P p packet_code packets_keep)
          (λ _.
            Keeps-bind changes (λ _. process_user_input)
              (process_changes-Keeps P p status_code instance_set changes_keep)
              (λ _. input_keeps)) in
      let idle = λ (s : Server). s.quit_requested || not s.running in
      Keeps-bind (gets idle) (λ b. if b then skip else (packets >> (changes >> process_user_input)))
        (Keeps-gets idle)
        (λ b. Keeps-if b skip (packets >> (changes >> process_user_input)) Keeps-skip served)
