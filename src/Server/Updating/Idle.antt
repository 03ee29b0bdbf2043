-- ===== src/Server/Updating/Idle.antt =====
-- An update of a server for which nothing waits but typed lines.
use chaos_in_multiplayer.Base.{
  ℕ, ◌-◌, ◌≡◌, refl, sym, ap, ◌∙◌, pos, true, false, some, List, [], Text, arith, not, ◌||◌, subst,
}
use chaos_in_multiplayer.Status.{ConnectionStatusChange}
use chaos_in_multiplayer.Platform.{Platform}
use chaos_in_multiplayer.Program.{Outcome, ok, World, Action, for_each}
use chaos_in_multiplayer.Packet.{Packet}
use chaos_in_multiplayer.Server.{Server}
use chaos_in_multiplayer.Server.Packets.{
  handle_received, packet_round, packet_loop, process_pending_packets,
}
use chaos_in_multiplayer.Server.StatusChanges.{process_connection_state_changes}
use chaos_in_multiplayer.Server.UserInput.{process_user_input}
use chaos_in_multiplayer.Server.UserInput.Commands.{Served, process_user_input-Served}
use chaos_in_multiplayer.Server.UserInput.Arriving.{Within, process_user_input-Within}
use chaos_in_multiplayer.Server.Updating.{update_connection}

-- No message waits and no connection changes, however often the platform is asked.
pub record IsIdle {Env : Type 0} (p : Platform Env) : Type 0 where
  pub receives_none : (g : ℕ) (env : Env) → (p.receive_on_poll_group g env).0.count ≡ pos 0
  pub changes_none : (env : Env) → (p.run_callbacks env).0 ≡ []

module _ {Env : Type 0} (p : Platform Env) (idle : IsIdle p)
    (packet_code : ℕ → ℕ → Packet → Action Server Env Unit)
    (status_code : ℕ → ConnectionStatusChange → Action Server Env Unit) where
  process_pending_packets-idle :
      (g : ℕ) (w : World Server Env)
      → w.object.poll_group ≡ some g
      → let (r, w') = process_pending_packets p packet_code w in
        (r ≡ ok tt) × (w'.object ≡ w.object)
  unfolding process_pending_packets packet_loop packet_round handle_received
  process_pending_packets-idle g w h = let n = idle.receives_none g w.env in ground (arith, n, h)

  process_changes-idle :
      (w : World Server Env)
      → let (r, w') = process_connection_state_changes p status_code w in
        (r ≡ ok tt) × (w'.object ≡ record w.object { server_instance = true })
  unfolding process_connection_state_changes for_each
  process_changes-idle w = let n = idle.changes_none w.env in rw n (refl, refl)

  -- The world in which the typed lines are looked at.
  abbrev before_input : World Server Env → World Server Env
  before_input w =
      (process_connection_state_changes p status_code (process_pending_packets p packet_code w).1).1

  update_connection-input :
      (g : ℕ) (w : World Server Env)
      → w.object.poll_group ≡ some g
      → w.object.running ≡ true
      → w.object.quit_requested ≡ false
      → update_connection p packet_code status_code w ≡ process_user_input (before_input w)
  unfolding update_connection
  update_connection-input g w h up q =
      let packets = (process_pending_packets-idle g w h).0 in
      let changes = (process_changes-idle (process_pending_packets p packet_code w).1).0 in
      let test : (w.object.quit_requested || not w.object.running) ≡ false =
        ground (arith, up, q) in
      rw (test, packets, changes) refl

  before_input-object :
      (g : ℕ) (w : World Server Env)
      → w.object.poll_group ≡ some g
      → (before_input w).object ≡ record w.object { server_instance = true }
  before_input-object g w h =
      (process_changes-idle (process_pending_packets p packet_code w).1).1
      ∙ ap (λ (s : Server). record s { server_instance = true })
          (process_pending_packets-idle g w h).1

  -- An update that returns, and serves typed lines only.
  abbrev pub OnlyServes : World Server Env → Outcome Unit × World Server Env → Type 0
  OnlyServes w x =
      (x.0 ≡ ok tt)
      × ((v : World Server Env) × (read : List Text) × (v.object
            ≡ record w.object { server_instance = true })
          × Served v x.1 read)

  pub update_connection-OnlyServes :
      (g : ℕ) (w : World Server Env)
      → w.object.poll_group ≡ some g
      → w.object.running ≡ true
      → w.object.quit_requested ≡ false
      → OnlyServes w (update_connection p packet_code status_code w)
  update_connection-OnlyServes g w h up q =
      let v = before_input w in
      let (r, found) = process_user_input-Served v in
      subst (OnlyServes w) (sym (update_connection-input g w h up q))
        (r, (v, found.0, before_input-object g w h, found.1))

  pub update_connection-Within :
      (g n : ℕ) (w : World Server Env)
      → w.object.poll_group ≡ some g
      → w.object.running ≡ true
      → w.object.quit_requested ≡ false
      → Within n w.object
      → Within (n - 1) (update_connection p packet_code status_code w).1.object
  update_connection-Within g n w h up q within =
      subst (λ x. Within (n - 1) x.1.object) (sym (update_connection-input g w h up q))
        (process_user_input-Within n (before_input w)
          (subst (Within n) (sym (before_input-object g w h)) (record { left = within.left })))
