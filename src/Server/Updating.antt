-- ===== src/Server/Updating.antt =====
-- Server.cpp: `updateConnection`.
pub mod Ending
pub mod Keeping
pub mod Idle
use chaos_in_multiplayer.Base.{ℕ, not, ◌||◌, if◌then◌else◌}
use chaos_in_multiplayer.Status.{ConnectionStatusChange}
use chaos_in_multiplayer.Platform.{Platform}
use chaos_in_multiplayer.Program.{Action, ◌>>=◌, ◌>>◌, gets, skip}
use chaos_in_multiplayer.Packet.{Packet}
use chaos_in_multiplayer.Server.{Server}
use chaos_in_multiplayer.Server.Packets.{process_pending_packets}
use chaos_in_multiplayer.Server.StatusChanges.{process_connection_state_changes}
use chaos_in_multiplayer.Server.UserInput.{process_user_input}

module _ {Env : Type 0} (p : Platform Env) (packet_code : ℕ → ℕ → Packet → Action Server Env Unit)
    (status_code : ℕ → ConnectionStatusChange → Action Server Env Unit) where
  unfoldable pub update_connection : Action Server Env Unit
  update_connection = do
    idle ← gets (λ s. s.quit_requested || not s.running)
    if idle then skip else do
      process_pending_packets p packet_code
      process_connection_state_changes p status_code
      process_user_input
