-- ===== src/ExampleServer.antt =====
-- Examples/ExampleServer/ExampleServer.cpp: the loop of `main`.
pub mod Callbacks
pub mod Admission
pub mod Departure
pub mod Entries
pub mod Handshake
pub mod Keeping
pub mod Looping
pub mod Printing
pub mod Main
pub mod Soundness
pub mod Quitting
use chaos_in_multiplayer.Base.{ℕ, zero, suc, if◌then◌else◌}
use chaos_in_multiplayer.Status.{ConnectionStatusChange}
use chaos_in_multiplayer.Platform.{Platform}
use chaos_in_multiplayer.Program.{unfinished, Action, ◌>>=◌, ◌>>◌, stop, gets, skip}
use chaos_in_multiplayer.Packet.{Packet}
use chaos_in_multiplayer.Server.{Server}
use chaos_in_multiplayer.Server.Updating.{update_connection}

module _ {Env : Type 0} (p : Platform Env) (packet_code : ℕ → ℕ → Packet → Action Server Env Unit)
    (status_code : ℕ → ConnectionStatusChange → Action Server Env Unit) where
  -- `while (!server.quitRequested()) server.updateConnection();`, with fuel for the rounds.
  unfoldable pub main_loop : ℕ → Action Server Env Unit
  main_loop zero = stop unfinished
  main_loop (suc fuel) = do
    quit ← gets (λ s. s.quit_requested)
    if quit then skip else do update_connection p packet_code status_code; main_loop fuel
