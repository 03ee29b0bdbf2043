-- ===== src/ExampleServer/Looping.antt =====
-- When the loop of the example server ends.
use chaos_in_multiplayer.Base.{ℕ, zero, suc, ◌≡◌, refl, false, arith}
use chaos_in_multiplayer.Status.{ConnectionStatusChange}
use chaos_in_multiplayer.Platform.{Platform}
use chaos_in_multiplayer.Program.{unfinished, ok, fault, World, Action}
use chaos_in_multiplayer.Packet.{Packet}
use chaos_in_multiplayer.Server.{Server}
use chaos_in_multiplayer.Server.Updating.{update_connection}
use chaos_in_multiplayer.ExampleServer.{main_loop}

module _ {Env : Type 0} (p : Platform Env) (packet_code : ℕ → ℕ → Packet → Action Server Env Unit)
    (status_code : ℕ → ConnectionStatusChange → Action Server Env Unit) where
  update_connection-idle :
      (w : World Server Env)
      → w.object.running ≡ false
      → update_connection p packet_code status_code w ≡ (ok tt, w)
  unfolding update_connection
  update_connection-idle w h = ground arith

  -- If the server does not run when the loop starts, as after a failed `openConnection`, and nothing
  -- has asked to quit, the loop does not end: no number of rounds is enough, and they change nothing,
  -- so that a typed "/quit" is never read.
  pub main_loop-endless :
      (rounds : ℕ) (w : World Server Env)
      → w.object.running ≡ false
      → w.object.quit_requested ≡ false
      → main_loop p packet_code status_code rounds w ≡ (fault unfinished, w)
  unfolding main_loop
  main_loop-endless zero w h q = refl
  main_loop-endless (suc rounds) w h q =
      ground (arith, update_connection-idle w h, main_loop-endless rounds w h q)
