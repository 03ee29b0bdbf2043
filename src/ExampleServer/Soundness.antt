-- ===== src/ExampleServer/Soundness.antt =====
-- What the callbacks of the example server do to the invariant of a server.
use chaos_in_multiplayer.Base.{ℕ}
use chaos_in_multiplayer.Status.{ConnectionStatusChange}
use chaos_in_multiplayer.Platform.{Platform}
use chaos_in_multiplayer.Program.{modify}
use chaos_in_multiplayer.Program.Keeps.{Keeps}
use chaos_in_multiplayer.ClientConnection.{set_alias, accept, set_poll_group}
use chaos_in_multiplayer.Server.Session.Soundness.{
  IsSound, create-IsSound, at_client-IsSound, close_client-IsSound, accept-IsLive,
  set_poll_group-IsLive, set_alias-IsLive,
}
use chaos_in_multiplayer.Server.Session.Closings.{send_to-IsSound, broadcast-IsSound}
use chaos_in_multiplayer.ExampleServer.Callbacks.{connection_status_change_callback}
use chaos_in_multiplayer.ExampleServer.Keeping.{IsKept, status_callback-Keeps}

module _ {Env : Type 0} (p : Platform Env) where
  IsSound-IsKept : IsKept p IsSound
  IsSound-IsKept = record {
    creates = create-IsSound;
    closes_client = close_client-IsSound p;
    names = λ k t. at_client-IsSound k (modify (set_alias t)) (set_alias-IsLive p k t);
    accepts = λ k. at_client-IsSound k (accept p) (accept-IsLive p k);
    sets_poll_group = λ k g. at_client-IsSound k (set_poll_group p g) (set_poll_group-IsLive p k g);
    sends = send_to-IsSound p;
    broadcasts = broadcast-IsSound p;
  }

  pub status_callback-IsSound :
      (rand : Env → ℕ × Env) (c : ConnectionStatusChange)
      → Keeps IsSound (connection_status_change_callback p rand c)
  status_callback-IsSound rand c = status_callback-Keeps p rand IsSound IsSound-IsKept c
