-- ===== src/NetworkingUtils.antt =====
-- Include/Common/NetworkingUtils.h and Source/Common/NetworkingUtils.cpp, as built with
-- `STEAMNETWORKINGSOCKETS_OPENSOURCE`, which the linked library defines.
pub mod Output
use chaos_in_multiplayer.Base.{ℕ, ℤ, pos, ◌-ℤ◌, not, Text, ◌==◌}
use chaos_in_multiplayer.Platform.{
  Utilities, Event, initialization_failed, debug_message, stdout, stderr,
}
use chaos_in_multiplayer.Program.{Action, ◌>>=◌, ◌>>◌, gets, call, perform, note, modify, when}

-- The static member.
pub record NetworkingUtils : Type 0 where
  pub initialization_timestamp : ℤ

-- Before the program starts: a static member is zero.
abbrev pub at_start : NetworkingUtils
at_start = record { initialization_timestamp = pos 0 }

module _ {Env : Type 0} (u : Utilities Env) where
  -- What is done whether or not the library has started.
  abbrev pub start_debug_output : Action NetworkingUtils Env Unit
  start_debug_output = do
    now ← call Event.local_timestamp u.local_timestamp
    modify (λ n. record n { initialization_timestamp = now })
    perform (Event.set_debug_output u.output_type_msg) (u.set_debug_output u.output_type_msg)

  -- What `initializeSteamDatagramConnectionSockets` does.
  unfoldable pub initialize_sockets : Action NetworkingUtils Env Unit
  initialize_sockets = do
    result ← call Event.initialize u.initialize
    when (not result.0) (note (Event.log (initialization_failed result.1)))
    start_debug_output

  unfoldable pub debug_output : ℕ → Text → Action NetworkingUtils Env Unit
  debug_output output_type message = do
    now ← call Event.local_timestamp u.local_timestamp
    start ← gets (λ n. n.initialization_timestamp)
    note (Event.log (debug_message (now -ℤ start) message))
    perform (Event.flush stdout) (u.flush stdout)
    when (output_type == u.output_type_bug) (do
      perform (Event.flush stdout) (u.flush stdout)
      perform (Event.flush stderr) (u.flush stderr))

  -- What `closeSteamDatagramConnectionSockets` does.
  unfoldable pub close_sockets : Action NetworkingUtils Env Unit
  close_sockets = do perform (Event.sleep 500) (u.sleep 500); perform Event.kill u.kill
