-- ===== src/Server/UserInput.antt =====
-- Server.cpp: `processUserInput`.
pub mod Commands
pub mod Arriving
use chaos_in_multiplayer.Base.{
  ℕ, zero, suc, Bool, true, false, Text, codes, text_eq, if◌then◌else◌, length,
}
use chaos_in_multiplayer.Platform.{Event, shutting_down_server, unknown_command}
use chaos_in_multiplayer.Program.{
  unfinished, Outcome, ok, fault, World, Action, ◌>>=◌, ◌>>◌, pure, stop, gets, note, modify, when,
}
use chaos_in_multiplayer.InputController.{InputController}
use chaos_in_multiplayer.InputController
use chaos_in_multiplayer.InputController.Queue.{unread}
use chaos_in_multiplayer.Server.{Server}

abbrev pub quit_command : Text
quit_command = codes "/quit"

module _ {Env : Type 0} where
  unfoldable pub input_available : Action Server Env Bool
  input_available w =
      let (available, c) = InputController.input_available w.object.input_controller in
      (ok available, record w { object = record w.object { input_controller = c } })

  abbrev pub on_read : Outcome (Text × InputController) → Action Server Env Text
  on_read (fault f) w = (fault f, w)
  on_read (ok (l, c)) w = (ok l, record w { object = record w.object { input_controller = c } })

  unfoldable pub read_input : Action Server Env Text
  read_input w = on_read (InputController.read_input w.object.input_controller) w

  unfoldable pub request_quit : Action Server Env Unit
  request_quit = do
    modify (λ s. record s { quit_requested = true })
    note (Event.log shutting_down_server)

  -- The loop, a round for each line.
  unfoldable pub user_input_loop : ℕ → Action Server Env Unit
  user_input_loop zero = stop unfinished
  user_input_loop (suc fuel) = do
    available ← input_available
    when available (do
      input ← read_input
      if text_eq input quit_command
          then request_quit
          else (do note (Event.log unknown_command); user_input_loop fuel))

  unfoldable pub process_user_input : Action Server Env Unit
  process_user_input = do
    lines ← gets (λ s. length (unread s.input_controller))
    user_input_loop (suc lines)
