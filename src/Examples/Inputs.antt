-- ===== src/Examples/Inputs.antt =====
-- Typed lines, from the polling thread to the server's commands.
use chaos_in_multiplayer.Base.{◌≡◌, ◌⊎◌, refl, false, List, [], ◌∷◌, Text, codes}
use chaos_in_multiplayer.Program.{ok, World}
use chaos_in_multiplayer.InputController.Polling.{
  Poller, Future, Position, Reach, here, next, reader_returns, round_with_input, of_stdin,
  first_of_lines, Reach-added, Reach-undefined,
}
use chaos_in_multiplayer.Server.{Server, of_address}
use chaos_in_multiplayer.Server.UserInput.{process_user_input}
use chaos_in_multiplayer.Server.UserInput.Commands.{Served, process_user_input-Served}
use chaos_in_multiplayer.Examples.Setup.{Mail, ip}

abbrev pub lines : List Text
lines = codes "hi" ∷ codes "/quit" ∷ []

abbrev pub poller_after : Poller
poller_after = record {
  position = Position.leaving_if;
  input_future = Future.invalid;
  exit_requested = false;
  stdin = codes "/quit" ∷ [];
  added = codes "hi" ∷ [];
}

pub poller-reached : Reach (of_stdin lines) poller_after
poller-reached =
    next (next here (reader_returns (codes "hi") (codes "/quit" ∷ []) refl refl refl))
      (round_with_input (codes "hi") refl refl refl refl)

Reach-added_example : (poller_after.added ≡ []) ⊎ (poller_after.added ≡ first_of_lines lines)
Reach-added_example = Reach-added lines poller-reached

Reach-undefined_example : Reach (of_stdin lines) (record {
  position = Position.undefined;
  input_future = Future.invalid;
  exit_requested = false;
  stdin = [];
  added = codes "hi" ∷ [];
})
Reach-undefined_example = Reach-undefined (codes "hi") (codes "/quit") []

abbrev typed_server : World Server Mail
typed_server = record { object = of_address ip 27020 (lines ∷ []); env = []; trace = [] }

process_user_input-Served_example :
    ((process_user_input typed_server).0 ≡ ok tt)
    × ((read : List Text) × Served typed_server (process_user_input typed_server).1 read)
process_user_input-Served_example = process_user_input-Served typed_server
