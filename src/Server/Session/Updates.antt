-- ===== src/Server/Session/Updates.antt =====
-- Updating, and the invariant of a server.
use chaos_in_multiplayer.Base.{ℕ, zero, suc, ◌≡◌, refl, true, List, [], ◌∷◌, Text}
use chaos_in_multiplayer.Status.{ConnectionStatusChange}
use chaos_in_multiplayer.Platform.{Event, unknown_command, Platform}
use chaos_in_multiplayer.Program.{World, Action, note}
use chaos_in_multiplayer.Program.Keeps.{
  Keeps, Keeps-when, Keeps-if, Keeps-note, Keeps-modify, Keeps-bind, keeps_rules,
}
use chaos_in_multiplayer.Packet.{Packet}
use chaos_in_multiplayer.InputController
use chaos_in_multiplayer.InputController.Queue.{arrive-joinable}
use chaos_in_multiplayer.Server.{Server}
use chaos_in_multiplayer.Server.UserInput.{
  input_available, on_read, read_input, request_quit, user_input_loop, process_user_input,
}
use chaos_in_multiplayer.Server.Updating.{update_connection}
use chaos_in_multiplayer.Server.Updating.Keeping.{update_connection-Keeps}
use chaos_in_multiplayer.Server.Session.Soundness.{IsSound, same_members}

same_controller :
    (s : Server) (c : InputController.InputController)
    → c.joinable ≡ s.input_controller.joinable
    → IsSound s
    → IsSound (record s { input_controller = c })
same_controller s c j f = same_members s _ refl j f.sockets f

asked_to_quit : (s : Server) → IsSound s → IsSound (record s { quit_requested = true })
asked_to_quit s f = same_members s _ refl refl f.sockets f

instance_set : (s : Server) → IsSound s → IsSound (record s { server_instance = true })
instance_set s f = same_members s _ refl refl f.sockets f

module _ {Env : Type 0} where
  input_available-IsSound : Keeps {Env = Env} IsSound input_available
  unfolding input_available InputController.input_available
  input_available-IsSound = record {
    at = λ w f.
        let c = w.object.input_controller in
        same_controller w.object _ (arrive-joinable c.arriving c) f;
  }

  popped-IsSound :
      (q : List Text) (w : World Server Env)
      → IsSound w.object
      → IsSound (on_read (InputController.pop_front q w.object.input_controller) w).1.object
  popped-IsSound [] w f = f
  popped-IsSound (l ∷ ls) w f = same_controller w.object _ refl f

  read_input-IsSound : Keeps {Env = Env} IsSound read_input
  unfolding read_input InputController.read_input
  read_input-IsSound = record {
    at = λ w f. popped-IsSound w.object.input_controller.input_queue w f;
  }

  request_quit-IsSound : Keeps {Env = Env} IsSound request_quit
  unfolding request_quit
  request_quit-IsSound = search (keeps_rules, Keeps-modify, asked_to_quit)

  user_input_loop-IsSound : (fuel : ℕ) → Keeps {Env = Env} IsSound (user_input_loop fuel)
  unfolding user_input_loop
  user_input_loop-IsSound zero = search keeps_rules
  user_input_loop-IsSound (suc fuel) =
      Keeps-bind input_available _ input_available-IsSound (λ available. Keeps-when available _ (
        Keeps-bind read_input _ read_input-IsSound (λ input.
          Keeps-if _ request_quit _ request_quit-IsSound (
            Keeps-bind (note (Event.log unknown_command)) (λ _. user_input_loop fuel) (Keeps-note _)
              (λ _. user_input_loop-IsSound fuel)))))

  process_user_input-IsSound : Keeps {Env = Env} IsSound process_user_input
  unfolding process_user_input
  process_user_input-IsSound = search (keeps_rules, user_input_loop-IsSound)

module _ {Env : Type 0} (p : Platform Env) (packet_code : ℕ → ℕ → Packet → Action Server Env Unit)
    (status_code : ℕ → ConnectionStatusChange → Action Server Env Unit)
    (packets_keep : (f k : ℕ) (q : Packet) → Keeps IsSound (packet_code f k q))
    (changes_keep : (f : ℕ) (c : ConnectionStatusChange) → Keeps IsSound (status_code f c)) where
  pub update_connection-IsSound : Keeps IsSound (update_connection p packet_code status_code)
  update_connection-IsSound =
      update_connection-Keeps IsSound p packet_code status_code packets_keep instance_set
        changes_keep process_user_input-IsSound
