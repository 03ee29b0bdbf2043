-- ===== src/Server/UserInput/Arriving.antt =====
-- How far the schedule of typed lines has come after a call of `processUserInput`.
use chaos_in_multiplayer.Base.{
  ℕ, zero, suc, ◌-◌, text_eq, ◌≤◌, ◌≡◌, refl, List, [], ◌∷◌, Text, arith, length, if◌then◌else◌,
}
use chaos_in_multiplayer.Platform.{Event, unknown_command}
use chaos_in_multiplayer.Program.{World, Action, ◌>>=◌, note, when, ◌>>◌}
use chaos_in_multiplayer.Program.Keeps.{
  Keeps, keeps_rules, Keeps-when, Keeps-bind, Keeps-if, Keeps-note,
}
use chaos_in_multiplayer.InputController.{InputController, add_all, arrive, pop_front}
use chaos_in_multiplayer.InputController
use chaos_in_multiplayer.InputController.Queue.{unread, add_all_lem}
use chaos_in_multiplayer.Server.{Server}
use chaos_in_multiplayer.Server.UserInput.{
  quit_command, input_available, on_read, read_input, request_quit, user_input_loop,
  process_user_input,
}

-- At most `n` looks at the queue will find new lines.
pub record Within (n : ℕ) (s : Server) : Type 0 where
  pub left : length s.input_controller.arriving ≤ n

arrive-arriving :
    (a : List (List Text)) (c : InputController)
    → c.arriving ≡ a
    → length (arrive a c).arriving ≡ length a - 1
unfolding arrive
arrive-arriving [] c e = ground (arith, e)
arrive-arriving (ls ∷ a) c e = rw (add_all_lem ls (record c { arriving = a })) (ground arith)

module _ {Env : Type 0} where
  input_available-Within :
      (n : ℕ) (w : World Server Env)
      → Within n w.object
      → Within (n - 1) (input_available w).1.object
  unfolding input_available InputController.input_available
  input_available-Within n w h =
      let c = w.object.input_controller in
      let before = h.left in
      let step = arrive-arriving c.arriving c refl in record { left = omega (arith, step, before) }

  read-Within :
      (n : ℕ) (q : List Text) (w : World Server Env)
      → Within n w.object
      → Within n (on_read (pop_front q w.object.input_controller) w).1.object
  read-Within n [] w h = h
  read-Within n (l ∷ ls) w h = record { left = h.left }

  available-Keeps : (n : ℕ) → Keeps {Env = Env} (Within n) input_available
  available-Keeps n = record {
    at = λ w h.
        let next = (input_available-Within n w h).left in record { left = omega (arith, next) };
  }

  read_input-Keeps : (n : ℕ) → Keeps {Env = Env} (Within n) read_input
  unfolding read_input InputController.read_input
  read_input-Keeps n = record {
    at = λ w h. read-Within n w.object.input_controller.input_queue w h;
  }

  request_quit-Keeps : (n : ℕ) → Keeps {Env = Env} (Within n) request_quit
  unfolding request_quit
  request_quit-Keeps n = record { at = λ w h. record { left = h.left } }

  abbrev serve : ℕ → Text → Action Server Env Unit
  serve fuel input =
      if text_eq input quit_command
      then request_quit
      else (do note (Event.log unknown_command); user_input_loop fuel)

  line-Keeps :
      (n fuel : ℕ)
      → Keeps {Env = Env} (Within n) (user_input_loop fuel)
      → Keeps {Env = Env} (Within n) (read_input >>= serve fuel)
  line-Keeps n fuel rest = Keeps-bind read_input (serve fuel) (read_input-Keeps n) (λ input.
      Keeps-if (text_eq input quit_command) request_quit _ (request_quit-Keeps n)
        (Keeps-bind _ (λ _. user_input_loop fuel) (Keeps-note _) (λ _. rest)))

  user_input_loop-Keeps : (n fuel : ℕ) → Keeps {Env = Env} (Within n) (user_input_loop fuel)
  unfolding user_input_loop
  user_input_loop-Keeps n zero = search keeps_rules
  user_input_loop-Keeps n (suc fuel) =
      let line = line-Keeps n fuel (user_input_loop-Keeps n fuel) in
      Keeps-bind input_available (λ b. when b (read_input >>= serve fuel)) (available-Keeps n)
        (λ b. Keeps-when b _ line)

  looks :
      (n fuel : ℕ) (w : World Server Env)
      → Within n w.object
      → Within (n - 1) (user_input_loop (suc fuel) w).1.object
  unfolding user_input_loop input_available
  looks n fuel w h =
      let line = line-Keeps (n - 1) fuel (user_input_loop-Keeps (n - 1) fuel) in
      (Keeps-when (InputController.input_available w.object.input_controller).0 _ line).at
        (input_available w).1 (input_available-Within n w h)

  -- Each call uses up at least one entry of the schedule, if any is left.
  pub process_user_input-Within :
      (n : ℕ) (w : World Server Env)
      → Within n w.object
      → Within (n - 1) (process_user_input w).1.object
  unfolding process_user_input
  process_user_input-Within n w h = looks n (length (unread w.object.input_controller)) w h
