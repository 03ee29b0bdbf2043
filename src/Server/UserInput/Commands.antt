-- ===== src/Server/UserInput/Commands.antt =====
-- What the loop over the typed lines does, whatever arrives while it runs.
use chaos_in_multiplayer.Base.{
  ℕ, zero, suc, ◌<◌, ◌≡◌, refl, ap, sym, subst, ◌∙◌, ◌⊎◌, inl, inr, Bool, true, false, ◌||◌, List,
  [], ◌∷◌, ◌++◌, map, append-nil, append_assoc, Text, text_eq, text_eq-eq, arith, Bool-cases,
  if◌then◌else◌, length,
}
use chaos_in_multiplayer.Platform.{Event, shutting_down_server, unknown_command}
use chaos_in_multiplayer.Program.{Outcome, ok, World}
use chaos_in_multiplayer.InputController.{InputController}
use chaos_in_multiplayer.InputController
use chaos_in_multiplayer.InputController.Queue.{unread, input_available-unread, read_input-oldest}
use chaos_in_multiplayer.Server.{Server}
use chaos_in_multiplayer.Server.UserInput.{
  quit_command, request_quit, input_available, read_input, user_input_loop, process_user_input,
}

-- The line of the log for a typed line.
abbrev pub answer : Text → Event
answer l = Event.log (if text_eq l quit_command then shutting_down_server else unknown_command)

abbrev pub has_quit : List Text → Bool
has_quit [] = false
has_quit (l ∷ ls) = text_eq l quit_command || has_quit ls

pub has_quit-append : (xs ys : List Text) → has_quit (xs ++ ys) ≡ (has_quit xs || has_quit ys)
has_quit-append [] ys = refl
has_quit-append (x ∷ xs) ys = ground (arith, has_quit-append xs ys)

-- The loop stopped where it had to: at the first "/quit", or with an empty queue.
abbrev pub Stopped : List Text → InputController → Type 0
Stopped read c =
    ((has_quit read ≡ false) × (c.input_queue ≡ []))
    ⊎ ((before : List Text) × (read ≡ before ++ quit_command ∷ []) × (has_quit before ≡ false))

-- From `w` to `w'` the lines `read` were taken from the front of the unread ones and answered, in
-- order, and nothing else changed but the request to quit.
pub record Served {Env : Type 0} (w w' : World Server Env) (read : List Text) : Type 0 where
  pub taken : unread w.object.input_controller ≡ read ++ unread w'.object.input_controller
  pub answered : w'.trace ≡ w.trace ++ map answer read
  pub quit : w'.object.quit_requested ≡ (w.object.quit_requested || has_quit read)
  pub stopped : Stopped read w'.object.input_controller
  pub others : w'.object ≡ record w.object {
    quit_requested = w'.object.quit_requested;
    input_controller = w'.object.input_controller;
  }
  pub env : w'.env ≡ w.env

Stopped-cons :
    (l : Text) (read : List Text) (c : InputController)
    → text_eq l quit_command ≡ false
    → Stopped read c
    → Stopped (l ∷ read) c
Stopped-cons l read c q (inl (n, e)) = inl (ground arith, e)
Stopped-cons l read c q (inr (before, e, n)) = inr (l ∷ before, ap (◌∷◌ l) e, ground arith)

-- A call of the loop returned, and served some lines.
abbrev pub ServesFrom : {Env : Type 0} → World Server Env → Outcome Unit × World Server Env → Type 0
ServesFrom w v = (v.0 ≡ ok tt) × ((read : List Text) × Served w v.1 read)

module _ {Env : Type 0} where
  Served-nothing :
      (w : World Server Env) (c : InputController)
      → unread c ≡ unread w.object.input_controller
      → c.input_queue ≡ []
      → Served w (record w { object = record w.object { input_controller = c } }) []
  Served-nothing w c u q = record {
    taken = sym u;
    answered = sym (append-nil w.trace);
    quit = ground arith;
    stopped = inl (refl, q);
    others = refl;
    env = refl;
  }

  Served-quit :
      (w : World Server Env) (c : InputController) (l : Text)
      → unread w.object.input_controller ≡ l ∷ unread c
      → text_eq l quit_command ≡ true
      → Served w
          (record w {
            object = record w.object { input_controller = c; quit_requested = true };
            trace = w.trace ++ Event.log shutting_down_server ∷ [];
          })
          (l ∷ [])
  Served-quit w c l u q = record {
    taken = u;
    answered = rw q;
    quit = ground arith;
    stopped = inr ([], ap (λ x. x ∷ []) (text_eq-eq l quit_command q), refl);
    others = refl;
    env = refl;
  }

  -- The world in which the loop goes on after an unknown command.
  abbrev passed : World Server Env → InputController → World Server Env
  passed w c = record w {
    object = record w.object { input_controller = c };
    trace = w.trace ++ Event.log unknown_command ∷ [];
  }

  Served-other :
      (w : World Server Env) (c : InputController) (l : Text) (w' : World Server Env)
      (read : List Text)
      → unread w.object.input_controller ≡ l ∷ unread c
      → text_eq l quit_command ≡ false
      → Served (passed w c) w' read
      → Served w w' (l ∷ read)
  Served-other w c l w' read u q s = record {
    taken = u ∙ ap (◌∷◌ l) s.taken;
    answered =
        s.answered
        ∙ (append_assoc w.trace (Event.log unknown_command ∷ []) (map answer read)
            ∙ ap
                (λ b.
                  w.trace
                  ++ Event.log (if b then shutting_down_server else unknown_command)
                    ∷ map answer read)
                (sym q));
    quit = s.quit ∙ ap (λ b. w.object.quit_requested || (b || has_quit read)) (sym q);
    stopped = Stopped-cons l read w'.object.input_controller q s.stopped;
    others = s.others;
    env = s.env;
  }

  user_input_loop-empty :
      (fuel : ℕ) (w : World Server Env)
      → let (available, c) = InputController.input_available w.object.input_controller in
        available ≡ false
        → user_input_loop (suc fuel) w
          ≡ (ok tt, record w { object = record w.object { input_controller = c } })
  unfolding user_input_loop input_available read_input request_quit
  user_input_loop-empty fuel w e = ground arith

  user_input_loop-Served :
      (fuel : ℕ) (w : World Server Env)
      → length (unread w.object.input_controller) < fuel
      → ServesFrom w (user_input_loop fuel w)
  unfolding user_input_loop input_available read_input request_quit
  user_input_loop-Served zero w h = absurd (omega arith)
  user_input_loop-Served (suc fuel) w h =
      let c = w.object.input_controller in
      elim (Bool-cases (InputController.input_available c).0) [
        | inl more ↦
            let (l, c', e, u) = read_input-oldest c more in
            elim (Bool-cases (text_eq l quit_command)) [
              | inl quits ↦ rw (more, e, quits) (refl, (l ∷ [], Served-quit w c' l u quits))
              | inr other ↦
                  let shorter : length (unread c') < fuel = omega (arith, ap length u) in
                  let (r, found) = user_input_loop-Served fuel (passed w c') shorter in
                  rw (more, e, other)
                    (r, (l ∷ found.0, Served-other w c' l _ found.0 u other found.1))
            ]
        | inr none_left ↦
            let (u, q) = input_available-unread c in
            subst (ServesFrom w) (sym (user_input_loop-empty fuel w none_left))
              (refl, ([], Served-nothing w (InputController.input_available c).1 u (q none_left)))
      ]

  -- Handling the typed lines always returns, whatever arrives meanwhile. The lines it reads are the
  -- oldest unread ones, in order and none twice; each is answered in the log; it stops at the first
  -- "/quit" or when none is queued; it asks to quit exactly if a "/quit" was read or quitting was
  -- asked for already; nothing else of the server changes.
  pub process_user_input-Served : (w : World Server Env) → ServesFrom w (process_user_input w)
  unfolding process_user_input
  process_user_input-Served w =
      user_input_loop-Served (suc (length (unread w.object.input_controller))) w (omega arith)
