-- ===== src/ExampleServer/Quitting/Asked.antt =====
-- A typed "/quit" that waits, and the loop of the example server.
use mathlib.Core.List.{flatten}
use chaos_in_multiplayer.Base.{
  ℕ, ◌-◌, ◌<◌, ◌≡◌, sym, ap, ◌∙◌, ◌⊎◌, inl, inr, Bool, true, false, ◌||◌, some, List, [], ◌∷◌, ◌++◌,
  Text, arith, length, Bool-cases,
}
use chaos_in_multiplayer.Program.{Outcome, ok, World}
use chaos_in_multiplayer.InputController.{InputController}
use chaos_in_multiplayer.InputController.Queue.{unread}
use chaos_in_multiplayer.Server.{Server}
use chaos_in_multiplayer.Server.UserInput.{quit_command}
use chaos_in_multiplayer.Server.UserInput.Commands.{has_quit, has_quit-append, Served, Stopped}
use chaos_in_multiplayer.Server.UserInput.Arriving.{Within}

-- A running server that has not been asked to quit, with a "/quit" among the unread lines and at most
-- `n` entries of the schedule to come.
pub record IsAsked (g n : ℕ) (s : Server) : Type 0 where
  pub polls : s.poll_group ≡ some g
  pub up : s.running ≡ true
  pub pending : s.quit_requested ≡ false
  pub asked : has_quit (unread s.input_controller) ≡ true
  pub within : Within n s

-- From `s` to `t` nothing changed but what typed lines change.
abbrev pub OnlyInput : Server → Server → Type 0
OnlyInput s t = t ≡ record s {
  server_instance = t.server_instance;
  quit_requested = t.quit_requested;
  input_controller = t.input_controller;
}

-- No "/quit" was among the lines that were read, and none is queued: it is still to come.
Stopped-early :
    (read : List Text) (c : InputController)
    → Stopped read c
    → has_quit read ≡ false
    → unread c ≡ flatten c.arriving
Stopped-early read c (inl (n, e)) h = ap (λ q. q ++ flatten c.arriving) e
Stopped-early read c (inr (before, e, n)) h =
    let last = has_quit-append before (quit_command ∷ []) in
    let whole = ap has_quit e in absurd (ground (arith, last, whole, h))

flatten-has_quit : (a : List (List Text)) → has_quit (flatten a) ≡ true → 0 < length a
unfolding flatten
flatten-has_quit [] h = absurd (cc)
flatten-has_quit (l ∷ a) h = omega arith

pub OnlyInput-from :
    (s t : Server) (b : Bool)
    → t ≡ record s {
      server_instance = b;
      quit_requested = t.quit_requested;
      input_controller = t.input_controller;
    }
    → OnlyInput s t
OnlyInput-from s t b e =
    e
    ∙ ap
        (λ (x : Bool). record s {
          server_instance = x;
          quit_requested = t.quit_requested;
          input_controller = t.input_controller;
        })
        (sym (ap (λ (x : Server). x.server_instance) e))

pub OnlyInput-trans : (s t u : Server) → OnlyInput s t → OnlyInput t u → OnlyInput s u
OnlyInput-trans s t u e f =
    f
    ∙ ap
        (λ (x : Server). record x {
          server_instance = u.server_instance;
          quit_requested = u.quit_requested;
          input_controller = u.input_controller;
        })
        e

-- Either the server is asked to quit now, or the "/quit" is still to come, by an entry less.
abbrev pub Next : ℕ → ℕ → Server → Type 0
Next g n s = (s.quit_requested ≡ true) ⊎ ((0 < n) × IsAsked g (n - 1) s)

-- An update returned, and left the server nearer to the "/quit".
abbrev pub Nearer :
    {Env : Type 0} → ℕ → ℕ → World Server Env → Outcome Unit × World Server Env → Type 0
Nearer g n w x = (x.0 ≡ ok tt) × (OnlyInput w.object x.1.object × Next g n x.1.object)

same_handles :
    (g n : ℕ) (s t : Server)
    → OnlyInput s t
    → IsAsked g n s
    → (t.poll_group ≡ some g) × (t.running ≡ true)
same_handles g n s t e a =
    (ap (λ (x : Server). x.poll_group) e ∙ a.polls, ap (λ (x : Server). x.running) e ∙ a.up)

module _ {Env : Type 0} where
  pub Served-Next :
      (g n : ℕ) (s : Server) (v w : World Server Env) (read : List Text)
      → IsAsked g n s
      → v.object ≡ record s { server_instance = true }
      → Served v w read
      → Within (n - 1) w.object
      → OnlyInput s w.object
      → Next g n w.object
  Served-Next g n s v w read a e served within same =
      let asks : w.object.quit_requested ≡ has_quit read =
        served.quit
        ∙ ap (λ b. b || has_quit read) (ap (λ (x : Server). x.quit_requested) e ∙ a.pending) in
      let split : true ≡ (has_quit read || has_quit (unread w.object.input_controller)) =
        sym a.asked
        ∙ (ap (λ (x : Server). has_quit (unread x.input_controller)) (sym e)
            ∙ (ap has_quit served.taken ∙ has_quit-append read _)) in
      elim (Bool-cases (has_quit read)) [
        | inl found ↦ inl (asks ∙ found)
        | inr missed ↦
            let c = w.object.input_controller in
            let left : has_quit (unread c) ≡ true = ground (arith, split, missed) in
            let early = Stopped-early read c served.stopped missed in
            let more = flatten-has_quit c.arriving (ap has_quit (sym early) ∙ left) in
            let bound = within.left in
            let (polls, up) = same_handles g n s w.object same a in
            inr (
              omega (arith, more, bound),
              record {
                polls = polls;
                up = up;
                pending = asks ∙ missed;
                asked = left;
                within = within;
              },
            )
      ]
