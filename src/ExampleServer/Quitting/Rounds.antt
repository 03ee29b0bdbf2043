-- ===== src/ExampleServer/Quitting/Rounds.antt =====
-- How the loop of the example server, and its `main`, end after a typed "/quit".
use chaos_in_multiplayer.Base.{
  ℕ, zero, suc, ◌+◌, ◌-◌, ◌<◌, ◌≡◌, refl, sym, ap, subst, ◌∙◌, inl, inr, Bool, true, false, arith,
  if◌then◌else◌,
}
use chaos_in_multiplayer.Status.{ConnectionStatusChange}
use chaos_in_multiplayer.Platform.{Platform}
use chaos_in_multiplayer.Program.{Outcome, ok, World, Action, skip, ◌>>◌}
use chaos_in_multiplayer.Packet.{Packet}
use chaos_in_multiplayer.Server.{Server}
use chaos_in_multiplayer.Server.Updating.{update_connection}
use chaos_in_multiplayer.Server.Updating.Idle.{
  IsIdle, update_connection-OnlyServes, update_connection-Within,
}
use chaos_in_multiplayer.ExampleServer.{main_loop}
use chaos_in_multiplayer.ExampleServer.Quitting.Asked.{
  IsAsked, OnlyInput, OnlyInput-from, OnlyInput-trans, Nearer, Served-Next,
}

-- A loop returned because quitting is asked for.
abbrev pub Quit : {Env : Type 0} → World Server Env → Outcome Unit × World Server Env → Type 0
Quit w x = (x.0 ≡ ok tt) × (OnlyInput w.object x.1.object × (x.1.object.quit_requested ≡ true))

unless-false :
    {S Env : Type 0} (t : Bool) (w : World S Env) (m k : Action S Env Unit)
    → t ≡ false
    → (m w).0 ≡ ok tt
    → (if t then skip else (m >> k)) w ≡ k (m w).1
unless-false t w m k e r = rw (e, r) refl

module _ {Env : Type 0} (p : Platform Env) (idle : IsIdle p)
    (packet_code : ℕ → ℕ → Packet → Action Server Env Unit)
    (status_code : ℕ → ConnectionStatusChange → Action Server Env Unit) where
  update_connection-Nearer :
      (g n : ℕ) (w : World Server Env)
      → IsAsked g n w.object
      → Nearer g n w (update_connection p packet_code status_code w)
  update_connection-Nearer g n w a =
      let (r, (v, read, e, served)) =
        update_connection-OnlyServes p idle packet_code status_code g w a.polls a.up a.pending in
      let within =
        update_connection-Within p idle packet_code status_code g n w a.polls a.up a.pending
          a.within in
      let t = (update_connection p packet_code status_code w).1.object in
      let same = OnlyInput-from w.object t true (
        served.others
        ∙ ap
            (λ (x : Server). record x {
              quit_requested = t.quit_requested;
              input_controller = t.input_controller;
            })
            e) in
      (r, (same, Served-Next g n w.object v _ read a e served within same))

  main_loop-done :
      (rounds : ℕ) (w : World Server Env)
      → w.object.quit_requested ≡ true
      → main_loop p packet_code status_code (suc rounds) w ≡ (ok tt, w)
  unfolding main_loop
  main_loop-done rounds w q = rw q refl

  main_loop-round :
      (rounds : ℕ) (w : World Server Env)
      → w.object.quit_requested ≡ false
      → (update_connection p packet_code status_code w).0 ≡ ok tt
      → main_loop p packet_code status_code (suc rounds) w
        ≡ main_loop p packet_code status_code rounds
            (update_connection p packet_code status_code w).1
  unfolding main_loop
  main_loop-round rounds w q r =
      unless-false w.object.quit_requested w (update_connection p packet_code status_code)
        (main_loop p packet_code status_code rounds) q r

  -- In the world where nothing is left to do but to read the "/quit", the loop has the rounds for it.
  pub main_loop-Quit :
      (g n rounds : ℕ) (w : World Server Env)
      → IsAsked g n w.object
      → n + 1 < rounds
      → Quit w (main_loop p packet_code status_code rounds w)
  main_loop-Quit g n zero w a h = absurd (omega arith)
  main_loop-Quit g n (suc zero) w a h = absurd (omega arith)
  main_loop-Quit g n (suc (suc rounds)) w a h =
      let (r, (same, next)) = update_connection-Nearer g n w a in
      let w' = (update_connection p packet_code status_code w).1 in
      subst (Quit w) (sym (main_loop-round (suc rounds) w a.pending r)) (elim next [
        | inl asked ↦ subst (Quit w) (sym (main_loop-done rounds w' asked)) (refl, (same, asked))
        | inr (more, still) ↦
            let (r', (same', asked)) =
              main_loop-Quit g (n - 1) (suc rounds) w' still (omega (arith, more, h)) in
            (r', (OnlyInput-trans w.object w'.object _ same same', asked))
      ])
