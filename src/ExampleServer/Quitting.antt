-- ===== src/ExampleServer/Quitting.antt =====
-- Whether a typed "/quit" reaches the loop of the example server.
pub mod Asked
pub mod Rounds
pub mod Endings
use mathlib.Core.List.{flatten}
use chaos_in_multiplayer.Base.{
  ℕ, zero, suc, ◌≡◌, ◌≢◌, refl, sym, ap, ◌∙◌, ◌⊎◌, inl, inr, Bool, true, false, ◌||◌, Option, some,
  List, [], ◌∷◌, ◌++◌, Text, text_eq, arith, if◌then◌else◌,
}
use chaos_in_multiplayer.Status.{ConnectionStatusChange}
use chaos_in_multiplayer.Platform.{Platform}
use chaos_in_multiplayer.Program.{World, Action, modify, gets, ok, ◌>>◌, unfinished}
use chaos_in_multiplayer.Program.Keeps.{Keeps, Keeps-modify, Keeps-gets, keeps_rules}
use chaos_in_multiplayer.Program.Fails.{Fails, Fails-stop, Fails-first, Fails-after, Fails-unless}
use chaos_in_multiplayer.Packet.{Packet}
use chaos_in_multiplayer.ClientConnection.{ClientConnection, set_alias, accept, set_poll_group}
use chaos_in_multiplayer.InputController.{of_schedule}
use chaos_in_multiplayer.InputController.Queue.{unread}
use chaos_in_multiplayer.InputController.Polling.{
  Poller, Reach, of_stdin, first_of_lines, Reach-added,
}
use chaos_in_multiplayer.Server.{
  Server, of_port, of_address, set_packet_callback, set_connection_status_change_callback,
}
use chaos_in_multiplayer.Server.Clients.{
  at_client, create_client_connection, close_client_connection,
}
use chaos_in_multiplayer.Server.Sending.{send_to, send_packet_to_all_connected_clients_impl}
use chaos_in_multiplayer.Server.Sending.Broadcast.{send_packet_to_all_lem}
use chaos_in_multiplayer.Server.Opening.{open_connection, listen, open_handles}
use chaos_in_multiplayer.Server.Closing.{close_connection}
use chaos_in_multiplayer.Server.UserInput.{process_user_input}
use chaos_in_multiplayer.Server.UserInput.Commands.{
  has_quit, has_quit-append, Served, process_user_input-Served,
}
use chaos_in_multiplayer.Server.Updating.{update_connection}
use chaos_in_multiplayer.Server.Updating.Keeping.{update_connection-Keeps}
use chaos_in_multiplayer.Server.Session.Soundness.{
  SameButRegistry, create-same, at_client-same, close_client-same,
}
use chaos_in_multiplayer.ExampleServer.{main_loop}
use chaos_in_multiplayer.ExampleServer.Keeping.{
  IsKept, packet_callback-Keeps, status_callback-Keeps,
}
use chaos_in_multiplayer.ExampleServer.Main.{packet_code, status_code, main}

-- Quitting is not asked for, and no unread line asks for it.
pub record IsDeaf (s : Server) : Type 0 where
  pub stays : s.quit_requested ≡ false
  pub unasked : has_quit (unread s.input_controller) ≡ false

-- Changes of other members keep it.
same_input :
    (s t : Server)
    → t.quit_requested ≡ s.quit_requested
    → t.input_controller ≡ s.input_controller
    → IsDeaf s
    → IsDeaf t
same_input s t q c d = record {
  stays = q ∙ d.stays;
  unasked = ap (λ x. has_quit (unread x)) c ∙ d.unasked;
}

same_but_registry : (s t : Server) → SameButRegistry s t → IsDeaf s → IsDeaf t
same_but_registry s t e =
    same_input s t (ap (λ u. u.quit_requested) e) (ap (λ u. u.input_controller) e)

module _ {Env : Type 0} (p : Platform Env) where
  at_client-IsDeaf :
      {A : Type 0} (k : ℕ) (act : Action ClientConnection Env A) → Keeps IsDeaf (at_client k act)
  at_client-IsDeaf k act = record {
    at = λ w. same_but_registry w.object _ (at_client-same k act w);
  }

  send_to-IsDeaf : (q : Packet) (t : ℕ) (c : ClientConnection) → Keeps IsDeaf (send_to p q t c)
  unfolding send_to
  send_to-IsDeaf q t c = search keeps_rules

  IsDeaf-IsKept : IsKept p IsDeaf
  IsDeaf-IsKept = record {
    creates = λ k. record { at = λ w. same_but_registry w.object _ (create-same k w) };
    closes_client =
        λ k. record { at = λ w. same_but_registry w.object _ (close_client-same p k w) };
    names = λ k t. at_client-IsDeaf k (modify (set_alias t));
    accepts = λ k. at_client-IsDeaf k (accept p);
    sets_poll_group = λ k g. at_client-IsDeaf k (set_poll_group p g);
    sends = send_to-IsDeaf;
    broadcasts = λ q t x. record { at = λ w d. rw (send_packet_to_all_lem p q t x w) d };
  }

  pub open_connection-same :
      (w : World Server Env)
      → let s = (open_connection p w).1.object in
        (s.quit_requested ≡ w.object.quit_requested)
        × (s.input_controller ≡ w.object.input_controller)
  unfolding open_connection listen open_handles
  open_connection-same w = ground arith

  open_connection-IsDeaf : Keeps IsDeaf (open_connection p)
  open_connection-IsDeaf = record {
    at = λ w. let (q, c) = open_connection-same w in same_input w.object _ q c;
  }

Served-IsDeaf :
    {Env : Type 0} (w w' : World Server Env) (read : List Text)
    → Served w w' read
    → IsDeaf w.object
    → IsDeaf w'.object
Served-IsDeaf w w' read served d =
    let split = ap has_quit served.taken ∙ has_quit-append read _ in
    let quits = served.quit in
    let q = d.stays in
    let u = d.unasked in
    record { stays = ground (arith, split, quits, q, u); unasked = ground (arith, split, u) }

process_user_input-IsDeaf : {Env : Type 0} → Keeps {Env = Env} IsDeaf process_user_input
process_user_input-IsDeaf = record {
  at = λ w d. let ends = process_user_input-Served w in Served-IsDeaf w _ ends.1.0 ends.1.1 d;
}

module _ {Env : Type 0} (p : Platform Env) (rand : Env → ℕ × Env) where
  update_connection-IsDeaf :
      Keeps IsDeaf (update_connection p (packet_code p rand) (status_code p rand))
  update_connection-IsDeaf =
      update_connection-Keeps IsDeaf p (packet_code p rand) (status_code p rand)
        (λ f k q. packet_callback-Keeps IsDeaf k q) (λ s d. same_input s _ refl refl d)
        (λ f c. status_callback-Keeps p rand IsDeaf (IsDeaf-IsKept p) c) process_user_input-IsDeaf

  main_loop-Fails :
      (rounds : ℕ)
      → Fails {A = Unit} IsDeaf (main_loop p (packet_code p rand) (status_code p rand) rounds)
  unfolding main_loop
  main_loop-Fails zero = Fails-stop unfinished
  main_loop-Fails (suc rounds) =
      let update = update_connection p (packet_code p rand) (status_code p rand) in
      let loop = main_loop p (packet_code p rand) (status_code p rand) rounds in
      Fails-unless (gets (λ s. s.quit_requested)) (update >> loop) (Keeps-gets _)
        (λ w d. let q = d.stays in rw q (λ e. ground arith))
        (Fails-after update (λ _. loop) update_connection-IsDeaf (λ _. main_loop-Fails rounds))

  set_packet_callback-IsDeaf :
      (f : Option ℕ) → Keeps {Env = Env} IsDeaf (modify (set_packet_callback f))
  set_packet_callback-IsDeaf f = Keeps-modify _ (λ s d. same_input s _ refl refl d)

  set_status_callback-IsDeaf :
      (f : Option ℕ) → Keeps {Env = Env} IsDeaf (modify (set_connection_status_change_callback f))
  set_status_callback-IsDeaf f = Keeps-modify _ (λ s d. same_input s _ refl refl d)

  main-Fails : (rounds : ℕ) → Fails IsDeaf (main p rand rounds)
  unfolding main
  main-Fails rounds =
      let loop = main_loop p (packet_code p rand) (status_code p rand) rounds in
      Fails-after _ (λ _. _) (set_packet_callback-IsDeaf (some 1))
        (λ _.
          Fails-after _ (λ _. _) (set_status_callback-IsDeaf (some 2))
            (λ _.
              Fails-after _ (λ _. _) (open_connection-IsDeaf p)
                (λ _. Fails-first loop (λ _. close_connection p) (main_loop-Fails rounds))))

of_port-IsDeaf :
    (port : ℕ) (typed : List (List Text))
    → has_quit (flatten typed) ≡ false
    → IsDeaf (of_port port typed)
unfolding of_port of_address of_schedule
of_port-IsDeaf port typed h = record { stays = refl; unasked = h }

added-has_quit :
    (lines added : List Text)
    → (added ≡ []) ⊎ (added ≡ first_of_lines lines)
    → has_quit (first_of_lines lines) ≡ false
    → has_quit added ≡ false
added-has_quit lines added (inl e) h = rw e refl
added-has_quit lines added (inr e) h = rw e h

-- If the first typed line is not "/quit", a later "/quit" does not end the work of the example server:
-- with the lines that the polling thread adds at any point of any interleaving, `main` does not get
-- to the end of it, whatever the platform and `rand` give and however many rounds its loop has.
pub main-ne-ok_unasked :
    {Env : Type 0} (p : Platform Env) (rand : Env → ℕ × Env) (lines : List Text) {t : Poller}
    (typed : List (List Text)) (port rounds : ℕ) (w : World Server Env)
    → has_quit (first_of_lines lines) ≡ false
    → Reach (of_stdin lines) t
    → flatten typed ≡ t.added
    → w.object ≡ of_port port typed
    → (main p rand rounds w).0 ≢ ok tt
main-ne-ok_unasked p rand lines {t} typed port rounds w h reached added e =
    let unasked = added-has_quit lines t.added (Reach-added lines reached) h in
    (main-Fails p rand rounds).at w (rw e (of_port-IsDeaf port typed (ap has_quit added ∙ unasked)))
      tt
