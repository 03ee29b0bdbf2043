-- ===== src/ExampleClient/Sending.antt =====
-- What `main` of the example client does when its connection comes up.
use chaos_in_multiplayer.Base.{
  ℕ, ◌<◌, ◌≡◌, ◌≢◌, refl, ap, ◌∙◌, inl, inr, true, some, List, [], ◌∷◌, ◌++◌, map, codes, arith,
  Text,
}
use chaos_in_multiplayer.Platform.{Platform, Event}
use chaos_in_multiplayer.Program.{ok, World}
use chaos_in_multiplayer.Server.Opening.{format_address}
use chaos_in_multiplayer.Client.{
  Client, connect, initialize_connection, set_connection_status_change_callback,
}
use chaos_in_multiplayer.ExampleClient.{
  indices_from, num_of_messages, wait_loop, send_messages, main,
}
use chaos_in_multiplayer.ExampleClient.Messages.{
  Sent, sent, sent_as, replay, send_messages-SentPrefix,
}
use chaos_in_multiplayer.ExampleClient.Arrival.{IsComing, IsWaiting, sent-silent, wait_loop-Waits}

-- What it means to send, through the handle `h`.
abbrev pub all_messages : {Env : Type 0} → Platform Env → ℕ → List Sent
all_messages p h =
    map (sent_as h p.send_reliable) (indices_from 0 num_of_messages)
    ++ map (sent_as h p.send_unreliable) (indices_from 0 num_of_messages)

module _ {Env : Type 0} (p : Platform Env) (h : ℕ) where
  connects :
      (ip : Text) (port a : ℕ) (w : World Client Env)
      → w.object.connection_status_change_callback ≡ some 1
      → p.parse_string (format_address ip port) ≡ some a
      → (p.connect_by_address a w.env).0 ≡ h
      → h ≢ p.invalid_connection
      → let (r, w') = initialize_connection p ip port w in
        (r ≡ ok true)
        × IsWaiting p h w'.object
        × (w'.env ≡ (p.connect_by_address a w.env).1)
        × (w'.trace ≡ w.trace ++ Event.connect_by_address a ∷ [])
  unfolding initialize_connection connect
  connects ip port a w cb e c v = ground arith

module _ {Env : Type 0} (p : Platform Env) (h : ℕ) (pending : Env → ℕ)
    (coming : IsComing p h pending) where
  -- The connection stays up while messages are sent.
  replay-up : (xs : List Sent) (env : Env) → pending env ≡ 0 → pending (replay p h xs env) ≡ 0
  replay-up [] env e = e
  replay-up ((k, bs, n, t) ∷ xs) env e =
      let asked = (p.connection_state h env).1 in
      replay-up xs (p.send_message h bs n t asked)
        (coming.sends asked bs n t (coming.asked env ∙ e))

  sends :
      (w : World Client Env)
      → w.object.server_connection ≡ some h
      → pending w.env ≡ 0
      → let (r, w') = send_messages p w in
        (r ≡ ok tt) × (sent w'.trace ≡ sent w.trace ++ all_messages p h)
  sends w e up = elim (send_messages-SentPrefix p h w e).1 [
    | inl (returned, done, still) ↦ (returned, done)
    | inr (failed, (ys, x, zs, split, before, down, still)) ↦
        absurd (down (coming.up (replay p h ys w.env) (replay-up ys w.env up)))
  ]

  -- If the address is parsed, the platform gives a valid handle, and that connection comes up after fewer
  -- calls of `RunCallbacks` than the waiting loop has rounds, and stays up while `main` sends, then the
  -- work of `main` with the example client returns and has sent its ten messages reliably and then the
  -- same ten unreliably, each once, with its own size, in order and through that handle, and nothing
  -- else. This supposes that until the connection is up nothing is received from it, and that the
  -- changes of status that are queued meanwhile are in the client's table and close nothing.
  pub main-sends :
      (rounds a : ℕ) (w : World Client Env)
      → p.parse_string (format_address (codes "127.0.0.1") 8080) ≡ some a
      → (p.connect_by_address a w.env).0 ≡ h
      → h ≢ p.invalid_connection
      → pending (p.connect_by_address a w.env).1 < rounds
      → let (r, w') = main p rounds w in
        (r ≡ ok tt) × (sent w'.trace ≡ sent w.trace ++ all_messages p h)
  unfolding main
  main-sends rounds a w e c v soon =
      let start : World Client Env = record w {
        object = set_connection_status_change_callback (some 1) w.object;
      } in
      let (r, waiting, fresh, t) = connects p h (codes "127.0.0.1") 8080 a start refl e c v in
      let w₁ = (initialize_connection p (codes "127.0.0.1") 8080 start).1 in
      let soon' : pending w₁.env < rounds = rw fresh soon in
      let ((r', waiting', silent), up) =
        wait_loop-Waits p h pending coming rounds w₁ waiting soon' in
      let (r'', done) = sends (wait_loop p rounds w₁).1 waiting'.0 up in
      let quiet : sent w₁.trace ≡ sent w.trace =
        ap sent t ∙ sent-silent p h w.trace (Event.connect_by_address a) refl in
      rw (r, r', r'') (refl, done ∙ ap (λ l. l ++ all_messages p h) (silent ∙ quiet))
