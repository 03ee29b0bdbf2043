-- ===== src/ExampleClient/Waiting.antt =====
-- Examples/ExampleClient/ExampleClient.cpp: the loop that waits for the connection.
use chaos_in_multiplayer.Base.{ℕ, zero, suc, ◌≢◌, true, some, arith, Option-cases, inl, inr, codes}
use chaos_in_multiplayer.Platform.{Platform, Utilities}
use chaos_in_multiplayer.Program.{ok, unfinished, World, Action, modify, ◌>>◌}
use chaos_in_multiplayer.Program.Keeps.{Keeps}
use chaos_in_multiplayer.Program.Fails.{
  Fails, Fails-stop, Fails-first, Fails-after, Fails-unless, Fails-on_part,
}
use chaos_in_multiplayer.NetworkingUtils.{initialize_sockets, close_sockets}
use chaos_in_multiplayer.Client.{
  Client, new, connection, connected, set_connection_status_change_callback, initialize_connection,
}
use chaos_in_multiplayer.Client.StatusChanges.{update_connection}
use chaos_in_multiplayer.ExampleClient.{
  wait_loop, packet_code, status_code, send_messages, main, Process, process, on_networking,
  on_client,
}

module _ {Env : Type 0} (p : Platform Env)
    (never : (h : ℕ) (env : Env) → (p.connection_state h env).0 ≢ p.state_connected) where
  connected-ne-true : (w : World Client Env) → (connected p w).0 ≢ ok true
  unfolding connected connection
  connected-ne-true w = elim (Option-cases w.object.server_connection) [
    | inl e ↦ rw e (λ r. cc)
    | inr (h, e) ↦ let n = never h w.env in rw e (λ r. ground arith)
  ]

  -- Nothing is asked of the client.
  abbrev Anything : Client → Type 0
  Anything c = Unit

  keeps : {A : Type 0} (m : Action Client Env A) → Keeps Anything m
  keeps m = record { at = λ w u. tt }

  wait_loop-Fails : (rounds : ℕ) → Fails {A = Unit} Anything (wait_loop p rounds)
  unfolding wait_loop
  wait_loop-Fails zero = Fails-stop unfinished
  wait_loop-Fails (suc n) =
      let update = update_connection p (packet_code p) (status_code p) in
      Fails-unless (connected p) (update >> wait_loop p n) (keeps (connected p))
        (λ w u. connected-ne-true w)
        (Fails-after update (λ _. wait_loop p n) (keeps update) (λ _. wait_loop-Fails n))

  main-Fails : (rounds : ℕ) → Fails {A = Unit} Anything (main p rounds)
  unfolding main
  main-Fails rounds =
      Fails-after (modify (set_connection_status_change_callback (some 1))) (λ _. _) (keeps _)
        (λ _.
          Fails-after (initialize_connection p (codes "127.0.0.1") 8080) (λ _. _) (keeps _)
            (λ _. Fails-first (wait_loop p rounds) (λ _. send_messages p) (wait_loop-Fails rounds)))

  -- If the platform never reports a connection as connected, be it that the server is not there, that it
  -- refuses, or that the connection is lost, the example client never returns from `main`, however many
  -- rounds its loop has: it waits without end, or stops by a fault.
  pub process-ne-ok_unconnected :
      (u : Utilities Env) (rounds : ℕ) (w : World Process Env) → (process p u rounds w).0 ≢ ok tt
  unfolding process
  process-ne-ok_unconnected u rounds w =
      let all = λ (s : Process). Unit in
      let whole : Fails {A = Unit} all (process p u rounds) =
        Fails-after (on_networking p u (initialize_sockets u)) (λ _. _) (record { at = λ x h. tt })
          (λ _.
            Fails-after (modify (λ s. record s { client = new })) (λ _. _)
              (record { at = λ x h. tt })
              (λ _.
                Fails-first (on_client p u (main p rounds))
                  (λ _. on_networking p u (close_sockets u))
                  (Fails-on_part (λ s. s.client) (λ c s. record s { client = c }) (main p rounds)
                    (λ x h. tt) (main-Fails rounds)))) in
      whole.at w tt tt
